-- ===== src/Prelude/Maps.antt =====
-- Go's `map[string]V` as an association list. The order of the list is the order in which a `range`
-- loop meets the keys, which Go leaves open: what is proved for every list holds for every order.
use Prim.Native.String.{String}
use mathlib.Core.Path.{◌≡◌, refl}
use mathlib.Core.List.{List, [], ◌∷◌}
use mathlib.Core.Option.{Option, none, some}
use native.Mathlib.Omega.{arith}
use text.Mathlib.Text.{◌==◌ as str_eq}
use text.Mathlib.TextEquality.{eq_iff}
use text.Mathlib.TextPositions.{eq_refl}
use kubecluster.Prelude.Tests.{if◌then◌else◌}

abbrev pub Dict {ℓ} : Type ℓ → Type ℓ
Dict V = List (String × V)

module _ {ℓ} {V : Type ℓ} where
  unfoldable pub lookup : String → Dict V → Option V
  lookup key [] = none
  lookup key ((name, value) ∷ rest) = if str_eq name key then some value else lookup key rest

  unfoldable pub insert : String → V → Dict V → Dict V
  insert key new [] = (key, new) ∷ []
  insert key new ((name, value) ∷ rest) =
      if str_eq name key then (name, new) ∷ rest else (name, value) ∷ insert key new rest

  unfoldable pub erase : String → Dict V → Dict V
  erase key [] = []
  erase key ((name, value) ∷ rest) =
      let others = erase key rest in if str_eq name key then others else (name, value) ∷ others

  pub lookup-insert :
      (key asked : String) (new : V) (d : Dict V)
      → lookup asked (insert key new d) ≡ (if str_eq key asked then some new else lookup asked d)
  unfolding lookup insert
  lookup-insert key asked new [] = refl
  lookup-insert key asked new ((name, value) ∷ rest) = ground (
    arith,
    eq_iff key asked,
    eq_iff name key,
    eq_iff name asked,
    lookup-insert key asked new rest,
  )

  pub lookup-erase :
      (key asked : String) (d : Dict V)
      → lookup asked (erase key d) ≡ (if str_eq key asked then none else lookup asked d)
  unfolding lookup erase
  lookup-erase key asked [] = ground arith
  lookup-erase key asked ((name, value) ∷ rest) =
      ground
        (arith, eq_iff key asked, eq_iff name key, eq_iff name asked, lookup-erase key asked rest)

  pub lookup-insert_self :
      (key : String) (new : V) (d : Dict V) → lookup key (insert key new d) ≡ some new
  lookup-insert_self key new d = simp (lookup-insert, eq_refl)
