-- ===== src/Strings/Search/Splitting.antt =====
-- How strings.Split, HasPrefix and TrimSpace act on texts that are put together.
use Prim.Native.Char.{Char, code}
use Prim.Native.String.{[] as ε, ◌∷◌ as ◌◂◌, ◌++◌ as ◌<>◌}
use text.Mathlib.TextLemmas.{nil-append, cons-append}
use kubecluster.Prelude.{
  ℕ, String, Bool, true, false, not, ◌&&◌, List, [], ◌∷◌, ◌++◌, none, ◌≡◌, refl, sym, arith, ◌==◌,
  if◌then◌else◌, Bool-cases, inl, inr,
}
use kubecluster.Strings.Search.{
  strip_prefix, split_on, cons_head, lacks, trim_left, trim_right, trim_step, trim_space, is_space,
}

-- A split is never empty.
split_on-cons : (k : ℕ) (s : String) → (x : String) × (xs : List String) × (split_on k s ≡ x ∷ xs)
unfolding split_on
split_on-cons k ε = (ε, [], refl)
split_on-cons k (c ◂ s) =
    let (x, xs, e) = split_on-cons k s in
    elim (Bool-cases (code c == k)) [
      | inl h ↦ (ε, split_on k s, rw h refl)
      | inr h ↦ (c ◂ x, xs, rw (h, e) refl)
    ]

cons_head-append :
    (c : Char) (xs ys : List String) (x : String) (tail : List String)
    → xs ≡ x ∷ tail
    → cons_head c (xs ++ ys) ≡ cons_head c xs ++ ys
cons_head-append c xs ys x tail e = rw e refl

-- Splitting where a separator stands.
pub split_on-append :
    (k : ℕ) (p : String) (c : Char) (s : String)
    → code c ≡ k
    → split_on k (p <> (c ◂ s)) ≡ split_on k p ++ split_on k s
unfolding split_on
split_on-append k ε c s h = rw (nil-append (c ◂ s)) (ground (arith, h))
split_on-append k (d ◂ p) c s h =
    let (x, xs, e) = split_on-cons k p in
    rw (cons-append d p (c ◂ s), split_on-append k p c s h)
      (elim (Bool-cases (code d == k)) [
        | inl g ↦ rw g refl
        | inr g ↦ rw g (cons_head-append d (split_on k p) (split_on k s) x xs e)
      ])

-- A text without the separator is one piece.
pub split_on-lacks : (k : ℕ) (s : String) → lacks k s ≡ true → split_on k s ≡ s ∷ []
unfolding split_on lacks
split_on-lacks k ε h = refl
split_on-lacks k (c ◂ s) h = rw (split_on-lacks k s (ground arith)) (ground arith)

pub lacks-append :
    (k : ℕ) (p s : String) → lacks k p ≡ true → lacks k s ≡ true → lacks k (p <> s) ≡ true
unfolding lacks
lacks-append k ε s h g = rw (nil-append s) g
lacks-append k (c ◂ p) s h g =
    rw (cons-append c p s) (ground (arith, lacks-append k p s (ground arith) g))

-- The two texts differ at a place that both have.
unfoldable pub differs : String → String → Bool
differs ε s = false
differs (c ◂ p) ε = false
differs (c ◂ p) (d ◂ s) = let rest = differs p s in if code c == code d then rest else true

pub strip_prefix-differs : (p q s : String) → differs p q ≡ true → strip_prefix p (q <> s) ≡ none
unfolding differs strip_prefix
strip_prefix-differs ε q s h = ground arith
strip_prefix-differs (c ◂ p) ε s h = ground arith
strip_prefix-differs (c ◂ p) (d ◂ q) s h =
    rw (cons-append d q s) (elim (Bool-cases (code c == code d)) [
      | inl g ↦ rw g (strip_prefix-differs p q s (rw g at h))
      | inr g ↦ rw g refl
    ])

-- No character of the text is a space.
unfoldable pub is_solid : String → Bool
is_solid ε = true
is_solid (c ◂ s) = let rest = is_solid s in not (is_space c) && rest

trim_step-false : (c : Char) (s : String) → trim_step false c s ≡ c ◂ s
trim_step-false c ε = refl
trim_step-false c (d ◂ s) = refl

is_solid_head : (c : Char) (s : String) → is_solid (c ◂ s) ≡ true → is_space c ≡ false
unfolding is_solid
is_solid_head c s h = ground (arith, h)

is_solid_tail : (c : Char) (s : String) → is_solid (c ◂ s) ≡ true → is_solid s ≡ true
unfolding is_solid
is_solid_tail c s h = ground (arith, h)

trim_right-append : (s : String) → is_solid s ≡ true → trim_right (s <> " ") ≡ s
unfolding trim_right
trim_right-append ε h = refl
trim_right-append (c ◂ s) h =
    rw (cons-append c s " ", trim_right-append s (is_solid_tail c s h), is_solid_head c s h)
      (trim_step-false c s)

trim_blank : trim_right (trim_left " ") ≡ ε
unfolding trim_left trim_right is_space
trim_blank = refl

trim_left-append : (s : String) → is_solid s ≡ true → trim_right (trim_left (s <> " ")) ≡ s
unfolding trim_left
trim_left-append ε h = trim_blank
trim_left-append (c ◂ s) h =
    rw (cons-append c s " ", is_solid_head c s h)
      (rw (sym (cons-append c s " ")) (trim_right-append (c ◂ s) h))

-- A space at the end is cut off.
pub trim_space-append : (s : String) → is_solid s ≡ true → trim_space (s <> " ") ≡ s
unfolding trim_space
trim_space-append s h = trim_left-append s h
