-- ===== src/Strings/Search/Replacing.antt =====
-- Where strings.Replace replaces.
use Prim.Native.Char.{Char, code}
use Prim.Native.String.{[], ◌∷◌, ◌++◌}
use mathlib.Core.List.{List, [] as none_left, ◌∷◌ as ◌◂◌}
use text.Mathlib.TextLemmas.{nil-append, cons-append, append_assoc}
use kubecluster.Prelude.{String, All, true, none, some, ◌≡◌, refl, sym, ap, ◌∙◌, arith}
use kubecluster.Strings.Search.{strip_prefix, replaced, replace_first, lacks}

pub strip_prefix-append : (p s : String) → strip_prefix p (p ++ s) ≡ some s
unfolding strip_prefix
strip_prefix-append [] s = rw (nil-append s) refl
strip_prefix-append (c ∷ p) s = rw (cons-append c p s) (ground (arith, strip_prefix-append p s))

-- One step of strings.Replace.
replace_first-cons :
    (old new : String) (c : Char) (s : String)
    → replace_first old new (c ∷ s)
      ≡ replaced new c (replace_first old new s) (strip_prefix old (c ∷ s))
unfolding replace_first
replace_first-cons old new c s = refl

lacks_head :
    (o c : Char) (old p s : String)
    → lacks (code o) (c ∷ p) ≡ true
    → strip_prefix (o ∷ old) (c ∷ s) ≡ none
unfolding lacks strip_prefix
lacks_head o c old p s h = ground arith

lacks_tail : (o c : Char) (p : String) → lacks (code o) (c ∷ p) ≡ true → lacks (code o) p ≡ true
unfolding lacks
lacks_tail o c p h = ground arith

-- What is searched for begins with a character that `p` lacks.
replace_first-skip :
    (o : Char) (old new p s : String)
    → lacks (code o) p ≡ true
    → replace_first (o ∷ old) new (p ++ s) ≡ p ++ replace_first (o ∷ old) new s
replace_first-skip o old new [] s h = rw (nil-append s) (sym (nil-append _))
replace_first-skip o old new (c ∷ p) s h =
    rw
      (
        cons-append c p s,
        cons-append c p (replace_first (o ∷ old) new s),
        replace_first-cons (o ∷ old) new c (p ++ s),
        lacks_head o c old p (p ++ s) h,
      )
      (ap (λ t. c ∷ t) (replace_first-skip o old new p s (lacks_tail o c p h)))

replace_first-hit :
    (o : Char) (old new s : String) → replace_first (o ∷ old) new ((o ∷ old) ++ s) ≡ new ++ s
replace_first-hit o old new s =
    rw (cons-append o old s, replace_first-cons (o ∷ old) new o (old ++ s))
      (ap (λ found. replaced new o (replace_first (o ∷ old) new (old ++ s)) found)
        (ap (λ t. strip_prefix (o ∷ old) t) (sym (cons-append o old s))
          ∙ strip_prefix-append (o ∷ old) s))

-- The texts of a list, one after the other, before another text.
abbrev pub chain : List String → String → String
chain none_left s = s
chain (p ◂ ps) s = p ++ chain ps s

chain_skip :
    (o : Char) (old new : String) (ps : List String) (s : String)
    → All (λ p. lacks (code o) p ≡ true) ps
    → replace_first (o ∷ old) new (chain ps s) ≡ chain ps (replace_first (o ∷ old) new s)
chain_skip o old new none_left s h = refl
chain_skip o old new (p ◂ ps) s h =
    replace_first-skip o old new p (chain ps s) h.0
    ∙ ap (λ t. p ++ t) (chain_skip o old new ps s h.1)

-- The first place holder that is met is replaced.
pub replace_first-chain :
    (o : Char) (old new : String) (ps : List String) (s : String)
    → All (λ p. lacks (code o) p ≡ true) ps
    → replace_first (o ∷ old) new (chain ps ((o ∷ old) ++ s)) ≡ chain ps (new ++ s)
replace_first-chain o old new ps s h =
    chain_skip o old new ps ((o ∷ old) ++ s) h
    ∙ ap (λ t. chain ps t) (replace_first-hit o old new s)

pub chain-append : (ps : List String) (s t : String) → chain ps s ++ t ≡ chain ps (s ++ t)
chain-append none_left s t = refl
chain-append (p ◂ ps) s t = append_assoc p (chain ps s) t ∙ ap (λ u. p ++ u) (chain-append ps s t)
