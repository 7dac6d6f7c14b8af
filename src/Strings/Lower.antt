-- ===== src/Strings/Lower.antt =====
-- Lowering a text twice lowers it once (strings.ToLower).
use Prim.Native.Char.{Char, code}
use Prim.Native.String.{[], ◌∷◌, char_at}
use kubecluster.Prelude.{
  ℕ, zero, suc, ◌-◌, ◌<◌, String, Bool, true, false, ◌&&◌, ◌≡◌, ◌≢◌, refl, sym, ◌∙◌, arith,
  Bool-cases, inl, inr, leb, ◌==◌, if◌then◌else◌,
}
use kubecluster.Strings.{lower_char, to_lower}

is_upper : Char → Bool
is_upper c = leb b'A' (code c) && leb (code c) b'Z'

-- Does the test pass for every number below `n`?
all_below : ℕ → (ℕ → Bool) → Bool
all_below zero p = true
all_below (suc n) p = let rest = all_below n p in p n && rest

all_below-true : (n : ℕ) (p : ℕ → Bool) → all_below n p ≡ true → (k : ℕ) → k < n → p k ≡ true
unfolding all_below
all_below-true zero p h k l = absurd (omega arith)
all_below-true (suc n) p h k l = elim (Bool-cases (k == n)) [
  | inl e ↦ ground (arith, h, e)
  | inr e ↦ all_below-true n p (ground (arith, h)) k (ground (arith, e, l))
]

lowercase : ℕ → Char
lowercase k = char_at "abcdefghijklmnopqrstuvwxyz" k

lowercase_checked : all_below 26 (λ k. if is_upper (lowercase k) then false else true) ≡ true
unfolding all_below is_upper lowercase
lowercase_checked = refl

true_ne_false : true ≢ false
true_ne_false e = cc

not_upper : (k : ℕ) → k < 26 → is_upper (lowercase k) ≡ false
not_upper k l = elim (Bool-cases (is_upper (lowercase k))) [
  | inl e ↦ absurd (true_ne_false (sym (all_below-true 26 _ lowercase_checked k l) ∙ rw e))
  | inr e ↦ e
]

in_alphabet : (c : Char) → is_upper c ≡ true → code c - b'A' < 26
unfolding is_upper
in_alphabet c e = ground arith

lower_char-upper : (c : Char) → is_upper c ≡ true → lower_char c ≡ lowercase (code c - b'A')
unfolding lower_char is_upper lowercase
lower_char-upper c e = rw e

lower_char-other : (c : Char) → is_upper c ≡ false → lower_char c ≡ c
unfolding lower_char is_upper
lower_char-other c e = rw e

lower_char-lower_char : (c : Char) → lower_char (lower_char c) ≡ lower_char c
lower_char-lower_char c = elim (Bool-cases (is_upper c)) [
  | inl e ↦ rw (lower_char-upper c e) (lower_char-other _ (not_upper _ (in_alphabet c e)))
  | inr e ↦ rw (lower_char-other c e) (lower_char-other c e)
]

pub to_lower-to_lower : (s : String) → to_lower (to_lower s) ≡ to_lower s
unfolding to_lower
to_lower-to_lower [] = refl
to_lower-to_lower (c ∷ s) = rw (lower_char-lower_char c, to_lower-to_lower s)
