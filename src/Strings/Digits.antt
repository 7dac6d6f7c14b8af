-- ===== src/Strings/Digits.antt =====
-- The characters of a number that is printed in decimal.
use Prim.Native.Char.{code}
use Prim.Native.String.{[], ◌∷◌}
use kubecluster.Prelude.{
  ℕ, zero, suc, ◌/◌, ◌%◌, ◌<◌, String, Bool, true, false, ◌&&◌, ◌≡◌, refl, arith, ◌==◌, inl, inr,
  Bool-cases,
}
use kubecluster.Strings.{digit, digits, itoa, is_digit, replace_slashes}
use kubecluster.Strings.RoundTrip.{code-digit}
use kubecluster.Strings.Search.{lacks, is_space}
use kubecluster.Strings.Search.Splitting.{is_solid}

is_numeric : String → Bool
unfolding is_digit
is_numeric [] = true
is_numeric (c ∷ s) = let rest = is_numeric s in is_digit c && rest

is_digit-digit : (d : ℕ) → d < 10 → is_digit (digit d) ≡ true
unfolding is_digit
is_digit-digit d h = ground (arith, code-digit d h)

digits-IsNumeric :
    (fuel n : ℕ) (out : String) → is_numeric out ≡ true → is_numeric (digits fuel n out) ≡ true
unfolding digits is_numeric
digits-IsNumeric zero n out h = h
digits-IsNumeric (suc fuel) n out h = elim (Bool-cases (n == 0)) [
  | inl e ↦ rw e h
  | inr e ↦ rw e (
      digits-IsNumeric fuel (n / 10) (digit (n % 10) ∷ out)
        (rw (is_digit-digit (n % 10) (omega arith)) h))
]

itoa-IsNumeric : (n : ℕ) → is_numeric (itoa n) ≡ true
unfolding itoa
itoa-IsNumeric zero = unfold is_numeric in refl
itoa-IsNumeric (suc n) =
    let e : (suc n == 0) ≡ false = ground arith in
    rw e (rw e at (digits-IsNumeric (suc (suc n)) (suc n) "" (unfold is_numeric in refl)))

numeric-lacks : (k : ℕ) (s : String) → (k < 48) → is_numeric s ≡ true → lacks k s ≡ true
unfolding is_numeric is_digit lacks
numeric-lacks k [] l h = refl
numeric-lacks k (c ∷ s) l h = ground (arith, numeric-lacks k s l (ground (arith, h)))

numeric-is_solid : (s : String) → is_numeric s ≡ true → is_solid s ≡ true
unfolding is_numeric is_digit is_solid is_space
numeric-is_solid [] h = refl
numeric-is_solid (c ∷ s) h = ground (arith, numeric-is_solid s (ground (arith, h)))

pub lacks-itoa : (k n : ℕ) → k < 48 → lacks k (itoa n) ≡ true
lacks-itoa k n h = numeric-lacks k (itoa n) h (itoa-IsNumeric n)

pub is_solid-itoa : (n : ℕ) → is_solid (itoa n) ≡ true
is_solid-itoa n = numeric-is_solid (itoa n) (itoa-IsNumeric n)

-- Neither a slash nor the dash that replaces it is a line break or a dollar.
pub lacks-replace_slashes :
    (k : ℕ) (s : String) → k < 45 → lacks k s ≡ true → lacks k (replace_slashes s) ≡ true
unfolding lacks replace_slashes
lacks-replace_slashes k [] l h = refl
lacks-replace_slashes k (c ∷ s) l h = elim (Bool-cases (code c == 47)) [
  | inl e ↦ rw e (ground (arith, lacks-replace_slashes k s l (ground (arith, h))))
  | inr e ↦ rw e (ground (arith, h, lacks-replace_slashes k s l (ground (arith, h))))
]
