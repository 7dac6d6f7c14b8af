-- ===== src/Strings/RoundTrip.antt =====
-- A number that is printed in decimal is read back.
use Prim.Native.Char.{code}
use Prim.Native.String.{[], ◌∷◌}
use kubecluster.Prelude.{
  ℕ, zero, suc, ◌+◌, ◌/◌, ◌%◌, ◌^◌, ◌<◌, pos, String, false, ◌≡◌, ◌≢◌, refl, ap, some, arith, ◌==◌,
  inl, inr, Bool-cases, ◌∙◌,
}
use kubecluster.Errors.{ok}
use kubecluster.Strings.{digit, digits, itoa, scan, atoi}

pub code-digit : (d : ℕ) → d < 10 → code (digit d) ≡ 48 + d
unfolding digit
code-digit zero h = refl
code-digit (suc zero) h = refl
code-digit (suc (suc zero)) h = refl
code-digit (suc (suc (suc zero))) h = refl
code-digit (suc (suc (suc (suc zero)))) h = refl
code-digit (suc (suc (suc (suc (suc zero))))) h = refl
code-digit (suc (suc (suc (suc (suc (suc zero)))))) h = refl
code-digit (suc (suc (suc (suc (suc (suc (suc zero))))))) h = refl
code-digit (suc (suc (suc (suc (suc (suc (suc (suc zero)))))))) h = refl
code-digit (suc (suc (suc (suc (suc (suc (suc (suc (suc zero))))))))) h = refl
code-digit (suc (suc (suc (suc (suc (suc (suc (suc (suc (suc d)))))))))) h = absurd (omega arith)

-- Reading the last digit of `n` after the digits before it gives `n`.
scan_last : (n : ℕ) (out : String) → scan (digit (n % 10) ∷ out) (n / 10) ≡ scan out n
unfolding scan
scan_last n out = ground (arith, code-digit (n % 10) (omega arith))

-- Fuel above the number suffices.
scan-digits : (fuel n : ℕ) (out : String) → n < fuel → scan (digits fuel n out) 0 ≡ scan out n
unfolding digits
scan-digits zero n out h = absurd (omega arith)
scan-digits (suc fuel) n out h = elim (Bool-cases (n == 0)) [
  | inl e ↦ ground arith
  | inr e ↦ rw e (scan-digits fuel (n / 10) (digit (n % 10) ∷ out) (ground arith) ∙ scan_last n out)
]

scan-itoa : (n : ℕ) → scan (itoa n) 0 ≡ some n
unfolding itoa scan
scan-itoa zero = refl
scan-itoa (suc n) =
    let e : (suc n == 0) ≡ false = ground arith in
    rw e (rw e at (scan-digits (suc (suc n)) (suc n) [] (omega arith)))

-- A text that starts with a digit has no sign.
atoi_of_scan : (s : String) (n : ℕ) → s ≢ [] → scan s 0 ≡ some n → n < 2 ^ 63 → atoi s ≡ ok (pos n)
unfolding atoi scan
atoi_of_scan [] n h e l = absurd (h refl)
atoi_of_scan (c ∷ s) n h e l = ground arith

itoa-ne-nil : (n : ℕ) → itoa n ≢ []
itoa-ne-nil zero e = unfold itoa in cc e
itoa-ne-nil (suc n) e = unfold scan in ground (arith, scan-itoa (suc n), ap (λ s. scan s 0) e)

-- Every number of an int64 that is not negative is read back from its decimal print.
pub atoi-itoa : (n : ℕ) → n < 2 ^ 63 → atoi (itoa n) ≡ ok (pos n)
atoi-itoa n h = atoi_of_scan (itoa n) n (itoa-ne-nil n) (scan-itoa n) h
