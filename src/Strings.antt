-- ===== src/Strings.antt =====
-- The functions of Go's packages strings and strconv that the code calls, over native texts.
-- `to_lower` lowers the ASCII letters, the only ones that a DNS label holds.
pub mod RoundTrip
pub mod Lower
pub mod Search
pub mod Digits
use Prim.Native.Char.{Char, code}
use Prim.Native.String.{[], ◌∷◌, ◌++◌, char_at}
use kubecluster.Prelude.{
  ℕ, zero, suc, ◌+◌, ◌-◌, ◌*◌, ◌/◌, ◌%◌, ◌^◌, ℤ, pos, neg, String, Bool, true, ◌&&◌, Option, none,
  some, leb, ltb, ◌==◌, if◌then◌else◌,
}
use kubecluster.Errors.{Result, ok, err, Error}

lower_char : Char → Char
lower_char c =
    if leb b'A' (code c) && leb (code c) b'Z'
    then char_at "abcdefghijklmnopqrstuvwxyz" (code c - b'A')
    else c

-- strings.ToLower
unfoldable pub to_lower : String → String
unfolding lower_char
to_lower [] = []
to_lower (c ∷ s) = lower_char c ∷ to_lower s

-- strings.Replace(s, "/", "-", -1)
unfoldable pub replace_slashes : String → String
replace_slashes [] = []
replace_slashes (c ∷ s) = (if code c == b'/' then char_at "-" 0 else c) ∷ replace_slashes s

pub digit : ℕ → Char
digit d = char_at "0123456789" d

-- The decimal digits of `n` before `out`; `fuel` bounds their number.
digits : ℕ → ℕ → String → String
unfolding digit
digits zero n out = out
digits (suc fuel) n out =
    let rest = digits fuel (n / 10) (digit (n % 10) ∷ out) in if n == 0 then out else rest

-- strconv.Itoa of a number that is not negative.
unfoldable pub itoa : ℕ → String
unfolding digits
itoa n = if n == 0 then "0" else digits (suc n) n ""

-- strconv.Itoa and the verb `%v` of any integer.
unfoldable pub itoa_ℤ : ℤ → String
unfolding itoa
itoa_ℤ (ℤ.pos n) = itoa n
itoa_ℤ (ℤ.negsuc n) = "-" ++ itoa (suc n)

is_digit : Char → Bool
is_digit c = leb b'0' (code c) && leb (code c) b'9'

-- Digits only, after a value that was read before them.
scan : String → ℕ → Option ℕ
unfolding is_digit
scan [] n = some n
scan (c ∷ s) n = let rest = scan s (n * 10 + (code c - b'0')) in if is_digit c then rest else none

-- What is read lies below the limit of the sign.
in_range : ℕ → (ℕ → ℤ) → Option ℕ → Result ℤ
in_range limit sign none = err (Error.other "invalid syntax")
in_range limit sign (some n) =
    if ltb n limit then ok (sign n) else err (Error.other "value out of range")

scan_digits : String → Option ℕ
unfolding scan
scan_digits [] = none
scan_digits (c ∷ s) = scan (c ∷ s) 0

-- strconv.Atoi: an optional sign and digits, in the range of an int64.
unfoldable pub atoi : String → Result ℤ
unfolding scan_digits in_range
atoi [] = err (Error.other "invalid syntax")
atoi (c ∷ s) =
    if code c == b'-'
    then in_range (2 ^ 63 + 1) (λ n. neg (pos n)) (scan_digits s)
    else if code c == b'+'
    then in_range (2 ^ 63) pos (scan_digits s)
    else in_range (2 ^ 63) pos (scan (c ∷ s) 0)
