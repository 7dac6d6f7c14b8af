-- ===== src/Errors.antt =====
-- What a Go function leaves behind: a value, an `error`, or a panic (a nil dereference or an index
-- out of range). The API server's errors keep the kind that k8s.io/apimachinery/pkg/api/errors tests.
use kubecluster.Prelude.{String, Bool, true, false, ◌≡◌, refl}

pub data Error : Type 0 where
  not_found timeout invalid other : String → Error

pub data Result {ℓ} (A : Type ℓ) : Type ℓ where
  ok : A → Result A
  err : Error → Result A
  panic : Result A

infixl 5 ◌>>=◌ ◌>>◌
abbrev pub ◌>>=◌ {ℓ κ} : {A : Type ℓ} {B : Type κ} → Result A → (A → Result B) → Result B
panic >>= next = panic
err failure >>= next = err failure
ok x >>= next = next x

-- The value of a successful result, changed.
abbrev pub map_ok {ℓ κ} : {A : Type ℓ} {B : Type κ} → (A → B) → Result A → Result B
map_ok f (ok a) = ok (f a)
map_ok f (err e) = err e
map_ok f panic = panic

-- A check, and what comes after it.
abbrev pub ◌>>◌ {ℓ} : {B : Type ℓ} → Result (Unit {0}) → Result B → Result B
check >> rest = check >>= λ checked. rest

-- `err.Error()`
abbrev pub error_text : Error → String
error_text (not_found m) = m
error_text (timeout m) = m
error_text (invalid m) = m
error_text (other m) = m

abbrev pub is_not_found : Error → Bool
is_not_found (not_found m) = true
is_not_found _ = false

abbrev pub is_timeout : Error → Bool
is_timeout (timeout m) = true
is_timeout _ = false

abbrev pub is_invalid : Error → Bool
is_invalid (invalid m) = true
is_invalid _ = false

-- Inversion of a successful bind.
pub >>=-eq-ok {ℓ κ} :
    {A : Type ℓ} {B : Type κ} {y : B} (r : Result A) (next : A → Result B)
    → (r >>= next) ≡ ok y
    → (x : A) × (r ≡ ok x) × (next x ≡ ok y)
>>=-eq-ok panic next went = cc
>>=-eq-ok (err failure) next went = cc
>>=-eq-ok (ok x) next went = (x, refl, went)

pub ok-injective {ℓ} : {A : Type ℓ} {a b : A} → ok a ≡ ok b → a ≡ b
ok-injective e = cc
