-- ===== src/World/Ensures.antt =====
-- What holds of the value that a method returns, one rule for each way to build a method.
use kubecluster.Prelude.{Bool, true, false, ◌≡◌, refl, subst, if◌then◌else◌}
use kubecluster.Errors.{Result, ok, err, panic}
use kubecluster.World.{State, M, ◌>>=◌, pure, lift}

-- Errors and panics have no value.
abbrev pub Holds : {A : Type 0} → (A → Type 0) → Result A → Type 0
Holds P (ok a) = P a
Holds P (err e) = Unit
Holds P panic = Unit

pub record Ensures {A : Type 0} (P : A → Type 0) (m : M A) : Type 0 where
  pub at : (s : State) → Holds P (m s).0

pub Ensures-ok :
    {A : Type 0} {P : A → Type 0} {m : M A} {a : A}
    → Ensures P m
    → (s s' : State) → m s ≡ (ok a, s')
    → P a
Ensures-ok {A = A} {P = P} h s s' e = subst (λ (r : Result A × State). Holds P r.0) e (h.at s)

module _ {A B : Type 0} {Q : A → Type 0} {P : B → Type 0} where
  pub Ensures-bind :
      (m : M A) (f : A → M B)
      → Ensures Q m
      → ((a : A) → Q a → Ensures P (f a))
      → Ensures P (m >>= f)
  unfolding ◌>>=◌ lift
  Ensures-bind m f hm hf = record { at = λ s. after (m s).0 (m s).1 (hm.at s) }
    where
      after : (r : Result A) (s : State) → Holds Q r → Holds P ((lift r >>= f) s).0
      after (ok a) s h = (hf a h).at s
      after (err e) s h = tt
      after panic s h = tt

module _ {A : Type 0} where
  pub Ensures-any : (m : M A) → Ensures (λ a. Unit) m
  Ensures-any m = record { at = λ s. any (m s).0 }
    where
      any : (r : Result A) → Holds (λ a. Unit) r
      any (ok a) = tt
      any (err e) = tt
      any panic = tt

module _ {A : Type 0} {P : A → Type 0} where
  pub Ensures-pure : (a : A) → P a → Ensures P (pure a)
  unfolding pure
  Ensures-pure a h = record { at = λ s. h }

  pub Ensures-cases :
      (b : Bool) (m n : M A)
      → (b ≡ true → Ensures P m)
      → (b ≡ false → Ensures P n)
      → Ensures P (if b then m else n)
  Ensures-cases true m n h k = h refl
  Ensures-cases false m n h k = k refl
