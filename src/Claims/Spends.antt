-- ===== src/Claims/Spends.antt =====
-- What a manager may still ask of the controller while it adopts and releases
-- (pkg/controller/control/controller_ref_manager.go).
use kubecluster.Prelude.{ℕ, ◌+◌, ◌≤◌, Bool, ◌≡◌, refl, count, arith}
use kubecluster.Errors.{Result, ok, err, panic}
use kubecluster.World.{Call, State, M, ◌>>=◌, try}
use kubecluster.World.Keeps.{Keeps}
use kubecluster.Claims.{AdoptOnce}

-- How many calls of `CanAdoptFunc` are left.
abbrev pub budget : AdoptOnce → ℕ
budget AdoptOnce.fresh = 1
budget (AdoptOnce.done r) = 0

module _ (asks : Call → Bool) where
  -- What ran has made, with what is left to the value, at most `n` of the calls.
  abbrev pub Spends : {B : Type 0} → (B → ℕ) → ℕ → Result B × State → Type 0
  Spends left n (ok b, s) = count asks s.calls + left b ≤ n
  Spends left n (err e, s) = count asks s.calls ≤ n
  Spends left n (panic, s) = count asks s.calls ≤ n

  pub Spends-bind :
      {A B : Type 0} (left : A → ℕ) (left' : B → ℕ) (n : ℕ) (m : M A) (f : A → M B) (s : State)
      → Spends left n (m s)
      → ((a : A) (s' : State) → count asks s'.calls + left a ≤ n → Spends left' n (f a s'))
      → Spends left' n ((m >>= f) s)
  unfolding ◌>>=◌
  Spends-bind {A = A} left left' n m f s h k = then_by (m s) refl h
    where
      then_by : (p : Result A × State) → m s ≡ p → Spends left n p → Spends left' n ((m >>= f) s)
      then_by (ok a, s') e h = rw e (k a s' h)
      then_by (err a, s') e h = rw e h
      then_by (panic, s') e h = rw e h

  -- No call is made by a method that keeps every bound.
  unfoldable pub IsQuiet : {A : Type 0} → M A → Type 0
  IsQuiet m = (c : ℕ) → Keeps (λ calls. count asks calls ≤ c) m

  pub Spends-quiet :
      {A : Type 0} (m : M A) (k n : ℕ) (s : State)
      → IsQuiet m
      → count asks s.calls + k ≤ n
      → Spends (λ (r : Result A). k) n (try m s)
  unfolding IsQuiet try
  Spends-quiet {A = A} m k n s quiet h =
      tried (m s) ((quiet (count asks s.calls)).at s (omega arith))
    where
      tried :
          (p : Result A × State)
          → count asks p.1.calls ≤ count asks s.calls
          → Spends (λ (r : Result A). k) n (try (λ _. p) s)
      tried (ok a, s') g = omega arith
      tried (err a, s') g = omega arith
      tried (panic, s') g = omega arith
