-- ===== src/World/Keeps.antt =====
-- Invariants of the requests that a method makes, one rule for each way to build a method.
use kubecluster.Prelude.{Bool, true, false, ◌≡◌, refl, List, ◌∷◌, if◌then◌else◌}
use kubecluster.Errors.{Error, Result, ok, err, panic}
use kubecluster.Types.{ClusterStatus, ReplicaSpecs}
use kubecluster.World.{
  Call, Env, State, M, ◌>>=◌, ◌>>◌, pure, raise, lift, try, note, request, now, get_cluster,
  get_calls, set_status, set_specs,
}

-- `m` keeps `I` of the requests made so far, whatever it returns.
pub record Keeps {A : Type 0} (I : List Call → Type 0) (m : M A) : Type 0 where
  pub at : (s : State) → I s.calls → I ((m s).1.calls)

module _ {A B : Type 0} {I : List Call → Type 0} where
  pub Keeps-bind :
      (m : M A) (f : A → M B) → Keeps I m → ((a : A) → Keeps I (f a)) → Keeps I (m >>= f)
  unfolding ◌>>=◌ lift
  Keeps-bind m f km kf = record { at = λ s h. Keeps-continue (m s).0 (m s).1 (km.at s h) }
    where
      Keeps-continue : (r : Result A) (s : State) → I s.calls → I ((lift r >>= f) s).1.calls
      Keeps-continue (ok a) s h = (kf a).at s h
      Keeps-continue (err e) s h = h
      Keeps-continue panic s h = h

  -- The rest of the block may use what the value is.
  pub Keeps-bind-lift :
      (r : Result A) (f : A → M B) → ((a : A) → r ≡ ok a → Keeps I (f a)) → Keeps I (lift r >>= f)
  unfolding ◌>>=◌ lift
  Keeps-bind-lift (ok a) f h = record { at = (h a refl).at }
  Keeps-bind-lift (err e) f h = record { at = λ s i. i }
  Keeps-bind-lift panic f h = record { at = λ s i. i }

module _ {A : Type 0} {I : List Call → Type 0} where
  pub Keeps-then : (m : M (Unit {0})) (k : M A) → Keeps I m → Keeps I k → Keeps I (m >> k)
  Keeps-then m k km kk = Keeps-bind m (λ _. k) km (λ _. kk)

  pub Keeps-pure : (a : A) → Keeps I (pure a)
  unfolding pure
  Keeps-pure a = record { at = λ s h. h }

  pub Keeps-raise : (e : Error) → Keeps I (raise {A = A} e)
  unfolding raise
  Keeps-raise e = record { at = λ s h. h }

  pub Keeps-lift : (r : Result A) → Keeps I (lift r)
  unfolding lift
  Keeps-lift r = record { at = λ s h. h }

  pub Keeps-try : (m : M A) → Keeps I m → Keeps I (try m)
  unfolding try
  Keeps-try m km = record { at = λ s h. km.at s h }

  pub Keeps-if : (b : Bool) (m n : M A) → Keeps I m → Keeps I n → Keeps I (if b then m else n)
  Keeps-if true m n km kn = km
  Keeps-if false m n km kn = kn

module _ {I : List Call → Type 0} where
  pub Keeps-note : (c : Call) → ((calls : List Call) → I calls → I (c ∷ calls)) → Keeps I (note c)
  unfolding note
  Keeps-note c h = record { at = λ s hs. h s.calls hs }

  pub Keeps-request :
      (env : Env) (c : Call)
      → ((calls : List Call) → I calls → I (c ∷ calls))
      → Keeps I (request env c)
  unfolding request
  Keeps-request env c h = record { at = λ s hs. h s.calls hs }

  pub Keeps-get_cluster : Keeps I get_cluster
  unfolding get_cluster
  Keeps-get_cluster = record { at = λ s h. h }

  pub Keeps-get_calls : Keeps I get_calls
  unfolding get_calls
  Keeps-get_calls = record { at = λ s h. h }

  pub Keeps-set_status : (status : ClusterStatus) → Keeps I (set_status status)
  unfolding set_status
  Keeps-set_status status = record { at = λ s h. h }

  pub Keeps-set_specs : (specs : ReplicaSpecs) → Keeps I (set_specs specs)
  unfolding set_specs
  Keeps-set_specs specs = record { at = λ s h. h }

  pub Keeps-now : (env : Env) → Keeps I (now env)
  unfolding now
  Keeps-now env = record { at = λ s h. h }

-- Each branch may use what the test gave.
pub Keeps-cases :
    {A : Type 0} {I : List Call → Type 0} (b : Bool) (m n : M A)
    → (b ≡ true → Keeps I m)
    → (b ≡ false → Keeps I n)
    → Keeps I (if b then m else n)
Keeps-cases true m n h k = h refl
Keeps-cases false m n h k = k refl

-- A method under a test.
pub Keeps-when :
    {I : List Call → Type 0} (b : Bool) (m : M (Unit {0}))
    → (b ≡ true → Keeps I m)
    → Keeps I (if b then m else pure tt)
Keeps-when true m h = h refl
Keeps-when false m h = Keeps-pure tt
