-- ===== src/Reconcile/Accounting/Attempts.antt =====
-- What one attempt to create leaves behind, by its result.
use kubecluster.Prelude.{
  ℕ, suc, ◌+◌, pos, String, Bool, true, false, not, List, [], ◌∷◌, Dict, ◌≡◌, refl, ap, ◌∙◌, count,
  inl, inr, arith, Bool-cases, if◌then◌else◌,
}
use kubecluster.Errors.{Error, Result, ok, err, panic, is_timeout}
use kubecluster.World.{
  Call, EventType, Env, State, M, ◌>>=◌, ◌>>◌, pure, raise, lift, try, note, request,
}
use kubecluster.World.Keeps.{Keeps}
use kubecluster.Control.{if_labelled}
use kubecluster.Reconcile.PodCreation.{settle_creation, announced}
use kubecluster.Reconcile.Accounting.{
  raises_creation, observes_creation, is_accepted, may_create, may_have_created,
  is_timed_out_service, timed_out_services, Balanced,
}

abbrev is_done : Result (Unit {0}) → Bool
is_done (err e) = false
is_done _ = true

-- May this request, with this answer, have created, and is it no service that timed out?
abbrev pub expects : Call → Result (Unit {0}) → Bool
expects (Call.pod_create namespace pod) r = is_accepted r
expects (Call.config_map_create namespace config_map refs) r = is_accepted r
expects (Call.service_create namespace service) r = is_done r
expects _ r = false

-- The number of those requests.
unfoldable pub outstanding : Env → List Call → ℕ
outstanding env [] = 0
outstanding env (c ∷ calls) =
    let rest = outstanding env calls in if expects c (env.reply calls c) then suc rest else rest

abbrev one_if : Bool → ℕ
one_if b = if b then 1 else 0

-- The expectations are untouched, and what is outstanding grows unless the result is a refusal.
pub record Attempts (env : Env) (m : M (Unit {0})) (s : State) : Type 0 where
  pub raised : count raises_creation (m s).1.calls ≡ count raises_creation s.calls
  pub observed : count observes_creation (m s).1.calls ≡ count observes_creation s.calls
  pub grown : outstanding env (m s).1.calls ≡ outstanding env s.calls + one_if (is_accepted (m s).0)

-- The same of what follows the request, whose answer `r` is known.
pub record Follows (env : Env) (c : Call) (r : Result (Unit {0})) (m : M (Unit {0})) : Type 0 where
  pub raised : (s : State) → count raises_creation (m s).1.calls ≡ count raises_creation s.calls
  pub observed :
      (s : State) → count observes_creation (m s).1.calls ≡ count observes_creation s.calls
  pub same : (s : State) → outstanding env (m s).1.calls ≡ outstanding env s.calls
  pub result : (s : State) → is_accepted (m s).0 ≡ expects c r

outstanding-cons :
    (env : Env) (c : Call) (calls : List Call)
    → outstanding env (c ∷ calls) ≡ outstanding env calls + one_if (expects c (env.reply calls c))
unfolding outstanding
outstanding-cons env c calls = elim (Bool-cases (expects c (env.reply calls c))) [
  | inl e ↦ rw e (omega arith)
  | inr e ↦ rw e (omega arith)
]

may_create-expects :
    (c : Call) (r : Result (Unit {0}))
    → one_if (may_create c r) ≡ one_if (expects c r) + one_if (is_timed_out_service c r)
may_create-expects c r = ground arith

may_have_created-outstanding :
    (env : Env) (calls : List Call)
    → may_have_created env calls ≡ outstanding env calls + timed_out_services env calls
unfolding may_have_created outstanding timed_out_services
may_have_created-outstanding env [] = refl
may_have_created-outstanding env (c ∷ calls) =
    ground (arith, may_create-expects c (env.reply calls c), may_have_created-outstanding env calls)

-- An event, after which the result is `q`.
pub after_event :
    (env : Env) (c : Call) (r : Result (Unit {0})) (t : EventType) (reason message : String)
    (q : Result (Unit {0}))
    → is_accepted q ≡ expects c r
    → Follows env c r (note (Call.event t reason message) >> lift q)
unfolding ◌>>=◌ lift note outstanding
after_event env c r t reason message q e = record {
  raised = λ s. refl;
  observed = λ s. refl;
  same = λ s. refl;
  result = λ s. e;
}

-- No event: the result is `q`.
pub at_once :
    (env : Env) (c : Call) (r q : Result (Unit {0}))
    → is_accepted q ≡ expects c r
    → Follows env c r (lift q)
unfolding lift
at_once env c r q e = record {
  raised = λ s. refl;
  observed = λ s. refl;
  same = λ s. refl;
  result = λ s. e;
}

-- A request that is no expectation, whose panic would be expected.
pub record IsCreation (c : Call) : Type 0 where
  pub not_raise : raises_creation c ≡ false
  pub not_observed : observes_creation c ≡ false
  pub panicked : expects c panic ≡ true

-- `t` is the state after the request, whose answer is `r`.
record Requested (env : Env) (c : Call) (r : Result (Unit {0})) (s t : State) : Type 0 where
  raised : count raises_creation t.calls ≡ count raises_creation s.calls
  observed : count observes_creation t.calls ≡ count observes_creation s.calls
  grown : outstanding env t.calls ≡ outstanding env s.calls + one_if (expects c r)

module _ (env : Env) (c : Call) (k : Result (Unit {0}) → M (Unit {0})) (hc : IsCreation c)
    (hk : (q : Result (Unit {0})) → Follows env c q (k q)) where
  attempt_of :
      (n : M (Unit {0})) (s t : State) (r : Result (Unit {0}))
      → Requested env c r s t
      → n s ≡ (try (lift r) >>= k) t
      → Attempts env n s
  unfolding ◌>>=◌ lift try
  attempt_of n s t (ok a) h e = record {
    raised = rw e ((hk (ok a)).raised t ∙ h.raised);
    observed = rw e ((hk (ok a)).observed t ∙ h.observed);
    grown = rw e (rw ((hk (ok a)).result t) ((hk (ok a)).same t ∙ h.grown));
  }
  attempt_of n s t (err x) h e = record {
    raised = rw e ((hk (err x)).raised t ∙ h.raised);
    observed = rw e ((hk (err x)).observed t ∙ h.observed);
    grown = rw e (rw ((hk (err x)).result t) ((hk (err x)).same t ∙ h.grown));
  }
  attempt_of n s t panic h e = record {
    raised = rw e h.raised;
    observed = rw e h.observed;
    grown = rw e (h.grown ∙ ap (λ b. outstanding env s.calls + one_if b) hc.panicked);
  }

  pub attempt : (s : State) → Attempts env (try (request env c) >>= k) s
  unfolding ◌>>=◌ lift try request
  attempt s =
      attempt_of (try (request env c) >>= k) s (record s { calls = c ∷ s.calls })
        (env.reply s.calls c)
        (record {
          raised = rw hc.not_raise refl;
          observed = rw hc.not_observed refl;
          grown = outstanding-cons env c s.calls;
        })
        refl

-- An attempt that fails before its request.
abandoned : (env : Env) (e : Error) (s : State) → is_timeout e ≡ false → Attempts env (raise e) s
unfolding raise
abandoned env e s h = record { raised = refl; observed = refl; grown = rw h (omega arith) }

pub if_labelled-Attempts :
    (env : Env) (labels : Dict String) (message : String) (m : M (Unit {0})) (s : State)
    → Attempts env m s
    → Attempts env (if_labelled labels message m) s
if_labelled-Attempts env [] message m s h = abandoned env (Error.other message) s refl
if_labelled-Attempts env (l ∷ labels) message m s h = h

-- No panic and no time-out.
abbrev pub is_plain : Result (Unit {0}) → Bool
is_plain (ok a) = true
is_plain (err e) = not (is_timeout e)
is_plain panic = false

pub lift-Attempts :
    (env : Env) (r : Result (Unit {0})) (m : M (Unit {0})) (s : State)
    → is_plain r ≡ true
    → Attempts env m s
    → Attempts env (lift r >> m) s
unfolding ◌>>=◌ lift raise
lift-Attempts env (ok a) m s p h = h
lift-Attempts env (err e) m s p h = abandoned env e s (ground arith)
lift-Attempts env panic m s p h = cc

settle-Balanced :
    (env : Env) (key : String) (r : Result (Unit {0})) (s t : State)
    → count raises_creation t.calls ≡ suc (count raises_creation s.calls)
    → count observes_creation t.calls ≡ count observes_creation s.calls
    → outstanding env t.calls ≡ outstanding env s.calls + one_if (is_accepted r)
    → Balanced env s.calls
    → Balanced env ((try (lift r) >>= settle_creation key) t).1.calls
unfolding Balanced may_have_created timed_out_services settle_creation note ◌>>=◌ pure raise lift
    try
settle-Balanced env key r s t hr hb ho h =
    settled r ho (may_have_created-outstanding env s.calls)
      (may_have_created-outstanding env t.calls)
  where
    settled :
        (r : Result (Unit {0}))
        → outstanding env t.calls ≡ outstanding env s.calls + one_if (is_accepted r)
        → may_have_created env s.calls ≡ outstanding env s.calls + timed_out_services env s.calls
        → may_have_created env t.calls ≡ outstanding env t.calls + timed_out_services env t.calls
        → Balanced env ((try (lift r) >>= settle_creation key) t).1.calls
    settled (ok a) ho ms mt = omega arith
    settled (err e) ho ms mt = elim (Bool-cases (is_timeout e)) [
      | inl timed_out ↦ rw timed_out (ground arith)
      | inr refused ↦ rw refused (ground arith)
    ]
    settled panic ho ms mt = omega arith

-- Announced, attempted and settled, a creation keeps the balance.
pub announced-Keeps :
    (env : Env) (key : String) (m : M (Unit {0}))
    → ((s : State) → Attempts env m s)
    → Keeps (Balanced env) (announced key m)
unfolding announced note outstanding ◌>>=◌ lift try
announced-Keeps env key m hm = record {
  at = λ s h.
      at_state s h
        (hm (record s { calls = Call.raise_expectations key (pos 1) (pos 0) ∷ s.calls }));
}
  where
    at_state :
        (s : State)
        → Balanced env s.calls
        → Attempts env m
            (record s { calls = Call.raise_expectations key (pos 1) (pos 0) ∷ s.calls })
        → Balanced env ((announced key m) s).1.calls
    at_state s h a =
        settle-Balanced env key
          (m (record s { calls = Call.raise_expectations key (pos 1) (pos 0) ∷ s.calls })).0 s
          (m (record s { calls = Call.raise_expectations key (pos 1) (pos 0) ∷ s.calls })).1
          a.raised a.observed a.grown h
