-- ===== src/Tests/Expectations.antt =====
-- Expectations (pkg/controller/expectation) and the gate before a reconciliation.
use kubecluster.Prelude.{
  ◌-◌, pos, true, false, ◌||◌, ◌&&◌, List, [], ◌∷◌, ◌≡◌, refl, arith, leb, ltb, Dict,
}
use kubecluster.Errors.{ok, ◌>>=◌}
use kubecluster.Expectation.{
  Item, set_expectations, satisfied_expectations, pre_satisfied_expectations, expectations_timeout,
}
use kubecluster.Expectation.Typed.{Op, run, run_total, never_pre_satisfied, IsTyped, empty-IsTyped}
use kubecluster.Expectation.Observed.{
  Observation, observe_all, creations, deletions, satisfied_after_observations,
}
use kubecluster.Watch.Gate.{need_reconcile, always_reconciled}
use kubecluster.Tests.Fixtures.{cache, specs}

abbrev ops : List Op
ops =
    Op.set "hpc/demo/worker/pods" (pos 2) (pos 0) 5
    ∷ Op.lower "hpc/demo/worker/pods" (pos 1) (pos 0)
    ∷ []

run_total_example : (s : Dict Item) × (run cache [] ops ≡ ok s) × IsTyped cache s
run_total_example = run_total cache ops

satisfied_after_observations_example :
    (s' : Dict Item) × ((do
      r ← set_expectations cache [] "k" (pos 1) (pos 1) 5
      observe_all cache r (Observation.creation "k" ∷ Observation.deletion "k" ∷ []))
      ≡ ok s')
    × (satisfied_expectations cache s' "k" 9
        ≡ ok (
            leb 1 (creations "k" (Observation.creation "k" ∷ Observation.deletion "k" ∷ []))
              && leb 1 (deletions "k" (Observation.creation "k" ∷ Observation.deletion "k" ∷ []))
            || ltb expectations_timeout (9 - 5)))
satisfied_after_observations_example =
    satisfied_after_observations cache "k" 1 1 5 (omega arith) (omega arith) []
      (Observation.creation "k" ∷ Observation.deletion "k" ∷ []) 9 (omega arith)
      (empty-IsTyped cache)

never_pre_satisfied_example : pre_satisfied_expectations cache [] "hpc/demo/presatisfied" ≡ false
unfolding run
never_pre_satisfied_example = never_pre_satisfied cache [] [] "hpc/demo/presatisfied" refl

always_reconciled_example : need_reconcile cache (λ n. n) [] (ok "hpc/demo") specs ≡ ok true
unfolding run
always_reconciled_example = always_reconciled cache (λ n. n) [] [] (ok "hpc/demo") specs refl
