-- ===== src/Watch/Gate.antt =====
-- The gate before a reconciliation: SatisfiedExpectations of pkg/common/util/reconciler.go,
-- GetReplicaTypes of pkg/common/util.go and needReconcile of pkg/controller/cluster_controller.go.
use kubecluster.Prelude.{
  ℕ, suc, String, Bool, true, false, not, List, [], ◌∷◌, Option, ◌≡◌, map, if◌then◌else◌,
}
use kubecluster.Errors.{Result, ok, ◌>>=◌}
use kubecluster.Types.{ReplicaSpec, ReplicaSpecs}
use kubecluster.Expectation.{
  Cache, satisfied_expectations, pre_satisfied_expectations, gen_pre_satisfied_key,
  gen_expectation_pods_key, gen_expectation_services_key,
}
use kubecluster.Expectation.Typed.{Op, run, never_pre_satisfied}

abbrev first_of : String × Option ReplicaSpec → String
first_of (rtype, spec) = rtype

-- The keys of the map.
unfoldable get_replica_types : ReplicaSpecs → List String
get_replica_types specs = map first_of specs

-- `if err != nil { utilruntime.HandleError(…) }`: an error leaves the empty key.
abbrev key_or_empty : Result String → String
key_or_empty (ok key) = key
key_or_empty _ = ""

-- The clock is read at each test; its readings are numbered.
module _ (c : Cache) (clock : ℕ → ℕ) where
  open c use {Store}

  abbrev and_also : Bool → Result Bool → Result Bool
  and_also b rest = if b then rest else ok false

  unfoldable types_satisfied : Store → String → List String → ℕ → Result Bool
  types_satisfied s cluster_key [] t = ok true
  types_satisfied s cluster_key (rtype ∷ rtypes) t = do
    pods ← satisfied_expectations c s (gen_expectation_pods_key cluster_key rtype) (clock t)
    let services =
        satisfied_expectations c s (gen_expectation_services_key cluster_key rtype) (clock (suc t))
    let rest = types_satisfied s cluster_key rtypes (suc (suc t))
    and_also pods (do found ← services; and_also found rest)

  -- SatisfiedExpectations of a cluster.
  cluster_satisfied : Store → String → List String → Result Bool
  cluster_satisfied s cluster_key rtypes =
      let rest = types_satisfied s cluster_key rtypes 0 in
      if pre_satisfied_expectations c s (gen_pre_satisfied_key cluster_key) then rest else ok false

  pub need_reconcile : Store → Result String → ReplicaSpecs → Result Bool
  need_reconcile s key specs = do
    satisfied ← cluster_satisfied s (key_or_empty key) (get_replica_types specs)
    ok (not satisfied)

  -- Whatever the schema's expectations are, SatisfiedExpectations never holds, and so a cluster always
  -- needs a reconciliation: the creations and deletions that are expected never hold one back.
  pub always_reconciled :
      (ops : List Op) (s : Store) (key : Result String) (specs : ReplicaSpecs)
      → run c c.empty ops ≡ ok s
      → need_reconcile s key specs ≡ ok true
  unfolding need_reconcile cluster_satisfied
  always_reconciled ops s key specs e =
      rw (never_pre_satisfied c ops s (gen_pre_satisfied_key (key_or_empty key)) e)
