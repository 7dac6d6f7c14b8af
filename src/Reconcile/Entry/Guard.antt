-- ===== src/Reconcile/Entry/Guard.antt =====
-- Which clusters a request hands over to ReconcileKubeCluster
-- (Reconcile of pkg/controller/cluster_controller.go).
use Prim.Native.String.{◌++◌}
use kubecluster.Prelude.{lookup, ℕ, String, Bool, true, false, ◌∷◌, none, some, ◌≡◌}
use kubecluster.Errors.{Error, Result, ok, err, panic, is_not_found, error_text}
use kubecluster.Types.{KubeCluster, kube_cluster_kind}
use kubecluster.World.{State, Call, EventType}
use kubecluster.Schema.{Schema}
use kubecluster.Schema.Checks.{validate_v1alpha_cluster}
use kubecluster.Reconcile.Naming.{Ctx, new_reason}
use kubecluster.Watch.Gate.{need_reconcile}
use kubecluster.Reconcile.Entry.{Entry, reconcile_defaulted}

-- The state after a warning that the validation failed, and nothing else.
abbrev pub warned : String → Error → State → State
warned message e s = record s {
  calls =
      Call.event EventType.warning (new_reason kube_cluster_kind "FailedValidation")
        (message ++ error_text e)
      ∷ s.calls;
}

-- What the gate says of a cluster.
abbrev pub gate : Ctx → Entry → KubeCluster → Result Bool
gate ctx entry cluster =
    need_reconcile entry.cache entry.clock (entry.stores cluster.spec.cluster_type)
      (ctx.key_func cluster) cluster.spec.cluster_replica_spec

-- How a request goes on for a valid cluster with a schema that accepts it.
pub data Passed (ctx : Ctx) (entry : Entry) (cluster : KubeCluster) (schema : Schema) (s : State)
    (p : Result (Unit {0}) × State) : Type 0 where
  gate_failed :
      (e : Error)
      → gate ctx entry cluster ≡ err e
      → p ≡ (err e, s)
      → Passed ctx entry cluster schema s p
  gate_panicked :
      gate ctx entry cluster ≡ panic → p ≡ (panic, s) → Passed ctx entry cluster schema s p
  not_needed :
      gate ctx entry cluster ≡ ok false → p ≡ (ok tt, s) → Passed ctx entry cluster schema s p
  deleted :
      (t : ℕ)
      → gate ctx entry cluster ≡ ok true
      → cluster.deletion_timestamp ≡ some t
      → p ≡ (ok tt, s)
      → Passed ctx entry cluster schema s p
  handed_over :
      gate ctx entry cluster ≡ ok true
      → cluster.deletion_timestamp ≡ none
      → p ≡ reconcile_defaulted ctx schema cluster s
      → Passed ctx entry cluster schema s p

-- How a request goes on for a cluster that passes the checks of all clusters.
pub data Valid (ctx : Ctx) (entry : Entry) (cluster : KubeCluster) (s : State)
    (p : Result (Unit {0}) × State) : Type 0 where
  unregistered :
      lookup cluster.spec.cluster_type entry.schemas ≡ none
      → p ≡ (panic, s)
      → Valid ctx entry cluster s p
  refused :
      (schema : Schema) (e : Error)
      → lookup cluster.spec.cluster_type entry.schemas ≡ some schema
      → schema.validate cluster ≡ err e
      → p ≡ (err e, warned "KubeCluster failed validation because " e s)
      → Valid ctx entry cluster s p
  check_panicked :
      (schema : Schema)
      → lookup cluster.spec.cluster_type entry.schemas ≡ some schema
      → schema.validate cluster ≡ panic
      → p ≡ (panic, s)
      → Valid ctx entry cluster s p
  passed :
      (schema : Schema)
      → lookup cluster.spec.cluster_type entry.schemas ≡ some schema
      → schema.validate cluster ≡ ok tt
      → Passed ctx entry cluster schema s p
      → Valid ctx entry cluster s p

-- How a request ends, each end with its reason.
pub data Guarded (ctx : Ctx) (entry : Entry) (namespace name : String) (s : State)
    (p : Result (Unit {0}) × State) : Type 0 where
  gone :
      (e : Error)
      → entry.cluster_get s.calls namespace name ≡ err e
      → is_not_found e ≡ true
      → p ≡ (ok tt, s)
      → Guarded ctx entry namespace name s p
  unfetched :
      (e : Error)
      → entry.cluster_get s.calls namespace name ≡ err e
      → is_not_found e ≡ false
      → p ≡ (err e, s)
      → Guarded ctx entry namespace name s p
  fetch_panicked :
      entry.cluster_get s.calls namespace name ≡ panic
      → p ≡ (panic, s)
      → Guarded ctx entry namespace name s p
  invalid :
      (cluster : KubeCluster) (e : Error)
      → entry.cluster_get s.calls namespace name ≡ ok cluster
      → validate_v1alpha_cluster entry.rules cluster ≡ err e
      → p ≡ (err e, warned "KubeCLuster failed validation because " e s)
      → Guarded ctx entry namespace name s p
  check_panicked :
      (cluster : KubeCluster)
      → entry.cluster_get s.calls namespace name ≡ ok cluster
      → validate_v1alpha_cluster entry.rules cluster ≡ panic
      → p ≡ (panic, s)
      → Guarded ctx entry namespace name s p
  valid :
      (cluster : KubeCluster)
      → entry.cluster_get s.calls namespace name ≡ ok cluster
      → validate_v1alpha_cluster entry.rules cluster ≡ ok tt
      → Valid ctx entry cluster s p
      → Guarded ctx entry namespace name s p
