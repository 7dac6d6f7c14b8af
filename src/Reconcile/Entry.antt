-- ===== src/Reconcile/Entry.antt =====
-- Reconcile of pkg/controller/cluster_controller.go, from the request to ReconcileKubeCluster, and
-- RegisterSchema of pkg/controller/ctrlcommon/controller.go.
pub mod Guard
use Prim.Native.String.{◌++◌}
use kubecluster.Prelude.{
  ℕ, String, Bool, true, false, not, ◌||◌, List, ◌∷◌, Option, none, some, ◌≡◌, refl, sym, ◌∙◌, ap,
  Dict, lookup, insert, if◌then◌else◌, Bool-cases, inl, inr, arith,
}
use kubecluster.Errors.{Error, Result, ok, err, panic, is_not_found, error_text}
use kubecluster.Types.{KubeCluster, ConditionType, ConditionStatus, kube_cluster_kind}
use kubecluster.Labels.{replica_type_label, gen_replica_type_label}
use kubecluster.Reconcile.Status.{update_conditions}
use kubecluster.World.{
  Env, State, M, Call, EventType, ◌>>=◌, ◌>>◌, pure, raise, lift, note, get_calls, set_cluster,
}
use kubecluster.Schema.{Schema}
use kubecluster.Schema.Checks.{NameRules, validate_v1alpha_cluster, set_defaults_kube_cluster}
use kubecluster.Reconcile.Naming.{Ctx, new_reason, gen_cluster_labels}
use kubecluster.Expectation.{Cache}
use kubecluster.Watch.Gate.{need_reconcile}
use kubecluster.Reconcile.Cluster.{reconcile_kube_cluster}

-- The cache that clusters are fetched from, the registered schemas, the rules for names, and what the gate
-- before a reconciliation reads: the expectations of each schema, in a store, and the clock.
pub record Entry : Type 1 where
  pub cluster_get : List Call → String → String → Result KubeCluster
  pub schemas : Dict Schema
  pub rules : NameRules
  pub cache : Cache
  pub stores : String → cache.Store
  pub clock : ℕ → ℕ

unfoldable register_schema : String → Schema → Dict Schema → Result (Dict Schema)
register_schema kind schema schemas = elim (lookup kind schemas) [
  | some other ↦ err (Error.other ("cluster schema " ++ kind ++ " had been registered"))
  | none ↦ ok (insert kind schema schemas)
]

-- GetSchemaReconciler: an unknown type gives a nil interface, and the call of its method panics.
pub get_schema_reconciler : Entry → String → Result Schema
get_schema_reconciler entry type = elim (lookup type entry.schemas) [
  | some schema ↦ ok schema
  | none ↦ panic
]

-- A cluster that does not pass a check is reported, and the error returned.
pub report_invalid : String → Result (Unit {0}) → M Unit → M Unit
report_invalid message (ok u) rest = rest
report_invalid message (err e) rest = do
  note (
      Call.event EventType.warning (new_reason kube_cluster_kind "FailedValidation")
        (message ++ error_text e))
  raise e
report_invalid message panic rest = lift panic

abbrev pub is_deleted : Option ℕ → Bool
is_deleted none = false
is_deleted (some t) = true

-- The copy with its defaults is what is reconciled.
pub reconcile_defaulted : Ctx → Schema → KubeCluster → M Unit
reconcile_defaulted ctx schema cluster = do
  let defaulted = set_defaults_kube_cluster cluster
  specs ← lift (schema.default_specs defaulted.spec.cluster_replica_spec)
  set_cluster (record defaulted { spec = record defaulted.spec { cluster_replica_spec = specs } })
  reconcile_kube_cluster (record ctx { schema = schema })

pub reconcile_valid : Ctx → Entry → Schema → KubeCluster → M Unit
unfolding reconcile_defaulted
reconcile_valid ctx entry schema cluster = do
  needed ← lift (
      need_reconcile entry.cache entry.clock (entry.stores cluster.spec.cluster_type)
        (ctx.key_func cluster) cluster.spec.cluster_replica_spec)
  if not needed || is_deleted cluster.deletion_timestamp
      then pure tt
      else reconcile_defaulted ctx schema cluster

pub reconcile_fetched : Ctx → Entry → Result KubeCluster → M Unit
unfolding report_invalid get_schema_reconciler reconcile_valid
reconcile_fetched ctx entry (ok cluster) =
    report_invalid "KubeCLuster failed validation because "
      (validate_v1alpha_cluster entry.rules cluster)
      (do
        schema ← lift (get_schema_reconciler entry cluster.spec.cluster_type)
        report_invalid "KubeCluster failed validation because " (schema.validate cluster)
            (reconcile_valid ctx entry schema cluster))
reconcile_fetched ctx entry (err e) = if is_not_found e then pure tt else raise e
reconcile_fetched ctx entry panic = lift panic

pub reconcile : Ctx → Entry → String → String → M Unit
unfolding reconcile_fetched
reconcile ctx entry namespace name = do
  calls ← get_calls
  reconcile_fetched ctx entry (entry.cluster_get calls namespace name)

-- onOwnerCreateFunc: the cluster of the event gets its defaults and the condition Created; other objects
-- are let through as they are.
unfoldable on_owner_create_func : Env → Option KubeCluster → M Bool
unfolding update_conditions
on_owner_create_func env none = pure true
on_owner_create_func env (some cluster) = do
  set_cluster (set_defaults_kube_cluster cluster)
  update_conditions env ConditionType.created ConditionStatus.cond_true
      (new_reason kube_cluster_kind "Created") ("Kubecluster " ++ cluster.name ++ " is created.")
  pure true

-- The labels that GenLabelSelector matches.
unfoldable gen_label_selector : String → String → Dict String
gen_label_selector cluster_name rtype =
    insert replica_type_label (gen_replica_type_label rtype) (gen_cluster_labels cluster_name)
