-- ===== src/Schema/Status.antt =====
-- UpdateClusterStatus of the two schemas: pkg/controller/cluster_schema/slurm_schema/slurm_schema.go and
-- pkg/controller/cluster_schema/pbspro_schema/pbspro_schema.go.
use Prim.Native.String.{◌++◌}
use kubecluster.Prelude.{
  ℕ, ℤ, pos, ltb_ℤ, eqb_ℤ, String, Bool, ◌&&◌, List, [], ◌∷◌, Option, none, some, lookup, str_eq,
  if◌then◌else◌,
}
use kubecluster.Errors.{Result, ok, panic}
use kubecluster.Types.{
  ClusterCondition, ClusterStatus, ReplicaStatus, KubeCluster, ConditionType, ConditionStatus,
  same_type, kube_cluster_kind,
}
use kubecluster.Strings.{itoa_ℤ}
use kubecluster.World.{
  Env, M, Call, EventType, ◌>>=◌, ◌>>◌, pure, lift, note, now, get_cluster, set_status,
}
use kubecluster.Reconcile.Status.{update_conditions}
use kubecluster.Reconcile.Naming.{new_reason}

-- SchemaReplicaTypeController
abbrev pub slurm_controller : String
slurm_controller = "Controller"

-- SchemaReplicaTypeServer
abbrev pub pbspro_server : String
pbspro_server = "Server"

-- The loop over the conditions: the last one of the type counts.
unfoldable pub last_restarting : List ClusterCondition → Option ClusterCondition
last_restarting [] = none
last_restarting (c ∷ cs) = elim (last_restarting cs) [
  | some d ↦ some d
  | none ↦ if same_type c.type ConditionType.restarting then some c else none
]

-- A nil status panics when a field is read.
unfoldable pub status_entry : Option ReplicaStatus → Result ReplicaStatus
status_entry (some r) = ok r
status_entry none = panic

abbrev pub complete_at : Env → ClusterStatus → Option ℕ → M Unit
complete_at env status (some t) = pure tt
complete_at env status none = do
  t ← now env
  set_status (record status { completion_time = some t })

-- An event, the completion time if there is none, and the condition Failed.
unfoldable pub mark_failed : Env → String → M Unit
mark_failed env msg = do
  note (Call.event EventType.normal (new_reason kube_cluster_kind "Failed") msg)
  cluster ← get_cluster
  complete_at env cluster.status cluster.status.completion_time
  update_conditions env ConditionType.failed ConditionStatus.cond_true
      (new_reason kube_cluster_kind "Failed") msg

abbrev pub failed_message : KubeCluster → ℤ → String → String → String
failed_message cluster failed rtype what =
    "KubeCLuster "
    ++ cluster.namespace
    ++ "/"
    ++ cluster.name
    ++ " has failed because "
    ++ itoa_ℤ failed
    ++ " "
    ++ rtype
    ++ what

-- Replicas failed: a cluster that restarts goes on; otherwise it fails if `fails` says so.
unfoldable pub restart_or_fail : Env → Bool → String → Option ClusterCondition → M Unit
unfolding mark_failed
restart_or_fail env fails msg (some c) =
    update_conditions env ConditionType.restarting ConditionStatus.cond_true c.reason c.message
restart_or_fail env fails msg none = if fails then mark_failed env msg else pure tt

abbrev activate : Env → KubeCluster → Bool → M Unit
activate env cluster starts =
    if starts
    then update_conditions env ConditionType.running ConditionStatus.cond_true
        (new_reason kube_cluster_kind "Running")
        ("KubeCLuster " ++ cluster.name ++ " is avtivating.")
    else pure tt

-- The restarting condition is looked for after the running condition was set.
abbrev pub settle_failures : Env → Bool → Bool → String → M Unit
settle_failures env has_failures fails msg =
    if has_failures
    then (do
      cluster ← get_cluster
      restart_or_fail env fails msg (last_restarting cluster.status.conditions))
    else pure tt

-- slurmClusterSchemaReconciler.UpdateClusterStatus: the controller counts as running whatever its counters.
unfoldable pub update_slurm_status : Env → String → M Unit
unfolding restart_or_fail
update_slurm_status env rtype = do
  cluster ← get_cluster
  r ← lift (status_entry (lookup rtype cluster.status.replica_statuses))
  activate env cluster (str_eq rtype slurm_controller)
  settle_failures env (ltb_ℤ (pos 0) r.failed)
      (str_eq rtype slurm_controller && eqb_ℤ r.active (pos 0))
      (failed_message cluster r.failed rtype " replica(s) failed.")

-- pbsproClusterSchemaReconciler.UpdateClusterStatus
unfoldable pub update_pbspro_status : Env → String → M Unit
unfolding restart_or_fail
update_pbspro_status env rtype = do
  cluster ← get_cluster
  r ← lift (status_entry (lookup rtype cluster.status.replica_statuses))
  activate env cluster (str_eq rtype pbspro_server && ltb_ℤ (pos 0) r.active)
  settle_failures env (ltb_ℤ (pos 0) r.failed) (str_eq rtype pbspro_server)
      (failed_message cluster r.failed rtype " replica(p) failed.")
