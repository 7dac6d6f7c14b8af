-- ===== src/Reconcile/Status.antt =====
-- The counters of a replica type and the conditions, as the reconciliation writes them:
-- pkg/core/status.go, and the calls of pkg/util/status.go.
use kubecluster.Prelude.{
  ℤ, pos, add32, String, Bool, true, false, Option, none, some, lookup, insert, if◌then◌else◌,
}
use kubecluster.Errors.{Result, ok, panic}
use kubecluster.Types.{
  Pod, Phase, ReplicaStatus, zero_replica_status, ClusterStatus, ConditionType, ConditionStatus,
}
use kubecluster.Conditions.{update_cluster_conditions}
use kubecluster.World.{Env, M, ◌>>=◌, now, get_cluster, set_status}

-- core.InitializeReplicaStatuses
unfoldable pub initialize_replica_statuses : ClusterStatus → String → ClusterStatus
initialize_replica_statuses status rtype = record status {
  replica_statuses = insert rtype zero_replica_status status.replica_statuses;
}

-- `x++` on an int32
abbrev pub inc : ℤ → ℤ
inc x = add32 x (pos 1)

-- The `switch` on the phase: a pod that runs and is being deleted counts as failed.
unfoldable pub count_pod : Pod → ReplicaStatus → ReplicaStatus
count_pod pod r = elim pod.phase [
  | Phase.running ↦ elim pod.deletion_timestamp [
    | some _ ↦ record r { failed = inc r.failed }
    | none ↦ record r { active = inc r.active }
  ]
  | Phase.failed ↦ record r { failed = inc r.failed }
  | _ ↦ r
]

-- Does the `switch` read the map entry at all?
abbrev counts : Phase → Bool
counts Phase.running = true
counts Phase.failed = true
counts _ = false

-- A counter behind a nil pointer panics.
abbrev count_entry : Pod → ClusterStatus → String → Option ReplicaStatus → Result ClusterStatus
count_entry pod status rtype (some r) =
    ok (record status { replica_statuses = insert rtype (count_pod pod r) status.replica_statuses })
count_entry pod status rtype none = if counts pod.phase then panic else ok status

-- core.UpdateClusterReplicaStatuses
unfoldable pub update_cluster_replica_statuses : ClusterStatus → String → Pod → Result ClusterStatus
unfolding count_pod
update_cluster_replica_statuses status rtype pod =
    count_entry pod status rtype (lookup rtype status.replica_statuses)

-- util.UpdateClusterConditions on the status of the cluster; the clock is read twice.
unfoldable pub update_conditions : Env → ConditionType → ConditionStatus → String → String → M Unit
unfolding update_cluster_conditions now get_cluster set_status
update_conditions env type status reason message = do
  updated ← now env
  transited ← now env
  cluster ← get_cluster
  set_status (update_cluster_conditions cluster.status type status reason message updated transited)
