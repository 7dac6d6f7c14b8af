-- ===== src/Reconcile/Steady.antt =====
-- ReconcilePods (pkg/controller/ctrlcommon/service.go) on a cluster that is as it should be.
use kubecluster.Prelude.{String, List, [], ◌∷◌, Option, none, some, ◌≡◌, lookup, insert}
use kubecluster.Errors.{Result, ok}
use kubecluster.Types.{Pod, Phase, ReplicaStatus}
use kubecluster.World.{State}
use kubecluster.Reconcile.Pods.{find_exit_code}

-- A pod that runs, is not being deleted, and whose default container has not terminated.
pub record IsHealthy (pod : Pod) : Type 0 where
  pub runs : pod.phase ≡ Phase.running
  pub stays : pod.deletion_timestamp ≡ none
  pub no_exit : find_exit_code pod.container_statuses ≡ none

-- The state with this entry in the counters.
abbrev counted : String → ReplicaStatus → State → State
counted rtype r s = record s {
  cluster = record s.cluster {
    status = record s.cluster.status {
      replica_statuses = insert rtype r s.cluster.status.replica_statuses;
    };
  };
}

entry : String → State → Option ReplicaStatus
entry rtype s = lookup rtype s.cluster.status.replica_statuses

-- The slices hold one healthy pod each.
unfoldable pub single : Pod → List Pod
single pod = pod ∷ []

-- What the loop leaves: no request was made, and the counters have this entry.
pub record IsCounted (rtype : String) (r : ReplicaStatus) (s : State)
    (after : Result (Unit {0}) × State) : Type 0 where
  pub result : after.0 ≡ ok tt
  pub no_calls : after.1.calls ≡ s.calls
  pub counter : lookup rtype after.1.cluster.status.replica_statuses ≡ some r
