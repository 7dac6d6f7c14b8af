-- ===== src/Reconcile/Equality.antt =====
-- reflect.DeepEqual of two ClusterStatus values (pkg/controller/ctrlcommon/controller.go).
use kubecluster.Prelude.{
  ℕ, eqb_ℤ, ◌==◌, Bool, true, false, ◌&&◌, List, [], ◌∷◌, Option, none, some, Dict, lookup, str_eq,
}
use kubecluster.Types.{ClusterCondition, ClusterStatus, ReplicaStatus, same_type, same_status}

abbrev same_condition : ClusterCondition → ClusterCondition → Bool
same_condition a b =
    same_type a.type b.type
    && same_status a.status b.status
    && str_eq a.reason b.reason
    && str_eq a.message b.message
    && a.last_update_time == b.last_update_time
    && a.last_transition_time == b.last_transition_time

abbrev same_conditions : List ClusterCondition → List ClusterCondition → Bool
same_conditions [] [] = true
same_conditions (a ∷ rest_a) (b ∷ rest_b) =
    let rest = same_conditions rest_a rest_b in same_condition a b && rest
same_conditions _ _ = false

abbrev same_replica_status : ReplicaStatus → Option ReplicaStatus → Bool
same_replica_status a none = false
same_replica_status a (some b) =
    eqb_ℤ a.active b.active
    && eqb_ℤ a.activating b.activating
    && eqb_ℤ a.failed b.failed
    && str_eq a.selector b.selector

abbrev includes_statuses : Dict ReplicaStatus → Dict ReplicaStatus → Bool
includes_statuses [] m = true
includes_statuses ((rtype, r) ∷ statuses) m =
    let rest = includes_statuses statuses m in same_replica_status r (lookup rtype m) && rest

abbrev same_time : Option ℕ → Option ℕ → Bool
same_time none none = true
same_time (some t) (some u) = t == u
same_time _ _ = false

unfoldable pub same_cluster_status : ClusterStatus → ClusterStatus → Bool
same_cluster_status a b =
    same_conditions a.conditions b.conditions
    && includes_statuses a.replica_statuses b.replica_statuses
    && includes_statuses b.replica_statuses a.replica_statuses
    && same_time a.start_time b.start_time
    && same_time a.last_reconcile_time b.last_reconcile_time
    && same_time a.completion_time b.completion_time
