-- ===== src/Types/Status.antt =====
-- ClusterStatus of apis/kubecluster.org/v1alpha1/cluster_types.go and common_types.go.
use kubecluster.Prelude.{ℕ, ℤ, pos, Bool, true, false, String, List, [], Option, none, Dict}

pub data ConditionType : Type 0 where
  created running restarting suspended failed : ConditionType

-- `condition.Type == condType`
unfoldable pub same_type : ConditionType → ConditionType → Bool
same_type ConditionType.created ConditionType.created = true
same_type ConditionType.running ConditionType.running = true
same_type ConditionType.restarting ConditionType.restarting = true
same_type ConditionType.suspended ConditionType.suspended = true
same_type ConditionType.failed ConditionType.failed = true
same_type _ _ = false

-- v1.ConditionStatus
pub data ConditionStatus : Type 0 where
  cond_true cond_false cond_unknown : ConditionStatus

unfoldable pub same_status : ConditionStatus → ConditionStatus → Bool
same_status ConditionStatus.cond_true ConditionStatus.cond_true = true
same_status ConditionStatus.cond_false ConditionStatus.cond_false = true
same_status ConditionStatus.cond_unknown ConditionStatus.cond_unknown = true
same_status _ _ = false

pub record ClusterCondition : Type 0 where
  pub type : ConditionType
  pub status : ConditionStatus
  pub reason : String
  pub message : String
  pub last_update_time : ℕ
  pub last_transition_time : ℕ

-- The counters are int32.
pub record ReplicaStatus : Type 0 where
  pub active : ℤ
  pub activating : ℤ
  pub failed : ℤ
  pub selector : String

-- `&ReplicaStatus{}`
abbrev pub zero_replica_status : ReplicaStatus
zero_replica_status = record { active = pos 0; activating = pos 0; failed = pos 0; selector = "" }

-- A nil `ReplicaStatuses` map is an empty one.
pub record ClusterStatus : Type 0 where
  pub conditions : List ClusterCondition
  pub replica_statuses : Dict ReplicaStatus
  pub start_time : Option ℕ
  pub last_reconcile_time : Option ℕ
  pub completion_time : Option ℕ

abbrev pub empty_status : ClusterStatus
empty_status = record {
  conditions = [];
  replica_statuses = [];
  start_time = none;
  last_reconcile_time = none;
  completion_time = none;
}
