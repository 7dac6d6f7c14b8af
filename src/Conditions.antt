-- ===== src/Conditions.antt =====
-- The conditions of a cluster: pkg/util/status.go. The proofs are in the modules below.
pub mod Filter
pub mod Invariant
pub mod Updates
pub mod Failing
use kubecluster.Prelude.{
  ℕ, Bool, true, false, String, List, [], ◌∷◌, ◌++◌, Option, none, some, ◌&&◌, ◌||◌, str_eq,
  if◌then◌else◌,
}
use kubecluster.Types.{
  ConditionType, ConditionStatus, ClusterCondition, ClusterStatus, same_type, same_status,
}

-- The loop of `isStatusConditionTrue`.
pub any_condition_true : List ClusterCondition → ConditionType → Bool
any_condition_true [] t = false
any_condition_true (c ∷ cs) t =
    if same_type c.type t && same_status c.status ConditionStatus.cond_true
    then true
    else any_condition_true cs t

is_status_condition_true : ClusterStatus → ConditionType → Bool
unfolding any_condition_true
is_status_condition_true status t = any_condition_true status.conditions t

unfoldable pub is_failed : ClusterStatus → Bool
unfolding is_status_condition_true
is_failed status = is_status_condition_true status ConditionType.failed

unfoldable pub is_finished : ClusterStatus → Bool
unfolding is_failed
is_finished status = is_failed status

unfoldable pub is_running : ClusterStatus → Bool
unfolding is_status_condition_true
is_running status = is_status_condition_true status ConditionType.running

unfoldable pub is_suspended : ClusterStatus → Bool
unfolding is_status_condition_true
is_suspended status = is_status_condition_true status ConditionType.suspended

-- The clock is read twice, for the update and for the transition.
unfoldable pub new_condition :
    ConditionType → ConditionStatus → String → String → ℕ → ℕ → ClusterCondition
new_condition type status reason message updated transited = record {
  type = type;
  status = status;
  reason = reason;
  message = message;
  last_update_time = updated;
  last_transition_time = transited;
}

-- The loop of `getCondition`.
pub find_condition : List ClusterCondition → ConditionType → Option ClusterCondition
find_condition [] t = none
find_condition (c ∷ cs) t = if same_type c.type t then some c else find_condition cs t

pub get_condition : ClusterStatus → ConditionType → Option ClusterCondition
unfolding find_condition
get_condition status t = find_condition status.conditions t

-- The three `continue`s of the loop of `filterOutCondition`.
pub is_replaced : ConditionType → ConditionType → Bool
unfolding same_type
is_replaced new old =
    same_type new ConditionType.restarting && same_type old ConditionType.running
    || same_type new ConditionType.running && same_type old ConditionType.restarting
    || same_type old new

-- What the loop does to a condition that it keeps.
abbrev pub stop_running : ConditionType → ClusterCondition → ClusterCondition
stop_running new c =
    if same_type new ConditionType.failed && same_type c.type ConditionType.running
    then record c { status = ConditionStatus.cond_false }
    else c

pub filter_out_condition : List ClusterCondition → ConditionType → List ClusterCondition
filter_out_condition [] new = []
filter_out_condition (c ∷ cs) new =
    let rest = filter_out_condition cs new in
    if is_replaced new c.type then rest else stop_running new c ∷ rest

-- `currentCond != nil && currentCond.Status == condition.Status`
abbrev pub keeps_status : Option ClusterCondition → ClusterCondition → Bool
keeps_status none c = false
keeps_status (some old) c = same_status old.status c.status

-- `currentCond != nil && currentCond.Reason == condition.Reason`
abbrev pub keeps_reason : Option ClusterCondition → ClusterCondition → Bool
keeps_reason none c = false
keeps_reason (some old) c = str_eq old.reason c.reason

-- `condition.LastTransitionTime = currentCond.LastTransitionTime` where the status is kept
abbrev transition_time : Option ClusterCondition → ClusterCondition → ℕ
transition_time none c = c.last_transition_time
transition_time (some old) c =
    if same_status old.status c.status then old.last_transition_time else c.last_transition_time

abbrev pub with_transition : Option ClusterCondition → ClusterCondition → ClusterCondition
with_transition old c = record c { last_transition_time = transition_time old c }

pub set_condition : ClusterStatus → ClusterCondition → ClusterStatus
unfolding is_failed get_condition filter_out_condition
set_condition status condition =
    let current = get_condition status condition.type in
    if is_failed status
    then status
    else if keeps_status current condition && keeps_reason current condition
    then status
    else record status {
      conditions =
          filter_out_condition status.conditions condition.type
          ++ with_transition current condition ∷ [];
    }

unfoldable pub update_cluster_conditions :
    ClusterStatus → ConditionType → ConditionStatus → String → String → ℕ → ℕ → ClusterStatus
unfolding new_condition set_condition
update_cluster_conditions status type st reason message updated transited =
    set_condition status (new_condition type st reason message updated transited)
