-- ===== src/Tests/Conditions.antt =====
-- Conditions of a cluster (pkg/util/status.go).
use kubecluster.Prelude.{List, [], ◌∷◌, ◌≡◌}
use kubecluster.Types.{ConditionType, ConditionStatus, empty_status}
use kubecluster.Conditions.{get_condition, set_condition}
use kubecluster.Conditions.Invariant.{IsWellFormed}
use kubecluster.Conditions.Updates.{
  Update, run_updates, run_updates-IsWellFormed, empty_status-IsWellFormed, expected,
  get_condition-set_condition,
}
use kubecluster.Tests.Fixtures.{condition, status_with}

abbrev update : ConditionType → Update
update type = record {
  type = type;
  status = ConditionStatus.cond_true;
  reason = "KubeCluster";
  message = "";
  updated = 2;
  transited = 2;
}

-- A cluster runs, restarts, runs again and fails.
abbrev history : List Update
history =
    update ConditionType.running
    ∷ update ConditionType.restarting
    ∷ update ConditionType.running
    ∷ update ConditionType.failed
    ∷ []

run_updates-IsWellFormed_example : IsWellFormed (run_updates empty_status history)
run_updates-IsWellFormed_example =
    run_updates-IsWellFormed empty_status history empty_status-IsWellFormed

get_condition-set_condition_example :
    get_condition
      (set_condition
        (status_with (condition ConditionType.restarting ∷ []) [])
        (condition ConditionType.running))
      ConditionType.restarting
    ≡ expected
        (status_with (condition ConditionType.restarting ∷ []) [])
        (condition ConditionType.running)
        ConditionType.restarting
get_condition-set_condition_example =
    get_condition-set_condition (status_with (condition ConditionType.restarting ∷ []) [])
      (condition ConditionType.running) ConditionType.restarting
