-- ===== src/Conditions/Updates.antt =====
-- What sequences of `UpdateClusterConditions` calls do (pkg/util/status.go).
use kubecluster.Prelude.{
  ℕ, Bool, true, false, inl, inr, Bool-cases, ◌||◌, str_eq, String, List, [], ◌∷◌, Option, none,
  some, ◌≡◌, refl, arith, ◌&&◌, if◌then◌else◌,
}
use kubecluster.Types.{
  ConditionType, ConditionStatus, ClusterCondition, ClusterStatus, empty_status, same_type,
  same_status,
}
use kubecluster.Conditions.{
  is_failed, is_running, get_condition, find_condition, is_replaced, stop_running,
  filter_out_condition, with_transition, set_condition, update_cluster_conditions, keeps_status,
  keeps_reason,
}
use kubecluster.Conditions.Filter.{
  map_condition, find_condition-filter_out_condition, find_condition-append, is_replaced_same,
}
use kubecluster.Conditions.Invariant.{IsWellFormed, set_condition-IsWellFormed}

-- The arguments of a call, and the two times at which it reads the clock.
pub record Update : Type 0 where
  pub type : ConditionType
  pub status : ConditionStatus
  pub reason : String
  pub message : String
  pub updated : ℕ
  pub transited : ℕ

abbrev apply_update : ClusterStatus → Update → ClusterStatus
apply_update s u =
    update_cluster_conditions s u.type u.status u.reason u.message u.updated u.transited

pub run_updates : ClusterStatus → List Update → ClusterStatus
run_updates s [] = s
run_updates s (u ∷ us) = run_updates (apply_update s u) us

-- Any sequence of `UpdateClusterConditions` calls keeps the conditions well formed: at most one of
-- each type, never Running beside Restarting, and never a cluster both failed and running.
pub run_updates-IsWellFormed :
    (s : ClusterStatus) (us : List Update) → IsWellFormed s → IsWellFormed (run_updates s us)
unfolding run_updates update_cluster_conditions
run_updates-IsWellFormed s [] h = h
run_updates-IsWellFormed s (u ∷ us) h =
    run_updates-IsWellFormed (apply_update s u) us (set_condition-IsWellFormed s _ h)

pub empty_status-IsWellFormed : IsWellFormed empty_status
unfolding is_failed is_running
empty_status-IsWellFormed = record {
  unique = λ t. omega arith;
  exclusive = omega arith;
  failed_stops = λ e. refl;
}

-- Have two conditions, the current one if there is one and a new one, the same status and reason?
abbrev pub says_the_same : Option ClusterCondition → ClusterCondition → Bool
says_the_same none c = false
says_the_same (some old) c = same_status old.status c.status && str_eq old.reason c.reason

-- The new condition as it is stored: since when it holds is kept while the status is.
abbrev pub stored : Option ClusterCondition → ClusterCondition → ClusterCondition
stored none c = c
stored (some old) c =
    if same_status old.status c.status
    then record c { last_transition_time = old.last_transition_time }
    else c

-- What a new condition of the first type leaves of the condition of another type.
abbrev pub others :
    ConditionType → ConditionType → Option ClusterCondition → Option ClusterCondition
others ConditionType.running ConditionType.restarting old = none
others ConditionType.restarting ConditionType.running old = none
others ConditionType.failed ConditionType.running (some old) =
    some (record old { status = ConditionStatus.cond_false })
others _ _ old = old

-- The condition of a type after `setCondition`, by what it was before.
abbrev pub expected : ClusterStatus → ClusterCondition → ConditionType → Option ClusterCondition
expected s c t =
    if is_failed s || says_the_same (get_condition s c.type) c
    then get_condition s t
    else if same_type c.type t
    then some (stored (get_condition s c.type) c)
    else others c.type t (get_condition s t)

abbrev OfType : ConditionType → Option ClusterCondition → Type 0
OfType t none = Unit
OfType t (some c) = same_type c.type t ≡ true

find_condition-OfType :
    (cs : List ClusterCondition) (t : ConditionType) → OfType t (find_condition cs t)
unfolding find_condition
find_condition-OfType [] t = tt
find_condition-OfType (c ∷ cs) t = elim (Bool-cases (same_type c.type t)) [
  | inl e ↦ rw e e
  | inr e ↦ rw e (find_condition-OfType cs t)
]

others_lem :
    (new t : ConditionType) (old : Option ClusterCondition)
    → same_type new t ≡ false
    → OfType t old
    → others new t old ≡ (if is_replaced new t then none else map_condition (stop_running new) old)
unfolding is_replaced same_type
others_lem new t none h g = ground arith
others_lem new t (some c) h g = ground arith

pub says_the_same_lem :
    (old : Option ClusterCondition) (c : ClusterCondition)
    → (keeps_status old c && keeps_reason old c) ≡ says_the_same old c
says_the_same_lem none c = refl
says_the_same_lem (some old) c = refl

stored_lem :
    (old : Option ClusterCondition) (c : ClusterCondition) → with_transition old c ≡ stored old c
stored_lem none c = refl
stored_lem (some old) c = ground arith

-- What `setCondition` makes of the condition of every type. A failed cluster keeps all; so does a
-- condition whose status and reason are those of the current one. Otherwise the new condition is
-- found under its type, with the old transition time if the status is the same; Running and
-- Restarting drive one another out; a failure sets Running to false; all other types are untouched.
pub get_condition-set_condition :
    (s : ClusterStatus) (c : ClusterCondition) (t : ConditionType)
    → get_condition (set_condition s c) t ≡ expected s c t
unfolding set_condition get_condition
get_condition-set_condition s c t = ground (
  arith,
  find_condition-append (filter_out_condition s.conditions c.type)
      (with_transition (find_condition s.conditions c.type) c ∷ []) t,
  find_condition-filter_out_condition c.type t s.conditions,
  is_replaced_same c.type t,
  says_the_same_lem (find_condition s.conditions c.type) c,
  stored_lem (find_condition s.conditions c.type) c,
  others_lem c.type t (find_condition s.conditions t),
  find_condition-OfType s.conditions t,
)
