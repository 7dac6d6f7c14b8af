-- ===== src/Conditions/Invariant.antt =====
-- What holds of the conditions of a cluster after any updates (pkg/util/status.go).
use kubecluster.Prelude.{
  ℕ, ◌+◌, ◌≤◌, Bool, true, false, List, [], ◌∷◌, ◌++◌, ◌≡◌, sym, ◌∙◌, inl, inr, Bool-cases, arith,
  count-append, if◌then◌else◌, ◌&&◌, ◌||◌,
}
use kubecluster.Types.{
  ConditionType, ConditionStatus, ClusterCondition, ClusterStatus, same_type, same_status,
}
use kubecluster.Conditions.{
  any_condition_true, is_failed, is_running, find_condition, is_replaced, filter_out_condition,
  with_transition, set_condition, keeps_status, keeps_reason,
}
use kubecluster.Conditions.Filter.{
  occurrences, occurrences-filter_out_condition, any_condition_true-filter_out_condition,
  any_condition_true-append, is_replaced_same, stops_running,
}

-- At most one condition of each type, never Running beside Restarting, and no cluster that has
-- failed and is running.
pub record IsWellFormed (s : ClusterStatus) : Type 0 where
  pub unique : (t : ConditionType) → occurrences t s.conditions ≤ 1
  pub exclusive :
      occurrences ConditionType.running s.conditions
        + occurrences ConditionType.restarting s.conditions
      ≤ 1
  pub failed_stops : is_failed s ≡ true → is_running s ≡ false

exclusive_lem :
    (n : ConditionType) (a b : ℕ)
    → a + b ≤ 1
    → (if is_replaced n ConditionType.running then 0 else a)
        + (if same_type n ConditionType.running then 1 else 0)
        + ((if is_replaced n ConditionType.restarting then 0 else b)
            + (if same_type n ConditionType.restarting then 1 else 0))
      ≤ 1
unfolding is_replaced
exclusive_lem n a b h = ground arith

-- The test of `isStatusConditionTrue` on the condition that is appended.
abbrev is_true_at : ClusterCondition → ConditionType → Bool
is_true_at c t = same_type c.type t && same_status c.status ConditionStatus.cond_true

failed_stops_lem :
    (n : ConditionType) (b : Bool) (st : Bool) (running : Bool)
    → b ≡ false
    → (if is_replaced n ConditionType.failed || stops_running n ConditionType.failed
          then false
          else b)
        || same_type n ConditionType.failed && st
      ≡ true
    → (if is_replaced n ConditionType.running || stops_running n ConditionType.running
          then false
          else running)
        || same_type n ConditionType.running && st
      ≡ false
unfolding is_replaced
failed_stops_lem n b st running h k = ground arith

module _ (cs : List ClusterCondition) (new : ClusterCondition) where
  abbrev replaced : List ClusterCondition
  replaced = filter_out_condition cs new.type ++ new ∷ []

  occurrences-replaced :
      (t : ConditionType)
      → occurrences t replaced
        ≡ (if is_replaced new.type t then 0 else occurrences t cs)
          + (if same_type new.type t then 1 else 0)
  occurrences-replaced t = ground (
    arith,
    count-append (λ c. same_type c.type t) (filter_out_condition cs new.type) (new ∷ []),
    occurrences-filter_out_condition new.type t cs,
  )

  any_condition_true-replaced :
      (t : ConditionType)
      → any_condition_true replaced t
        ≡ (if is_replaced new.type t || stops_running new.type t
            then false
            else any_condition_true cs t)
          || is_true_at new t
  any_condition_true-replaced t =
      any_condition_true-append (filter_out_condition cs new.type) (new ∷ []) t
      ∙ unfold any_condition_true in
        ground (arith, any_condition_true-filter_out_condition new.type t cs)

  replaced_unique : (t : ConditionType) → occurrences t cs ≤ 1 → occurrences t replaced ≤ 1
  replaced_unique t h = ground (arith, occurrences-replaced t, is_replaced_same new.type t)

  replaced-exclusive :
      occurrences ConditionType.running cs + occurrences ConditionType.restarting cs ≤ 1
      → occurrences ConditionType.running replaced + occurrences ConditionType.restarting replaced
        ≤ 1
  replaced-exclusive h =
      rw (occurrences-replaced ConditionType.running, occurrences-replaced ConditionType.restarting)
        (exclusive_lem new.type _ _ h)

  replaced-failed_stops :
      any_condition_true cs ConditionType.failed ≡ false
      → any_condition_true replaced ConditionType.failed ≡ true
      → any_condition_true replaced ConditionType.running ≡ false
  replaced-failed_stops h k =
      any_condition_true-replaced ConditionType.running
      ∙ failed_stops_lem new.type _ _ _ h
          (sym (any_condition_true-replaced ConditionType.failed) ∙ k)

abbrev unchanged : ClusterStatus → ClusterCondition → Bool
unchanged s c =
    keeps_status (find_condition s.conditions c.type) c
    && keeps_reason (find_condition s.conditions c.type) c

abbrev updated : ClusterStatus → ClusterCondition → ClusterCondition
updated s c = with_transition (find_condition s.conditions c.type) c

-- Whatever the new condition, `setCondition` keeps the conditions well formed.
pub set_condition-IsWellFormed :
    (s : ClusterStatus) (c : ClusterCondition) → IsWellFormed s → IsWellFormed (set_condition s c)
unfolding set_condition is_running
set_condition-IsWellFormed s c h =
    elim (Bool-cases (any_condition_true s.conditions ConditionType.failed)) [
      | inl failed ↦ rw failed h
      | inr alive ↦ rw alive (elim (Bool-cases (unchanged s c)) [
        | inl same ↦ rw same h
        | inr new ↦ rw new (record {
          unique = λ t. replaced_unique s.conditions (updated s c) t (h.unique t);
          exclusive = replaced-exclusive s.conditions (updated s c) h.exclusive;
          failed_stops = replaced-failed_stops s.conditions (updated s c) alive;
        })
      ])
    ]
