-- ===== src/Conditions/Failing.antt =====
-- How single calls of `setCondition` (pkg/util/status.go) bear on failing and restarting.
use kubecluster.Prelude.{
  ◌≤◌, Bool, true, false, List, [], ◌∷◌, ◌++◌, some, ◌≡◌, ◌≢◌, refl, sym, ◌∙◌, subst, inl, inr,
  arith, Bool-cases, Option-cases, ◌&&◌, ◌||◌, if◌then◌else◌,
}
use kubecluster.Types.{
  ClusterCondition, ClusterStatus, ConditionType, ConditionStatus, same_type, same_status,
}
use kubecluster.Conditions.{
  any_condition_true, is_failed, find_condition, get_condition, set_condition, keeps_status,
  keeps_reason, with_transition, filter_out_condition, is_replaced,
}
use kubecluster.Conditions.Filter.{
  occurrences, any_condition_true-filter_out_condition, any_condition_true-append, stops_running,
  same_type_iff,
}
use kubecluster.Conditions.Invariant.{IsWellFormed, set_condition-IsWellFormed}
use kubecluster.Conditions.Updates.{
  says_the_same, says_the_same_lem, stored, get_condition-set_condition,
}

any_condition_true-changed :
    (cs : List ClusterCondition) (d : ClusterCondition) (t : ConditionType)
    → any_condition_true (filter_out_condition cs d.type ++ d ∷ []) t
      ≡ (if is_replaced d.type t || stops_running d.type t then false else any_condition_true cs t)
        || (same_type d.type t && same_status d.status ConditionStatus.cond_true)
unfolding any_condition_true
any_condition_true-changed cs d t =
    rw
      (
        any_condition_true-append (filter_out_condition cs d.type) (d ∷ []) t,
        any_condition_true-filter_out_condition d.type t cs,
      )
      (ground arith)

abbrev unchanged : ClusterStatus → ClusterCondition → Bool
unchanged s c =
    keeps_status (find_condition s.conditions c.type) c
    && keeps_reason (find_condition s.conditions c.type) c

abbrev updated : ClusterStatus → ClusterCondition → ClusterCondition
updated s c = with_transition (find_condition s.conditions c.type) c

-- No condition but Failed makes a cluster fail.
pub is_failed-set_condition :
    (s : ClusterStatus) (c : ClusterCondition)
    → same_type c.type ConditionType.failed ≡ false
    → is_failed (set_condition s c) ≡ is_failed s
unfolding is_failed set_condition
is_failed-set_condition s c h =
    elim (Bool-cases (any_condition_true s.conditions ConditionType.failed)) [
      | inl failed ↦ rw failed failed
      | inr alive ↦ rw alive (elim (Bool-cases (unchanged s c)) [
        | inl same ↦ rw same alive
        | inr new ↦ rw new (
            any_condition_true-changed s.conditions (updated s c) ConditionType.failed
            ∙ rw (alive, h) (ground arith))
      ])
    ]

-- The first condition of a type is true: then some condition of the type is.
found_true :
    (cs : List ClusterCondition) (t : ConditionType) (c : ClusterCondition)
    → keeps_status (find_condition cs t) c ≡ true
    → c.status ≡ ConditionStatus.cond_true
    → any_condition_true cs t ≡ true
unfolding find_condition any_condition_true same_status
found_true [] t c h true_ = cc
found_true (d ∷ cs) t c h true_ = ground (arith, found_true cs t c)

true_ne_false : true ≢ false
true_ne_false e = cc

same_status_of :
    (st : ConditionStatus)
    → st ≡ ConditionStatus.cond_true
    → same_status st ConditionStatus.cond_true ≡ true
unfolding same_status
same_status_of st e = rw e

-- A true Failed condition makes every cluster fail.
pub set_failed-is_failed :
    (s : ClusterStatus) (c : ClusterCondition)
    → c.type ≡ ConditionType.failed
    → c.status ≡ ConditionStatus.cond_true
    → is_failed (set_condition s c) ≡ true
unfolding is_failed set_condition
set_failed-is_failed s c t h =
    elim (Bool-cases (any_condition_true s.conditions ConditionType.failed)) [
      | inl failed ↦ rw failed failed
      | inr alive ↦ rw alive (elim (Bool-cases (unchanged s c)) [
        | inl same ↦ absurd (
            true_ne_false (
              sym (
                subst (λ x. any_condition_true s.conditions x ≡ true) t
                  (found_true s.conditions c.type c (ground (arith, same)) h))
              ∙ alive))
        | inr new ↦ rw new (
            any_condition_true-changed s.conditions (updated s c) ConditionType.failed
            ∙ rw (alive, (same_type_iff c.type ConditionType.failed).1 t, same_status_of c.status h)
                (ground arith))
      ])
    ]

found-occurs :
    (cs : List ClusterCondition) (t : ConditionType) (d : ClusterCondition)
    → find_condition cs t ≡ some d
    → 1 ≤ occurrences t cs
unfolding find_condition
found-occurs [] t d e = cc
found-occurs (c ∷ cs) t d e = ground (arith, found-occurs cs t d)

says_the_same-unchanged :
    (s : ClusterStatus) (c : ClusterCondition)
    → says_the_same (get_condition s c.type) c ≡ unchanged s c
unfolding find_condition get_condition
says_the_same-unchanged s c = sym (says_the_same_lem (get_condition s c.type) c)

set-found :
    (s : ClusterStatus) (c : ClusterCondition)
    → is_failed s ≡ false
    → (d : ClusterCondition) × (find_condition (set_condition s c).conditions c.type ≡ some d)
unfolding get_condition
set-found s c alive = elim (Bool-cases (unchanged s c)) [
  | inl same ↦ elim (Option-cases (find_condition s.conditions c.type)) [
    | inl missing ↦ absurd (true_ne_false (sym same ∙ rw missing refl))
    | inr (d, found) ↦ (
      d,
      get_condition-set_condition s c c.type ∙ rw (alive, says_the_same-unchanged s c ∙ same) found,
    )
  ]
  | inr new ↦ (
    stored (get_condition s c.type) c,
    get_condition-set_condition s c c.type
        ∙ rw (alive, says_the_same-unchanged s c ∙ new, (same_type_iff c.type c.type).1 refl) refl,
  )
]

-- After a Running condition was set on a well-formed cluster that has not failed, there is no
-- Restarting condition.
pub set_running-restarting :
    (s : ClusterStatus) (c : ClusterCondition)
    → IsWellFormed s
    → is_failed s ≡ false
    → c.type ≡ ConditionType.running
    → occurrences ConditionType.restarting (set_condition s c).conditions ≡ 0
set_running-restarting s c h alive t =
    let after = set_condition-IsWellFormed s c h in
    let (d, found) = set-found s c alive in
    let there =
      subst (λ x. 1 ≤ occurrences x (set_condition s c).conditions) t
        (found-occurs (set_condition s c).conditions c.type d found) in
    omega (arith, after.exclusive, there)
