-- ===== src/Conditions/Filter.antt =====
-- What the loop of `filterOutCondition` leaves of a list of conditions (pkg/util/status.go).
use kubecluster.Prelude.{
  ℕ, Bool, true, false, List, [], ◌∷◌, ◌++◌, Option, none, some, ◌≡◌, ◌&&◌, ◌||◌, arith, refl, ap,
  ◌↔◌, count, if◌then◌else◌,
}
use kubecluster.Types.{ConditionType, ClusterCondition, same_type, same_status}
use kubecluster.Conditions.{
  any_condition_true, find_condition, is_replaced, stop_running, filter_out_condition,
}

-- How many conditions of a type a list holds.
abbrev pub occurrences : ConditionType → List ClusterCondition → ℕ
occurrences t = count (λ c. same_type c.type t)

pub same_type_iff : (a b : ConditionType) → (same_type a b ≡ true) ↔ (a ≡ b)
unfolding same_type
same_type_iff a b = ground arith

is_replaced_congr :
    (new a b : ConditionType) → same_type a b ≡ true → is_replaced new a ≡ is_replaced new b
is_replaced_congr new a b h = ap (is_replaced new) ((same_type_iff a b).0 h)

same_type_congr : (a b c : ConditionType) → same_type a b ≡ true → same_type a c ≡ same_type b c
same_type_congr a b c h = ap (λ t. same_type t c) ((same_type_iff a b).0 h)

pub occurrences-filter_out_condition :
    (new t : ConditionType) (cs : List ClusterCondition)
    → occurrences t (filter_out_condition cs new)
      ≡ (if is_replaced new t then 0 else occurrences t cs)
unfolding filter_out_condition
occurrences-filter_out_condition new t [] = ground arith
occurrences-filter_out_condition new t (c ∷ cs) =
    ground (arith, is_replaced_congr new c.type t, occurrences-filter_out_condition new t cs)

abbrev pub stops_running : ConditionType → ConditionType → Bool
stops_running new t = same_type new ConditionType.failed && same_type t ConditionType.running

pub any_condition_true-filter_out_condition :
    (new t : ConditionType) (cs : List ClusterCondition)
    → any_condition_true (filter_out_condition cs new) t
      ≡ (if is_replaced new t || stops_running new t then false else any_condition_true cs t)
unfolding any_condition_true filter_out_condition same_status
any_condition_true-filter_out_condition new t [] = ground arith
any_condition_true-filter_out_condition new t (c ∷ cs) = ground (
  arith,
  is_replaced_congr new c.type t,
  same_type_congr c.type t ConditionType.running,
  any_condition_true-filter_out_condition new t cs,
)

abbrev pub map_condition :
    (ClusterCondition → ClusterCondition) → Option ClusterCondition → Option ClusterCondition
map_condition f none = none
map_condition f (some c) = some (f c)

-- The first condition of a type that is not replaced stays the first, and may be stopped.
pub find_condition-filter_out_condition :
    (new t : ConditionType) (cs : List ClusterCondition)
    → find_condition (filter_out_condition cs new) t
      ≡ (if is_replaced new t then none else map_condition (stop_running new) (find_condition cs t))
unfolding find_condition filter_out_condition
find_condition-filter_out_condition new t [] = ground arith
find_condition-filter_out_condition new t (c ∷ cs) = ground (
  arith,
  is_replaced_congr new c.type t,
  same_type_congr c.type t ConditionType.running,
  find_condition-filter_out_condition new t cs,
)

pub any_condition_true-append :
    (cs ds : List ClusterCondition) (t : ConditionType)
    → any_condition_true (cs ++ ds) t ≡ any_condition_true cs t || any_condition_true ds t
unfolding any_condition_true
any_condition_true-append [] ds t = refl
any_condition_true-append (c ∷ cs) ds t = ground (arith, any_condition_true-append cs ds t)

abbrev or_else : Option ClusterCondition → Option ClusterCondition → Option ClusterCondition
or_else none b = b
or_else (some c) b = some c

pub find_condition-append :
    (cs ds : List ClusterCondition) (t : ConditionType)
    → find_condition (cs ++ ds) t ≡ or_else (find_condition cs t) (find_condition ds t)
unfolding find_condition
find_condition-append [] ds t = refl
find_condition-append (c ∷ cs) ds t = ground (arith, find_condition-append cs ds t)

-- A type is replaced by a condition of its own.
is_replaced_self : (t : ConditionType) → is_replaced t t ≡ true
unfolding is_replaced
is_replaced_self t = ground arith

pub is_replaced_same : (new t : ConditionType) → same_type new t ≡ true → is_replaced new t ≡ true
unfolding is_replaced
is_replaced_same new t h = ground arith
