-- ===== src/Reconcile/Limits.antt =====
-- The limits of a cluster: pkg/core/cluster.go, the counters of pkg/util/k8sutil/k8sutil.go, and
-- pkg/util/clusterutil/util.go.
use Prim.Native.String.{◌++◌}
use kubecluster.Prelude.{
  ℕ, ◌+◌, ◌-◌, ◌*◌, ◌%◌, ◌^◌, ltb, leb, ℤ, pos, neg, add32, leb_ℤ, ltb_ℤ, eqb_ℤ, String, Bool, true,
  false, not, ◌&&◌, List, [], ◌∷◌, Option, none, some, Dict, filter, if◌then◌else◌, str_eq,
}
use kubecluster.Errors.{Result, ok, panic, map_ok}
use kubecluster.Types.{
  Pod, PodCondition, Terminated, Waiting, ContainerStatus, ReplicaStatus, ClusterStatus,
  ReplicaSpecs, RestartPolicy, RunPolicy, is_running_phase, is_failed_phase, is_succeeded_phase,
}
use kubecluster.Strings.{to_lower, itoa_ℤ}
use kubecluster.World.{M, Call, EventType, ◌>>◌, pure, note}
use kubecluster.Reconcile.Naming.{Ctx}
use kubecluster.Reconcile.Select.{filter_pods_for_replica_type}

abbrev is_none : {A : Type 0} → Option A → Bool
is_none none = true
is_none (some a) = false

-- k8sutil.IsPodActive
is_pod_active : Pod → Bool
is_pod_active p =
    not (is_succeeded_phase p.phase)
    && not (is_failed_phase p.phase)
    && is_none p.deletion_timestamp

unfoldable pub filter_active_pods : List Pod → List Pod
unfolding is_pod_active
filter_active_pods pods = filter is_pod_active pods

-- `result++` for each pod that passes, on an int32.
abbrev count_from : (Pod → Bool) → ℤ → List Pod → ℤ
count_from p result [] = result
count_from p result (pod ∷ pods) =
    count_from p (if p pod then add32 result (pos 1) else result) pods

-- k8sutil.FilterPodCount of the phase PodFailed.
unfoldable pub filter_failed_pod_count : List Pod → ℤ
filter_failed_pod_count pods = count_from (λ (p : Pod). is_failed_phase p.phase) (pos 0) pods

-- k8sutil.GetTotalReplicas; a nil spec panics, and a nil count is 1.
get_total_replicas_from : ℤ → ReplicaSpecs → Result ℤ
get_total_replicas_from total [] = ok total
get_total_replicas_from total ((rtype, none) ∷ specs) = panic
get_total_replicas_from total ((rtype, some spec) ∷ specs) = elim spec.replicas [
  | some n ↦ get_total_replicas_from (add32 total n) specs
  | none ↦ get_total_replicas_from (add32 total (pos 1)) specs
]

unfoldable pub get_total_replicas : ReplicaSpecs → Result ℤ
unfolding get_total_replicas_from
get_total_replicas specs = get_total_replicas_from (pos 0) specs

abbrev total_failed_from : ℤ → Dict ReplicaStatus → ℤ
total_failed_from total [] = total
total_failed_from total ((rtype, r) ∷ statuses) = total_failed_from (add32 total r.failed) statuses

-- k8sutil.GetTotalFailedReplicas
unfoldable pub get_total_failed_replicas : Dict ReplicaStatus → ℤ
get_total_failed_replicas statuses = total_failed_from (pos 0) statuses

-- clusterutil.IsClusterSuspended
unfoldable pub is_cluster_suspended : RunPolicy → Bool
is_cluster_suspended policy = elim policy.suspend [ some b ↦ b | none ↦ false ]

-- The int64 of these 64 bits.
abbrev signed64 : ℕ → ℤ
signed64 m = if ltb m (2 ^ 63) then pos m else neg (pos (2 ^ 64 - m))

-- `time.Duration(n) * time.Second`, an int64 of nanoseconds that wraps around.
pub in_seconds : ℤ → ℤ
in_seconds (ℤ.pos n) = signed64 (n * 1000000000 % 2 ^ 64)
in_seconds (ℤ.negsuc n) = signed64 ((2 ^ 64 - (n + 1) * 1000000000 % 2 ^ 64) % 2 ^ 64)

-- Time.Sub, which stops at the limits of an int64.
sub_time : ℕ → ℕ → ℤ
sub_time t u =
    if leb u t
    then pos (if ltb (t - u) (2 ^ 63) then t - u else 2 ^ 63 - 1)
    else neg (pos (if ltb (u - t) (2 ^ 63) then u - t else 2 ^ 63))

-- core.PastActiveDeadline
unfoldable pub past_active_deadline : RunPolicy → ClusterStatus → ℕ → Bool
unfolding in_seconds sub_time
past_active_deadline policy status now = elim policy.active_deadline_seconds [
  | none ↦ false
  | some deadline ↦ elim status.start_time [
    | none ↦ false
    | some start ↦ leb_ℤ (in_seconds deadline) (sub_time now start)
  ]
]

-- The restart counters of containers, added to a sum.
abbrev add_restarts : ℤ → List ContainerStatus → ℤ
add_restarts result [] = result
add_restarts result (stat ∷ stats) = add_restarts (add32 result stat.restart_count) stats

-- Only pods that run are counted, with their init containers.
abbrev add_pods : ℤ → List Pod → ℤ
add_pods result [] = result
add_pods result (po ∷ pods) =
    add_pods
      (if is_running_phase po.phase
        then add_restarts (add_restarts result po.init_container_statuses) po.container_statuses
        else result)
      pods

-- Does the backoff limit count the pods of this policy?
abbrev is_counted : RestartPolicy → Bool
is_counted RestartPolicy.on_failure = true
is_counted RestartPolicy.always = true
is_counted RestartPolicy.exit_code = true
is_counted _ = false

sum_restarts : Ctx → List Pod → ℤ → ReplicaSpecs → Result ℤ
unfolding filter_pods_for_replica_type
sum_restarts ctx pods result [] = ok result
sum_restarts ctx pods result ((rtype, none) ∷ specs) = panic
sum_restarts ctx pods result ((rtype, some spec) ∷ specs) =
    sum_restarts ctx pods
      (if is_counted spec.restart_policy
        then add_pods result (filter_pods_for_replica_type ctx pods (to_lower rtype))
        else result)
      specs

abbrev beyond : ℤ → ℤ → Bool
beyond limit result = if eqb_ℤ limit (pos 0) then ltb_ℤ (pos 0) result else leb_ℤ limit result

-- core.PastBackoffLimit
unfoldable pub past_backoff_limit : Ctx → RunPolicy → ReplicaSpecs → List Pod → Result Bool
unfolding sum_restarts
past_backoff_limit ctx policy specs pods = elim policy.backoff_limit [
  | none ↦ ok false
  | some limit ↦ map_ok (beyond limit) (sum_restarts ctx pods (pos 0) specs)
]

-- The closure recordContainerStatus of core.RecordAbnormalPods: an exit code that is not 0, and a
-- message of a container that waits.
abbrev pub record_terminated : Pod → String → Option Terminated → M Unit
record_terminated pod name none = pure tt
record_terminated pod name (some t) =
    if eqb_ℤ t.exit_code (pos 0)
    then pure tt
    else note (
        Call.event EventType.warning t.reason (
          "Error pod "
          ++ pod.name
          ++ " container "
          ++ name
          ++ " exitCode: "
          ++ itoa_ℤ t.exit_code
          ++ " terminated message: "
          ++ t.message))

abbrev pub record_waiting : Pod → String → Option Waiting → M Unit
record_waiting pod name none = pure tt
record_waiting pod name (some w) =
    if str_eq w.message ""
    then pure tt
    else note (
        Call.event EventType.warning w.reason
          ("Error pod " ++ pod.name ++ " container " ++ name ++ " waiting message: " ++ w.message))

unfoldable pub record_container_statuses : Pod → List ContainerStatus → M Unit
record_container_statuses pod [] = pure tt
record_container_statuses pod (status ∷ statuses) = do
  record_terminated pod status.name status.terminated
  record_waiting pod status.name status.waiting
  record_container_statuses pod statuses

-- The first condition after the sort: the one of the latest transition. Of two that changed at the
-- same time the sort, which is not stable, leaves open which comes first; here it is the one listed first.
abbrev latest_condition : PodCondition → List PodCondition → PodCondition
latest_condition c [] = c
latest_condition c (d ∷ cs) =
    latest_condition (if ltb c.last_transition_time d.last_transition_time then d else c) cs

abbrev pub record_condition : Pod → List PodCondition → M Unit
record_condition pod [] = pure tt
record_condition pod (c ∷ cs) =
    let condition = latest_condition c cs in
    if condition.is_true
    then pure tt
    else note (
        Call.event EventType.warning condition.reason
          ("Error pod " ++ pod.name ++ " condition message: " ++ condition.message))

abbrev pub or_statuses : Pod → List ContainerStatus → M Unit → M Unit
or_statuses pod [] rest = rest
or_statuses pod (status ∷ statuses) rest = record_container_statuses pod (status ∷ statuses)

-- core.RecordAbnormalPods
unfoldable pub record_abnormal_pods : List Pod → M Unit
record_abnormal_pods [] = pure tt
record_abnormal_pods (pod ∷ pods) = do
  or_statuses pod pod.container_statuses
      (or_statuses pod pod.init_container_statuses (record_condition pod pod.conditions))
  record_abnormal_pods pods
