-- ===== src/Reconcile/Pods.antt =====
-- ReconcilePods of pkg/controller/ctrlcommon/service.go.
use Prim.Native.String.{◌++◌}
use kubecluster.Prelude.{
  ℕ, suc, ℤ, pos, leb_ℤ, String, Bool, true, false, ◌&&◌, List, [], ◌∷◌, Option, none, some, str_eq,
  if◌then◌else◌,
}
use kubecluster.Errors.{Result, ok, panic}
use kubecluster.Types.{
  Pod, ContainerStatus, ConditionType, ConditionStatus, ReplicaSpec, RestartPolicy, ConfigMap,
  is_failed_phase, cluster_default_container_name, kube_cluster_kind,
}
use kubecluster.Strings.{itoa_ℤ}
use kubecluster.Labels.{gen_replica_type_label}
use kubecluster.Slices.{get_pod_slices}
use kubecluster.Expectation.{gen_expectation_pods_key}
use kubecluster.World.{M, Call, EventType, ◌>>=◌, ◌>>◌, pure, lift, note, get_cluster, set_status}
use kubecluster.Control.{delete_pod}
use kubecluster.Reconcile.Naming.{Ctx, new_reason}
use kubecluster.Reconcile.Status.{
  initialize_replica_statuses, update_cluster_replica_statuses, update_conditions,
}
use kubecluster.Reconcile.Select.{filter_pods_for_replica_type}
use kubecluster.Reconcile.PodCreation.{create_new_pod}

-- The magic number that stands for no exit code.
abbrev no_exit_code : ℤ
no_exit_code = pos 48879

-- The exit code of the default container, if it has terminated.
unfoldable pub find_exit_code : List ContainerStatus → Option ℤ
find_exit_code [] = none
find_exit_code (status ∷ statuses) =
    let rest = find_exit_code statuses in
    if str_eq status.name cluster_default_container_name
    then elim status.terminated [ some t ↦ some t.exit_code | none ↦ rest ]
    else rest

-- clusterutil.IsRetryableExitCode
is_retryable_exit_code : ℤ → Bool
is_retryable_exit_code exit_code = leb_ℤ (pos 128) exit_code

-- Does the policy restart a pod that failed with this exit code?
pub restarts : RestartPolicy → ℤ → Bool
unfolding is_retryable_exit_code
restarts RestartPolicy.exit_code exit_code = is_retryable_exit_code exit_code
restarts RestartPolicy.on_failure exit_code = true
restarts RestartPolicy.always exit_code = true
restarts _ exit_code = false

abbrev value_or_none : Option ℤ → ℤ
value_or_none (some c) = c
value_or_none none = no_exit_code

-- The test of `ReconcilePods` on the pod alone.
unfoldable pub is_restarted : ReplicaSpec → Pod → Bool
unfolding find_exit_code restarts
is_restarted spec pod =
    is_failed_phase pod.phase
    && restarts spec.restart_policy (value_or_none (find_exit_code pod.container_statuses))

-- The exit code is reported.
abbrev pub report_found : Pod → Option ℤ → M Unit
report_found pod none = pure tt
report_found pod (some code) = note (
    Call.event EventType.normal "ExitedWithCode"
      ("Pod: " ++ pod.namespace ++ "." ++ pod.name ++ " exited with code " ++ itoa_ℤ code))

unfoldable pub report_exit_code : Pod → M Unit
unfolding find_exit_code
report_exit_code pod = report_found pod (find_exit_code pod.container_statuses)

-- A deletion, which is expected from then on.
unfoldable pub delete_expected : Ctx → String → Pod → M Unit
unfolding delete_pod note
delete_expected ctx key pod = do
  delete_pod ctx.env pod.namespace pod.name
  note (Call.raise_expectations key (pos 0) (pos 1))

-- A pod that failed is deleted, to be created again by a later reconciliation.
unfoldable pub restart_pod : Ctx → String → String → Pod → M Unit
unfolding delete_expected get_cluster note new_reason update_conditions
restart_pod ctx key rtype pod = do
  delete_expected ctx key pod
  cluster ← get_cluster
  let msg =
      "cluster " ++ cluster.name ++ " is restarting because " ++ rtype ++ " replica(s) failed."
  let reason = new_reason kube_cluster_kind "Restarting"
  note (Call.event EventType.warning reason msg)
  update_conditions ctx.env ConditionType.restarting ConditionStatus.cond_true reason msg

abbrev when : Bool → M Unit → M Unit
when b m = if b then m else pure tt

unfoldable pub count_in_status : String → Pod → M Unit
unfolding get_cluster set_status update_cluster_replica_statuses
count_in_status rtype pod = do
  cluster ← get_cluster
  status ← lift (update_cluster_replica_statuses cluster.status rtype pod)
  set_status status

-- The only pod of its index.
unfoldable pub reconcile_single_pod : Ctx → String → String → ReplicaSpec → ℤ → ℕ → Pod → M Unit
unfolding report_exit_code
reconcile_single_pod ctx key rtype spec replicas index pod = do
  when (leb_ℤ replicas (pos index)) (delete_expected ctx key pod)
  report_exit_code pod
  when (is_restarted spec pod) (restart_pod ctx key rtype pod)
  count_in_status rtype pod

-- One round of the loop: too many pods are only logged, a missing one is created.
unfoldable pub reconcile_pod_slice :
    Ctx → String → String → ReplicaSpec → ℤ → ConfigMap → ℕ → List Pod → M Unit
unfolding get_cluster create_new_pod reconcile_single_pod
reconcile_pod_slice ctx key rtype spec replicas config_map index [] = do
  cluster ← get_cluster
  create_new_pod ctx rtype index spec
      (ctx.schema.is_controller cluster.spec.cluster_replica_spec rtype index) config_map
reconcile_pod_slice ctx key rtype spec replicas config_map index (pod ∷ []) =
    reconcile_single_pod ctx key rtype spec replicas index pod
reconcile_pod_slice ctx key rtype spec replicas config_map index (_ ∷ _ ∷ _) = pure tt

unfoldable pub reconcile_pod_slices :
    Ctx → String → String → ReplicaSpec → ℤ → ConfigMap → ℕ → List (List Pod) → M Unit
unfolding reconcile_pod_slice
reconcile_pod_slices ctx key rtype spec replicas config_map index [] = pure tt
reconcile_pod_slices ctx key rtype spec replicas config_map index (slice ∷ slices) = do
  reconcile_pod_slice ctx key rtype spec replicas config_map index slice
  reconcile_pod_slices ctx key rtype spec replicas config_map (suc index) slices

-- `*p`, which panics on nil.
unfoldable pub deref : {A : Type 0} → Option A → Result A
deref (some a) = ok a
deref none = panic

unfoldable pub reconcile_pods : Ctx → String → ReplicaSpec → List Pod → ConfigMap → M Unit
unfolding get_cluster set_status initialize_replica_statuses filter_pods_for_replica_type
    get_pod_slices reconcile_pod_slices
reconcile_pods ctx rtype spec pods config_map = do
  cluster ← get_cluster
  cluster_key ← lift (ctx.key_func cluster)
  replicas ← lift (deref spec.replicas)
  set_status (initialize_replica_statuses cluster.status rtype)
  slices ← lift (
      get_pod_slices (filter_pods_for_replica_type ctx pods (gen_replica_type_label rtype))
        replicas)
  reconcile_pod_slices ctx (gen_expectation_pods_key cluster_key rtype) rtype spec replicas
      config_map 0 slices
