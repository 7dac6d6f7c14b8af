-- ===== src/Reconcile/Cluster.antt =====
-- ReconcileKubeCluster of pkg/controller/ctrlcommon/controller.go.
use Prim.Native.String.{◌++◌}
use kubecluster.Prelude.{
  ℤ, pos, add32, ltb_ℤ, eqb_ℤ, String, Bool, true, false, not, ◌&&◌, ◌||◌, List, [], ◌∷◌, Option,
  none, some, map, if◌then◌else◌,
}
use kubecluster.Errors.{Result, ok, panic}
use kubecluster.Types.{
  Pod, Service, ConfigMap, ReplicaStatus, ReplicaSpecs, RunPolicy, ClusterStatus, KubeCluster,
  ConditionType, ConditionStatus, kube_cluster_kind,
}
use kubecluster.Conditions.{is_finished, is_running, is_suspended}
use kubecluster.World.{
  M, Call, EventType, ◌>>=◌, ◌>>◌, pure, lift, note, now, get_cluster, set_status,
}
use kubecluster.Control.{PodGroupControl}
use kubecluster.Reconcile.Naming.{Ctx, new_reason}
use kubecluster.Reconcile.Status.{update_conditions}
use kubecluster.Reconcile.Pods.{reconcile_pods}
use kubecluster.Reconcile.Services.{reconcile_services}
use kubecluster.Reconcile.ConfigMaps.{reconcile_config_map}
use kubecluster.Reconcile.Equality.{same_cluster_status}
use kubecluster.Reconcile.Limits.{
  filter_active_pods, filter_failed_pod_count, get_total_replicas, get_total_failed_replicas,
  is_cluster_suspended, past_active_deadline, past_backoff_limit, record_abnormal_pods,
}
use kubecluster.Reconcile.Gang.{
  fill_spec, sync_pod_group, delay_pod_creation, min_member_of, min_resources_of,
}
use kubecluster.Reconcile.CleanUp.{
  delete_pod_and_services, terminate_group, cleanup_cluster, clean_up_resources, reset_expectations,
}
use kubecluster.Reconcile.Objects.{
  get_pods_for_cluster, get_services_for_cluster, get_config_map_for_cluster,
  update_cluster_status_in_api_server, update_cluster_status,
}

-- The counters of a suspended cluster: nothing is active.
abbrev idle : String × ReplicaStatus → String × ReplicaStatus
idle (rtype, r) = (rtype, record r { active = pos 0; activating = pos 0 })

unfoldable pub clear_active : M Unit
clear_active = do
  cluster ← get_cluster
  set_status (record cluster.status { replica_statuses = map idle cluster.status.replica_statuses })

-- The body of the `if IsClusterSuspended(runPolicy)`.
unfoldable pub suspend_cluster : Ctx → RunPolicy → List Pod → ClusterStatus → M Unit
unfolding clear_active
suspend_cluster ctx run_policy pods old_status = do
  clean_up_resources ctx run_policy pods
  clear_active
  cluster ← get_cluster
  let msg = kube_cluster_kind ++ " " ++ cluster.name ++ " is suspended."
  let reason = new_reason kube_cluster_kind "Suspended"
  (if is_running cluster.status
      then update_conditions ctx.env ConditionType.running ConditionStatus.cond_false reason msg
      else pure tt)
  stopped ← get_cluster
  (if is_suspended stopped.status
      then pure tt
      else update_conditions ctx.env ConditionType.suspended ConditionStatus.cond_true reason msg)
  note (Call.event EventType.normal reason msg)
  suspended ← get_cluster
  if same_cluster_status old_status suspended.status
      then pure tt
      else update_cluster_status_in_api_server ctx

-- A cluster that was suspended is resumed, with a new start time.
unfoldable pub resume_cluster : Ctx → M Unit
resume_cluster ctx = do
  cluster ← get_cluster
  if is_suspended cluster.status
      then (do
        let msg = kube_cluster_kind ++ " " ++ cluster.name ++ " is resumed."
        update_conditions ctx.env ConditionType.suspended ConditionStatus.cond_false
            (new_reason kube_cluster_kind "Suspended") msg
        t ← now ctx.env
        resumed ← get_cluster
        set_status (record resumed.status { start_time = some t })
        note (Call.event EventType.normal (new_reason kube_cluster_kind "Resumed") msg))
      else pure tt

-- `int32(len(pods))`
abbrev len32 : ℤ → List Pod → ℤ
len32 n [] = n
len32 n (pod ∷ pods) = len32 (add32 n (pos 1)) pods

-- New failures beyond the backoff limit. NumRequeues of the work queue is 0
-- (pkg/common/util/fake_workqueue.go), so the retry that is compared with the limit is the first.
exceeds_backoff_limit : RunPolicy → ℤ → ℤ → ℤ → ℤ → Bool
exceeds_backoff_limit run_policy active failed total prev = elim run_policy.backoff_limit [
  | none ↦ false
  | some limit ↦ ltb_ℤ prev failed && not (eqb_ℤ active total) && ltb_ℤ limit (pos 1)
]

-- Why the cluster fails, if it does: the backoff limit is tested before the deadline, and the clock is
-- read for the deadline only.
unfoldable pub failure_message : Ctx → KubeCluster → List Pod → M (Option String)
unfolding exceeds_backoff_limit
failure_message ctx cluster pods = do
  let run_policy = cluster.spec.run_policy
  total ← lift (get_total_replicas cluster.spec.cluster_replica_spec)
  past ← lift (past_backoff_limit ctx run_policy cluster.spec.cluster_replica_spec pods)
  let exceeds =
      exceeds_backoff_limit run_policy (len32 (pos 0) (filter_active_pods pods))
        (filter_failed_pod_count pods) total
        (get_total_failed_replicas cluster.status.replica_statuses)
  if exceeds || past
      then pure (
          some (
            "KubeCLuster " ++ cluster.name
            ++ " has failed because it has reached the specified backoff limit"))
      else (do
        t ← now ctx.env
        pure (
            if past_active_deadline run_policy cluster.status t
            then some (
                "KubeCLuster " ++ cluster.name
                ++ " has failed because it was active longer than specified deadline")
            else none))

-- The body of the `if clusterExceedsLimit`.
unfoldable pub fail_cluster : Ctx → RunPolicy → List Pod → String → M Unit
fail_cluster ctx run_policy pods message = do
  cluster ← get_cluster
  delete_pod_and_services ctx run_policy cluster.status pods
  cleanup_cluster ctx run_policy cluster.status
  terminate_group ctx
  note (Call.event EventType.normal (new_reason kube_cluster_kind "Failed") message)
  update_conditions ctx.env ConditionType.failed ConditionStatus.cond_true
      (new_reason kube_cluster_kind "Failed") message
  update_cluster_status_in_api_server ctx

abbrev is_ok : Result (Unit {0}) → Bool
is_ok (ok _) = true
is_ok _ = false

-- Are the replicas to be reconciled now? Gang scheduling waits for the pod group.
unfoldable pub sync_gang : Ctx → KubeCluster → Option PodGroupControl → M Bool
sync_gang ctx cluster none = pure true
sync_gang ctx cluster (some gang) = do
  let policy = cluster.spec.run_policy.scheduling_policy
  let specs = cluster.spec.cluster_replica_spec
  total ← lift (get_total_replicas specs)
  let min_member = min_member_of total policy
  resources ← lift (min_resources_of ctx.env min_member specs policy)
  synced ← sync_pod_group ctx (fill_spec gang min_member policy resources)
  let (group, result) = synced
  pure (is_ok result && not (delay_pod_creation gang group))

unfoldable pub reconcile_replicas :
    Ctx → List Pod → List Service → ConfigMap → ReplicaSpecs → M Unit
reconcile_replicas ctx pods services config_map [] = pure tt
reconcile_replicas ctx pods services config_map ((rtype, none) ∷ specs) = lift panic
reconcile_replicas ctx pods services config_map ((rtype, some spec) ∷ specs) = do
  reconcile_pods ctx rtype spec pods config_map
  reconcile_services ctx rtype spec services
  reconcile_replicas ctx pods services config_map specs

-- The general case. The status before is compared with a pointer to the status after, which it never
-- equals: the status is always written, and the UpdateConfigMap after it is never reached.
unfoldable pub reconcile_general : Ctx → List Pod → List Service → M Unit
unfolding reconcile_replicas sync_gang
reconcile_general ctx pods services = do
  cluster ← get_cluster
  synced ← sync_gang ctx cluster ctx.gang
  if synced
      then (do
        found ← get_config_map_for_cluster ctx
        config_map ← reconcile_config_map ctx found
        configured ← get_cluster
        reconcile_replicas ctx pods services config_map configured.spec.cluster_replica_spec
        update_cluster_status ctx
        update_cluster_status_in_api_server ctx)
      else (do
        t ← now ctx.env
        waiting ← get_cluster
        set_status (record waiting.status { last_reconcile_time = some t })
        update_cluster_status_in_api_server ctx)

unfoldable pub reconcile_unless_failed : Ctx → List Pod → List Service → Option String → M Unit
unfolding fail_cluster reconcile_general
reconcile_unless_failed ctx pods services (some message) = do
  cluster ← get_cluster
  fail_cluster ctx cluster.spec.run_policy pods message
reconcile_unless_failed ctx pods services none = reconcile_general ctx pods services

unfoldable pub reconcile_kube_cluster : Ctx → M Unit
unfolding suspend_cluster resume_cluster failure_message reconcile_unless_failed
reconcile_kube_cluster ctx = do
  cluster ← get_cluster
  key ← lift (ctx.key_func cluster)
  reset_expectations key cluster.spec.cluster_replica_spec
  pods ← get_pods_for_cluster ctx
  services ← get_services_for_cluster ctx
  let run_policy = cluster.spec.run_policy
  if is_finished cluster.status
      then clean_up_resources ctx run_policy pods
      else if is_cluster_suspended run_policy
      then suspend_cluster ctx run_policy pods cluster.status
      else (do
        resume_cluster ctx
        record_abnormal_pods (filter_active_pods pods)
        resumed ← get_cluster
        message ← failure_message ctx resumed pods
        reconcile_unless_failed ctx pods services message)
