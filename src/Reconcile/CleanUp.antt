-- ===== src/Reconcile/CleanUp.antt =====
-- The clean-up of a cluster: DeletePodAndServices, CleanupCluster, CleanUpResources and ResetExpectations
-- of pkg/controller/ctrlcommon/controller.go, DeletePodGroup of scheduling.go beside it, and DeleteCluster
-- of pkg/controller/cluster_controller.go.
use Prim.Native.String.{◌++◌}
use kubecluster.Prelude.{
  ℕ, ℤ, pos, ltb_ℤ, ◌+ℤ◌, neg, String, Bool, true, false, not, ◌&&◌, List, [], ◌∷◌, Option, none,
  some, if◌then◌else◌,
}
use kubecluster.Errors.{Error, Result, ok, err, panic, error_text}
use kubecluster.Types.{
  Pod, Phase, CleanKubeNodePolicy, RunPolicy, ReplicaSpecs, ClusterStatus, is_running_phase,
  is_pending_phase,
}
use kubecluster.Conditions.{is_finished}
use kubecluster.Expectation.{gen_expectation_pods_key, gen_expectation_services_key}
use kubecluster.World.{
  M, Call, EventType, ◌>>=◌, ◌>>◌, pure, raise, lift, try, note, request, now, get_cluster,
}
use kubecluster.Control.{
  failed_delete_pod_reason, successful_delete_pod_reason, delete_pod, delete_service,
  delete_config_map,
}
use kubecluster.Reconcile.Naming.{Ctx}
use kubecluster.Reconcile.Pods.{deref}
use kubecluster.Reconcile.Limits.{in_seconds}
use kubecluster.Reconcile.Gang.{is_some, delete_pod_group}

abbrev pub is_none_policy : CleanKubeNodePolicy → Bool
is_none_policy CleanKubeNodePolicy.none = true
is_none_policy _ = false

abbrev is_running_policy : CleanKubeNodePolicy → Bool
is_running_policy CleanKubeNodePolicy.running = true
is_running_policy _ = false

-- Under the policy Running, pods of a finished cluster are kept unless they run or are pending.
unfoldable pub is_kept : CleanKubeNodePolicy → Phase → Bool
is_kept policy phase =
    is_running_policy policy && not (is_running_phase phase) && not (is_pending_phase phase)

-- One pod and its service, which has the pod's name; the pod is deleted twice.
unfoldable pub delete_pod_and_service : Ctx → Pod → M Unit
delete_pod_and_service ctx pod = do
  delete_pod ctx.env pod.namespace pod.name
  delete_service ctx.env pod.namespace pod.name
  delete_pod ctx.env pod.namespace pod.name

unfoldable pub delete_all : Ctx → List Pod → M Unit
delete_all ctx [] = pure tt
delete_all ctx (pod ∷ pods) = do delete_pod_and_service ctx pod; delete_all ctx pods

unfoldable pub delete_unkept : Ctx → CleanKubeNodePolicy → List Pod → M Unit
delete_unkept ctx policy [] = pure tt
delete_unkept ctx policy (pod ∷ pods) = do
  (if is_kept policy pod.phase then pure tt else delete_pod_and_service ctx pod)
  delete_unkept ctx policy pods

-- The policy is read only of a finished cluster, and must not be nil then.
unfoldable pub delete_pod_and_services : Ctx → RunPolicy → ClusterStatus → List Pod → M Unit
delete_pod_and_services ctx run_policy status [] = pure tt
delete_pod_and_services ctx run_policy status (pod ∷ pods) =
    if is_finished status
    then (do
      policy ← lift (deref run_policy.clean_kube_node_policy)
      if is_none_policy policy then pure tt else delete_unkept ctx policy (pod ∷ pods))
    else delete_all ctx (pod ∷ pods)

-- KubeClusterReconciler.DeleteCluster
unfoldable pub settle_cluster_deletion : String → Result (Unit {0}) → M Unit
settle_cluster_deletion name (ok _) =
    note (Call.event EventType.normal successful_delete_pod_reason ("Deleted cluster: " ++ name))
settle_cluster_deletion name (err e) = do
  note (Call.event EventType.warning failed_delete_pod_reason ("Error deleting: " ++ error_text e))
  raise e
settle_cluster_deletion name panic = lift panic

unfoldable pub delete_cluster : Ctx → M Unit
unfolding settle_cluster_deletion
delete_cluster ctx = do
  cluster ← get_cluster
  r ← try (request ctx.env (Call.cluster_delete cluster.namespace cluster.name))
  settle_cluster_deletion cluster.name r

unfoldable pub settle_cleanup : Result (Unit {0}) → M Unit
settle_cleanup (ok _) = pure tt
settle_cleanup (err e) = do
  note (Call.event EventType.warning "FailedDeleteKubeCluster" (error_text e))
  raise e
settle_cleanup panic = lift panic

-- After the finish plus the time to live the cluster is deleted; until then it is put in the work
-- queue, whose AddAfter does nothing (pkg/common/util/fake_workqueue.go).
unfoldable pub after_finish : Ctx → ℕ → Option ℤ → Option ℕ → M Unit
unfolding settle_cleanup delete_cluster
after_finish ctx current none finish = pure tt
after_finish ctx current (some ttl) none =
    raise (Error.other "job completion time is nil, cannot cleanup")
after_finish ctx current (some ttl) (some finish) =
    let expire = pos finish +ℤ in_seconds ttl in
    if ltb_ℤ expire (pos current) then (do r ← try (delete_cluster ctx); settle_cleanup r) else (do
      cluster ← get_cluster
      key ← lift (ctx.key_func cluster)
      note (Call.add_after key (expire +ℤ neg (pos current))))

unfoldable pub cleanup_cluster : Ctx → RunPolicy → ClusterStatus → M Unit
unfolding after_finish
cleanup_cluster ctx run_policy status = do
  current ← now ctx.env
  after_finish ctx current run_policy.ttl_seconds_after_finished status.completion_time

-- ResetExpectations, whose `SetExpectations` fails only on a key that cannot be made.
unfoldable pub reset_expectations : String → ReplicaSpecs → M Unit
reset_expectations cluster_key [] = pure tt
reset_expectations cluster_key ((rtype, spec) ∷ specs) = do
  note (Call.set_expectations (gen_expectation_pods_key cluster_key rtype) (pos 0) (pos 0))
  note (Call.set_expectations (gen_expectation_services_key cluster_key rtype) (pos 0) (pos 0))
  reset_expectations cluster_key specs

unfoldable pub settle_group_deletion : String → Result (Unit {0}) → M Unit
settle_group_deletion name (ok _) =
    note (Call.event EventType.normal "SuccessfulDeletePodGroup" ("Deleted PodGroup: " ++ name))
settle_group_deletion name (err e) = do
  note (Call.event EventType.warning "FailedDeletePodGroup" ("Error deleting: " ++ error_text e))
  raise e
settle_group_deletion name panic = lift panic

-- The deletion of the pod group where gang scheduling is enabled, with its events.
unfoldable pub terminate_group : Ctx → M Unit
unfolding settle_group_deletion delete_pod_group
terminate_group ctx =
    if is_some ctx.gang
    then (do
      cluster ← get_cluster
      note (
          Call.event EventType.normal "ClusterTerminated"
            "Kube cluster has been terminated. Deleting PodGroup")
      r ← try (delete_pod_group ctx)
      settle_group_deletion cluster.name r)
    else pure tt

-- CleanUpResources
unfoldable pub clean_up_resources : Ctx → RunPolicy → List Pod → M Unit
unfolding delete_pod_and_services terminate_group cleanup_cluster
clean_up_resources ctx run_policy pods = do
  cluster ← get_cluster
  delete_pod_and_services ctx run_policy cluster.status pods
  delete_config_map ctx.env cluster.namespace cluster.name
  terminate_group ctx
  cleanup_cluster ctx run_policy cluster.status
