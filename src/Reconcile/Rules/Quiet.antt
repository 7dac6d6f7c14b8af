-- ===== src/Reconcile/Rules/Quiet.antt =====
-- Invariants of the requests through what creates no pod, service or config map: the clean-up, the pod
-- group, the reads and the status of pkg/controller/ctrlcommon and pkg/controller/cluster_controller.go.
use kubecluster.Prelude.{ℕ, ℤ, pos, String, List, [], ◌∷◌, Option, none, some}
use kubecluster.Errors.{Result, ok, err, panic}
use kubecluster.Types.{
  Pod, ConfigMap, PodGroup, CleanKubeNodePolicy, RunPolicy, ReplicaSpecs, ClusterStatus,
  KubeCluster,
}
use kubecluster.Conditions.{is_finished}
use kubecluster.World.{Call, Env}
use kubecluster.World.Keeps.{
  Keeps, Keeps-bind, Keeps-then, Keeps-pure, Keeps-raise, Keeps-lift, Keeps-try, Keeps-if,
  Keeps-note, Keeps-request, Keeps-get_cluster, Keeps-get_calls, Keeps-now,
}
use kubecluster.Control.{
  delete_config_map, delete_found_config_map, unless_deleted_config_map, settle_config_map_deletion,
}
use kubecluster.Reconcile.Naming.{Ctx}
use kubecluster.Reconcile.CleanUp.{
  is_none_policy, is_kept, delete_pod_and_service, delete_all, delete_unkept,
  delete_pod_and_services, settle_cluster_deletion, delete_cluster, settle_cleanup, after_finish,
  cleanup_cluster, reset_expectations, settle_group_deletion, terminate_group, clean_up_resources,
}
use kubecluster.Reconcile.Gang.{
  is_some, get_pod_group, wrapped, delete_unless_missing, delete_pod_group,
}
use kubecluster.Reconcile.Rules.{Stable, StableEvents, delete_pod-Keeps, delete_service-Keeps}

-- What `I` must keep: events, deletions, and what concerns the cluster itself.
pub record Quiet (I : List Call → Type 0) : Type 0 where
  pub events : StableEvents I
  pub pod_deleted : (namespace id : String) → Stable I (Call.pod_delete namespace id)
  pub service_deleted : (namespace id : String) → Stable I (Call.service_delete namespace id)
  pub config_map_deleted : (namespace id : String) → Stable I (Call.config_map_delete namespace id)
  pub config_map_updated :
      (namespace : String) (config_map : ConfigMap)
      → Stable I (Call.config_map_update namespace config_map)
  pub group_created : (group : PodGroup) → Stable I (Call.pod_group_create group)
  pub group_updated : (group : PodGroup) → Stable I (Call.pod_group_update group)
  pub group_deleted : (namespace id : String) → Stable I (Call.pod_group_delete namespace id)
  pub cluster_deleted : (namespace id : String) → Stable I (Call.cluster_delete namespace id)
  pub status_updated : (cluster : KubeCluster) → Stable I (Call.status_update cluster)
  pub reset : (key : String) → Stable I (Call.set_expectations key (pos 0) (pos 0))
  pub deletion_expected : (key : String) → Stable I (Call.raise_expectations key (pos 0) (pos 1))
  pub queued : (key : String) (after : ℤ) → Stable I (Call.add_after key after)

module _ {I : List Call → Type 0} (quiet : Quiet I) where
  delete_pod_and_service-Keeps : (ctx : Ctx) (pod : Pod) → Keeps I (delete_pod_and_service ctx pod)
  unfolding delete_pod_and_service
  delete_pod_and_service-Keeps ctx pod =
      Keeps-then _ _ (delete_pod-Keeps ctx.env quiet.events _ _ (quiet.pod_deleted _ _)) (
        Keeps-then _ _ (delete_service-Keeps ctx.env quiet.events _ _ (quiet.service_deleted _ _))
          (delete_pod-Keeps ctx.env quiet.events _ _ (quiet.pod_deleted _ _)))

  delete_all-Keeps : (ctx : Ctx) (pods : List Pod) → Keeps I (delete_all ctx pods)
  unfolding delete_all
  delete_all-Keeps ctx [] = Keeps-pure tt
  delete_all-Keeps ctx (pod ∷ pods) =
      Keeps-then _ _ (delete_pod_and_service-Keeps ctx pod) (delete_all-Keeps ctx pods)

  delete_unkept-Keeps :
      (ctx : Ctx) (policy : CleanKubeNodePolicy) (pods : List Pod)
      → Keeps I (delete_unkept ctx policy pods)
  unfolding delete_unkept
  delete_unkept-Keeps ctx policy [] = Keeps-pure tt
  delete_unkept-Keeps ctx policy (pod ∷ pods) =
      Keeps-then _ _
        (Keeps-if (is_kept policy pod.phase) _ _ (Keeps-pure tt)
          (delete_pod_and_service-Keeps ctx pod))
        (delete_unkept-Keeps ctx policy pods)

  pub delete_pod_and_services-Keeps :
      (ctx : Ctx) (run_policy : RunPolicy) (status : ClusterStatus) (pods : List Pod)
      → Keeps I (delete_pod_and_services ctx run_policy status pods)
  unfolding delete_pod_and_services
  delete_pod_and_services-Keeps ctx run_policy status [] = Keeps-pure tt
  delete_pod_and_services-Keeps ctx run_policy status (pod ∷ pods) =
      Keeps-if (is_finished status) _ _
        (Keeps-bind _ _ (Keeps-lift _) (λ policy.
          Keeps-if (is_none_policy policy) _ _ (Keeps-pure tt)
            (delete_unkept-Keeps ctx policy (pod ∷ pods))))
        (delete_all-Keeps ctx (pod ∷ pods))

  settle_cluster_deletion-Keeps :
      (name : String) (r : Result (Unit {0})) → Keeps I (settle_cluster_deletion name r)
  unfolding settle_cluster_deletion
  settle_cluster_deletion-Keeps name (ok a) = Keeps-note _ (quiet.events _ _ _)
  settle_cluster_deletion-Keeps name (err e) =
      Keeps-then _ _ (Keeps-note _ (quiet.events _ _ _)) (Keeps-raise _)
  settle_cluster_deletion-Keeps name panic = Keeps-lift panic

  delete_cluster-Keeps : (ctx : Ctx) → Keeps I (delete_cluster ctx)
  unfolding delete_cluster
  delete_cluster-Keeps ctx = Keeps-bind _ _ Keeps-get_cluster (λ cluster.
      Keeps-bind _ _ (Keeps-try _ (Keeps-request ctx.env _ (quiet.cluster_deleted _ _)))
        (settle_cluster_deletion-Keeps cluster.name))

  settle_cleanup-Keeps : (r : Result (Unit {0})) → Keeps I (settle_cleanup r)
  unfolding settle_cleanup
  settle_cleanup-Keeps (ok a) = Keeps-pure tt
  settle_cleanup-Keeps (err e) = Keeps-then _ _ (Keeps-note _ (quiet.events _ _ _)) (Keeps-raise _)
  settle_cleanup-Keeps panic = Keeps-lift panic

  after_finish-Keeps :
      (ctx : Ctx) (current : ℕ) (ttl : Option ℤ) (finish : Option ℕ)
      → Keeps I (after_finish ctx current ttl finish)
  unfolding after_finish
  after_finish-Keeps ctx current none finish = Keeps-pure tt
  after_finish-Keeps ctx current (some ttl) none = Keeps-raise _
  after_finish-Keeps ctx current (some ttl) (some finish) =
      Keeps-if _ _ _ (Keeps-bind _ _ (Keeps-try _ (delete_cluster-Keeps ctx)) settle_cleanup-Keeps)
        (Keeps-bind _ _ Keeps-get_cluster (λ cluster.
          Keeps-bind _ _ (Keeps-lift (ctx.key_func cluster))
            (λ key. Keeps-note _ (quiet.queued _ _))))

  pub cleanup_cluster-Keeps :
      (ctx : Ctx) (run_policy : RunPolicy) (status : ClusterStatus)
      → Keeps I (cleanup_cluster ctx run_policy status)
  unfolding cleanup_cluster
  cleanup_cluster-Keeps ctx run_policy status = Keeps-bind _ _ (Keeps-now ctx.env) (λ current.
      after_finish-Keeps ctx current run_policy.ttl_seconds_after_finished status.completion_time)

  pub reset_expectations-Keeps :
      (key : String) (specs : ReplicaSpecs) → Keeps I (reset_expectations key specs)
  unfolding reset_expectations
  reset_expectations-Keeps key [] = Keeps-pure tt
  reset_expectations-Keeps key ((rtype, spec) ∷ specs) =
      Keeps-then _ _ (Keeps-note _ (quiet.reset _))
        (Keeps-then _ _ (Keeps-note _ (quiet.reset _)) (reset_expectations-Keeps key specs))

  pub wrapped-Keeps : (text : String) (r : Result (Unit {0})) → Keeps I (wrapped text r)
  unfolding wrapped
  wrapped-Keeps text (ok a) = Keeps-pure tt
  wrapped-Keeps text (err e) = Keeps-raise _
  wrapped-Keeps text panic = Keeps-lift panic

  pub get_pod_group-Keeps :
      (ctx : Ctx) (cluster : KubeCluster) → Keeps I (get_pod_group ctx cluster)
  unfolding get_pod_group
  get_pod_group-Keeps ctx cluster = Keeps-bind _ _ Keeps-get_calls (λ calls. Keeps-lift _)

  delete_pod_group-Keeps : (ctx : Ctx) → Keeps I (delete_pod_group ctx)
  unfolding delete_pod_group delete_unless_missing
  delete_pod_group-Keeps ctx = Keeps-bind _ _ Keeps-get_cluster (λ cluster.
      Keeps-bind _ _ (Keeps-try _ (get_pod_group-Keeps ctx cluster)) (λ found.
        Keeps-if _ _ _ (Keeps-pure tt) (
          Keeps-bind _ _ (Keeps-try _ (Keeps-request ctx.env _ (quiet.group_deleted _ _)))
            (wrapped-Keeps _))))

  settle_group_deletion-Keeps :
      (name : String) (r : Result (Unit {0})) → Keeps I (settle_group_deletion name r)
  unfolding settle_group_deletion
  settle_group_deletion-Keeps name (ok a) = Keeps-note _ (quiet.events _ _ _)
  settle_group_deletion-Keeps name (err e) =
      Keeps-then _ _ (Keeps-note _ (quiet.events _ _ _)) (Keeps-raise _)
  settle_group_deletion-Keeps name panic = Keeps-lift panic

  pub terminate_group-Keeps : (ctx : Ctx) → Keeps I (terminate_group ctx)
  unfolding terminate_group
  terminate_group-Keeps ctx =
      Keeps-if (is_some ctx.gang) _ _
        (Keeps-bind _ _ Keeps-get_cluster (λ cluster.
          Keeps-then _ _ (Keeps-note _ (quiet.events _ _ _)) (
            Keeps-bind _ _ (Keeps-try _ (delete_pod_group-Keeps ctx))
              (settle_group_deletion-Keeps cluster.name))))
        (Keeps-pure tt)

  settle_config_map_deletion-Keeps :
      (id : String) (r : Result (Unit {0})) → Keeps I (settle_config_map_deletion id r)
  settle_config_map_deletion-Keeps id (ok a) = Keeps-note _ (quiet.events _ _ _)
  settle_config_map_deletion-Keeps id (err e) =
      Keeps-then _ _ (Keeps-note _ (quiet.events _ _ _)) (Keeps-raise _)
  settle_config_map_deletion-Keeps id panic = Keeps-lift panic

  unless_deleted_config_map-Keeps :
      (env : Env) (namespace id : String) (deletion_timestamp : Option ℕ)
      → Keeps I (unless_deleted_config_map env namespace id deletion_timestamp)
  unless_deleted_config_map-Keeps env namespace id (some t) = Keeps-pure tt
  unless_deleted_config_map-Keeps env namespace id none =
      Keeps-bind _ _ (Keeps-try _ (Keeps-request env _ (quiet.config_map_deleted _ _)))
        (settle_config_map_deletion-Keeps id)

  delete_found_config_map-Keeps :
      (env : Env) (namespace id : String) (r : Result ConfigMap)
      → Keeps I (delete_found_config_map env namespace id r)
  delete_found_config_map-Keeps env namespace id (ok config_map) =
      unless_deleted_config_map-Keeps env namespace id config_map.deletion_timestamp
  delete_found_config_map-Keeps env namespace id (err e) =
      Keeps-if _ _ _ (Keeps-pure tt) (Keeps-raise e)
  delete_found_config_map-Keeps env namespace id panic = Keeps-lift panic

  delete_config_map-Keeps :
      (env : Env) (namespace id : String) → Keeps I (delete_config_map env namespace id)
  unfolding delete_config_map
  delete_config_map-Keeps env namespace id = Keeps-bind _ _ Keeps-get_calls (λ calls.
      delete_found_config_map-Keeps env namespace id (env.config_map_get calls namespace id))

  pub clean_up_resources-Keeps :
      (ctx : Ctx) (run_policy : RunPolicy) (pods : List Pod)
      → Keeps I (clean_up_resources ctx run_policy pods)
  unfolding clean_up_resources
  clean_up_resources-Keeps ctx run_policy pods = Keeps-bind _ _ Keeps-get_cluster (λ cluster.
      Keeps-then _ _ (delete_pod_and_services-Keeps ctx run_policy cluster.status pods) (
        Keeps-then _ _ (delete_config_map-Keeps ctx.env cluster.namespace cluster.name) (
          Keeps-then _ _ (terminate_group-Keeps ctx)
            (cleanup_cluster-Keeps ctx run_policy cluster.status))))
