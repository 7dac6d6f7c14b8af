-- ===== src/Reconcile/Rules/Objects.antt =====
-- Invariants of the requests through what ReconcileKubeCluster reads before it decides: the abnormal pods
-- (pkg/core/cluster.go), the limits, the pod group, and the objects of the cluster.
use kubecluster.Prelude.{String, List, [], ◌∷◌, Option, none, some}
use kubecluster.Errors.{Result, ok, err, panic}
use kubecluster.Types.{
  Pod, ConfigMap, PodGroup, ContainerStatus, PodCondition, Terminated, Waiting, KubeCluster,
}
use kubecluster.World.{Call, M}
use kubecluster.World.Keeps.{
  Keeps, Keeps-bind, Keeps-then, Keeps-pure, Keeps-raise, Keeps-lift, Keeps-try, Keeps-if,
  Keeps-note, Keeps-request, Keeps-get_cluster, Keeps-get_calls, Keeps-now,
}
use kubecluster.Control.{PodGroupControl}
use kubecluster.Reconcile.Naming.{Ctx}
use kubecluster.Reconcile.Limits.{
  record_terminated, record_waiting, record_container_statuses, record_condition, or_statuses,
  record_abnormal_pods,
}
use kubecluster.Reconcile.Gang.{created_group, after_group_creation, sync_found, sync_pod_group}
use kubecluster.Reconcile.Objects.{
  get_pods_for_cluster, get_services_for_cluster, found_config_map, get_config_map_for_cluster,
}
use kubecluster.Reconcile.Cluster.{failure_message, sync_gang}
use kubecluster.Reconcile.Rules.Quiet.{Quiet, wrapped-Keeps, get_pod_group-Keeps}

module _ {I : List Call → Type 0} (quiet : Quiet I) (ctx : Ctx) where
  record_terminated-Keeps :
      (pod : Pod) (name : String) (t : Option Terminated) → Keeps I (record_terminated pod name t)
  record_terminated-Keeps pod name none = Keeps-pure tt
  record_terminated-Keeps pod name (some t) =
      Keeps-if _ _ _ (Keeps-pure tt) (Keeps-note _ (quiet.events _ _ _))

  record_waiting-Keeps :
      (pod : Pod) (name : String) (w : Option Waiting) → Keeps I (record_waiting pod name w)
  record_waiting-Keeps pod name none = Keeps-pure tt
  record_waiting-Keeps pod name (some w) =
      Keeps-if _ _ _ (Keeps-pure tt) (Keeps-note _ (quiet.events _ _ _))

  record_container_statuses-Keeps :
      (pod : Pod) (statuses : List ContainerStatus)
      → Keeps I (record_container_statuses pod statuses)
  unfolding record_container_statuses
  record_container_statuses-Keeps pod [] = Keeps-pure tt
  record_container_statuses-Keeps pod (status ∷ statuses) =
      Keeps-then _ _ (record_terminated-Keeps pod status.name status.terminated) (
        Keeps-then _ _ (record_waiting-Keeps pod status.name status.waiting)
          (record_container_statuses-Keeps pod statuses))

  or_statuses-Keeps :
      (pod : Pod) (statuses : List ContainerStatus) (m : M (Unit {0}))
      → Keeps I m
      → Keeps I (or_statuses pod statuses m)
  or_statuses-Keeps pod [] m h = h
  or_statuses-Keeps pod (status ∷ statuses) m h =
      record_container_statuses-Keeps pod (status ∷ statuses)

  record_condition-Keeps :
      (pod : Pod) (conditions : List PodCondition) → Keeps I (record_condition pod conditions)
  record_condition-Keeps pod [] = Keeps-pure tt
  record_condition-Keeps pod (c ∷ cs) =
      Keeps-if _ _ _ (Keeps-pure tt) (Keeps-note _ (quiet.events _ _ _))

  pub record_abnormal_pods-Keeps : (pods : List Pod) → Keeps I (record_abnormal_pods pods)
  unfolding record_abnormal_pods
  record_abnormal_pods-Keeps [] = Keeps-pure tt
  record_abnormal_pods-Keeps (pod ∷ pods) =
      Keeps-then _ _
        (or_statuses-Keeps pod pod.container_statuses _ (
          or_statuses-Keeps pod pod.init_container_statuses _
            (record_condition-Keeps pod pod.conditions)))
        (record_abnormal_pods-Keeps pods)

  pub failure_message-Keeps :
      (cluster : KubeCluster) (pods : List Pod) → Keeps I (failure_message ctx cluster pods)
  unfolding failure_message
  failure_message-Keeps cluster pods = Keeps-bind _ _ (Keeps-lift _) (λ total.
      Keeps-bind _ _ (Keeps-lift _) (λ past.
        Keeps-if _ _ _ (Keeps-pure _) (Keeps-bind _ _ (Keeps-now ctx.env) (λ t. Keeps-pure _))))

  after_creation-Keeps :
      (cluster : KubeCluster) (c : Result (Unit {0})) → Keeps I (after_group_creation ctx cluster c)
  unfolding after_group_creation
  after_creation-Keeps cluster (ok a) =
      Keeps-bind _ _ (Keeps-try _ (get_pod_group-Keeps quiet ctx cluster)) settled
    where
      settled : (r : Result PodGroup) → Keeps I (created_group r)
      settled (ok group) = Keeps-pure _
      settled (err f) = Keeps-pure _
      settled panic = Keeps-lift panic
  after_creation-Keeps cluster (err f) = Keeps-pure _
  after_creation-Keeps cluster panic = Keeps-lift panic

  sync_found-Keeps :
      (fill : PodGroup → PodGroup) (cluster : KubeCluster) (found : Result PodGroup)
      → Keeps I (sync_found ctx fill cluster found)
  unfolding sync_found
  sync_found-Keeps fill cluster (ok group) =
      Keeps-bind _ _ (Keeps-try _ (Keeps-request ctx.env _ (quiet.group_updated _)))
        (λ r. Keeps-bind _ _ (Keeps-try _ (wrapped-Keeps quiet _ r)) (λ u. Keeps-pure _))
  sync_found-Keeps fill cluster (err e) =
      Keeps-if _ _ _
        (Keeps-bind _ _ (Keeps-try _ (Keeps-request ctx.env _ (quiet.group_created _))) (λ r.
          Keeps-bind _ _ (Keeps-try _ (wrapped-Keeps quiet _ r))
            (λ c. after_creation-Keeps cluster c)))
        (Keeps-pure _)
  sync_found-Keeps fill cluster panic = Keeps-lift panic

  pub sync_gang-Keeps :
      (cluster : KubeCluster) (gang : Option PodGroupControl) → Keeps I (sync_gang ctx cluster gang)
  unfolding sync_gang sync_pod_group
  sync_gang-Keeps cluster none = Keeps-pure _
  sync_gang-Keeps cluster (some gang) = Keeps-bind _ _ (Keeps-lift _) (λ total.
      Keeps-bind _ _ (Keeps-lift _) (λ resources.
        Keeps-bind _ _
          (Keeps-bind _ _ Keeps-get_cluster (λ cluster.
            Keeps-bind _ _ (Keeps-try _ (get_pod_group-Keeps quiet ctx cluster))
              (λ found. sync_found-Keeps _ cluster found)))
          (λ synced. Keeps-pure _)))

  found_config_map-Keeps :
      (cluster : KubeCluster) (r : Result ConfigMap) → Keeps I (found_config_map ctx cluster r)
  unfolding found_config_map
  found_config_map-Keeps cluster (ok config_map) =
      Keeps-if _ _ _ (Keeps-pure _)
        (Keeps-then _ _ (Keeps-note _ (quiet.events _ _ _)) (Keeps-raise _))
  found_config_map-Keeps cluster (err e) = Keeps-if _ _ _ (Keeps-pure none) (Keeps-raise e)
  found_config_map-Keeps cluster panic = Keeps-lift panic

  pub get_config_map_for_cluster-Keeps : Keeps I (get_config_map_for_cluster ctx)
  unfolding get_config_map_for_cluster
  get_config_map_for_cluster-Keeps =
      Keeps-bind _ _ Keeps-get_cluster
        (λ cluster. Keeps-bind _ _ Keeps-get_calls (λ calls. found_config_map-Keeps cluster _))

  pub get_pods_for_cluster-Keeps : Keeps I (get_pods_for_cluster ctx)
  unfolding get_pods_for_cluster
  get_pods_for_cluster-Keeps = Keeps-bind _ _ Keeps-get_cluster (λ cluster.
      Keeps-bind _ _ Keeps-get_calls
        (λ calls. Keeps-bind _ _ (Keeps-lift _) (λ list. Keeps-pure _)))

  pub get_services_for_cluster-Keeps : Keeps I (get_services_for_cluster ctx)
  unfolding get_services_for_cluster
  get_services_for_cluster-Keeps =
      Keeps-bind _ _ Keeps-get_cluster
        (λ cluster. Keeps-bind _ _ Keeps-get_calls (λ calls. Keeps-lift _))
