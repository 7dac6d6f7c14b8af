-- ===== src/Reconcile/Rules/Cluster.antt =====
-- Invariants of the requests through ReconcileKubeCluster (pkg/controller/ctrlcommon/controller.go).
use kubecluster.Prelude.{String, List, [], ◌∷◌, Option, none, some}
use kubecluster.Errors.{panic}
use kubecluster.Types.{Pod, Service, ConfigMap, ReplicaSpec, ReplicaSpecs, OwnerReference}
use kubecluster.Conditions.{is_finished}
use kubecluster.World.{Call}
use kubecluster.World.Keeps.{
  Keeps, Keeps-bind, Keeps-then, Keeps-pure, Keeps-lift, Keeps-if, Keeps-get_cluster,
  Keeps-set_status, Keeps-now,
}
use kubecluster.Control.{create_config_map_with_controller_ref}
use kubecluster.Expectation.{gen_expectation_config_map_key}
use kubecluster.Reconcile.Naming.{Ctx, gen_owner_reference}
use kubecluster.Reconcile.PodCreation.{announced}
use kubecluster.Reconcile.ConfigMaps.{
  new_config_map, config_map_or_new, same_data, create_new_config_map, reconcile_config_map,
}
use kubecluster.Reconcile.Services.{reconcile_services}
use kubecluster.Reconcile.Pods.{deref}
use kubecluster.Reconcile.Limits.{is_cluster_suspended}
use kubecluster.Reconcile.Objects.{update_schema_statuses, update_cluster_status}
use kubecluster.Reconcile.Cluster.{
  reconcile_replicas, reconcile_general, reconcile_unless_failed, reconcile_kube_cluster,
}
use kubecluster.Reconcile.Rules.Pods.{PodRules, reconcile_pods-Keeps}
use kubecluster.Reconcile.Rules.Writes.{update_config_map_in_api_server-Keeps}
use kubecluster.Reconcile.Rules.Services.{ServiceRules, reconcile_service_slices-Keeps}
use kubecluster.Reconcile.Rules.Quiet.{Quiet, reset_expectations-Keeps, clean_up_resources-Keeps}
use kubecluster.Slices.Indexed.{All-always, AllAt-always}
use kubecluster.Reconcile.Rules.Steps.{
  update_cluster_status_in_api_server-Keeps, suspend_cluster-Keeps, resume_cluster-Keeps,
  fail_cluster-Keeps, start_unless_set-Keeps,
}
use kubecluster.Reconcile.Rules.Objects.{
  record_abnormal_pods-Keeps, failure_message-Keeps, sync_gang-Keeps,
  get_config_map_for_cluster-Keeps, get_pods_for_cluster-Keeps, get_services_for_cluster-Keeps,
}

-- What a clean-up alone may need is `Quiet`; a reconciliation also creates and asks the schema.
pub record ClusterRules (ctx : Ctx) (I : List Call → Type 0) : Type 0 where
  pub quiet : Quiet I
  pub pods : PodRules ctx I
  pub services : ServiceRules ctx I
  pub config_maps :
      (key namespace : String) (config_map : ConfigMap) (ref : Option OwnerReference)
      → Keeps I
          (announced key (create_config_map_with_controller_ref ctx.env namespace config_map ref))
  pub contents :
      (config_map : ConfigMap) → Keeps I (ctx.schema.reconcile_config_map ctx.env config_map)
  pub statuses : (rtype : String) → Keeps I (ctx.schema.update_cluster_status ctx.env rtype)

module _ {ctx : Ctx} {I : List Call → Type 0} (rules : ClusterRules ctx I) where
  reconcile_services-Keeps :
      (rtype : String) (spec : ReplicaSpec) (services : List Service)
      → Keeps I (reconcile_services ctx rtype spec services)
  unfolding reconcile_services
  reconcile_services-Keeps rtype spec services =
      Keeps-bind _ _ (Keeps-lift (deref spec.replicas)) (λ replicas.
        Keeps-bind _ _ (Keeps-lift _) (λ slices.
          reconcile_service_slices-Keeps rules.services rtype spec replicas 0 slices
            (AllAt-always _ (λ index service e. rules.quiet.service_deleted _ _) 0 slices)))

  config_map_or_new-Keeps : (found : Option ConfigMap) → Keeps I (config_map_or_new ctx found)
  unfolding create_new_config_map
  config_map_or_new-Keeps (some config_map) = Keeps-pure config_map
  config_map_or_new-Keeps none = Keeps-bind _ _ Keeps-get_cluster (λ cluster.
      Keeps-bind _ _ (Keeps-lift _) (λ key.
        Keeps-bind _ _
          (rules.config_maps (gen_expectation_config_map_key key) cluster.namespace
            (new_config_map cluster) (some (gen_owner_reference cluster)))
          (λ created. Keeps-pure _)))

  reconcile_config_map-Keeps : (found : Option ConfigMap) → Keeps I (reconcile_config_map ctx found)
  unfolding reconcile_config_map
  reconcile_config_map-Keeps found = Keeps-bind _ _ (config_map_or_new-Keeps found) (λ config_map.
      Keeps-bind _ _ (rules.contents config_map) (λ changed.
        Keeps-then _ _
          (Keeps-if (same_data changed.contents config_map.contents) _ _ (Keeps-pure tt) (
            update_config_map_in_api_server-Keeps ctx changed
              (λ namespace. rules.quiet.config_map_updated namespace changed)))
          (Keeps-pure changed)))

  reconcile_replicas-Keeps :
      (pods : List Pod) (services : List Service) (config_map : ConfigMap) (specs : ReplicaSpecs)
      → Keeps I (reconcile_replicas ctx pods services config_map specs)
  unfolding reconcile_replicas
  reconcile_replicas-Keeps pods services config_map [] = Keeps-pure tt
  reconcile_replicas-Keeps pods services config_map ((rtype, none) ∷ specs) = Keeps-lift panic
  reconcile_replicas-Keeps pods services config_map ((rtype, some spec) ∷ specs) =
      Keeps-then _ _
        (reconcile_pods-Keeps rules.pods (λ p. Unit) rtype spec pods config_map
          (All-always _ (λ p. tt) _)
          (λ replicas index pod desired listed e. rules.quiet.pod_deleted pod.namespace pod.name))
        (Keeps-then _ _ (reconcile_services-Keeps rtype spec services)
          (reconcile_replicas-Keeps pods services config_map specs))

  update_schema_statuses-Keeps : (specs : ReplicaSpecs) → Keeps I (update_schema_statuses ctx specs)
  unfolding update_schema_statuses
  update_schema_statuses-Keeps [] = Keeps-pure tt
  update_schema_statuses-Keeps ((rtype, spec) ∷ specs) =
      Keeps-then _ _ (rules.statuses rtype) (update_schema_statuses-Keeps specs)

  update_cluster_status-Keeps : Keeps I (update_cluster_status ctx)
  unfolding update_cluster_status
  update_cluster_status-Keeps = Keeps-bind _ _ Keeps-get_cluster (λ cluster.
      Keeps-bind _ _ (Keeps-lift _) (λ key.
        Keeps-then _ _
          (start_unless_set-Keeps rules.quiet ctx key cluster cluster.status.start_time)
          (update_schema_statuses-Keeps cluster.spec.cluster_replica_spec)))

  reconcile_general-Keeps :
      (pods : List Pod) (services : List Service) → Keeps I (reconcile_general ctx pods services)
  unfolding reconcile_general
  reconcile_general-Keeps pods services = Keeps-bind _ _ Keeps-get_cluster (λ cluster.
      Keeps-bind _ _ (sync_gang-Keeps rules.quiet ctx cluster ctx.gang) (λ synced.
        Keeps-if synced _ _
          (Keeps-bind _ _ (get_config_map_for_cluster-Keeps rules.quiet ctx) (λ found.
            Keeps-bind _ _ (reconcile_config_map-Keeps found) (λ config_map.
              Keeps-bind _ _ Keeps-get_cluster (λ configured.
                Keeps-then _ _ (reconcile_replicas-Keeps pods services config_map _) (
                  Keeps-then _ _ update_cluster_status-Keeps
                    (update_cluster_status_in_api_server-Keeps rules.quiet ctx))))))
          (Keeps-bind _ _ (Keeps-now ctx.env) (λ t. Keeps-bind _ _ Keeps-get_cluster (λ waiting.
            Keeps-then _ _ (Keeps-set_status _)
              (update_cluster_status_in_api_server-Keeps rules.quiet ctx))))))

  reconcile_unless_failed-Keeps :
      (pods : List Pod) (services : List Service) (message : Option String)
      → Keeps I (reconcile_unless_failed ctx pods services message)
  unfolding reconcile_unless_failed
  reconcile_unless_failed-Keeps pods services (some message) =
      Keeps-bind _ _ Keeps-get_cluster
        (λ cluster. fail_cluster-Keeps rules.quiet ctx cluster.spec.run_policy pods message)
  reconcile_unless_failed-Keeps pods services none = reconcile_general-Keeps pods services

  pub reconcile_kube_cluster-Keeps : Keeps I (reconcile_kube_cluster ctx)
  unfolding reconcile_kube_cluster
  reconcile_kube_cluster-Keeps = Keeps-bind _ _ Keeps-get_cluster (λ cluster.
      Keeps-bind _ _ (Keeps-lift _) (λ key.
        Keeps-then _ _ (reset_expectations-Keeps rules.quiet key _) (
          Keeps-bind _ _ (get_pods_for_cluster-Keeps rules.quiet ctx) (λ pods.
            Keeps-bind _ _ (get_services_for_cluster-Keeps rules.quiet ctx) (λ services.
              Keeps-if (is_finished cluster.status) _ _
                (clean_up_resources-Keeps rules.quiet ctx _ pods)
                (Keeps-if (is_cluster_suspended cluster.spec.run_policy) _ _
                  (suspend_cluster-Keeps rules.quiet ctx _ pods cluster.status)
                  (Keeps-then _ _ (resume_cluster-Keeps rules.quiet ctx) (
                    Keeps-then _ _ (record_abnormal_pods-Keeps rules.quiet ctx _) (
                      Keeps-bind _ _ Keeps-get_cluster (λ resumed.
                        Keeps-bind _ _ (failure_message-Keeps rules.quiet ctx resumed pods)
                          (λ message. reconcile_unless_failed-Keeps pods services message)))))))))))
