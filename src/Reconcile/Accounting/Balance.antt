-- ===== src/Reconcile/Accounting/Balance.antt =====
-- The balance of expectations through ReconcilePods, ReconcileServices and ReconcileConfigMap.
use kubecluster.Prelude.{String, List, Option, none, some}
use kubecluster.Types.{Pod, Service, ReplicaSpec, ConfigMap}
use kubecluster.World.{Call, Env, State}
use kubecluster.Reconcile.Naming.{Ctx, gen_owner_reference}
use kubecluster.Reconcile.Pods.{deref, reconcile_pods}
use kubecluster.Reconcile.Services.{reconcile_services}
use kubecluster.Reconcile.ConfigMaps.{
  new_config_map, config_map_or_new, same_data, create_new_config_map, reconcile_config_map,
}
use kubecluster.Expectation.{gen_expectation_config_map_key}
use kubecluster.Slices.Indexed.{All-always, AllAt-always}
use kubecluster.World.Keeps.{
  Keeps, Keeps-bind, Keeps-then, Keeps-pure, Keeps-lift, Keeps-if, Keeps-get_cluster,
}
use kubecluster.Reconcile.Accounting.{may_have_created, timed_out_services, Balanced}
use kubecluster.Reconcile.Accounting.Attempts.{announced-Keeps}
use kubecluster.Reconcile.Accounting.Creations.{
  create_config_map_with_controller_ref-Attempts, create_services_with_controller_ref-Attempts,
  create_pods_with_controller_ref-Attempts,
}
use kubecluster.Reconcile.Rules.{Stable}
use kubecluster.Reconcile.Rules.Writes.{update_config_map_in_api_server-Keeps}
use kubecluster.Reconcile.Rules.Services.{ServiceRules, reconcile_service_slices-Keeps}
use kubecluster.Reconcile.Rules.Pods.{PodRules, reconcile_pods-Keeps}

pub pod_rules : (ctx : Ctx) → PodRules ctx (Balanced ctx.env)
unfolding Balanced may_have_created timed_out_services
pod_rules ctx = record {
  events = λ t reason message calls h. h;
  deletions = λ key calls h. h;
  creations = λ key namespace template ref.
      announced-Keeps ctx.env key _
        (create_pods_with_controller_ref-Attempts ctx.env namespace template ref);
}

pub service_rules : (ctx : Ctx) → ServiceRules ctx (Balanced ctx.env)
unfolding Balanced may_have_created timed_out_services
service_rules ctx = record {
  events = λ t reason message calls h. h;
  creations = λ key namespace service ref.
      announced-Keeps ctx.env key _
        (create_services_with_controller_ref-Attempts ctx.env namespace service ref);
}

pod_delete-Stable :
    (env : Env) (namespace id : String) → Stable (Balanced env) (Call.pod_delete namespace id)
unfolding Balanced may_have_created timed_out_services
pod_delete-Stable env namespace id calls h = h

service_delete-Stable :
    (env : Env) (namespace id : String) → Stable (Balanced env) (Call.service_delete namespace id)
unfolding Balanced may_have_created timed_out_services
service_delete-Stable env namespace id calls h = h

config_map_update-Stable :
    (env : Env) (namespace : String) (config_map : ConfigMap)
    → Stable (Balanced env) (Call.config_map_update namespace config_map)
unfolding Balanced may_have_created timed_out_services
config_map_update-Stable env namespace config_map calls h = h

-- Whatever ReconcilePods returns: if the creations that were announced and not withdrawn are as many as
-- the requests to create that the server accepted or timed out on, less the requests for services that
-- timed out, they still are after it.
pub reconcile_pods-Balanced :
    (ctx : Ctx) (rtype : String) (spec : ReplicaSpec) (pods : List Pod) (config_map : ConfigMap)
    (s : State)
    → Balanced ctx.env s.calls
    → Balanced ctx.env ((reconcile_pods ctx rtype spec pods config_map s).1.calls)
reconcile_pods-Balanced ctx rtype spec pods config_map s h =
    (reconcile_pods-Keeps (pod_rules ctx) (λ p. Unit) rtype spec pods config_map
        (All-always _ (λ p. tt) _)
        (λ replicas index pod found listed e. pod_delete-Stable ctx.env pod.namespace pod.name)).at
      s h

-- Whatever ReconcileServices returns: if the creations that were announced and not withdrawn are as many
-- as the requests to create that may have created, less the services whose request timed out, they still
-- are after it.
pub reconcile_services-Balanced :
    (ctx : Ctx) (rtype : String) (spec : ReplicaSpec) (services : List Service) (s : State)
    → Balanced ctx.env s.calls
    → Balanced ctx.env ((reconcile_services ctx rtype spec services s).1.calls)
unfolding reconcile_services
reconcile_services-Balanced ctx rtype spec services s h =
    (Keeps-bind _ _ (Keeps-lift (deref spec.replicas)) (λ replicas.
        Keeps-bind _ _ (Keeps-lift _) (λ slices.
          reconcile_service_slices-Keeps (service_rules ctx) rtype spec replicas 0 slices (
            AllAt-always _
              (λ index service e. service_delete-Stable ctx.env service.namespace service.name) 0
              slices)))).at
      s h

config_map_or_new-Keeps :
    (ctx : Ctx) (found : Option ConfigMap) → Keeps (Balanced ctx.env) (config_map_or_new ctx found)
unfolding create_new_config_map
config_map_or_new-Keeps ctx (some config_map) = Keeps-pure config_map
config_map_or_new-Keeps ctx none = Keeps-bind _ _ Keeps-get_cluster (λ cluster.
    Keeps-bind _ _ (Keeps-lift _) (λ key.
      Keeps-bind _ _
        (announced-Keeps ctx.env (gen_expectation_config_map_key key) _ (
          create_config_map_with_controller_ref-Attempts ctx.env cluster.namespace
            (new_config_map cluster) (some (gen_owner_reference cluster))))
        (λ created. Keeps-pure _)))

-- Whatever ReconcileConfigMap returns: if the creations that were announced and not withdrawn are as many
-- as the requests to create that may have created, less the services whose request timed out, they still
-- are after it. The schema's ReconcileConfigMap has to keep this too.
reconcile_config_map-Balanced :
    (ctx : Ctx) (found : Option ConfigMap) (s : State)
    → ((config_map : ConfigMap)
        → Keeps (Balanced ctx.env) (ctx.schema.reconcile_config_map ctx.env config_map))
    → Balanced ctx.env s.calls
    → Balanced ctx.env ((reconcile_config_map ctx found s).1.calls)
unfolding reconcile_config_map
reconcile_config_map-Balanced ctx found s contents h =
    (Keeps-bind _ _ (config_map_or_new-Keeps ctx found) (λ config_map.
        Keeps-bind _ _ (contents config_map) (λ changed.
          Keeps-then _ _
            (Keeps-if (same_data changed.contents config_map.contents) _ _ (Keeps-pure tt) (
              update_config_map_in_api_server-Keeps ctx changed
                (λ namespace. config_map_update-Stable ctx.env namespace changed)))
            (Keeps-pure changed)))).at
      s h
