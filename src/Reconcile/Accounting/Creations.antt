-- ===== src/Reconcile/Accounting/Creations.antt =====
-- The three controls (pkg/controller/control) as attempts to create.
use kubecluster.Prelude.{String, true, Option, none, some, ◌≡◌, refl, arith}
use kubecluster.Errors.{Result, ok, err, panic}
use kubecluster.Types.{PodTemplate, NewPod, NewService, ConfigMap, OwnerReference}
use kubecluster.World.{Call, Env, State, ◌>>=◌, pure, raise, lift, try, note}
use kubecluster.Control.{
  settle_pod_creation, settle_service_creation, settle_config_map_creation, create_pod, create_pods,
  create_pods_with_controller_ref, create_service, create_services,
  create_services_with_controller_ref, create_config_map, create_config_map_with_controller_ref,
  validate_controller_ref, to_references,
}
use kubecluster.Reconcile.Accounting.Attempts.{outstanding}
use kubecluster.Reconcile.Accounting.Attempts.{
  Attempts, Follows, after_event, at_once, attempt, if_labelled-Attempts, lift-Attempts, is_plain,
}

settle_pod_creation-Follows :
    (env : Env) (namespace : String) (pod : NewPod) (q : Result (Unit {0}))
    → Follows env (Call.pod_create namespace pod) q (settle_pod_creation pod.name q)
unfolding ◌>>=◌ pure raise lift try note outstanding
settle_pod_creation-Follows env namespace pod (ok a) = after_event env _ _ _ _ _ (ok tt) refl
settle_pod_creation-Follows env namespace pod (err e) = after_event env _ _ _ _ _ (err e) refl
settle_pod_creation-Follows env namespace pod panic = at_once env _ _ panic refl

create_pod-Attempts :
    (env : Env) (namespace : String) (pod : NewPod) (s : State)
    → Attempts env (create_pod env namespace pod) s
unfolding create_pod
create_pod-Attempts env namespace pod s =
    attempt env (Call.pod_create namespace pod) (settle_pod_creation pod.name)
      (record { not_raise = refl; not_observed = refl; panicked = refl })
      (settle_pod_creation-Follows env namespace pod) s

settle_service_creation-Follows :
    (env : Env) (namespace name : String) (service : NewService) (q : Result (Unit {0}))
    → Follows env (Call.service_create namespace service) q (settle_service_creation name q)
unfolding ◌>>=◌ pure raise lift try note outstanding
settle_service_creation-Follows env namespace name service (ok a) =
    after_event env _ _ _ _ _ (ok tt) refl
settle_service_creation-Follows env namespace name service (err e) =
    after_event env _ _ _ _ _ (err _) refl
settle_service_creation-Follows env namespace name service panic = at_once env _ _ panic refl

create_service-Attempts :
    (env : Env) (namespace name : String) (service : NewService) (s : State)
    → Attempts env (create_service env namespace name service) s
unfolding create_service
create_service-Attempts env namespace name service s =
    attempt env (Call.service_create namespace service) (settle_service_creation name)
      (record { not_raise = refl; not_observed = refl; panicked = refl })
      (settle_service_creation-Follows env namespace name service) s

settle_config_map_creation-Follows :
    (env : Env) (namespace : String) (config_map : ConfigMap) (ref : Option OwnerReference)
    (q : Result (Unit {0}))
    → Follows env
        (Call.config_map_create namespace config_map (to_references ref))
        q
        (settle_config_map_creation config_map.name q)
unfolding ◌>>=◌ pure raise lift try note outstanding
settle_config_map_creation-Follows env namespace config_map ref (ok a) =
    after_event env _ _ _ _ _ (ok tt) refl
settle_config_map_creation-Follows env namespace config_map ref (err e) =
    after_event env _ _ _ _ _ (err e) refl
settle_config_map_creation-Follows env namespace config_map ref panic = at_once env _ _ panic refl

create_config_map-Attempts :
    (env : Env) (namespace : String) (config_map : ConfigMap) (ref : Option OwnerReference)
    (s : State)
    → Attempts env (create_config_map env namespace config_map ref) s
unfolding create_config_map
create_config_map-Attempts env namespace config_map ref s =
    attempt env (Call.config_map_create namespace config_map (to_references ref))
      (settle_config_map_creation config_map.name)
      (record { not_raise = refl; not_observed = refl; panicked = refl })
      (settle_config_map_creation-Follows env namespace config_map ref) s

validate_controller_ref-IsPlain :
    (ref : Option OwnerReference) → is_plain (validate_controller_ref ref) ≡ true
unfolding validate_controller_ref
validate_controller_ref-IsPlain none = refl
validate_controller_ref-IsPlain (some ref) = ground arith

pub create_pods_with_controller_ref-Attempts :
    (env : Env) (namespace : String) (template : PodTemplate) (ref : Option OwnerReference)
    (s : State)
    → Attempts env (create_pods_with_controller_ref env namespace template ref) s
unfolding create_pods_with_controller_ref create_pods
create_pods_with_controller_ref-Attempts env namespace template ref s =
    lift-Attempts env (validate_controller_ref ref) _ s (validate_controller_ref-IsPlain ref)
      (if_labelled-Attempts env _ _ _ s (create_pod-Attempts env namespace _ s))

pub create_services_with_controller_ref-Attempts :
    (env : Env) (namespace : String) (service : NewService) (ref : Option OwnerReference)
    (s : State)
    → Attempts env (create_services_with_controller_ref env namespace service ref) s
unfolding create_services_with_controller_ref create_services
create_services_with_controller_ref-Attempts env namespace service ref s =
    lift-Attempts env (validate_controller_ref ref) _ s (validate_controller_ref-IsPlain ref)
      (if_labelled-Attempts env _ _ _ s (create_service-Attempts env namespace _ _ s))

pub create_config_map_with_controller_ref-Attempts :
    (env : Env) (namespace : String) (config_map : ConfigMap) (ref : Option OwnerReference)
    (s : State)
    → Attempts env (create_config_map_with_controller_ref env namespace config_map ref) s
unfolding create_config_map_with_controller_ref
create_config_map_with_controller_ref-Attempts env namespace config_map ref s =
    lift-Attempts env (validate_controller_ref ref) _ s (validate_controller_ref-IsPlain ref)
      (create_config_map-Attempts env namespace config_map ref s)
