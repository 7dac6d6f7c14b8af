-- ===== src/Reconcile/Rules.antt =====
-- Invariants of the requests through ReconcilePods and ReconcileServices (pkg/controller/ctrlcommon):
-- what a single request must keep, and that the methods then keep it.
pub mod Pods
pub mod Services
pub mod Creations
pub mod Quiet
pub mod Writes
pub mod Steps
pub mod Objects
pub mod Cluster
use kubecluster.Prelude.{
  ℕ, ℤ, pos, ltb, leb_ℤ, String, Bool, true, false, List, [], ◌∷◌, Option, none, some, ◌≡◌,
  if◌then◌else◌,
}
use kubecluster.Errors.{Error, Result, ok, err, panic, is_not_found}
use kubecluster.Types.{Pod, Service, ConfigMap, ConditionType, ConditionStatus}
use kubecluster.World.{
  Call, EventType, Env, State, M, ◌>>=◌, ◌>>◌, pure, raise, lift, try, note, request, get_calls,
  get_cluster,
}
use kubecluster.World.Keeps.{
  Keeps, Keeps-bind, Keeps-then, Keeps-pure, Keeps-raise, Keeps-lift, Keeps-try, Keeps-if,
  Keeps-note, Keeps-request, Keeps-get_cluster, Keeps-get_calls, Keeps-set_status, Keeps-now,
}
use kubecluster.Control.{
  delete_pod, settle_pod_deletion, delete_found_pod, unless_deleted_pod, delete_service,
  settle_service_deletion, delete_found_service, unless_deleted_service,
}
use kubecluster.Reconcile.Status.{update_conditions}

-- One more request of this kind keeps `I`.
abbrev pub Stable : (List Call → Type 0) → Call → Type 0
Stable I c = (calls : List Call) → I calls → I (c ∷ calls)

abbrev pub StableEvents : (List Call → Type 0) → Type 0
StableEvents I = (t : EventType) (reason message : String) → Stable I (Call.event t reason message)

module _ {I : List Call → Type 0} (env : Env) (events : StableEvents I) where
  settle_pod_deletion-Keeps :
      (id : String) (r : Result (Unit {0})) → Keeps I (settle_pod_deletion id r)
  settle_pod_deletion-Keeps id (ok a) = Keeps-note _ (events _ _ _)
  settle_pod_deletion-Keeps id (err e) =
      Keeps-then _ _ (Keeps-note _ (events _ _ _)) (Keeps-raise _)
  settle_pod_deletion-Keeps id panic = Keeps-lift panic

  unless_deleted_pod-Keeps :
      (namespace id : String) (deletion_timestamp : Option ℕ)
      → Stable I (Call.pod_delete namespace id)
      → Keeps I (unless_deleted_pod env namespace id deletion_timestamp)
  unless_deleted_pod-Keeps namespace id (some t) h = Keeps-pure tt
  unless_deleted_pod-Keeps namespace id none h =
      Keeps-bind _ _ (Keeps-try _ (Keeps-request env _ h)) (settle_pod_deletion-Keeps id)

  delete_found_pod-Keeps :
      (namespace id : String) (r : Result Pod)
      → Stable I (Call.pod_delete namespace id)
      → Keeps I (delete_found_pod env namespace id r)
  delete_found_pod-Keeps namespace id (ok pod) h =
      unless_deleted_pod-Keeps namespace id pod.deletion_timestamp h
  delete_found_pod-Keeps namespace id (err e) h = Keeps-if _ _ _ (Keeps-pure tt) (Keeps-raise e)
  delete_found_pod-Keeps namespace id panic h = Keeps-lift panic

  pub delete_pod-Keeps :
      (namespace id : String)
      → Stable I (Call.pod_delete namespace id)
      → Keeps I (delete_pod env namespace id)
  unfolding delete_pod
  delete_pod-Keeps namespace id h =
      Keeps-bind _ _ Keeps-get_calls
        (λ calls. delete_found_pod-Keeps namespace id (env.pod_get calls namespace id) h)

  settle_service_deletion-Keeps :
      (id : String) (r : Result (Unit {0})) → Keeps I (settle_service_deletion id r)
  settle_service_deletion-Keeps id (ok a) = Keeps-note _ (events _ _ _)
  settle_service_deletion-Keeps id (err e) =
      Keeps-then _ _ (Keeps-note _ (events _ _ _)) (Keeps-raise _)
  settle_service_deletion-Keeps id panic = Keeps-lift panic

  unless_deleted_service-Keeps :
      (namespace id : String) (deletion_timestamp : Option ℕ)
      → Stable I (Call.service_delete namespace id)
      → Keeps I (unless_deleted_service env namespace id deletion_timestamp)
  unless_deleted_service-Keeps namespace id (some t) h = Keeps-pure tt
  unless_deleted_service-Keeps namespace id none h =
      Keeps-bind _ _ (Keeps-try _ (Keeps-request env _ h)) (settle_service_deletion-Keeps id)

  delete_found_service-Keeps :
      (namespace id : String) (r : Result Service)
      → Stable I (Call.service_delete namespace id)
      → Keeps I (delete_found_service env namespace id r)
  delete_found_service-Keeps namespace id (ok service) h =
      unless_deleted_service-Keeps namespace id service.deletion_timestamp h
  delete_found_service-Keeps namespace id (err e) h = Keeps-if _ _ _ (Keeps-pure tt) (Keeps-raise e)
  delete_found_service-Keeps namespace id panic h = Keeps-lift panic

  pub delete_service-Keeps :
      (namespace id : String)
      → Stable I (Call.service_delete namespace id)
      → Keeps I (delete_service env namespace id)
  unfolding delete_service
  delete_service-Keeps namespace id h =
      Keeps-bind _ _ Keeps-get_calls
        (λ calls. delete_found_service-Keeps namespace id (env.service_get calls namespace id) h)

module _ {I : List Call → Type 0} where
  pub update_conditions-Keeps :
      (env : Env) (type : ConditionType) (status : ConditionStatus) (reason message : String)
      → Keeps I (update_conditions env type status reason message)
  unfolding update_conditions
  update_conditions-Keeps env type status reason message =
      Keeps-bind _ _ (Keeps-now env) (λ updated.
        Keeps-bind _ _ (Keeps-now env)
          (λ transited. Keeps-bind _ _ Keeps-get_cluster (λ cluster. Keeps-set_status _)))
