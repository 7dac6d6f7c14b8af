-- ===== src/Claims/Deleted.antt =====
-- A controller that is being deleted (pkg/controller/control/controller_ref_manager.go) claims what
-- it owns, and touches nothing.
use kubecluster.Prelude.{
  ℕ, Bool, true, false, ◌&&◌, List, [], ◌∷◌, Option, none, some, ◌≡◌, refl, filter, str_eq,
  if◌then◌else◌, arith,
}
use kubecluster.Errors.{ok}
use kubecluster.Types.{Pod, Service, OwnerReference}
use kubecluster.World.{Env, State, M, ◌>>=◌, pure}
use kubecluster.Claims.{
  Manager, AdoptOnce, Meta, Attempt, add_claim, claim_by_owner, claim_object, claim_all,
  match_object, claim_pods, claim_services, meta_of_pod, meta_of_service, adopt_pod, release_pod,
  adopt_service, release_service,
}

abbrev pub owns : Manager → Option OwnerReference → Bool
owns m none = false
owns m (some ref) = str_eq ref.uid m.uid

-- The object is owned by the controller, and matches.
abbrev pub owned_match : {A : Type 0} → Manager → (A → Meta) → List (A → Bool) → A → Bool
owned_match m meta_of filters x = owns m (meta_of x).owner && match_object m meta_of filters x

add_claim-if :
    {A : Type 0} (x : A) (b : Bool) (claimed : List A) (once : AdoptOnce) (s : State)
    → pure (add_claim x (ok b) (claimed, [], once)) s
      ≡ (ok (if b then x ∷ claimed else claimed, [], once), s)
unfolding pure
add_claim-if x true claimed once s = refl
add_claim-if x false claimed once s = refl

module _ {A : Type 0} (m : Manager) (meta_of : A → Meta) (adopt release : A → AdoptOnce → M Attempt)
    (filters : List (A → Bool)) (t : ℕ) (deleted : m.deletion_timestamp ≡ some t) where
  claim_by_owner-deleted :
      (x : A) (matches : Bool) (owner : Option OwnerReference) (once : AdoptOnce) (s : State)
      → claim_by_owner m (adopt x) (release x) (meta_of x) matches owner once s
        ≡ (ok (ok (owns m owner && matches), once), s)
  unfolding pure
  claim_by_owner-deleted x matches none once s = rw deleted refl
  claim_by_owner-deleted x matches (some ref) once s = rw deleted (ground arith)

  claim_all-deleted :
      (xs : List A) (once : AdoptOnce) (s : State)
      → claim_all m meta_of adopt release filters xs once s
        ≡ (ok (filter (owned_match m meta_of filters) xs, [], once), s)
  unfolding claim_all claim_object ◌>>=◌ pure
  claim_all-deleted [] once s = refl
  claim_all-deleted (x ∷ xs) once s =
      rw
        (
          claim_by_owner-deleted x (match_object m meta_of filters x) (meta_of x).owner once s,
          claim_all-deleted xs once s,
        )
        (add_claim-if x (owned_match m meta_of filters x) _ once s)

-- The claims of a controller that is being deleted are the objects it owns that match, in order:
-- there is no error, no request is made, and `CanAdoptFunc` is not called.
pub claim_pods-deleted :
    (env : Env) (m : Manager) (t : ℕ) (pod_filters : List (Pod → Bool)) (pods : List Pod)
    (service_filters : List (Service → Bool)) (services : List Service) (once : AdoptOnce)
    (s : State)
    → m.deletion_timestamp ≡ some t
    → (claim_pods env m pod_filters pods once s
        ≡ (ok (filter (owned_match m meta_of_pod pod_filters) pods, [], once), s))
      × (claim_services env m service_filters services once s
          ≡ (ok (filter (owned_match m meta_of_service service_filters) services, [], once), s))
unfolding claim_pods claim_services
claim_pods-deleted env m t pod_filters pods service_filters services once s deleted = (
  claim_all-deleted m meta_of_pod (adopt_pod env m) (release_pod env m) pod_filters t deleted pods
      once s,
  claim_all-deleted m meta_of_service (adopt_service env m) (release_service env m) service_filters
      t deleted services once s,
)
