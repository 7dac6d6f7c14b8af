-- ===== src/Claims.antt =====
-- The managers of controller references, which adopt and release pods and services:
-- pkg/controller/control/controller_ref_manager.go.
pub mod Deleted
pub mod Settled
pub mod Claimed
pub mod Spends
pub mod Once
use Prim.Native.String.{◌++◌}
use kubecluster.Prelude.{
  ℕ, String, Bool, true, false, not, ◌&&◌, ◌||◌, List, [], ◌∷◌, Option, none, some, Dict, str_eq,
  if◌then◌else◌,
}
use kubecluster.Errors.{Error, Result, ok, err, panic, is_not_found, is_invalid, error_text}
use kubecluster.Types.{Pod, Service, OwnerReference}
use kubecluster.World.{Env, M, ◌>>=◌, ◌>>◌, pure, raise, lift, try}
use kubecluster.Control.{patch_pod, patch_service}

-- A manager: the controller's metadata, its kind, the selector's test of labels, and `CanAdoptFunc`,
-- which may be nil.
pub record Manager : Type 0 where
  pub name : String
  pub uid : String
  pub deletion_timestamp : Option ℕ
  pub group_version : String
  pub kind : String
  pub selector_matches : Dict String → Bool
  pub can_adopt_func : Option (M (Unit {0}))

-- `canAdoptOnce` and `canAdoptErr`: the outcome, once there is one.
pub data AdoptOnce : Type 0 where
  fresh : AdoptOnce
  done : Result (Unit {0}) → AdoptOnce

abbrev pub run_can_adopt : Option (M (Unit {0})) → M AdoptOnce
run_can_adopt none = pure (done (ok tt))
run_can_adopt (some can_adopt_func) = do r ← try can_adopt_func; pure (done r)

-- The error of a manager that was asked before is kept.
abbrev pub can_adopt : Manager → AdoptOnce → M AdoptOnce
can_adopt m fresh = run_can_adopt m.can_adopt_func
can_adopt m (done r) = pure (done r)

-- `metav1.Object`, as far as the managers read it.
pub record Meta : Type 0 where
  pub kind : String
  pub name : String
  pub namespace : String
  pub uid : String
  pub labels : Dict String
  pub owner : Option OwnerReference
  pub deletion_timestamp : Option ℕ

abbrev pub is_set : Option ℕ → Bool
is_set none = false
is_set (some t) = true

-- What an adoption or a release leaves: its error, and whether the controller was asked.
abbrev pub Attempt : Type 0
Attempt = Result (Unit {0}) × AdoptOnce

-- After `adopt` or `release`: an object that is gone is no error.
abbrev pub settle_attempt : Bool → Attempt → Result Bool × AdoptOnce
settle_attempt success (ok _, once) = (ok success, once)
settle_attempt success (err e, once) = (if is_not_found e then ok false else err e, once)
settle_attempt success (panic, once) = (panic, once)

-- BaseControllerRefManager.ClaimObject
module _ (m : Manager) (adopt release : AdoptOnce → M Attempt) where
  abbrev pub claim_owned : Meta → Bool → OwnerReference → AdoptOnce → M (Result Bool × AdoptOnce)
  claim_owned obj matches ref once =
      if not (str_eq ref.uid m.uid)
      then pure (ok false, once)
      else if matches
      then pure (ok true, once)
      else if is_set m.deletion_timestamp
      then pure (ok false, once)
      else (do r ← release once; pure (settle_attempt false r))

  abbrev pub claim_orphan : Meta → Bool → AdoptOnce → M (Result Bool × AdoptOnce)
  claim_orphan obj matches once =
      if is_set m.deletion_timestamp || not matches
      then pure (ok false, once)
      else if is_set obj.deletion_timestamp
      then pure (ok false, once)
      else (do r ← adopt once; pure (settle_attempt true r))

  abbrev pub claim_by_owner :
      Meta → Bool → Option OwnerReference → AdoptOnce → M (Result Bool × AdoptOnce)
  claim_by_owner obj matches (some ref) once = claim_owned obj matches ref once
  claim_by_owner obj matches none once = claim_orphan obj matches once

  pub claim_object : Meta → Bool → AdoptOnce → M (Result Bool × AdoptOnce)
  claim_object obj matches once = claim_by_owner obj matches obj.owner once

-- `addControllerPatch` and `deleteOwnerRefPatch`
add_controller_patch : Manager → Meta → String
add_controller_patch m obj =
    "{\"metadata\":{\"ownerReferences\":[{\"apiVersion\":\"" ++ m.group_version ++ "\",\"kind\":\""
    ++ m.kind ++ "\",\"name\":\"" ++ m.name ++ "\",\"uid\":\"" ++ m.uid
    ++ "\",\"controller\":true,\"blockOwnerDeletion\":true}],\"uid\":\"" ++ obj.uid ++ "\"}}"

pub delete_owner_ref_patch : Manager → Meta → String
delete_owner_ref_patch m obj =
    "{\"metadata\":{\"ownerReferences\":[{\"$patch\":\"delete\",\"uid\":\"" ++ m.uid
    ++ "\"}],\"uid\":\"" ++ obj.uid ++ "\"}}"

-- 404 and 422 errors are ignored.
abbrev pub ignore_gone : Result (Unit {0}) → Result (Unit {0})
ignore_gone (err e) = if is_not_found e || is_invalid e then ok tt else err e
ignore_gone r = r

module _ (m : Manager) (patch : String → String → String → M (Unit {0})) where
  -- The error of `CanAdopt` is wrapped, and so loses its kind.
  pub adopt_if : Meta → AdoptOnce → M (Unit {0})
  unfolding add_controller_patch
  adopt_if obj (done (err e)) = raise (
      Error.other (
        "can't adopt "
        ++ obj.kind
        ++ " "
        ++ obj.namespace
        ++ "/"
        ++ obj.name
        ++ " ("
        ++ obj.uid
        ++ "): "
        ++ error_text e))
  adopt_if obj once = patch obj.namespace obj.name (add_controller_patch m obj)

  unfoldable pub adopt_object : Meta → AdoptOnce → M Attempt
  unfolding adopt_if
  adopt_object obj once = do once' ← can_adopt m once; r ← try (adopt_if obj once'); pure (r, once')

  unfoldable pub release_object : Meta → AdoptOnce → M Attempt
  unfolding delete_owner_ref_patch
  release_object obj once = do
    r ← try (patch obj.namespace obj.name (delete_owner_ref_patch m obj))
    pure (ignore_gone r, once)

abbrev pub meta_of_pod : Pod → Meta
meta_of_pod p = record {
  kind = "Pod";
  name = p.name;
  namespace = p.namespace;
  uid = p.uid;
  labels = p.labels;
  owner = p.owner;
  deletion_timestamp = p.deletion_timestamp;
}

abbrev pub meta_of_service : Service → Meta
meta_of_service s = record {
  kind = "Service";
  name = s.name;
  namespace = s.namespace;
  uid = s.uid;
  labels = s.labels;
  owner = s.owner;
  deletion_timestamp = s.deletion_timestamp;
}

-- What a loop has gathered: the claimed objects, the errors, and what became of `canAdoptOnce`.
abbrev pub Claims : Type 0 → Type 0
Claims A = List A × List Error × AdoptOnce

abbrev pub add_claim : {A : Type 0} → A → Result Bool → Claims A → Claims A
add_claim x (ok true) (claimed, errors, once) = (x ∷ claimed, errors, once)
add_claim x (ok false) claims = claims
add_claim x (err e) (claimed, errors, once) = (claimed, e ∷ errors, once)
add_claim x panic claims = claims

pub passes : {A : Type 0} → List (A → Bool) → A → Bool
passes [] x = true
passes (f ∷ fs) x = let rest = passes fs x in f x && rest

pub match_object : {A : Type 0} → Manager → (A → Meta) → List (A → Bool) → A → Bool
unfolding passes
match_object m meta_of filters x = m.selector_matches (meta_of x).labels && passes filters x

-- The two files' loops differ in the type of the objects and in the control that patches them.
module _ {A : Type 0} (m : Manager) (meta_of : A → Meta) (adopt release : A → AdoptOnce → M Attempt)
    (filters : List (A → Bool)) where
  unfoldable pub claim_all : List A → AdoptOnce → M (Claims A)
  unfolding claim_object match_object
  claim_all [] once = pure ([], [], once)
  claim_all (x ∷ xs) once = do
    r ← claim_object m (adopt x) (release x) (meta_of x) (match_object m meta_of filters x) once
    rest ← claim_all xs r.1
    pure (add_claim x r.0 rest)

-- `AdoptPod`, `ReleasePod`, `AdoptService` and `ReleaseService`
unfoldable pub adopt_pod : Env → Manager → Pod → AdoptOnce → M Attempt
adopt_pod env m pod once = adopt_object m (patch_pod env) (meta_of_pod pod) once

unfoldable pub release_pod : Env → Manager → Pod → AdoptOnce → M Attempt
release_pod env m pod once = release_object m (patch_pod env) (meta_of_pod pod) once

pub adopt_service : Env → Manager → Service → AdoptOnce → M Attempt
adopt_service env m service once = adopt_object m (patch_service env) (meta_of_service service) once

pub release_service : Env → Manager → Service → AdoptOnce → M Attempt
release_service env m service once =
    release_object m (patch_service env) (meta_of_service service) once

-- `ClaimPods` and `ClaimServices`. The errors are aggregated: none of them is no error.
unfoldable pub claim_pods :
    Env → Manager → List (Pod → Bool) → List Pod → AdoptOnce → M (Claims Pod)
claim_pods env m filters pods once =
    claim_all m meta_of_pod (adopt_pod env m) (release_pod env m) filters pods once

pub claim_services :
    Env → Manager → List (Service → Bool) → List Service → AdoptOnce → M (Claims Service)
claim_services env m filters services once =
    claim_all m meta_of_service (adopt_service env m) (release_service env m) filters services once
