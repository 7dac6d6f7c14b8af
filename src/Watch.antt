-- ===== src/Watch.antt =====
-- The predicates on the events of watched objects: pkg/common/util/reconciler.go and
-- pkg/common/util/reconcile_generic.go.
pub mod Labelled
pub mod Announced
pub mod Observed
pub mod Keys
pub mod Gate
use Prim.Native.String.{◌++◌}
use kubecluster.Prelude.{
  ℕ, String, Bool, true, false, ◌&&◌, not, List, [], ◌∷◌, Option, none, some, Dict, lookup, str_eq,
  if◌then◌else◌,
}
use kubecluster.Errors.{Result, ok, err, panic}
use kubecluster.Types.{OwnerReference, KubeCluster, kube_cluster_kind}
use kubecluster.Strings.{to_lower}
use kubecluster.Labels.{cluster_type_label, replica_type_label}
use kubecluster.Expectation.{gen_expectation_pods_key, gen_expectation_services_key}

-- The types that the `switch` tells apart.
pub data ObjectType : Type 0 where
  pod service other : ObjectType

-- A watched object; `owner` is what metav1.GetControllerOf reports, `kind` the kind in its type meta.
pub record Object : Type 0 where
  pub type : ObjectType
  pub kind : String
  pub name : String
  pub namespace : String
  pub resource_version : String
  pub labels : Dict String
  pub owner : Option OwnerReference

-- What a predicate does to the expectations of a schema.
pub data Observation : Type 0 where
  creation_observed deletion_observed : String → String → Observation

-- The answer of a predicate, and what it observed.
abbrev Answer : Type 0
Answer = Bool × Option Observation

-- `m[key]` of a map of strings.
abbrev label_or_empty : String → Dict String → String
label_or_empty key labels = elim (lookup key labels) [ some v ↦ v | none ↦ "" ]

-- `fmt.Sprintf("%s/%s", namespace, controllerRef.Name)`
abbrev owner_key : Object → OwnerReference → String
owner_key object ref = object.namespace ++ "/" ++ ref.name

abbrev expectation_key : ObjectType → String → String → Option String
expectation_key ObjectType.pod cluster_key rtype = some (gen_expectation_pods_key cluster_key rtype)
expectation_key ObjectType.service cluster_key rtype =
    some (gen_expectation_services_key cluster_key rtype)
expectation_key ObjectType.other cluster_key rtype = none

abbrev observe_under : (String → Observation) → Option String → Answer
observe_under observed (some key) = (true, some (observed key))
observe_under observed none = (false, none)

-- An object with no controller passes unobserved.
abbrev observe_owner : (String → Observation) → Object → String → Option OwnerReference → Answer
observe_owner observed object rtype none = (true, none)
observe_owner observed object rtype (some ref) =
    observe_under observed (expectation_key object.type (owner_key object ref) rtype)

-- onDependentCreateFunc and onDependentDeleteFunc.
observe_dependent : (String → Observation) → Object → Answer
observe_dependent observed object =
    let rtype = label_or_empty replica_type_label object.labels in
    if str_eq rtype "" then (false, none) else observe_owner observed object rtype object.owner

-- The schema that the cluster type label names, among those that are registered.
abbrev schema_of : {S : Type 0} → Dict S → Object → Option String
schema_of schemas object =
    let cluster_type = label_or_empty cluster_type_label object.labels in
    if str_eq cluster_type ""
    then none
    else elim (lookup cluster_type schemas) [ some s ↦ some cluster_type | none ↦ none ]

abbrev with_schema : Option String → (String → Answer) → Answer
with_schema none f = (false, none)
with_schema (some schema) f = f schema

pub on_dependent_create_func : {S : Type 0} → Dict S → Object → Answer
unfolding observe_dependent
on_dependent_create_func schemas object =
    with_schema (schema_of schemas object)
      (λ schema. observe_dependent (Observation.creation_observed schema) object)

pub on_dependent_delete_func : {S : Type 0} → Dict S → Object → Answer
unfolding observe_dependent
on_dependent_delete_func schemas object =
    with_schema (schema_of schemas object)
      (λ schema. observe_dependent (Observation.deletion_observed schema) object)

-- GenExpectationGenericKey
gen_expectation_generic_key : String → String → String → String
gen_expectation_generic_key cluster_key replica_type pl =
    cluster_key ++ "/" ++ to_lower replica_type ++ "/" ++ pl

abbrev observe_generic_owner :
    (String → Observation) → Object → String → Option OwnerReference → Answer
observe_generic_owner observed object rtype none = (true, none)
observe_generic_owner observed object rtype (some ref) = (
  true,
  some (
      observed
        (gen_expectation_generic_key (owner_key object ref) rtype (to_lower object.kind ++ "s"))),
)

observe_generic : (String → Observation) → Object → Answer
unfolding gen_expectation_generic_key
observe_generic observed object =
    let rtype = label_or_empty replica_type_label object.labels in
    if str_eq rtype ""
    then (false, none)
    else observe_generic_owner observed object rtype object.owner

unfoldable on_dependent_create_func_generic : {S : Type 0} → Dict S → Object → Answer
unfolding observe_generic
on_dependent_create_func_generic schemas object =
    with_schema (schema_of schemas object)
      (λ schema. observe_generic (Observation.creation_observed schema) object)

unfoldable on_dependent_delete_func_generic : {S : Type 0} → Dict S → Object → Answer
unfolding observe_generic
on_dependent_delete_func_generic schemas object =
    with_schema (schema_of schemas object)
      (λ schema. observe_generic (Observation.deletion_observed schema) object)

-- resolveControllerRef: the cluster of this name, if the reference is of the right kind and its UID is
-- the cluster's. `get` is the informer cache.
resolve_controller_ref :
    (String → String → Result KubeCluster) → String → OwnerReference → Result (Option KubeCluster)
resolve_controller_ref get namespace ref =
    if str_eq ref.kind kube_cluster_kind
    then elim (get namespace ref.name) [
      | ok cluster ↦ ok (if str_eq cluster.uid ref.uid then some cluster else none)
      | err e ↦ ok none
      | panic ↦ panic
    ]
    else ok none

abbrev same_flag : Option Bool → Option Bool → Bool
same_flag none none = true
same_flag (some true) (some true) = true
same_flag (some false) (some false) = true
same_flag _ _ = false

-- reflect.DeepEqual of two `*OwnerReference`
abbrev same_reference : Option OwnerReference → Option OwnerReference → Bool
same_reference none none = true
same_reference (some a) (some b) =
    str_eq a.api_version b.api_version
    && str_eq a.kind b.kind
    && str_eq a.name b.name
    && str_eq a.uid b.uid
    && same_flag a.controller b.controller
    && same_flag a.block_owner_deletion b.block_owner_deletion
same_reference _ _ = false

abbrev is_found : Result (Option KubeCluster) → Result Bool
is_found (ok (some cluster)) = ok true
is_found (ok none) = ok false
is_found (err e) = ok false
is_found panic = panic

-- Is the object of a reference there?
abbrev resolves :
    (String → String → Result KubeCluster) → Object → Option OwnerReference → Result Bool
unfolding resolve_controller_ref
resolves get object none = ok false
resolves get object (some ref) = is_found (resolve_controller_ref get object.namespace ref)

-- The old controller counts if it changed, then the new one.
abbrev or_new : Result Bool → Result Bool → Result Bool
or_new (ok true) new = ok true
or_new (ok false) new = new
or_new (err e) new = new
or_new panic new = panic

update_generic : (String → String → Result KubeCluster) → Object → Object → Result Bool
unfolding resolve_controller_ref
update_generic get old_object new_object =
    if str_eq new_object.resource_version old_object.resource_version
    then ok false
    else or_new
        (if same_reference new_object.owner old_object.owner
          then ok false
          else resolves get old_object old_object.owner)
        (resolves get new_object new_object.owner)

-- OnDependentUpdateFunc: pods and services only.
unfoldable on_dependent_update_func :
    (String → String → Result KubeCluster) → Object → Object → Result Bool
unfolding update_generic
on_dependent_update_func get old_object new_object = elim new_object.type [
  | ObjectType.other ↦ ok false
  | _ ↦ update_generic get old_object new_object
]
