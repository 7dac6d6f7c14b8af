-- ===== src/Watch/Observed.antt =====
-- The key under which the predicates observe what the controller sends to be created
-- (pkg/controller/ctrlcommon/pod.go, pkg/controller/ctrlcommon/service.go, pkg/common/util/reconciler.go).
use Prim.Native.String.{◌++◌}
use kubecluster.Prelude.{
  ℤ, String, true, false, List, [], ◌∷◌, Option, some, ◌≡◌, refl, Dict, lookup, insert, str_eq,
  arith,
}
use kubecluster.Types.{KubeCluster, PodTemplate, NewPod, NewService, OwnerReference}
use kubecluster.Strings.Lower.{to_lower-to_lower}
use kubecluster.Labels.{gen_replica_type_label}
use kubecluster.Expectation.{gen_expectation_pods_key, gen_expectation_services_key}
use kubecluster.Control.{copy_into, get_pod_from_template, get_service_from_template}
use kubecluster.Reconcile.Naming.{gen_owner_reference}
use kubecluster.Reconcile.Services.{new_service, new_service_labels}
use kubecluster.Watch.{
  Object, ObjectType, Observation, on_dependent_create_func, on_dependent_delete_func,
}
use kubecluster.Watch.Labelled.{Labelled, copy_into-Labelled}

-- metav1.GetControllerOf reports the one reference if it is set to be the controller.
abbrev pub ReportsController : (List OwnerReference → Option OwnerReference) → Type 0
ReportsController controller_of =
    (ref : OwnerReference) → ref.controller ≡ some true → controller_of (ref ∷ []) ≡ some ref

-- The object that is watched once the API server made what a request sent; the server chose the
-- version.
abbrev pub object_of_pod :
    (List OwnerReference → Option OwnerReference) → String → NewPod → String → String → Object
object_of_pod controller_of namespace pod kind version = record {
  type = ObjectType.pod;
  kind = kind;
  name = pod.name;
  namespace = namespace;
  resource_version = version;
  labels = pod.labels;
  owner = controller_of pod.owner_references;
}

abbrev pub object_of_service :
    (List OwnerReference → Option OwnerReference) → String → NewService → String → String → Object
object_of_service controller_of namespace service kind version = record {
  type = ObjectType.service;
  kind = kind;
  name = service.name;
  namespace = namespace;
  resource_version = version;
  labels = service.labels;
  owner = controller_of service.owner_references;
}

-- The creation and the deletion of an object are observed under a key, in the schema of a type.
abbrev pub IsObserved : {S : Type 0} → Dict S → String → String → Object → Type 0
IsObserved schemas cluster_type key object =
    (on_dependent_create_func schemas object
      ≡ (true, some (Observation.creation_observed cluster_type key)))
    × (on_dependent_delete_func schemas object
        ≡ (true, some (Observation.deletion_observed cluster_type key)))

-- The key of a cluster with a namespace.
abbrev pub cluster_key : KubeCluster → String
cluster_key cluster = cluster.namespace ++ "/" ++ cluster.name

-- What a request for a pod, or a service, sends is observed under the key that was raised, whatever
-- the server chooses.
abbrev pub PodObserved :
    {S : Type 0}
    → (List OwnerReference → Option OwnerReference)
    → Dict S
    → String
    → String
    → String
    → NewPod
    → Type 0
PodObserved controller_of schemas cluster_type key namespace pod =
    (kind version : String)
    → IsObserved schemas cluster_type key (object_of_pod controller_of namespace pod kind version)

abbrev pub ServiceObserved :
    {S : Type 0}
    → (List OwnerReference → Option OwnerReference)
    → Dict S
    → String
    → String
    → String
    → NewService
    → Type 0
ServiceObserved controller_of schemas cluster_type key namespace service =
    (kind version : String)
    → IsObserved schemas cluster_type key
        (object_of_service controller_of namespace service kind version)

gen_expectation_pods_key-label :
    (key rtype : String)
    → gen_expectation_pods_key key (gen_replica_type_label rtype)
      ≡ gen_expectation_pods_key key rtype
unfolding gen_expectation_pods_key gen_replica_type_label
gen_expectation_pods_key-label key rtype = rw (to_lower-to_lower rtype)

gen_expectation_services_key-label :
    (key rtype : String)
    → gen_expectation_services_key key (gen_replica_type_label rtype)
      ≡ gen_expectation_services_key key rtype
unfolding gen_expectation_services_key gen_replica_type_label
gen_expectation_services_key-label key rtype = rw (to_lower-to_lower rtype)

module _ {S : Type 0} (schemas : Dict S) (schema : S)
    (controller_of : List OwnerReference → Option OwnerReference)
    (reports : ReportsController controller_of) (rtype : String) where
  module _ (cluster : KubeCluster)
      (registered : lookup cluster.spec.cluster_type schemas ≡ some schema)
      (typed : str_eq cluster.spec.cluster_type "" ≡ false)
      (named : str_eq (gen_replica_type_label rtype) "" ≡ false) where
    pub service-ServiceObserved :
        (index : String) (ports : Dict ℤ)
        → ServiceObserved controller_of schemas cluster.spec.cluster_type
            (gen_expectation_services_key (cluster_key cluster) rtype)
            cluster.namespace
            (get_service_from_template
              (new_service cluster rtype index ports)
              (some (gen_owner_reference cluster)))
    unfolding on_dependent_create_func on_dependent_delete_func new_service_labels lookup insert
        gen_owner_reference new_service get_service_from_template
    service-ServiceObserved index ports kind version = (
      rw
          (
            reports (gen_owner_reference cluster) refl,
            typed,
            registered,
            named,
            gen_expectation_services_key-label (cluster_key cluster) rtype,
          )
          refl,
      rw
          (
            reports (gen_owner_reference cluster) refl,
            typed,
            registered,
            named,
            gen_expectation_services_key-label (cluster_key cluster) rtype,
          )
          refl,
    )

    labels-IsObserved :
        (d : Dict String) (o : Option OwnerReference) (name kind version : String)
        → o ≡ some (gen_owner_reference cluster)
        → Labelled cluster rtype d
        → IsObserved schemas cluster.spec.cluster_type
            (gen_expectation_pods_key (cluster_key cluster) rtype)
            (record {
              type = ObjectType.pod;
              kind = kind;
              name = name;
              namespace = cluster.namespace;
              resource_version = version;
              labels = d;
              owner = o;
            })
    unfolding on_dependent_create_func on_dependent_delete_func gen_owner_reference
    labels-IsObserved d o name kind version owned h = (
      ground (
        arith,
        owned,
        h.type,
        h.replica,
        typed,
        registered,
        named,
        gen_expectation_pods_key-label (cluster_key cluster) rtype,
      ),
      ground (
        arith,
        owned,
        h.type,
        h.replica,
        typed,
        registered,
        named,
        gen_expectation_pods_key-label (cluster_key cluster) rtype,
      ),
    )

    pub pod-PodObserved :
        (template : PodTemplate)
        → Labelled cluster rtype template.labels
        → PodObserved controller_of schemas cluster.spec.cluster_type
            (gen_expectation_pods_key (cluster_key cluster) rtype)
            cluster.namespace
            (get_pod_from_template template (some (gen_owner_reference cluster)))
    unfolding get_pod_from_template gen_owner_reference
    pod-PodObserved template h kind version =
        labels-IsObserved (copy_into [] template.labels) _ template.name kind version
          (reports (gen_owner_reference cluster) refl)
          (copy_into-Labelled cluster rtype template.labels h)
