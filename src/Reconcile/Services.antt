-- ===== src/Reconcile/Services.antt =====
-- CreateNewService and ReconcileServices of pkg/controller/ctrlcommon/service.go.
use kubecluster.Prelude.{
  ℕ, suc, ℤ, pos, leb_ℤ, String, List, [], ◌∷◌, some, Dict, map, if◌then◌else◌,
}
use kubecluster.Types.{Service, NewService, ServicePort, ReplicaSpec, KubeCluster}
use kubecluster.Strings.{itoa}
use kubecluster.Labels.{
  gen_labels, gen_replica_type_label, set_replica_type, set_replica_index_str, set_cluster_type,
  gen_general_name,
}
use kubecluster.Slices.{get_service_slices}
use kubecluster.Expectation.{gen_expectation_services_key}
use kubecluster.World.{M, ◌>>=◌, ◌>>◌, pure, lift, get_cluster}
use kubecluster.Control.{create_services_with_controller_ref, delete_service}
use kubecluster.Reconcile.Naming.{Ctx, controller_name, gen_owner_reference}
use kubecluster.Reconcile.PodCreation.{announced}
use kubecluster.Reconcile.Pods.{deref}
use kubecluster.Reconcile.Select.{get_ports_from_cluster, filter_services_for_replica_type}

unfoldable pub new_service_labels : KubeCluster → String → String → Dict String
unfolding gen_labels set_replica_type set_replica_index_str set_cluster_type
new_service_labels cluster rtype index =
    set_cluster_type
      (set_replica_index_str
        (set_replica_type (gen_labels controller_name cluster.name) (gen_replica_type_label rtype))
        index)
      cluster.spec.cluster_type

abbrev to_service_port : String × ℤ → ServicePort
to_service_port (name, port) = record { name = name; port = port }

-- The headless service of one pod, whose name is the pod's.
unfoldable pub new_service : KubeCluster → String → String → Dict ℤ → NewService
unfolding new_service_labels gen_general_name
new_service cluster rtype index ports = record {
  name = gen_general_name cluster.name rtype index;
  labels = new_service_labels cluster rtype index;
  cluster_ip = "None";
  selector = new_service_labels cluster rtype index;
  ports = map to_service_port ports;
  owner_references = [];
}

unfoldable pub create_new_service : Ctx → String → ReplicaSpec → String → String → M Unit
unfolding get_cluster new_service get_ports_from_cluster create_services_with_controller_ref
    announced
create_new_service ctx rtype spec index default_container_name = do
  cluster ← get_cluster
  cluster_key ← lift (ctx.key_func cluster)
  ports ← lift (get_ports_from_cluster spec default_container_name)
  created ← announced (gen_expectation_services_key cluster_key rtype) (
      create_services_with_controller_ref ctx.env cluster.namespace
        (new_service cluster rtype index ports) (some (gen_owner_reference cluster)))
  pure tt

unfoldable pub reconcile_service_slice : Ctx → String → ReplicaSpec → ℤ → ℕ → List Service → M Unit
unfolding create_new_service delete_service
reconcile_service_slice ctx rtype spec replicas index [] =
    create_new_service ctx rtype spec (itoa index) ctx.schema.get_default_container_name
reconcile_service_slice ctx rtype spec replicas index (svc ∷ []) =
    if leb_ℤ replicas (pos index) then delete_service ctx.env svc.namespace svc.name else pure tt
reconcile_service_slice ctx rtype spec replicas index (_ ∷ _ ∷ _) = pure tt

unfoldable pub reconcile_service_slices :
    Ctx → String → ReplicaSpec → ℤ → ℕ → List (List Service) → M Unit
unfolding reconcile_service_slice
reconcile_service_slices ctx rtype spec replicas index [] = pure tt
reconcile_service_slices ctx rtype spec replicas index (slice ∷ slices) = do
  reconcile_service_slice ctx rtype spec replicas index slice
  reconcile_service_slices ctx rtype spec replicas (suc index) slices

unfoldable pub reconcile_services : Ctx → String → ReplicaSpec → List Service → M Unit
unfolding filter_services_for_replica_type get_service_slices reconcile_service_slices
reconcile_services ctx rtype spec services = do
  replicas ← lift (deref spec.replicas)
  slices ← lift (
      get_service_slices
        (filter_services_for_replica_type ctx services (gen_replica_type_label rtype)) replicas)
  reconcile_service_slices ctx rtype spec replicas 0 slices
