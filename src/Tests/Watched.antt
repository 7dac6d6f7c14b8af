-- ===== src/Tests/Watched.antt =====
-- What CreateNewPod and CreateNewService ask for is observed: the examples.
use kubecluster.Prelude.{
  List, Bool, Option, none, some, if◌then◌else◌, false, [], ◌∷◌, Dict, refl, arith, lookup,
}
use kubecluster.Types.{OwnerReference, empty_status}
use kubecluster.Labels.{gen_replica_type_label}
use kubecluster.Strings.{to_lower}
use kubecluster.Slurm.Pods.{slurm_schema}
use kubecluster.Slurm.Pods.Frame.{set_slurm_spec-IsFrame}
use kubecluster.Reconcile.PodCreation.{create_new_pod}
use kubecluster.Reconcile.Services.{create_new_service}
use kubecluster.Watch.Announced.{Since, PodsAnnounced, ServicesAnnounced}
use kubecluster.Watch.Observed.{ReportsController, PodObserved, ServiceObserved}
use kubecluster.Watch.Keys.{KeepsLabels, create_new_pod-IsObserved, create_new_service-IsObserved}
use kubecluster.Tests.Libraries.{libraries}
use kubecluster.Tests.Fixtures.{config_map, ctx, replicas, state}

abbrev schemas : Dict (Unit {0})
schemas = ("slurm", tt) ∷ []

-- The first reference that is set to be the controller.
abbrev is_set : Option Bool → Bool
is_set none = false
is_set (some b) = b

abbrev controller_of : List OwnerReference → Option OwnerReference
controller_of [] = none
controller_of (ref ∷ refs) =
    let rest = controller_of refs in if is_set ref.controller then some ref else rest

controller_of-ReportsController : ReportsController controller_of
controller_of-ReportsController ref e = rw e refl

slurm-KeepsLabels : KeepsLabels ctx
unfolding slurm_schema
slurm-KeepsLabels owner template after rtype index config_map made =
    let (frame, root) =
      set_slurm_spec-IsFrame libraries owner template after rtype index config_map made in
    frame.labels

create_new_pod-IsObserved_example :
    Since []
      (PodsAnnounced (PodObserved controller_of schemas "slurm"))
      (create_new_pod ctx "Worker" 1 (replicas 2) false config_map (state empty_status)).1.calls
unfolding lookup gen_replica_type_label to_lower
create_new_pod-IsObserved_example =
    create_new_pod-IsObserved schemas tt controller_of controller_of-ReportsController ctx "Worker"
      1 (replicas 2) false config_map (state empty_status) refl refl refl refl slurm-KeepsLabels
      (record { not_type = refl; not_replica = refl }) (λ asked. omega arith)

create_new_service-IsObserved_example :
    Since []
      (ServicesAnnounced (ServiceObserved controller_of schemas "slurm"))
      (create_new_service ctx "Worker" (replicas 2) "1" "kubenode" (state empty_status)).1.calls
unfolding lookup gen_replica_type_label to_lower
create_new_service-IsObserved_example =
    create_new_service-IsObserved schemas tt controller_of controller_of-ReportsController ctx
      "Worker" (replicas 2) "1" "kubenode" (state empty_status) refl refl refl refl
