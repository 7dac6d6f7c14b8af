-- ===== src/Tests/Schemas.antt =====
-- The status of the two schemas and the checks of a cluster.
use mathlib.Core.List.{Memᴰ}
use kubecluster.Prelude.{pos, true, [], ◌∷◌, ◌≡◌, refl, lookup}
use kubecluster.Types.{
  ConditionType, same_type, ReplicaStatus, zero_replica_status, empty_status,
  cluster_default_container_name,
}
use kubecluster.Conditions.{is_failed, is_running}
use kubecluster.Conditions.Updates.{empty_status-IsWellFormed}
use kubecluster.Conditions.Invariant.{IsWellFormed}
use kubecluster.Schema.Status.{
  slurm_controller, update_slurm_status, pbspro_server, update_pbspro_status, last_restarting,
}
use kubecluster.Schema.Restarts.{
  update_slurm_status-worker, update_slurm_status-controller, update_pbspro_status-restarting,
  update_pbspro_status-worker,
}
use kubecluster.Schema.Checks.{
  NameRules, check_images, check_containers, check_specs, validate_v1alpha_cluster_specs,
  set_defaults_kube_cluster,
}
use kubecluster.Schema.Defaults.{IsDefaulted, set_defaults_kube_cluster-IsDefaulted}
use kubecluster.Schema.Validated.{Found, validated-ports}
use kubecluster.Reconcile.Select.{get_ports_from_cluster}
use kubecluster.Tests.Fixtures.{replicas, cluster_spec, status_with, cluster, state, env, condition}

abbrev failed : ReplicaStatus
failed = record zero_replica_status { failed = pos 1 }

update_pbspro_status-worker_example :
    is_failed
      (update_pbspro_status env "Worker"
        (state (status_with [] (("Worker", failed) ∷ [])))).1.cluster.status
    ≡ is_failed (status_with [] (("Worker", failed) ∷ []))
update_pbspro_status-worker_example =
    update_pbspro_status-worker env "Worker" (state (status_with [] (("Worker", failed) ∷ []))) refl

update_slurm_status-worker_example :
    is_failed
      (update_slurm_status env "Worker"
        (state (status_with [] (("Worker", failed) ∷ [])))).1.cluster.status
    ≡ is_failed (status_with [] (("Worker", failed) ∷ []))
update_slurm_status-worker_example =
    update_slurm_status-worker env "Worker" (state (status_with [] (("Worker", failed) ∷ []))) refl

update_slurm_status-controller_example :
    is_failed
      (update_slurm_status env slurm_controller
        (state (status_with [] ((slurm_controller, failed) ∷ [])))).1.cluster.status
    ≡ true
unfolding lookup is_failed is_running
update_slurm_status-controller_example =
    update_slurm_status-controller env (state (status_with [] ((slurm_controller, failed) ∷ [])))
      failed well_formed refl refl refl
  where
    well_formed : IsWellFormed (status_with [] ((slurm_controller, failed) ∷ []))
    well_formed = record {
      unique = empty_status-IsWellFormed.unique;
      exclusive = empty_status-IsWellFormed.exclusive;
      failed_stops = empty_status-IsWellFormed.failed_stops;
    }

update_pbspro_status-restarting_example :
    is_failed
      (update_pbspro_status env pbspro_server (
        state (
          status_with
            (condition ConditionType.restarting ∷ [])
            ((pbspro_server, failed) ∷ [])))).1.cluster.status
    ≡ is_failed
        (status_with (condition ConditionType.restarting ∷ []) ((pbspro_server, failed) ∷ []))
unfolding lookup last_restarting same_type
update_pbspro_status-restarting_example =
    update_pbspro_status-restarting env
      (state (status_with (condition ConditionType.restarting ∷ []) ((pbspro_server, failed) ∷ [])))
      failed (condition ConditionType.restarting) refl refl refl

abbrev rules : NameRules
rules = record { name_is_dns1035_label = λ name. []; is_dns1035_label = λ name. [] }

validated-ports_example :
    Found cluster_default_container_name
      (replicas 2).template.spec.containers
      (get_ports_from_cluster (replicas 2) cluster_default_container_name)
unfolding validate_v1alpha_cluster_specs check_specs check_containers check_images
validated-ports_example =
    validated-ports rules cluster_spec "Worker" (replicas 2) refl refl (Memᴰ.tail (Memᴰ.head refl))

set_defaults_kube_cluster-IsDefaulted_example :
    IsDefaulted (cluster empty_status) (set_defaults_kube_cluster (cluster empty_status))
set_defaults_kube_cluster-IsDefaulted_example =
    set_defaults_kube_cluster-IsDefaulted (cluster empty_status)
