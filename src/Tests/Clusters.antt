-- ===== src/Tests/Clusters.antt =====
-- Reconciliations of a small cluster (pkg/controller/ctrlcommon).
use kubecluster.Prelude.{List, [], ◌∷◌, refl, All}
use kubecluster.Types.{
  Phase, ConditionType, CleanKubeNodePolicy, Pod, empty_status, same_type, same_status,
}
use kubecluster.Conditions.{is_failed, is_finished}
use kubecluster.Slurm.ConfigMaps.Requests.{reconcile_slurm_config_map-Keeps}
use kubecluster.Slurm.Pods.{slurm_schema}
use kubecluster.Tests.Libraries.{libraries}
use kubecluster.Reconcile.Pods.{reconcile_pods}
use kubecluster.Reconcile.CleanUp.{delete_pod_and_services}
use kubecluster.Reconcile.Cluster.{reconcile_kube_cluster}
use kubecluster.Reconcile.Accounting.{may_have_created, timed_out_services, Balanced}
use kubecluster.Reconcile.Accounting.Balance.{reconcile_pods-Balanced}
use kubecluster.Reconcile.Accounting.Whole.{reconcile_kube_cluster-Balanced}
use kubecluster.Reconcile.Deletions.{Allowed, reconcile_pods-Allowed}
use kubecluster.Reconcile.Finished.{CreatesNothing, reconcile_idle-CreatesNothing}
use kubecluster.Reconcile.Policies.{SweepsOnly, delete_pod_and_services-SweepsOnly}
use kubecluster.Schema.Restarts.{update_slurm_status-Keeps}
use kubecluster.Tests.Fixtures.{
  replicas, run_policy, condition, status_with, state, worker, config_map, env, ctx,
}

reconcile_kube_cluster-Balanced_example :
    Balanced env (reconcile_kube_cluster ctx (state empty_status)).1.calls
unfolding Balanced may_have_created timed_out_services slurm_schema
reconcile_kube_cluster-Balanced_example =
    reconcile_kube_cluster-Balanced ctx (state empty_status)
      (update_slurm_status-Keeps (λ t reason message calls h. h) env)
      (reconcile_slurm_config_map-Keeps (λ t reason message calls h. h) libraries env 5) refl

reconcile_pods-Allowed_example :
    All
      (Allowed ctx "Worker" (replicas 2) (worker Phase.failed "0" ∷ worker Phase.running "2" ∷ []))
      (reconcile_pods ctx "Worker"
        (replicas 2)
        (worker Phase.failed "0" ∷ worker Phase.running "2" ∷ [])
        config_map
        (state empty_status)).1.calls
reconcile_pods-Allowed_example =
    reconcile_pods-Allowed ctx "Worker" (replicas 2)
      (worker Phase.failed "0" ∷ worker Phase.running "2" ∷ []) config_map (state empty_status) tt

abbrev running_workers : List Pod
running_workers = worker Phase.running "0" ∷ worker Phase.running "1" ∷ []

reconcile_idle-CreatesNothing_example :
    All CreatesNothing
      (reconcile_kube_cluster ctx
        (state (status_with (condition ConditionType.failed ∷ []) []))).1.calls
unfolding is_finished is_failed same_type same_status
reconcile_idle-CreatesNothing_example =
    reconcile_idle-CreatesNothing ctx (state (status_with (condition ConditionType.failed ∷ []) []))
      refl tt

reconcile_pods-Balanced_example :
    Balanced env
      (reconcile_pods ctx "Worker" (replicas 2) [] config_map (state empty_status)).1.calls
unfolding Balanced may_have_created timed_out_services slurm_schema
reconcile_pods-Balanced_example =
    reconcile_pods-Balanced ctx "Worker" (replicas 2) [] config_map (state empty_status) refl

delete_pod_and_services-SweepsOnly_example :
    All
      (SweepsOnly CleanKubeNodePolicy.running running_workers)
      (delete_pod_and_services ctx run_policy
        (status_with (condition ConditionType.failed ∷ []) [])
        running_workers
        (state (status_with (condition ConditionType.failed ∷ []) []))).1.calls
unfolding is_finished is_failed same_type same_status
delete_pod_and_services-SweepsOnly_example =
    delete_pod_and_services-SweepsOnly ctx CleanKubeNodePolicy.running run_policy
      (status_with (condition ConditionType.failed ∷ []) []) running_workers
      (state (status_with (condition ConditionType.failed ∷ []) [])) refl refl tt
