-- ===== src/Reconcile/Rules/Steps.antt =====
-- Invariants of the requests through the steps of ReconcileKubeCluster that create nothing
-- (pkg/controller/ctrlcommon/controller.go).
use kubecluster.Prelude.{ℕ, ℤ, String, List, Option, none, some}
use kubecluster.Types.{Pod, RunPolicy, ClusterStatus, KubeCluster}
use kubecluster.Conditions.{is_running, is_suspended}
use kubecluster.World.{Call}
use kubecluster.World.Keeps.{
  Keeps, Keeps-bind, Keeps-then, Keeps-pure, Keeps-if, Keeps-note, Keeps-request, Keeps-get_cluster,
  Keeps-set_status, Keeps-now,
}
use kubecluster.Reconcile.Naming.{Ctx}
use kubecluster.Reconcile.Equality.{same_cluster_status}
use kubecluster.Reconcile.Objects.{
  update_cluster_status_in_api_server, after_deadline, start_unless_set,
}
use kubecluster.Reconcile.Cluster.{clear_active, suspend_cluster, resume_cluster, fail_cluster}
use kubecluster.Reconcile.Rules.{update_conditions-Keeps}
use kubecluster.Reconcile.Rules.Writes.{clear_generated_fields-Keeps}
use kubecluster.Reconcile.Rules.Quiet.{
  Quiet, delete_pod_and_services-Keeps, cleanup_cluster-Keeps, terminate_group-Keeps,
  clean_up_resources-Keeps,
}

module _ {I : List Call → Type 0} (quiet : Quiet I) (ctx : Ctx) where
  clear_active-Keeps : Keeps I clear_active
  unfolding clear_active
  clear_active-Keeps = Keeps-bind _ _ Keeps-get_cluster (λ cluster. Keeps-set_status _)

  pub update_cluster_status_in_api_server-Keeps : Keeps I (update_cluster_status_in_api_server ctx)
  unfolding update_cluster_status_in_api_server
  update_cluster_status_in_api_server-Keeps = Keeps-then _ _ clear_generated_fields-Keeps (
      Keeps-bind _ _ Keeps-get_cluster
        (λ cluster. Keeps-request ctx.env _ (quiet.status_updated cluster)))

  pub suspend_cluster-Keeps :
      (run_policy : RunPolicy) (pods : List Pod) (old_status : ClusterStatus)
      → Keeps I (suspend_cluster ctx run_policy pods old_status)
  unfolding suspend_cluster
  suspend_cluster-Keeps run_policy pods old_status =
      Keeps-then _ _ (clean_up_resources-Keeps quiet ctx run_policy pods) (
        Keeps-then _ _ clear_active-Keeps (
          Keeps-bind _ _ Keeps-get_cluster (λ cluster.
            Keeps-then _ _
              (Keeps-if (is_running cluster.status) _ _ (update_conditions-Keeps _ _ _ _ _)
                (Keeps-pure tt))
              (Keeps-bind _ _ Keeps-get_cluster (λ stopped.
                Keeps-then _ _
                  (Keeps-if (is_suspended stopped.status) _ _ (Keeps-pure tt)
                    (update_conditions-Keeps _ _ _ _ _))
                  (Keeps-then _ _ (Keeps-note _ (quiet.events _ _ _)) (
                    Keeps-bind _ _ Keeps-get_cluster (λ suspended.
                      Keeps-if (same_cluster_status old_status suspended.status) _ _ (Keeps-pure tt)
                        update_cluster_status_in_api_server-Keeps))))))))

  pub resume_cluster-Keeps : Keeps I (resume_cluster ctx)
  unfolding resume_cluster
  resume_cluster-Keeps = Keeps-bind _ _ Keeps-get_cluster (λ cluster.
      Keeps-if (is_suspended cluster.status) _ _
        (Keeps-then _ _ (update_conditions-Keeps _ _ _ _ _) (
          Keeps-bind _ _ (Keeps-now ctx.env) (λ t.
            Keeps-bind _ _ Keeps-get_cluster (λ resumed.
              Keeps-then _ _ (Keeps-set_status _) (Keeps-note _ (quiet.events _ _ _))))))
        (Keeps-pure tt))

  pub fail_cluster-Keeps :
      (run_policy : RunPolicy) (pods : List Pod) (message : String)
      → Keeps I (fail_cluster ctx run_policy pods message)
  unfolding fail_cluster
  fail_cluster-Keeps run_policy pods message = Keeps-bind _ _ Keeps-get_cluster (λ cluster.
      Keeps-then _ _ (delete_pod_and_services-Keeps quiet ctx run_policy cluster.status pods) (
        Keeps-then _ _ (cleanup_cluster-Keeps quiet ctx run_policy cluster.status) (
          Keeps-then _ _ (terminate_group-Keeps quiet ctx) (
            Keeps-then _ _ (Keeps-note _ (quiet.events _ _ _)) (
              Keeps-then _ _ (update_conditions-Keeps _ _ _ _ _)
                update_cluster_status_in_api_server-Keeps)))))

  after_deadline-Keeps :
      (key : String) (deadline : Option ℤ) → Keeps I (after_deadline key deadline)
  unfolding after_deadline
  after_deadline-Keeps key none = Keeps-pure tt
  after_deadline-Keeps key (some deadline) = Keeps-note _ (quiet.queued _ _)

  pub start_unless_set-Keeps :
      (key : String) (cluster : KubeCluster) (start : Option ℕ)
      → Keeps I (start_unless_set ctx key cluster start)
  unfolding start_unless_set
  start_unless_set-Keeps key cluster (some t) = Keeps-pure tt
  start_unless_set-Keeps key cluster none =
      Keeps-bind _ _ (Keeps-now ctx.env)
        (λ t. Keeps-then _ _ (Keeps-set_status _) (after_deadline-Keeps key _))
