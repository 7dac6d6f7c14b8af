-- ===== src/Reconcile/Finished.antt =====
-- A cluster that has failed or is suspended (pkg/controller/ctrlcommon/controller.go).
use kubecluster.Prelude.{true, ◌≡◌, All, ◌||◌, arith}
use kubecluster.Conditions.{is_finished}
use kubecluster.World.{Call, State, ◌>>=◌, get_cluster}
use kubecluster.World.Keeps.{Keeps-bind, Keeps-then, Keeps-lift, Keeps-cases}
use kubecluster.Reconcile.Naming.{Ctx}
use kubecluster.Reconcile.Limits.{is_cluster_suspended}
use kubecluster.Reconcile.Cluster.{reconcile_kube_cluster}
use kubecluster.Reconcile.Rules.Quiet.{Quiet, reset_expectations-Keeps, clean_up_resources-Keeps}
use kubecluster.Reconcile.Rules.Steps.{suspend_cluster-Keeps}
use kubecluster.Reconcile.Rules.Objects.{get_pods_for_cluster-Keeps, get_services_for_cluster-Keeps}

-- A request that creates no pod, no service and no config map, and withdraws no creation.
abbrev pub CreatesNothing : Call → Type 0
CreatesNothing (Call.pod_create namespace pod) = ⊥
CreatesNothing (Call.service_create namespace service) = ⊥
CreatesNothing (Call.config_map_create namespace config_map refs) = ⊥
CreatesNothing (Call.creation_observed key) = ⊥
CreatesNothing _ = Unit

quiet : Quiet (All CreatesNothing)
quiet = record {
  events = λ t reason message calls h. (tt, h);
  pod_deleted = λ namespace id calls h. (tt, h);
  service_deleted = λ namespace id calls h. (tt, h);
  config_map_deleted = λ namespace id calls h. (tt, h);
  config_map_updated = λ namespace config_map calls h. (tt, h);
  group_created = λ group calls h. (tt, h);
  group_updated = λ group calls h. (tt, h);
  group_deleted = λ namespace id calls h. (tt, h);
  cluster_deleted = λ namespace id calls h. (tt, h);
  status_updated = λ cluster calls h. (tt, h);
  reset = λ key calls h. (tt, h);
  deletion_expected = λ key calls h. (tt, h);
  queued = λ key after calls h. (tt, h);
}

-- A reconciliation of a cluster that has failed or that is to be suspended asks for no pod, no service
-- and no config map to be created.
pub reconcile_idle-CreatesNothing :
    (ctx : Ctx) (s : State)
    → (is_finished s.cluster.status || is_cluster_suspended s.cluster.spec.run_policy) ≡ true
    → All CreatesNothing s.calls
    → All CreatesNothing (reconcile_kube_cluster ctx s).1.calls
unfolding reconcile_kube_cluster get_cluster ◌>>=◌
reconcile_idle-CreatesNothing ctx s idle h =
    (Keeps-bind _ _ (Keeps-lift (ctx.key_func s.cluster)) (λ key.
        Keeps-then _ _ (reset_expectations-Keeps quiet key s.cluster.spec.cluster_replica_spec) (
          Keeps-bind _ _ (get_pods_for_cluster-Keeps quiet ctx) (λ pods.
            Keeps-bind _ _ (get_services_for_cluster-Keeps quiet ctx) (λ services.
              Keeps-cases (is_finished s.cluster.status) _ _
                (λ finished. clean_up_resources-Keeps quiet ctx s.cluster.spec.run_policy pods)
                (λ unfinished.
                  Keeps-cases (is_cluster_suspended s.cluster.spec.run_policy) _ _
                    (λ suspended.
                      suspend_cluster-Keeps quiet ctx s.cluster.spec.run_policy pods
                        s.cluster.status)
                    (λ active. absurd (ground (arith, idle, unfinished, active))))))))).at
      s h
