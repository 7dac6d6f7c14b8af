-- ===== src/Reconcile/Accounting/Whole.antt =====
-- The balance of expectations through a whole ReconcileKubeCluster
-- (pkg/controller/ctrlcommon/controller.go).
use kubecluster.Prelude.{String}
use kubecluster.Types.{ConfigMap}
use kubecluster.World.{State}
use kubecluster.World.Keeps.{Keeps}
use kubecluster.Reconcile.Naming.{Ctx}
use kubecluster.Reconcile.Cluster.{reconcile_kube_cluster}
use kubecluster.Reconcile.Rules.Quiet.{Quiet}
use kubecluster.Reconcile.Rules.Cluster.{reconcile_kube_cluster-Keeps}
use kubecluster.Reconcile.Accounting.{may_have_created, timed_out_services, Balanced}
use kubecluster.Reconcile.Accounting.Attempts.{announced-Keeps}
use kubecluster.Reconcile.Accounting.Creations.{create_config_map_with_controller_ref-Attempts}
use kubecluster.Reconcile.Accounting.Balance.{pod_rules, service_rules}

quiet_balance : (ctx : Ctx) → Quiet (Balanced ctx.env)
unfolding Balanced may_have_created timed_out_services
quiet_balance ctx = record {
  events = λ t reason message calls h. h;
  pod_deleted = λ namespace id calls h. h;
  service_deleted = λ namespace id calls h. h;
  config_map_deleted = λ namespace id calls h. h;
  config_map_updated = λ namespace config_map calls h. h;
  group_created = λ group calls h. h;
  group_updated = λ group calls h. h;
  group_deleted = λ namespace id calls h. h;
  cluster_deleted = λ namespace id calls h. h;
  status_updated = λ cluster calls h. h;
  reset = λ key calls h. h;
  deletion_expected = λ key calls h. h;
  queued = λ key after calls h. h;
}

-- Whatever a reconciliation of the cluster does, and however it ends: the creations that were announced
-- and not withdrawn stay as many as the requests to create that may have created an object, accepted or
-- timed out, less the requests for services that timed out, which are withdrawn as if they were refused;
-- if they are as many before it, they are after it. The schema's status update and its
-- ReconcileConfigMap have to keep this too.
pub reconcile_kube_cluster-Balanced :
    (ctx : Ctx) (s : State)
    → ((rtype : String) → Keeps (Balanced ctx.env) (ctx.schema.update_cluster_status ctx.env rtype))
    → ((config_map : ConfigMap)
        → Keeps (Balanced ctx.env) (ctx.schema.reconcile_config_map ctx.env config_map))
    → Balanced ctx.env s.calls
    → Balanced ctx.env (reconcile_kube_cluster ctx s).1.calls
reconcile_kube_cluster-Balanced ctx s statuses contents h =
    (reconcile_kube_cluster-Keeps (record {
      quiet = quiet_balance ctx;
      pods = pod_rules ctx;
      services = service_rules ctx;
      config_maps = λ key namespace config_map ref.
          announced-Keeps ctx.env key _
            (create_config_map_with_controller_ref-Attempts ctx.env namespace config_map ref);
      contents = contents;
      statuses = statuses;
    })).at
      s h
