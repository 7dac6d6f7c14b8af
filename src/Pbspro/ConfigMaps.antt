-- ===== src/Pbspro/ConfigMaps.antt =====
-- ReconcileConfigMap and UpdateConfigMap of the PBS Pro schema:
-- pkg/controller/cluster_schema/pbspro_schema/configmap.go.
pub mod Filled
pub mod Settled
use kubecluster.Prelude.{String, Bool, true, false, not, ◌||◌, lookup, if◌then◌else◌}
use kubecluster.Errors.{Result}
use kubecluster.Types.{ConfigMap, KubeCluster}
use kubecluster.World.{Env, M, ◌>>=◌, ◌>>◌, pure, lift, get_cluster}
use kubecluster.Slurm.ConfigMaps.{put, put_unless, exists}
use kubecluster.Pbspro.{
  pbs_conf_key, pbs_server_conf_key, pbs_worker_conf_key, pbs_mom_config_key, server_entrypoint,
  pbs_worker_entrypoint,
}
use kubecluster.Pbspro.Conf.{gen_server_pbs_conf, gen_worker_pbs_conf, gen_pbs_mom_config}
use kubecluster.Pbspro.Entrypoints.{gen_pbs_server_entrypoint, gen_pbs_worker_entrypoint}

-- isNeedReconcileConfigMap
unfoldable pub is_need_reconcile_config_map : ConfigMap → Bool
is_need_reconcile_config_map cm = not (exists pbs_conf_key cm) || not (exists pbs_mom_config_key cm)

pub put_configurations : KubeCluster → ConfigMap → ConfigMap
unfolding gen_server_pbs_conf gen_worker_pbs_conf gen_pbs_mom_config put_unless
put_configurations cluster cm = put_unless pbs_mom_config_key (gen_pbs_mom_config cluster) (
    put_unless pbs_worker_conf_key (gen_worker_pbs_conf cluster)
      (put_unless pbs_server_conf_key (gen_server_pbs_conf cluster) cm))

-- The server's script is made only if it is missing.
pub put_server_entrypoint_unless : KubeCluster → ConfigMap → M ConfigMap
unfolding gen_pbs_server_entrypoint put
put_server_entrypoint_unless cluster cm = if exists server_entrypoint cm then pure cm else (do
  script ← lift (gen_pbs_server_entrypoint cluster)
  pure (put server_entrypoint script cm))

unfoldable pub reconcile_pbspro_config_map : Env → ConfigMap → M ConfigMap
unfolding is_need_reconcile_config_map put_configurations put_server_entrypoint_unless put_unless
    gen_pbs_worker_entrypoint
reconcile_pbspro_config_map env cm =
    if is_need_reconcile_config_map cm
    then (do
      cluster ← get_cluster
      scripted ← put_server_entrypoint_unless cluster (put_configurations cluster cm)
      pure (put_unless pbs_worker_entrypoint gen_pbs_worker_entrypoint scripted))
    else pure cm

unfoldable pub update_pbspro_config_map : Env → ConfigMap → M ConfigMap
update_pbspro_config_map env cm = pure cm
