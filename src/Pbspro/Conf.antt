-- ===== src/Pbspro/Conf.antt =====
-- The texts of pbs.conf for the server and for the workers, and of the configuration of pbs_mom:
-- genServerPBSConf, genWorkerPBSConf and genPBSMomConfig of
-- pkg/controller/cluster_schema/pbspro_schema/configmap.go.
pub mod Lines
use kubecluster.Prelude.{String}
use kubecluster.Types.{KubeCluster}
use kubecluster.Strings.Search.{replace_first}
use kubecluster.Pbspro.{pbs_exec, server_name}

abbrev pub place_holder_pbs_server : String
place_holder_pbs_server = "${PBS_SERVER}"

abbrev pub place_holder_pbs_start_mom : String
place_holder_pbs_start_mom = "${PBS_START_MOM}"

abbrev pub place_holder_client_host : String
place_holder_client_host = "${CLIENT_HOST}"

abbrev pub place_holder_pbs_exec : String
place_holder_pbs_exec = "${PBS_EXEC}"

abbrev pub pbs_start_mom_value : String
pbs_start_mom_value = "1"

abbrev pub pbs_server_conf_template : String
pbs_server_conf_template =
    "PBS_SERVER=${PBS_SERVER}\nPBS_START_MOM=${PBS_START_MOM}\nPBS_EXEC=${PBS_EXEC}\nPBS_START_SERVER=1\nPBS_START_SCHED=1\nPBS_START_COMM=1\nPBS_HOME=/var/spool/pbs\nPBS_CORE_LIMIT=unlimited\n"

abbrev pub pbs_worker_conf_template : String
pbs_worker_conf_template =
    "PBS_SERVER=${PBS_SERVER}\nPBS_START_MOM=1\nPBS_EXEC=${PBS_EXEC}\nPBS_START_COMM=1\nPBS_HOME=/var/spool/pbs\n"

abbrev pub pbs_mom_priv_config_template : String
pbs_mom_priv_config_template = "$clienthost ${CLIENT_HOST}\n"

unfoldable pub gen_server_pbs_conf : KubeCluster → String
unfolding server_name replace_first
gen_server_pbs_conf cluster = replace_first place_holder_pbs_exec pbs_exec (
    replace_first place_holder_pbs_start_mom pbs_start_mom_value
      (replace_first place_holder_pbs_server (server_name cluster) pbs_server_conf_template))

unfoldable pub gen_worker_pbs_conf : KubeCluster → String
unfolding server_name replace_first
gen_worker_pbs_conf cluster =
    replace_first place_holder_pbs_exec pbs_exec
      (replace_first place_holder_pbs_server (server_name cluster) pbs_worker_conf_template)

unfoldable pub gen_pbs_mom_config : KubeCluster → String
unfolding server_name replace_first
gen_pbs_mom_config cluster =
    replace_first place_holder_client_host (server_name cluster) pbs_mom_priv_config_template
