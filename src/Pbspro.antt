-- ===== src/Pbspro.antt =====
-- The PBS Pro schema's configuration: pkg/controller/cluster_schema/pbspro_schema (configmap.go, util.go,
-- env.go, initcontainer.go and pbspro_schema.go). Here are its constants. What it takes from libraries is
-- the record `kubecluster.Slurm.Libraries`, with the flags of its own config.go.
pub mod Conf
pub mod Entrypoints
pub mod ConfigMaps
pub mod Environment
pub mod Volumes
pub mod Pods
use kubecluster.Prelude.{String}
use kubecluster.Types.{KubeCluster}
use kubecluster.Strings.{itoa}
use kubecluster.Labels.{gen_general_name}
use kubecluster.Schema.Status.{pbspro_server}

abbrev pub pbs_sh : String
pbs_sh = "/etc/profile.d/pbs.sh"

abbrev pub pbs_cmd : String
pbs_cmd = "/etc/init.d/pbs"

abbrev pub pbs_exec : String
pbs_exec = "/opt/pbs"

abbrev pub pbs_bin : String
pbs_bin = "/opt/pbs/bin"

abbrev pub pbs_nodes : String
pbs_nodes = "/opt/pbs/bin/pbsnodes"

abbrev pub pbs_iff : String
pbs_iff = "/opt/pbs/sbin/pbs_iff"

abbrev pub pbs_rcp : String
pbs_rcp = "/opt/pbs/sbin/pbs_rcp"

abbrev pub pbs_init_shell : String
pbs_init_shell = "/opt/pbs/init.sh"

abbrev pub pbs_opt_volume : String
pbs_opt_volume = "pbs-opt-dir"

-- The mount path of that volume, in the init container and in the main container.
abbrev pub share_path : String
share_path = "/mnt/share"

abbrev pub pbs_pro_dir : String
pbs_pro_dir = "/opt/pbs"

abbrev pub postgres_dir : String
postgres_dir = "/opt/postgres"

abbrev pub pbs_conf_key : String
pbs_conf_key = "pbs.conf"

abbrev pub pbs_server_conf_key : String
pbs_server_conf_key = "pbs-server.conf"

abbrev pub pbs_worker_conf_key : String
pbs_worker_conf_key = "pbs-worker.conf"

abbrev pub pbs_conf : String
pbs_conf = "/etc/pbs.conf"

abbrev pub pbs_mom_config_key : String
pbs_mom_config_key = "privConfig"

abbrev pub pbs_mom_priv_mount_path : String
pbs_mom_priv_mount_path = "/tmp/var/spool/pbs/mom_priv/config"

abbrev pub server_entrypoint : String
server_entrypoint = "entrypoint.sh"

abbrev pub pbs_worker_entrypoint : String
pbs_worker_entrypoint = "worker-entrypoint.sh"

abbrev pub server_entry_point_mount_path : String
server_entry_point_mount_path = "/tmp/entrypoint.sh"

abbrev pub worker_entry_point_mount_path : String
worker_entry_point_mount_path = "/tmp/worker-entrypoint.sh"

-- common.GenGeneralName(kcluster.Name, SchemaReplicaTypeServer, strconv.Itoa(0))
unfoldable pub server_name : KubeCluster → String
server_name cluster = gen_general_name cluster.name pbspro_server (itoa 0)
