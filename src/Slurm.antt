-- ===== src/Slurm.antt =====
-- The slurm schema's configuration: pkg/controller/cluster_schema/slurm_schema (configmap.go, util.go, env.go,
-- initcontainer.go, config.go and slurm_schema.go). Here are its constants, and what the code takes from
-- libraries: the quota and resource packages of Kubernetes, the random numbers and the templates of Go,
-- the YAML reader and the files.
pub mod Ports
pub mod Parsing
pub mod Drawn
pub mod Random
pub mod Resources
pub mod Conf
pub mod Entrypoints
pub mod ConfigMaps
pub mod HostNetwork
pub mod Environment
pub mod Volumes
pub mod Pods
use kubecluster.Prelude.{ℕ, ℤ, String, Bool, List, Option, Dict}
use kubecluster.Errors.{Result}
use kubecluster.Types.{Container, OwnerReference, KubeCluster}

-- A corev1.ResourceList, which may be nil.
abbrev pub Resources : Type 0
Resources = Option (Dict ℤ)

-- quota.Add, quota.Max, the methods Memory, Cpu, String, AsInt64 and MilliValue of resource lists and
-- quantities, and resource.MustParse.
pub record Quantities : Type 0 where
  pub add : Resources → Resources → Resources
  pub max : Resources → Resources → Resources
  pub memory : Resources → ℤ
  pub cpu : Resources → ℤ
  pub print : ℤ → String
  pub parse : String → Result ℤ
  pub as_int64 : ℤ → Option ℤ
  pub milli_value : ℤ → ℤ

-- The flags of config.go.
pub record Config : Type 0 where
  pub init_container_template_file : String
  pub init_container_image : String
  pub init_container_max_tries : ℤ

-- `intn seed n` is the first Intn(n) of a source with the seed; `int63 seed k` its k-th Int63;
-- `render` executes an HTML template with MasterAddr, InitContainerImage and MaxTries.
pub record Libraries : Type 0 where
  pub quantities : Quantities
  pub config : Config
  pub intn : ℕ → ℕ → ℕ
  pub int63 : ℕ → ℕ → ℕ
  pub read_file : String → Result String
  pub render : String → String → String → ℤ → Result String
  pub unmarshal : String → Result (List Container)
  -- metav1.IsControlledBy
  pub is_controlled_by : Option OwnerReference → KubeCluster → Bool

abbrev pub slurm_conf_dir : String
slurm_conf_dir = "/etc/slurm"

abbrev pub slurmctl_port_name : String
slurmctl_port_name = "slurmctl-port"

abbrev pub slurmd_port_name : String
slurmd_port_name = "slurmd-port"

abbrev pub slurm_cmd_dir : String
slurm_cmd_dir = slurm_conf_dir

abbrev pub empty_volume : String
empty_volume = "slurm-config-dir"

abbrev pub empty_volume_mount_path_in_init_container : String
empty_volume_mount_path_in_init_container = "/mnt/share"

abbrev pub empty_volume_mount_path_in_main_container : String
empty_volume_mount_path_in_main_container = slurm_conf_dir

abbrev pub entrypoint_file_path : String
entrypoint_file_path = "/tmp/entrypoint.sh"

abbrev pub slurm_conf_key : String
slurm_conf_key = "slurm.conf"

abbrev pub munge_key : String
munge_key = "munge.key"

abbrev pub mungekey_len : ℕ
mungekey_len = 1024

abbrev pub config_map_ready_key : String
config_map_ready_key = "ready"

abbrev pub config_map_ready : String
config_map_ready = "true"

abbrev pub config_map_ready_file : String
config_map_ready_file = "/tmp/configmap-ready"

abbrev pub host_net_work_nodes_list_key : String
host_net_work_nodes_list_key = "hostNetWorkNodesList"

abbrev pub controller_entrypoint : String
controller_entrypoint = "controller-entrypoint"

abbrev pub worker_entrypoint : String
worker_entrypoint = "worker-entrypoint"

abbrev pub spool_dir : String
spool_dir = "/var/spool"
