-- ===== src/Pbspro/Pods.antt =====
-- SetClusterSpec, Default and the other operations that the PBS Pro schema gives to the controller:
-- pkg/controller/cluster_schema/pbspro_schema/pbspro_schema.go.
pub mod Frame
pub mod Defaults
use kubecluster.Prelude.{ℕ, pos, String, Bool, List, [], ◌∷◌, Option, none, some, str_eq}
use kubecluster.Errors.{Result, ok, panic, ◌>>=◌}
use kubecluster.Types.{
  Container, PodTemplate, ConfigMap, KubeCluster, ReplicaSpecs, cluster_default_container_name,
}
use kubecluster.Schema.{Schema}
use kubecluster.Schema.Status.{pbspro_server, update_pbspro_status}
use kubecluster.Schema.Checks.{validate_pbspro, set_type_name_to_camel_case}
use kubecluster.Slurm.{Libraries}
use kubecluster.Slurm.Ports.{
  get_default_container_index, has_default_port, set_port_unless, with_containers,
}
use kubecluster.Pbspro.ConfigMaps.{reconcile_pbspro_config_map, update_pbspro_config_map}
use kubecluster.Pbspro.Environment.{set_pbspro_pod_env, set_pbspro_init_container}
use kubecluster.Pbspro.Volumes.{
  set_pbspro_volumes, set_pbspro_network, set_pbspro_cmd, set_pbspro_security,
}

-- The replica's index is passed on to setPodEnv, which does not read it.
unfoldable pub set_pbspro_spec :
    Libraries → KubeCluster → PodTemplate → String → String → ConfigMap → Result PodTemplate
unfolding set_pbspro_pod_env set_pbspro_init_container set_pbspro_volumes set_pbspro_network
    set_pbspro_cmd set_pbspro_security
set_pbspro_spec lib cluster template rtype index config_map = do
  let name = cluster_default_container_name
  with_init ← set_pbspro_init_container lib cluster (set_pbspro_pod_env cluster template name) rtype
  ok (
      set_pbspro_security
        (set_pbspro_cmd
          (set_pbspro_network (set_pbspro_volumes with_init name rtype config_map.name)) name rtype)
        name)

-- `if ok := HasDefaultPort(…); !ok { SetDefaultPort(…) }`
pub ensure_port : List Container → ℕ → String → ℕ → Result (List Container)
unfolding has_default_port set_port_unless
ensure_port cs i name port = do
  has ← has_default_port cs i name
  set_port_unless has cs name (pos port) i

pub set_pbspro_ports : List Container → Result (List Container)
unfolding get_default_container_index ensure_port
set_pbspro_ports cs = do
  let i = get_default_container_index cs cluster_default_container_name
  served ← ensure_port cs i "serve-port" 15001
  linked ← ensure_port served i "comm-port" 17001
  ensure_port linked i "sched-port" 15004

-- A nil replica panics.
pub set_ports_of_all : ReplicaSpecs → Result ReplicaSpecs
unfolding set_pbspro_ports with_containers
set_ports_of_all [] = ok []
set_ports_of_all ((rtype, none) ∷ specs) = panic
set_ports_of_all ((rtype, some spec) ∷ specs) = do
  cs ← set_pbspro_ports spec.template.spec.containers
  rest ← set_ports_of_all specs
  ok ((rtype, some (with_containers spec cs)) ∷ rest)

unfoldable pub default_pbspro_specs : ReplicaSpecs → Result ReplicaSpecs
unfolding set_ports_of_all
default_pbspro_specs specs = set_ports_of_all (set_type_name_to_camel_case specs pbspro_server)

is_pbspro_controller : ReplicaSpecs → String → ℕ → Bool
is_pbspro_controller specs rtype index = str_eq pbspro_server rtype

-- The PBS Pro schema as the controller uses it.
unfoldable pub pbspro_schema : Libraries → Schema
unfolding set_pbspro_spec is_pbspro_controller
pbspro_schema lib = record {
  get_default_container_name = cluster_default_container_name;
  is_controller = is_pbspro_controller;
  set_cluster_spec = set_pbspro_spec lib;
  reconcile_config_map = reconcile_pbspro_config_map;
  update_config_map = update_pbspro_config_map;
  validate = λ cluster. validate_pbspro cluster.spec.cluster_replica_spec;
  default_specs = default_pbspro_specs;
  update_cluster_status = update_pbspro_status;
}
