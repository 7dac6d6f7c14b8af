-- ===== src/Slurm/Pods.antt =====
-- SetClusterSpec and the other operations that the slurm schema gives to the controller:
-- pkg/controller/cluster_schema/slurm_schema/slurm_schema.go.
pub mod Frame
use kubecluster.Prelude.{ℕ, ℤ, String, Bool, Option, none, some, lookup, str_eq}
use kubecluster.Errors.{Result, ok, ◌>>=◌}
use kubecluster.Types.{
  PodTemplate, ConfigMap, KubeCluster, ReplicaSpecs, cluster_default_container_name,
}
use kubecluster.Schema.{Schema}
use kubecluster.Schema.Status.{slurm_controller, update_slurm_status}
use kubecluster.Schema.Checks.{validate_slurm, set_type_name_to_camel_case}
use kubecluster.Slurm.{Libraries, slurm_conf_key}
use kubecluster.Slurm.Parsing.{get_slurm_ports_from_conf}
use kubecluster.Slurm.ConfigMaps.{reconcile_slurm_config_map}
use kubecluster.Slurm.HostNetwork.{value_or_empty, update_slurm_config_map}
use kubecluster.Slurm.Environment.{set_pod_env, set_init_container}
use kubecluster.Slurm.Volumes.{set_volumes, set_pod_network, set_cmd, set_security}

-- The replica's index is passed on to setPodEnv, which does not read it.
unfoldable pub set_slurm_spec :
    Libraries → KubeCluster → PodTemplate → String → String → ConfigMap → Result PodTemplate
unfolding set_pod_env set_init_container set_volumes set_pod_network set_cmd set_security
set_slurm_spec lib cluster template rtype index config_map = do
  let name = cluster_default_container_name
  ports ← get_slurm_ports_from_conf (value_or_empty (lookup slurm_conf_key config_map.contents))
  with_env ← set_pod_env lib cluster template name rtype ports.0 ports.1
  with_init ← set_init_container lib cluster with_env rtype
  ok (
      set_security
        (set_cmd (set_pod_network (set_volumes with_init name rtype config_map.name)) name) name)

is_slurm_controller : ReplicaSpecs → String → ℕ → Bool
is_slurm_controller specs rtype index = str_eq slurm_controller rtype

-- The slurm schema as the controller uses it; `fuel` bounds the draws of a second port.
unfoldable pub slurm_schema : ℕ → Libraries → Schema
unfolding set_slurm_spec is_slurm_controller
slurm_schema fuel lib = record {
  get_default_container_name = cluster_default_container_name;
  is_controller = is_slurm_controller;
  set_cluster_spec = set_slurm_spec lib;
  reconcile_config_map = reconcile_slurm_config_map fuel lib;
  update_config_map = update_slurm_config_map lib;
  validate = λ cluster. validate_slurm cluster.spec.cluster_replica_spec;
  default_specs = λ specs. ok (set_type_name_to_camel_case specs slurm_controller);
  update_cluster_status = update_slurm_status;
}
