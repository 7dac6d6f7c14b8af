-- ===== src/Schema.antt =====
-- ClusterSchemaReconciler of pkg/common/schema.go: what a kind of cluster (slurm, pbspro) adds to the
-- controller. Its expectations are in `kubecluster.Expectation`; calls of them are noted in the world.
pub mod Registry
pub mod Status
pub mod Restarts
pub mod Checks
pub mod Validated
pub mod Defaults
use kubecluster.Prelude.{ℕ, String, Bool}
use kubecluster.Errors.{Result}
use kubecluster.Types.{PodTemplate, ConfigMap, KubeCluster, ReplicaSpecs}
use kubecluster.World.{Env, M}

pub record Schema : Type 0 where
  pub get_default_container_name : String
  pub is_controller : ReplicaSpecs → String → ℕ → Bool
  -- The pod template with the parts that the schema sets.
  pub set_cluster_spec :
      KubeCluster → PodTemplate → String → String → ConfigMap → Result PodTemplate
  -- The config map with the contents that the schema sets; the cluster may change as well.
  pub reconcile_config_map : Env → ConfigMap → M ConfigMap
  pub update_config_map : Env → ConfigMap → M ConfigMap
  pub validate : KubeCluster → Result (Unit {0})
  pub default_specs : ReplicaSpecs → Result ReplicaSpecs
  pub update_cluster_status : Env → String → M Unit
