-- ===== src/Types/Cluster.antt =====
-- KubeCluster, its specification and its run policy: apis/kubecluster.org/v1alpha1/cluster_types.go
-- and common_types.go.
use kubecluster.Prelude.{ℕ, ℤ, Bool, String, Option, Dict}
use kubecluster.Types.Core.{PodTemplate, OwnerReference}
use kubecluster.Types.Status.{ClusterStatus}

-- The restart policy of a replica; `unset` is the empty string.
pub data RestartPolicy : Type 0 where
  always on_failure never exit_code unset : RestartPolicy

-- `undefined` is the empty string.
pub data CleanKubeNodePolicy : Type 0 where
  undefined all running none : CleanKubeNodePolicy

-- `replicas` points to an int32.
pub record ReplicaSpec : Type 0 where
  pub replicas : Option ℤ
  pub template : PodTemplate
  pub restart_policy : RestartPolicy

pub record SchedulingPolicy : Type 0 where
  pub min_available : Option ℤ
  pub queue : String
  pub priority_class : String
  pub schedule_timeout_seconds : Option ℤ
  pub min_resources : Option (Dict ℤ)

pub record RunPolicy : Type 0 where
  pub clean_kube_node_policy : Option CleanKubeNodePolicy
  pub ttl_seconds_after_finished : Option ℤ
  pub active_deadline_seconds : Option ℤ
  pub backoff_limit : Option ℤ
  pub scheduling_policy : Option SchedulingPolicy
  pub suspend : Option Bool

-- The map from replica types to `*ReplicaSpec`, whose values may be nil.
abbrev pub ReplicaSpecs : Type 0
ReplicaSpecs = Dict (Option ReplicaSpec)

pub record ClusterSpec : Type 0 where
  pub cluster_type : String
  pub cluster_replica_spec : ReplicaSpecs
  pub main_container : String
  pub run_policy : RunPolicy

pub record KubeCluster : Type 0 where
  pub name : String
  pub namespace : String
  pub uid : String
  pub deletion_timestamp : Option ℕ
  pub spec : ClusterSpec
  pub status : ClusterStatus

-- The pod group of volcano or of scheduler-plugins; a field that a kind has not is unset. `phase` is the
-- status' phase.
pub record PodGroup : Type 0 where
  pub name : String
  pub namespace : String
  pub owner : Option OwnerReference
  pub min_member : ℤ
  pub queue : String
  pub priority_class_name : String
  pub min_resources : Option (Dict ℤ)
  pub schedule_timeout_seconds : Option ℤ
  pub phase : String

-- v1alpha1.ClusterDefaultContainerName
abbrev pub cluster_default_container_name : String
cluster_default_container_name = "kubenode"

-- v1alpha1.KubeClusterKind
abbrev pub kube_cluster_kind : String
kube_cluster_kind = "KubeCluster"
