-- ===== src/Types/Core.antt =====
-- The parts of Kubernetes' pods, services and config maps that the controller reads and writes.
-- A time is a number of nanoseconds; a pointer is an `Option`.
use kubecluster.Prelude.{ℕ, ℤ, Bool, true, false, String, List, Option, Dict}

pub data Phase : Type 0 where
  pending running succeeded failed unknown : Phase

-- `phase == v1.PodRunning` and its like.
abbrev pub is_running_phase : Phase → Bool
is_running_phase Phase.running = true
is_running_phase _ = false

abbrev pub is_failed_phase : Phase → Bool
is_failed_phase Phase.failed = true
is_failed_phase _ = false

abbrev pub is_pending_phase : Phase → Bool
is_pending_phase Phase.pending = true
is_pending_phase _ = false

abbrev pub is_succeeded_phase : Phase → Bool
is_succeeded_phase Phase.succeeded = true
is_succeeded_phase _ = false

pub record OwnerReference : Type 0 where
  pub api_version : String
  pub kind : String
  pub name : String
  pub uid : String
  pub controller : Option Bool
  pub block_owner_deletion : Option Bool

pub record ContainerPort : Type 0 where
  pub name : String
  pub container_port : ℤ

pub record VolumeMount : Type 0 where
  pub name : String
  pub mount_path : String
  pub sub_path : String
  pub read_only : Bool

-- A variable with a value, or with the field of the pod that it is read from.
pub record EnvVar : Type 0 where
  pub name : String
  pub value : String
  pub field_path : Option String

-- A config map with the mode of its files, an empty directory, or a volume that the user has.
pub data VolumeSource : Type 0 where
  config_map : String → ℤ → VolumeSource
  empty_dir other : VolumeSource

pub record Volume : Type 0 where
  pub name : String
  pub source : VolumeSource

-- An amount of a resource (resource.Quantity) is exact; `requests` and `limits` may be nil.
pub record Container : Type 0 where
  pub name : String
  pub image : String
  pub command : List String
  pub ports : List ContainerPort
  pub env : List EnvVar
  pub volume_mounts : List VolumeMount
  pub run_as_user : Option ℤ
  pub requests : Option (Dict ℤ)
  pub limits : Option (Dict ℤ)

pub record Terminated : Type 0 where
  pub exit_code : ℤ
  pub reason : String
  pub message : String

pub record Waiting : Type 0 where
  pub reason : String
  pub message : String

pub record ContainerStatus : Type 0 where
  pub name : String
  pub restart_count : ℤ
  pub terminated : Option Terminated
  pub waiting : Option Waiting

-- The pod's own restart policy, which is not that of a replica.
pub data PodRestartPolicy : Type 0 where
  always on_failure never unset : PodRestartPolicy

pub record PodSpec : Type 0 where
  pub restart_policy : PodRestartPolicy
  pub scheduler_name : String
  pub priority_class_name : String
  pub dns_policy : String
  pub node_name : String
  pub host_network : Bool
  pub overhead : Option (Dict ℤ)
  pub volumes : List Volume
  pub containers : List Container
  pub init_containers : List Container

pub record PodTemplate : Type 0 where
  pub name : String
  pub labels : Dict String
  pub annotations : Dict String
  pub finalizers : List String
  pub spec : PodSpec

-- A pod as it is sent to be created.
pub record NewPod : Type 0 where
  pub name : String
  pub labels : Dict String
  pub annotations : Dict String
  pub finalizers : List String
  pub owner_references : List OwnerReference
  pub spec : PodSpec

-- `is_true` tells whether the status is True.
pub record PodCondition : Type 0 where
  pub is_true : Bool
  pub reason : String
  pub message : String
  pub last_transition_time : ℕ

-- `owner` is what metav1.GetControllerOf reports: the owner reference whose controller flag is set.
pub record Pod : Type 0 where
  pub name : String
  pub namespace : String
  pub uid : String
  pub labels : Dict String
  pub owner : Option OwnerReference
  pub deletion_timestamp : Option ℕ
  pub node_name : String
  pub hostname : String
  pub phase : Phase
  pub container_statuses : List ContainerStatus
  pub init_container_statuses : List ContainerStatus
  pub conditions : List PodCondition

pub record ServicePort : Type 0 where
  pub name : String
  pub port : ℤ

-- A service as the cache lists it, and as it is sent to be created.
pub record Service : Type 0 where
  pub name : String
  pub namespace : String
  pub uid : String
  pub labels : Dict String
  pub owner : Option OwnerReference
  pub deletion_timestamp : Option ℕ

pub record NewService : Type 0 where
  pub name : String
  pub labels : Dict String
  pub cluster_ip : String
  pub selector : Dict String
  pub ports : List ServicePort
  pub owner_references : List OwnerReference

pub record ConfigMap : Type 0 where
  pub name : String
  pub namespace : String
  pub owner : Option OwnerReference
  pub deletion_timestamp : Option ℕ
  pub contents : Dict String
  pub binary_contents : Dict String
