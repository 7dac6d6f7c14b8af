-- ===== src/Tests/Fixtures.antt =====
-- A small cluster, the pods of its workers, an API server that accepts everything, and a store of
-- expectations, for the examples.
use Prim.Native.String.{◌++◌}
use kubecluster.Prelude.{
  ℕ, ◌+◌, pos, String, Bool, true, false, ◌&&◌, List, [], ◌∷◌, Option, none, some, ◌≡◌, refl,
  Bool-cases, inl, inr, Dict, lookup, insert, erase, lookup-insert, lookup-erase, str_eq,
  if◌then◌else◌,
}
use kubecluster.Errors.{Error, Result, ok, err}
use kubecluster.Types.{
  Phase, Container, PodRestartPolicy, PodTemplate, Pod, ConfigMap, RestartPolicy,
  CleanKubeNodePolicy, ReplicaSpec, ReplicaSpecs, RunPolicy, ClusterSpec, ClusterStatus,
  KubeCluster, ReplicaStatus, ClusterCondition, ConditionType, ConditionStatus,
  cluster_default_container_name,
}
use kubecluster.Labels.{replica_type_label, replica_index_label}
use kubecluster.Expectation.{Cache, Item}
use kubecluster.World.{Env, State}
use kubecluster.Schema.{Schema}
use kubecluster.Slurm.Pods.{slurm_schema}
use kubecluster.Tests.Libraries.{libraries, is_owner}
use kubecluster.Reconcile.Naming.{Ctx}

abbrev pub kubenode : Container
kubenode = record {
  name = cluster_default_container_name;
  image = "slurm:23";
  command = [];
  ports = [];
  env = [];
  volume_mounts = [];
  run_as_user = none;
  requests = none;
  limits = none;
}

abbrev pub template : PodTemplate
template = record {
  name = "";
  labels = [];
  annotations = [];
  finalizers = [];
  spec = record {
    restart_policy = PodRestartPolicy.unset;
    scheduler_name = "";
    priority_class_name = "";
    dns_policy = "";
    node_name = "";
    host_network = false;
    overhead = none;
    volumes = [];
    containers = kubenode ∷ [];
    init_containers = [];
  };
}

abbrev pub replicas : ℕ → ReplicaSpec
replicas n = record {
  replicas = some (pos n);
  template = template;
  restart_policy = RestartPolicy.always;
}

abbrev pub specs : ReplicaSpecs
specs = ("Controller", some (replicas 1)) ∷ ("Worker", some (replicas 2)) ∷ []

abbrev pub run_policy : RunPolicy
run_policy = record {
  clean_kube_node_policy = some CleanKubeNodePolicy.running;
  ttl_seconds_after_finished = none;
  active_deadline_seconds = none;
  backoff_limit = none;
  scheduling_policy = none;
  suspend = none;
}

abbrev pub cluster_spec : ClusterSpec
cluster_spec = record {
  cluster_type = "slurm";
  cluster_replica_spec = specs;
  main_container = "";
  run_policy = run_policy;
}

abbrev pub cluster : ClusterStatus → KubeCluster
cluster status = record {
  name = "demo";
  namespace = "hpc";
  uid = "u1";
  deletion_timestamp = none;
  spec = cluster_spec;
  status = status;
}

abbrev pub condition : ConditionType → ClusterCondition
condition type = record {
  type = type;
  status = ConditionStatus.cond_true;
  reason = "KubeCluster";
  message = "";
  last_update_time = 1;
  last_transition_time = 1;
}

abbrev pub status_with : List ClusterCondition → Dict ReplicaStatus → ClusterStatus
status_with conditions statuses = record {
  conditions = conditions;
  replica_statuses = statuses;
  start_time = some 1;
  last_reconcile_time = none;
  completion_time = none;
}

abbrev pub state : ClusterStatus → State
state status = record { cluster = cluster status; calls = []; ticks = 0 }

-- A pod of a worker.
abbrev pub worker : Phase → String → Pod
worker phase index = record {
  name = "demo-worker-" ++ index;
  namespace = "hpc";
  uid = "p" ++ index;
  labels = (replica_type_label, "worker") ∷ (replica_index_label, index) ∷ [];
  owner = none;
  deletion_timestamp = none;
  node_name = "";
  hostname = "";
  phase = phase;
  container_statuses = [];
  init_container_statuses = [];
  conditions = [];
}

-- A config map whose key for munge is there.
abbrev pub config_map : ConfigMap
config_map = record {
  name = "demo";
  namespace = "hpc";
  owner = none;
  deletion_timestamp = none;
  contents = ("munge.key", "key") ∷ [];
  binary_contents = [];
}

-- Every request is granted; the pods that are asked for are there, and run.
abbrev pub env : Env
env = record {
  pod_list = λ calls selector namespace. ok [];
  service_list = λ calls selector namespace. ok [];
  pod_get = λ calls namespace id. ok (worker Phase.failed "0");
  service_get = λ calls namespace id. err (Error.not_found id);
  config_map_get = λ calls namespace id. err (Error.not_found id);
  pod_group_get = λ calls namespace id. err (Error.not_found id);
  priority_class_get = λ name. err (Error.not_found name);
  reply = λ calls call. ok tt;
  clock = λ n. n + 1;
}

abbrev pub schema : Schema
schema = slurm_schema 5 libraries

-- Does the label have the value that the selector wants?
abbrev has_label : Dict String → String × String → Bool
has_label labels (key, value) = elim (lookup key labels) [ some v ↦ str_eq v value | none ↦ false ]

abbrev pub matches : Dict String → Dict String → Bool
matches [] labels = true
matches (l ∷ selector) labels = let rest = matches selector labels in has_label labels l && rest

abbrev pub ctx : Ctx
ctx = record {
  env = env;
  schema = schema;
  gang = none;
  gang_keys = record {
    kube_group_name_annotation_key = "scheduling.k8s.io/group-name";
    task_spec_key = "volcano.sh/task-spec";
    pod_group_label = "scheduling.x-k8s.io/pod-group";
  };
  key_func = λ cluster. ok (cluster.namespace ++ "/" ++ cluster.name);
  selector_matches = matches;
  is_controlled_by = is_owner;
}

-- A store is an association list.
pub get_by_key : Dict Item → String → Result (Option Item)
get_by_key s k = ok (lookup k s)

pub get_by_key-empty : (k : String) → get_by_key [] k ≡ ok none
unfolding get_by_key lookup
get_by_key-empty k = refl

pub get_by_key-put :
    (s : Dict Item) (j k : String) (x : Item)
    → get_by_key (insert j x s) k ≡ (if str_eq j k then ok (some x) else get_by_key s k)
unfolding get_by_key
get_by_key-put s j k x =
    rw (lookup-insert j k x s)
      (elim (Bool-cases (str_eq j k)) [ inl e ↦ rw e refl | inr e ↦ rw e refl ])

pub get_by_key-remove :
    (s : Dict Item) (j k : String)
    → get_by_key (erase j s) k ≡ (if str_eq j k then ok none else get_by_key s k)
unfolding get_by_key
get_by_key-remove s j k =
    rw (lookup-erase j k s)
      (elim (Bool-cases (str_eq j k)) [ inl e ↦ rw e refl | inr e ↦ rw e refl ])

abbrev pub cache : Cache
cache = record {
  Store = Dict Item;
  empty = [];
  get_by_key = get_by_key;
  put = λ s k x. insert k x s;
  remove = λ s k. erase k s;
  get_by_key-empty = get_by_key-empty;
  get_by_key-put = get_by_key-put;
  get_by_key-remove = get_by_key-remove;
}
