-- ===== src/Slurm/ConfigMaps.antt =====
-- ReconcileConfigMap and UpdateConfigMap of the slurm schema:
-- pkg/controller/cluster_schema/slurm_schema/configmap.go.
pub mod Settled
pub mod Requests
use Prim.Native.String.{◌++◌}
use mathlib.Core.List.{◌++◌ as ◌+++◌}
use kubecluster.Prelude.{
  ℕ, zero, suc, ◌==◌, ℤ, pos, pos_part, String, Bool, true, false, not, ◌&&◌, ◌||◌, List, [], ◌∷◌,
  Option, none, some, Dict, lookup, insert, length, filter, str_eq, if◌then◌else◌,
}
use kubecluster.Errors.{Error, Result, ok, err, panic, error_text}
use kubecluster.Types.{
  ConfigMap, KubeCluster, Pod, ReplicaSpec, ReplicaSpecs, cluster_default_container_name,
}
use kubecluster.Strings.{itoa, itoa_ℤ}
use kubecluster.Strings.Search.{join, split_on, replace_first}
use kubecluster.Labels.{gen_general_name, gen_labels, set_replica_type, set_cluster_type}
use kubecluster.World.{
  Env, M, Call, EventType, ◌>>=◌, ◌>>◌, pure, raise, lift, try, note, now, get_cluster, get_calls,
}
use kubecluster.Reconcile.Naming.{controller_name}
use kubecluster.Slurm.{
  Libraries, slurm_conf_key, munge_key, mungekey_len, config_map_ready_key, config_map_ready,
  host_net_work_nodes_list_key, controller_entrypoint, worker_entrypoint,
}
use kubecluster.Slurm.Ports.{get_slurm_ports_from_spec}
use kubecluster.Slurm.Parsing.{get_slurm_ports_from_conf}
use kubecluster.Slurm.Drawn.{gen_slurm_random_port, set_slurm_ports}
use kubecluster.Slurm.Random.{rand_str}
use kubecluster.Slurm.Conf.{create_slurm_conf}
use kubecluster.Slurm.Entrypoints.{gen_controller_entrypoint, gen_worker_entrypoint}

-- `configMap.Data[key] = value`
unfoldable pub put : String → String → ConfigMap → ConfigMap
put key value cm = record cm { contents = insert key value cm.contents }

pub put_binary : String → String → ConfigMap → ConfigMap
put_binary key value cm = record cm { binary_contents = insert key value cm.binary_contents }

abbrev is_there : Option String → Bool
is_there none = false
is_there (some v) = true

abbrev pub exists : String → ConfigMap → Bool
exists key cm = is_there (lookup key cm.contents)

-- `_, exists = configMap.Data[key]; if !exists { configMap.Data[key] = value }`
unfoldable pub put_unless : String → String → ConfigMap → ConfigMap
unfolding put
put_unless key value cm = if exists key cm then cm else put key value cm

-- The names of `n` replicas from an index on.
unfoldable pub names_from : String → String → ℕ → ℕ → List String
names_from cluster_name rtype i zero = []
names_from cluster_name rtype i (suc n) =
    gen_general_name cluster_name rtype (itoa i) ∷ names_from cluster_name rtype (suc i) n

names_of : String → String → Option ℤ → List String
unfolding names_from
names_of cluster_name rtype none = []
names_of cluster_name rtype (some replicas) = names_from cluster_name rtype 0 (pos_part replicas)

-- A nil replica panics in `isHostNetWork`.
get_host_net_work_node_list : String → ReplicaSpecs → Result (List String)
unfolding names_of
get_host_net_work_node_list cluster_name [] = ok []
get_host_net_work_node_list cluster_name ((rtype, none) ∷ specs) = panic
get_host_net_work_node_list cluster_name ((rtype, some spec) ∷ specs) =
    elim (get_host_net_work_node_list cluster_name specs) [
      | ok rest ↦
          if spec.template.spec.host_network
          then ok (names_of cluster_name rtype spec.replicas +++ rest)
          else ok rest
      | err e ↦ err e
      | panic ↦ panic
    ]

-- needReconcileConfigMap: a missing key reads as the empty text.
pub need_reconcile_config_map : ConfigMap → Bool
need_reconcile_config_map cm = not (exists config_map_ready_key cm)

-- The ports of the specification; without them two that are drawn, and an event.
pub ports_or_random : ℕ → Libraries → Env → Result (ℤ × ℤ) → M (ℤ × ℤ)
ports_or_random fuel lib env (ok ports) = pure ports
ports_or_random fuel lib env (err e) = do
  drawn ← gen_slurm_random_port fuel lib env
  note (
      Call.event EventType.normal "SlurmPortsNotSet" (
        "Will use defaul slurmctld's port:"
        ++ itoa drawn.0
        ++ ", slurmd's port : "
        ++ itoa drawn.1))
  pure (pos drawn.0, pos drawn.1)
ports_or_random fuel lib env panic = lift panic

pub wrap_conf_error : Result String → M String
wrap_conf_error (ok conf) = pure conf
wrap_conf_error (err e) = raise (Error.other ("generateSlurmConfig err:" ++ error_text e))
wrap_conf_error panic = lift panic

pub gen_slurm_conf : ℕ → Libraries → Env → M String
unfolding ports_or_random wrap_conf_error
gen_slurm_conf fuel lib env = do
  cluster ← get_cluster
  ports ←
      ports_or_random fuel lib env
        (get_slurm_ports_from_spec cluster.spec.cluster_replica_spec cluster_default_container_name)
  set_slurm_ports ports.0 ports.1
  configured ← get_cluster
  wrap_conf_error (create_slurm_conf lib.quantities configured ports.0 ports.1)

-- `slurmConf, exists := configMap.Data[slurmConfKey]; if exists { … }`
pub ports_of_conf : Option String → M (Unit {0})
ports_of_conf none = pure tt
ports_of_conf (some conf) = do
  ports ← lift (get_slurm_ports_from_conf conf)
  set_slurm_ports ports.0 ports.1

pub put_conf_unless : ℕ → Libraries → Env → ConfigMap → M ConfigMap
unfolding put gen_slurm_conf
put_conf_unless fuel lib env cm =
    if exists slurm_conf_key cm
    then pure cm
    else (do conf ← gen_slurm_conf fuel lib env; pure (put slurm_conf_key conf cm))

pub put_readiness : List String → ConfigMap → ConfigMap
unfolding put
put_readiness [] cm = put config_map_ready_key "true" cm
put_readiness (name ∷ names) cm =
    put host_net_work_nodes_list_key (join "," (name ∷ names)) (put config_map_ready_key "false" cm)

-- A loop that runs on for ever is a panic, as in the drawing of ports.
abbrev or_runs_on : Option String → Result String
or_runs_on none = panic
or_runs_on (some text) = ok text

-- The source of RandStr is seeded once, when the program starts; its numbers from a call on are those of a
-- source with the time of the call. The key is looked for in the data and written to the binary data.
pub put_munge_key_unless : ℕ → Libraries → Env → ConfigMap → M ConfigMap
unfolding put_binary
put_munge_key_unless fuel lib env cm = if exists munge_key cm then pure cm else (do
  t ← now env
  key ← lift (or_runs_on (rand_str (lib.int63 t) fuel mungekey_len))
  pure (put_binary munge_key key cm))

unfoldable pub reconcile_slurm_config_map : ℕ → Libraries → Env → ConfigMap → M ConfigMap
unfolding ports_of_conf put_unless put_conf_unless put_readiness put_munge_key_unless
    need_reconcile_config_map get_host_net_work_node_list
reconcile_slurm_config_map fuel lib env cm = do
  ports_of_conf (lookup slurm_conf_key cm.contents)
  (if exists slurm_conf_key cm && not (need_reconcile_config_map cm) then pure cm else (do
    let scripted =
        put_unless worker_entrypoint gen_worker_entrypoint
          (put_unless controller_entrypoint gen_controller_entrypoint cm)
    configured ← put_conf_unless fuel lib env scripted
    cluster ← get_cluster
    names ← lift (get_host_net_work_node_list cluster.name cluster.spec.cluster_replica_spec)
    put_munge_key_unless fuel lib env (put_readiness names configured)))
