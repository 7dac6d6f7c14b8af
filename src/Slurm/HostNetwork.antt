-- ===== src/Slurm/HostNetwork.antt =====
-- UpdateConfigMap of the slurm schema, which renames the nodes of pods on the host's network:
-- pkg/controller/cluster_schema/slurm_schema/configmap.go.
use Prim.Native.String.{◌++◌}
use kubecluster.Prelude.{
  String, Bool, true, false, not, ◌||◌, List, [], ◌∷◌, Option, none, some, lookup, filter, str_eq,
  if◌then◌else◌,
}
use kubecluster.Errors.{panic}
use kubecluster.Types.{ConfigMap, KubeCluster, Pod, ReplicaSpecs}
use kubecluster.Strings.Search.{join, split_on, replace_first}
use kubecluster.Labels.{gen_labels, set_replica_type, set_cluster_type}
use kubecluster.World.{Env, M, ◌>>=◌, pure, lift, get_cluster, get_calls}
use kubecluster.Reconcile.Naming.{controller_name}
use kubecluster.Slurm.{
  Libraries, slurm_conf_key, config_map_ready_key, config_map_ready, host_net_work_nodes_list_key,
}
use kubecluster.Slurm.ConfigMaps.{exists, put}

-- Sets of texts, as lists without repetitions.
pub has : String → List String → Bool
has x [] = false
has x (y ∷ ys) = let rest = has x ys in str_eq y x || rest

to_set : List String → List String
unfolding has
to_set [] = []
to_set (x ∷ xs) = let rest = to_set xs in if has x rest then rest else x ∷ rest

pub delete : String → List String → List String
delete x ys = filter (λ y. not (str_eq y x)) ys

-- A missing key reads as the empty text.
abbrev pub value_or_empty : Option String → String
value_or_empty none = ""
value_or_empty (some v) = v

-- The text of slurm.conf, and the names that are still to be found.
abbrev Renaming : Type 0
Renaming = String × List String

-- The loop over the pods. A pod without a host name is passed over, so its node's name never replaces it.
rename_pods : List Pod → Renaming → Renaming
unfolding has delete
rename_pods [] r = r
rename_pods (pod ∷ pods) (conf, names) =
    if not (has pod.name names) || str_eq pod.node_name "" || str_eq pod.hostname ""
    then rename_pods pods (conf, names)
    else rename_pods pods (
      replace_first ("NodeName=" ++ pod.name) ("NodeName=" ++ pod.hostname) conf,
      delete pod.name names,
    )

abbrev is_empty : List String → Bool
is_empty [] = true
is_empty (x ∷ xs) = false

-- The selector has the replica type as it is written in the specification.
rename_replicas : Libraries → Env → KubeCluster → ReplicaSpecs → Renaming → M Renaming
unfolding rename_pods
rename_replicas lib env cluster [] r = pure r
rename_replicas lib env cluster ((rtype, none) ∷ specs) (conf, names) =
    if is_empty names then pure (conf, names) else lift panic
rename_replicas lib env cluster ((rtype, some spec) ∷ specs) (conf, names) =
    if is_empty names
    then pure (conf, names)
    else if not spec.template.spec.host_network
    then rename_replicas lib env cluster specs (conf, names)
    else (do
      calls ← get_calls
      pods ← lift (
          env.pod_list calls
            (set_cluster_type (set_replica_type (gen_labels controller_name cluster.name) rtype)
              cluster.spec.cluster_type)
            cluster.namespace)
      rename_replicas lib env cluster specs (
          rename_pods (filter (λ (p : Pod). lib.is_controlled_by p.owner cluster) pods)
            (conf, names)))

-- Both branches at the end set the key `ready`.
put_renaming : Renaming → ConfigMap → ConfigMap
put_renaming (conf, names) cm =
    put config_map_ready_key config_map_ready
      (put host_net_work_nodes_list_key (join "," names) (put slurm_conf_key conf cm))

-- The code gives it only config maps whose data the schema has made.
unfoldable pub update_slurm_config_map : Libraries → Env → ConfigMap → M ConfigMap
unfolding to_set rename_replicas put_renaming
update_slurm_config_map lib env cm = do
  let list = value_or_empty (lookup host_net_work_nodes_list_key cm.contents)
  if exists config_map_ready_key cm
      then pure cm
      else if str_eq list ""
      then pure (put config_map_ready_key config_map_ready cm)
      else (do
        cluster ← get_cluster
        r ←
            rename_replicas lib env cluster cluster.spec.cluster_replica_spec
              (value_or_empty (lookup slurm_conf_key cm.contents), to_set (split_on 44 list))
        pure (put_renaming r cm))
