-- ===== src/Schema/Checks.antt =====
-- The checks and defaults of a cluster: apis/kubecluster.org/v1alpha1/cluster_validation.go,
-- cluster_defaults.go and defauting_utils.go beside it, and the schemas' own of
-- pkg/controller/cluster_schema.
use Prim.Native.String.{◌++◌}
use kubecluster.Prelude.{
  ℤ, pos, eqb_ℤ, String, Bool, not, ◌&&◌, List, [], ◌∷◌, Option, none, some, lookup, insert, erase,
  str_eq, map, count, ◌==◌, if◌then◌else◌,
}
use kubecluster.Errors.{Error, Result, ok, err, panic, ◌>>◌}
use kubecluster.Types.{
  Container, ReplicaSpec, ReplicaSpecs, ClusterSpec, CleanKubeNodePolicy, KubeCluster,
  cluster_default_container_name,
}
use kubecluster.Strings.{to_lower}
use kubecluster.Schema.Status.{slurm_controller, pbspro_server}

-- apimachinery's NameIsDNS1035Label and IsDNS1035Label: the messages about a name.
pub record NameRules : Type 0 where
  pub name_is_dns1035_label : String → List String
  pub is_dns1035_label : String → List String

-- The first container with no image is an error.
unfoldable pub check_images : String → List Container → Result (Unit {0})
check_images rtype [] = ok tt
check_images rtype (c ∷ cs) =
    let rest = check_images rtype cs in
    if str_eq c.image ""
    then err
        (Error.other ("KubeCluster is not valid: Image is undefined in the container of " ++ rtype))
    else rest

abbrev pub is_named : String → Container → Bool
is_named name c = str_eq c.name name

abbrev join : List String → String
join [] = ""
join (e ∷ []) = e
join (e ∷ f ∷ es) = e ++ ";" ++ join (f ∷ es)

abbrev pub check_name : List String → Result (Unit {0})
check_name [] = ok tt
check_name (e ∷ es) = err (Error.other (join (e ∷ es)))

-- The containers of a replica type: there are some, each has an image, and one has the name that is
-- asked for.
unfoldable pub check_containers : String → String → List Container → Result (Unit {0})
unfolding check_images
check_containers name rtype [] =
    err (Error.other ("KubeCluster is not valid: containers definition expected in " ++ rtype))
check_containers name rtype (c ∷ cs) = do
  check_images rtype (c ∷ cs)
  if count (is_named name) (c ∷ cs) == 0
      then err (
          Error.other (
            "KubeClusterSpec is not valid: There is no container named "
            ++ cluster_default_container_name ++ " in " ++ rtype))
      else ok tt

abbrev pub check_spec : String → String → Option ReplicaSpec → Result (Unit {0})
check_spec name rtype none =
    err (Error.other ("KubeCluster is not valid: containers definition expected in " ++ rtype))
check_spec name rtype (some spec) = check_containers name rtype spec.template.spec.containers

unfoldable pub check_specs : NameRules → String → ReplicaSpecs → Result (Unit {0})
unfolding check_containers
check_specs rules name [] = ok tt
check_specs rules name ((rtype, spec) ∷ specs) = do
  check_name (rules.is_dns1035_label (to_lower rtype))
  check_spec name rtype spec
  check_specs rules name specs

abbrev pub main_container_or_default : String → String
main_container_or_default name = if str_eq name "" then cluster_default_container_name else name

abbrev pub check_some_specs : NameRules → String → ReplicaSpecs → Result (Unit {0})
check_some_specs rules name [] = err (Error.other "KubeCluster is not valid")
check_some_specs rules name (s ∷ specs) = check_specs rules name (s ∷ specs)

-- validateV1alphaClusterSpecs
unfoldable pub validate_v1alpha_cluster_specs : NameRules → ClusterSpec → Result (Unit {0})
unfolding check_specs
validate_v1alpha_cluster_specs rules spec =
    if str_eq spec.cluster_type ""
    then err (Error.other "KubeCluster is not valid: cluster type expected")
    else check_some_specs rules (main_container_or_default spec.main_container)
        spec.cluster_replica_spec

-- A slice of strings in the format %v.
abbrev spaced : List String → String
spaced [] = ""
spaced (e ∷ []) = e
spaced (e ∷ f ∷ es) = e ++ " " ++ spaced (f ∷ es)

abbrev check_cluster_name : List String → Result (Unit {0})
check_cluster_name [] = ok tt
check_cluster_name (e ∷ es) =
    err (Error.other ("TFCluster name is invalid: [" ++ spaced (e ∷ es) ++ "]"))

unfoldable pub validate_v1alpha_cluster : NameRules → KubeCluster → Result (Unit {0})
unfolding validate_v1alpha_cluster_specs
validate_v1alpha_cluster rules cluster = do
  check_cluster_name (rules.name_is_dns1035_label cluster.name)
  validate_v1alpha_cluster_specs rules cluster.spec

-- setDefaultReplicas with 1
abbrev default_count : Option ℤ → Option ℤ
default_count (some n) = some n
default_count none = some (pos 1)

abbrev pub set_default_replicas : Option ReplicaSpec → Option ReplicaSpec
set_default_replicas none = none
set_default_replicas (some spec) = some (record spec { replicas = default_count spec.replicas })

abbrev pub default_entry : String × Option ReplicaSpec → String × Option ReplicaSpec
default_entry (rtype, spec) = (rtype, set_default_replicas spec)

abbrev pub default_policy : Option CleanKubeNodePolicy → Option CleanKubeNodePolicy
default_policy (some policy) = some policy
default_policy none = some CleanKubeNodePolicy.all

-- SetDefaults_KubeCluster
unfoldable pub set_defaults_kube_cluster : KubeCluster → KubeCluster
set_defaults_kube_cluster cluster = record cluster {
  spec = record cluster.spec {
    main_container = main_container_or_default cluster.spec.main_container;
    run_policy = record cluster.spec.run_policy {
      clean_kube_node_policy = default_policy cluster.spec.run_policy.clean_kube_node_policy;
    };
    cluster_replica_spec = map default_entry cluster.spec.cluster_replica_spec;
  };
}

-- The first key that equals the type but for its case, and is not the type.
find_other_case : ReplicaSpecs → String → Option String
find_other_case [] type = none
find_other_case ((rtype, spec) ∷ specs) type =
    let rest = find_other_case specs type in
    if str_eq (to_lower rtype) (to_lower type) && not (str_eq rtype type) then some rtype else rest

abbrev move_entry : ReplicaSpecs → String → String → Option (Option ReplicaSpec) → ReplicaSpecs
move_entry specs rtype type none = specs
move_entry specs rtype type (some spec) = insert type spec (erase rtype specs)

-- SetTypeNameToCamelCase: the entry of one such key is moved under the type.
unfoldable pub set_type_name_to_camel_case : ReplicaSpecs → String → ReplicaSpecs
unfolding find_other_case
set_type_name_to_camel_case specs type = elim (find_other_case specs type) [
  | none ↦ specs
  | some rtype ↦ move_entry specs rtype type (lookup rtype specs)
]

-- slurmClusterSchemaReconciler.ValidateV1KubeCluster
unfoldable pub validate_slurm : ReplicaSpecs → Result (Unit {0})
validate_slurm [] = err (Error.other "slurm cluster need a replica named Controller")
validate_slurm ((rtype, spec) ∷ specs) =
    let rest = validate_slurm specs in if str_eq slurm_controller rtype then ok tt else rest

-- `*spec.Replicas != 1`, which panics where the count or the spec is nil.
abbrev check_one : Option ReplicaSpec → Result (Unit {0})
check_one none = panic
check_one (some spec) = elim spec.replicas [
  | none ↦ panic
  | some n ↦
      if eqb_ℤ n (pos 1) then ok tt else err (Error.other "pbspro clusetr server replica must be 1")
]

-- pbsproClusterSchemaReconciler.ValidateV1KubeCluster
unfoldable pub validate_pbspro : ReplicaSpecs → Result (Unit {0})
validate_pbspro [] = err (Error.other "pbspro cluster need a replica named Server")
validate_pbspro ((rtype, spec) ∷ specs) =
    let rest = validate_pbspro specs in if str_eq pbspro_server rtype then check_one spec else rest
