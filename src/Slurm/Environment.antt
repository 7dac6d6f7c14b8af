-- ===== src/Slurm/Environment.antt =====
-- The environment and the init container of a slurm pod: setPodEnv of env.go and setInitContainer of
-- initcontainer.go (pkg/controller/cluster_schema/slurm_schema).
use Prim.Native.String.{◌++◌}
use kubecluster.Prelude.{
  ℤ, pos, neg, add32, String, List, [], ◌∷◌, ◌++◌ as ◌+++◌, Option, none, some, map, lookup, str_eq,
  if◌then◌else◌,
}
use kubecluster.Errors.{Result, ok, err, panic, ◌>>=◌}
use kubecluster.Types.{
  Container, EnvVar, PodSpec, PodTemplate, KubeCluster, ReplicaSpec, ReplicaSpecs,
}
use kubecluster.Strings.{itoa, itoa_ℤ}
use kubecluster.Strings.Search.{join}
use kubecluster.Labels.{gen_general_name}
use kubecluster.Schema.Status.{slurm_controller}
use kubecluster.Slurm.{
  Libraries, Resources, slurm_conf_dir, slurm_conf_key, slurm_cmd_dir, config_map_ready,
  config_map_ready_file, empty_volume_mount_path_in_init_container,
}
use kubecluster.Slurm.Resources.{get_resource_request_list, get_gpu_quantity}

unfoldable pub value_var : String → String → EnvVar
value_var name value = record { name = name; value = value; field_path = none }

unfoldable pub field_var : String → String → EnvVar
field_var name path = record { name = name; value = ""; field_path = some path }

-- `*r.Replicas`, where both pointers may be nil.
unfoldable pub replicas_of : Option ReplicaSpec → Result ℤ
replicas_of none = panic
replicas_of (some spec) = elim spec.replicas [ none ↦ panic | some n ↦ ok n ]

-- A missing key reads as nil.
pub replica_or_nil : Option (Option ReplicaSpec) → Option ReplicaSpec
replica_or_nil none = none
replica_or_nil (some spec) = spec

total_from : ℤ → ReplicaSpecs → Result ℤ
unfolding replicas_of
total_from total [] = ok total
total_from total ((rtype, spec) ∷ specs) = do n ← replicas_of spec; total_from (add32 total n) specs

get_slurm_total_replicas : KubeCluster → Result ℤ
unfolding total_from
get_slurm_total_replicas cluster = total_from (pos 0) cluster.spec.cluster_replica_spec

pub controller_address : KubeCluster → String
controller_address cluster = gen_general_name cluster.name slurm_controller (itoa 0)

-- The variables that all containers get; the number of workers wraps as an int32.
pub shared_env : KubeCluster → String → ℤ → ℤ → Result (List EnvVar)
unfolding get_slurm_total_replicas replicas_of replica_or_nil value_var field_var controller_address
shared_env cluster rtype slurmctl_port slurmd_port = do
  total ← get_slurm_total_replicas cluster
  controllers ←
      replicas_of (replica_or_nil (lookup slurm_controller cluster.spec.cluster_replica_spec))
  ok (
      value_var "SLURMD_PORT" (itoa_ℤ slurmd_port)
      ∷ value_var "SLURMCTL_PORT" (itoa_ℤ slurmctl_port)
      ∷ value_var "SLURM_CONTROLLER_ADDRESS" (controller_address cluster)
      ∷ field_var "LOCAL_NAME" "metadata.name"
      ∷ field_var "LOCAL_IP" "status.podIP"
      ∷ value_var "SLURM_CONF" (slurm_conf_dir ++ "/" ++ slurm_conf_key)
      ∷ value_var "SLURM_ROLE" rtype
      ∷ value_var "SLURM_WORKER_REPLICAS" (itoa_ℤ (add32 total (neg controllers)))
      ∷ [])

pub resource_env : Libraries → Resources → List EnvVar
unfolding value_var
resource_env lib list =
    let q = lib.quantities in
    value_var "LOCAL_CPU" (q.print (q.cpu list))
    ∷ value_var "LOCAL_GPU" (q.print (get_gpu_quantity q list))
    ∷ value_var "LOCAL_MEM" (q.print (q.memory list))
    ∷ []

unfoldable pub add_env : List EnvVar → Container → Container
add_env env c = record c { env = c.env +++ env }

-- The containers of the name are changed, all others are left.
unfoldable pub at_name : String → (Container → Container) → Container → Container
at_name name f c = if str_eq c.name name then f c else c

unfoldable pub with_spec : PodSpec → PodTemplate → PodTemplate
with_spec spec template = record template { spec = spec }

-- A nil replica panics in getResourceRequestList.
pub requests_of : Libraries → Option ReplicaSpec → Result Resources
requests_of lib none = panic
requests_of lib (some spec) = ok (get_resource_request_list lib.quantities spec)

unfoldable pub set_pod_env :
    Libraries → KubeCluster → PodTemplate → String → String → ℤ → ℤ → Result PodTemplate
unfolding shared_env resource_env add_env at_name with_spec requests_of
set_pod_env lib cluster template name rtype slurmctl_port slurmd_port = do
  env ← shared_env cluster rtype slurmctl_port slurmd_port
  list ← requests_of lib (replica_or_nil (lookup rtype cluster.spec.cluster_replica_spec))
  ok (
      with_spec
        (record template.spec {
          init_containers = map (add_env env) template.spec.init_containers;
          containers =
              map (at_name name (add_env (env +++ resource_env lib list))) template.spec.containers;
        })
        template)

abbrev init_container_template : String
init_container_template =
    "\n- name: init-slurm\n  image: {{.InitContainerImage}}\n  imagePullPolicy: IfNotPresent\n  resources:\n    limits:\n      cpu: 100m\n      memory: 20Mi\n    requests:\n      cpu: 50m\n      memory: 10Mi\n  command: ['sh', '-c', 'err=1;for i in $(seq {{.MaxTries}}); do if nslookup {{.MasterAddr}}; then err=0 && break; fi;echo waiting for master; sleep 2; done; exit $err']"

template_or_default : Result String → String
template_or_default (ok text) = text
template_or_default (err e) = init_container_template
template_or_default panic = init_container_template

-- At most one container is taken.
unfoldable pub at_most_one : List Container → List Container
at_most_one [] = []
at_most_one (c ∷ cs) = c ∷ []

-- GetInitContainer, with the generator that getInitContainerGenerator makes.
pub get_init_container : Libraries → String → Result (List Container)
unfolding template_or_default at_most_one
get_init_container lib master_addr = do
  let config = lib.config
  text ←
      lib.render (template_or_default (lib.read_file config.init_container_template_file))
        master_addr config.init_container_image config.init_container_max_tries
  containers ← lib.unmarshal text
  ok (at_most_one containers)

wait_ready_command : String
wait_ready_command =
    "while [ \"$(cat " ++ config_map_ready_file ++ ")\" != \"" ++ config_map_ready
    ++ "\" ]; do echo \"slurm.conf not ready\"; sleep 5; done && echo \"slurm.conf ready\""

cp_slurm_cmd_command : String
cp_slurm_cmd_command =
    "if [ -d " ++ slurm_cmd_dir ++ " ] && [ -d " ++ empty_volume_mount_path_in_init_container
    ++ " ];then cp -r " ++ slurm_cmd_dir ++ "/* " ++ empty_volume_mount_path_in_init_container
    ++ ";fi"

-- `initContainers[0].Command = …`, which panics without a container. All but the controller go on with the
-- command of the template.
pub with_command : String → List Container → Result (List Container)
unfolding wait_ready_command cp_slurm_cmd_command
with_command rtype [] = panic
with_command rtype (c ∷ cs) =
    let commands = wait_ready_command ∷ cp_slurm_cmd_command ∷ [] in
    let commands' =
      if str_eq rtype slurm_controller then commands else commands +++ join " " c.command ∷ [] in
    ok (record c { command = "sh" ∷ "-c" ∷ join " && " commands' ∷ [] } ∷ cs)

unfoldable pub set_init_container :
    Libraries → KubeCluster → PodTemplate → String → Result PodTemplate
unfolding get_init_container with_command with_spec controller_address
set_init_container lib cluster template rtype = do
  generated ← get_init_container lib (controller_address cluster)
  containers ← with_command rtype generated
  ok (
      with_spec
        (record template.spec { init_containers = template.spec.init_containers +++ containers })
        template)
