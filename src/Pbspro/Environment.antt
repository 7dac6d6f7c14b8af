-- ===== src/Pbspro/Environment.antt =====
-- The environment and the init container of a PBS Pro pod: setPodEnv of env.go and setInitContainer of
-- initcontainer.go (pkg/controller/cluster_schema/pbspro_schema).
use Prim.Native.String.{◌++◌}
use kubecluster.Prelude.{String, List, [], ◌∷◌, ◌++◌ as ◌+++◌, map, str_eq, if◌then◌else◌}
use kubecluster.Errors.{Result, ok, err, panic, ◌>>=◌}
use kubecluster.Types.{Container, EnvVar, PodTemplate, KubeCluster}
use kubecluster.Strings.Search.{join}
use kubecluster.Schema.Status.{pbspro_server}
use kubecluster.Slurm.{Libraries}
use kubecluster.Slurm.Environment.{value_var, field_var, add_env, at_name, with_spec, at_most_one}
use kubecluster.Pbspro.{share_path, pbs_pro_dir, postgres_dir, server_name}

pub pod_env : KubeCluster → List EnvVar
unfolding value_var field_var server_name
pod_env cluster =
    value_var "PBS_SERVER_ADDRESS" (server_name cluster)
    ∷ field_var "LOCAL_NAME" "metadata.name"
    ∷ field_var "LOCAL_IP" "status.podIP"
    ∷ []

unfoldable pub set_pbspro_pod_env : KubeCluster → PodTemplate → String → PodTemplate
unfolding pod_env add_env at_name with_spec
set_pbspro_pod_env cluster template name =
    with_spec
      (record template.spec {
        init_containers = map (add_env (pod_env cluster)) template.spec.init_containers;
        containers = map (at_name name (add_env (pod_env cluster))) template.spec.containers;
      })
      template

abbrev pbspro_init_container_template : String
pbspro_init_container_template =
    "\n- name: init-pbspro\n  image: {{.InitContainerImage}}\n  imagePullPolicy: IfNotPresent\n  resources:\n    limits:\n      cpu: 100m\n      memory: 20Mi\n    requests:\n      cpu: 50m\n      memory: 10Mi\n  command: ['sh', '-c', 'err=1;for i in $(seq {{.MaxTries}}); do if nslookup {{.MasterAddr}}; then err=0 && break; fi;echo waiting for master; sleep 2; done; exit $err']"

pbspro_template_or_default : Result String → String
pbspro_template_or_default (ok text) = text
pbspro_template_or_default (err e) = pbspro_init_container_template
pbspro_template_or_default panic = pbspro_init_container_template

-- GetInitContainer, with the generator that getInitContainerGenerator makes.
pub get_pbspro_init_container : Libraries → String → Result (List Container)
unfolding pbspro_template_or_default at_most_one
get_pbspro_init_container lib master_addr = do
  let config = lib.config
  text ←
      lib.render (pbspro_template_or_default (lib.read_file config.init_container_template_file))
        master_addr config.init_container_image config.init_container_max_tries
  containers ← lib.unmarshal text
  ok (at_most_one containers)

abbrev cp_command : String → String
cp_command dir =
    "if [ -d " ++ dir ++ " ] && [ -d " ++ share_path ++ " ];then cp -r " ++ dir ++ " " ++ share_path
    ++ ";fi"

-- `initContainers[0].Command = …`, which panics without a container. All but the server go on with the
-- command of the template.
pub with_pbspro_command : String → List Container → Result (List Container)
with_pbspro_command rtype [] = panic
with_pbspro_command rtype (c ∷ cs) =
    let commands = cp_command pbs_pro_dir ∷ cp_command postgres_dir ∷ [] in
    let commands' =
      if str_eq rtype pbspro_server then commands else commands +++ join " " c.command ∷ [] in
    ok (record c { command = "sh" ∷ "-c" ∷ join " && " commands' ∷ [] } ∷ cs)

unfoldable pub set_pbspro_init_container :
    Libraries → KubeCluster → PodTemplate → String → Result PodTemplate
unfolding get_pbspro_init_container with_pbspro_command with_spec server_name
set_pbspro_init_container lib cluster template rtype = do
  generated ← get_pbspro_init_container lib (server_name cluster)
  containers ← with_pbspro_command rtype generated
  ok (
      with_spec
        (record template.spec { init_containers = template.spec.init_containers +++ containers })
        template)
