-- ===== src/Slurm/Volumes.antt =====
-- Volumes, network, command and security of a slurm pod: setVolumes, setPodNetwork, setCmd and setSecurity
-- of pkg/controller/cluster_schema/slurm_schema/util.go.
use Prim.Native.String.{◌++◌}
use kubecluster.Prelude.{
  pos, String, Bool, true, false, List, [], ◌∷◌, ◌++◌ as ◌+++◌, some, map, str_eq, if◌then◌else◌,
}
use kubecluster.Types.{Container, VolumeMount, Volume, VolumeSource, PodTemplate}
use kubecluster.Schema.Status.{slurm_controller}
use kubecluster.Slurm.{
  slurm_conf_dir, slurm_conf_key, munge_key, config_map_ready_key, config_map_ready_file,
  empty_volume, empty_volume_mount_path_in_init_container,
  empty_volume_mount_path_in_main_container, entrypoint_file_path, controller_entrypoint,
  worker_entrypoint,
}
use kubecluster.Slurm.Environment.{at_name, with_spec}

pub mount : String → String → String → Bool → VolumeMount
mount name mount_path sub_path read_only = record {
  name = name;
  mount_path = mount_path;
  sub_path = sub_path;
  read_only = read_only;
}

unfoldable pub add_mounts : List VolumeMount → Container → Container
add_mounts mounts c = record c { volume_mounts = c.volume_mounts +++ mounts }

conf_mount : String → VolumeMount
unfolding mount
conf_mount name = mount name (slurm_conf_dir ++ "/" ++ slurm_conf_key) slurm_conf_key true

init_mounts : String → List VolumeMount
unfolding mount conf_mount
init_mounts name =
    conf_mount name
    ∷ mount empty_volume empty_volume_mount_path_in_init_container "" false
    ∷ mount name config_map_ready_file config_map_ready_key false
    ∷ []

pub main_mounts : String → String → List VolumeMount
unfolding mount conf_mount
main_mounts rtype name =
    mount empty_volume empty_volume_mount_path_in_main_container "" false
    ∷ conf_mount name
    ∷ mount name (slurm_conf_dir ++ "/munge/munge/" ++ munge_key) munge_key false
    ∷ mount name entrypoint_file_path
        (if str_eq rtype slurm_controller then controller_entrypoint else worker_entrypoint) false
    ∷ []

-- 0777
new_volumes : String → List Volume
new_volumes name =
    record { name = name; source = VolumeSource.config_map name (pos 511) }
    ∷ record { name = empty_volume; source = VolumeSource.empty_dir }
    ∷ []

unfoldable pub set_volumes : PodTemplate → String → String → String → PodTemplate
unfolding add_mounts init_mounts main_mounts new_volumes at_name with_spec
set_volumes template container_name rtype config_map_name =
    with_spec
      (record template.spec {
        volumes = template.spec.volumes +++ new_volumes config_map_name;
        init_containers =
            map (add_mounts (init_mounts config_map_name)) template.spec.init_containers;
        containers =
            map (at_name container_name (add_mounts (main_mounts rtype config_map_name)))
              template.spec.containers;
      })
      template

unfoldable pub set_pod_network : PodTemplate → PodTemplate
unfolding with_spec
set_pod_network template =
    with_spec (record template.spec { dns_policy = "ClusterFirstWithHostNet" }) template

-- The security context is replaced by one that runs as root.
unfoldable pub run_as_root : Container → Container
run_as_root c = record c { run_as_user = some (pos 0) }

unfoldable pub set_security : PodTemplate → String → PodTemplate
unfolding run_as_root at_name with_spec
set_security template container_name =
    with_spec
      (record template.spec {
        containers = map (at_name container_name run_as_root) template.spec.containers;
      })
      template

unfoldable pub run_entrypoint : Container → Container
run_entrypoint c = record c {
  command =
      "/bin/bash"
      ∷ "-c"
      ∷ (entrypoint_file_path ++ " <<< " ++ empty_volume_mount_path_in_main_container)
      ∷ [];
}

unfoldable pub set_cmd : PodTemplate → String → PodTemplate
unfolding run_entrypoint at_name with_spec
set_cmd template container_name =
    with_spec
      (record template.spec {
        containers = map (at_name container_name run_entrypoint) template.spec.containers;
      })
      template
