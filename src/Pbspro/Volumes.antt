-- ===== src/Pbspro/Volumes.antt =====
-- The volumes, the network, the command and the security context of a PBS Pro pod:
-- pkg/controller/cluster_schema/pbspro_schema/util.go.
use kubecluster.Prelude.{
  pos, String, true, false, List, [], ◌∷◌, ◌++◌ as ◌+++◌, some, map, str_eq, if◌then◌else◌,
}
use kubecluster.Types.{Container, VolumeMount, VolumeSource, Volume, PodTemplate}
use kubecluster.Schema.Status.{pbspro_server}
use kubecluster.Slurm.Environment.{at_name, with_spec}
use kubecluster.Slurm.Volumes.{mount, add_mounts}
use kubecluster.Pbspro.{
  pbs_opt_volume, share_path, pbs_conf, pbs_server_conf_key, pbs_worker_conf_key,
  pbs_mom_priv_mount_path, pbs_mom_config_key, server_entrypoint, pbs_worker_entrypoint,
  server_entry_point_mount_path, worker_entry_point_mount_path,
}

unfoldable pub set_pbspro_network : PodTemplate → PodTemplate
unfolding with_spec
set_pbspro_network template =
    with_spec (record template.spec { dns_policy = "ClusterFirstWithHostNet" }) template

-- 0777
pbspro_volumes : String → List Volume
pbspro_volumes name =
    record { name = name; source = VolumeSource.config_map name (pos 511) }
    ∷ record { name = pbs_opt_volume; source = VolumeSource.empty_dir }
    ∷ []

role_mounts : String → String → List VolumeMount
role_mounts rtype name =
    if str_eq rtype pbspro_server
    then mount name pbs_conf pbs_server_conf_key false
      ∷ mount name server_entry_point_mount_path server_entrypoint false
      ∷ []
    else mount name pbs_conf pbs_worker_conf_key false
      ∷ mount name worker_entry_point_mount_path pbs_worker_entrypoint false
      ∷ []

pub pbspro_mounts : String → String → List VolumeMount
unfolding role_mounts
pbspro_mounts rtype name =
    role_mounts rtype name
    +++ mount name pbs_mom_priv_mount_path pbs_mom_config_key true
      ∷ mount pbs_opt_volume share_path "" true
      ∷ []

unfoldable pub set_pbspro_volumes : PodTemplate → String → String → String → PodTemplate
unfolding add_mounts pbspro_mounts pbspro_volumes at_name with_spec
set_pbspro_volumes template container_name rtype config_map_name =
    with_spec
      (record template.spec {
        volumes = template.spec.volumes +++ pbspro_volumes config_map_name;
        init_containers =
            map (add_mounts (mount pbs_opt_volume share_path "" false ∷ []))
              template.spec.init_containers;
        containers =
            map (at_name container_name (add_mounts (pbspro_mounts rtype config_map_name)))
              template.spec.containers;
      })
      template

-- The security context is replaced by one that runs as root.
unfoldable pub run_pbspro_as_root : Container → Container
run_pbspro_as_root c = record c { run_as_user = some (pos 0) }

unfoldable pub set_pbspro_security : PodTemplate → String → PodTemplate
unfolding run_pbspro_as_root at_name with_spec
set_pbspro_security template container_name =
    with_spec
      (record template.spec {
        containers = map (at_name container_name run_pbspro_as_root) template.spec.containers;
      })
      template

unfoldable pub run_pbspro_entrypoint : String → Container → Container
run_pbspro_entrypoint rtype c = record c {
  command =
      "/bin/bash"
      ∷ "-c"
      ∷ (if str_eq rtype pbspro_server
          then server_entry_point_mount_path
          else worker_entry_point_mount_path)
      ∷ [];
}

unfoldable pub set_pbspro_cmd : PodTemplate → String → String → PodTemplate
unfolding run_pbspro_entrypoint at_name with_spec
set_pbspro_cmd template container_name rtype =
    with_spec
      (record template.spec {
        containers =
            map (at_name container_name (run_pbspro_entrypoint rtype)) template.spec.containers;
      })
      template
