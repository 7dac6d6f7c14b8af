-- ===== src/Pbspro/Pods/Frame.antt =====
-- What SetClusterSpec of the PBS Pro schema leaves alone
-- (pkg/controller/cluster_schema/pbspro_schema/pbspro_schema.go).
use kubecluster.Prelude.{
  String, List, [], ◌∷◌, ◌≡◌, refl, map, str_eq, arith, All, Bool-cases, inl, inr, subst,
}
use kubecluster.Errors.{ok, >>=-eq-ok, ok-injective}
use kubecluster.Types.{
  Container, PodTemplate, ConfigMap, KubeCluster, cluster_default_container_name,
}
use kubecluster.Slurm.{Libraries}
use kubecluster.Slurm.Environment.{add_env, at_name, with_spec}
use kubecluster.Slurm.Volumes.{add_mounts}
use kubecluster.Slurm.Pods.Frame.{IsFrame, IsFrame-trans, with_main, RootIfMain}
use kubecluster.Pbspro.{server_name}
use kubecluster.Pbspro.Environment.{
  pod_env, set_pbspro_pod_env, get_pbspro_init_container, with_pbspro_command,
  set_pbspro_init_container,
}
use kubecluster.Pbspro.Volumes.{
  pbspro_mounts, set_pbspro_volumes, set_pbspro_network, run_pbspro_entrypoint, set_pbspro_cmd,
  run_pbspro_as_root, set_pbspro_security,
}
use kubecluster.Pbspro.Pods.{set_pbspro_spec}

set_pbspro_pod_env-IsFrame :
    (cluster : KubeCluster) (template : PodTemplate)
    → IsFrame template (set_pbspro_pod_env cluster template cluster_default_container_name)
unfolding set_pbspro_pod_env add_env with_spec
set_pbspro_pod_env-IsFrame cluster template =
    with_main (add_env (pod_env cluster)) (λ c. refl) template _ refl refl refl refl refl refl refl

set_pbspro_init_container-IsFrame :
    (lib : Libraries) (cluster : KubeCluster) (template after : PodTemplate) (rtype : String)
    → set_pbspro_init_container lib cluster template rtype ≡ ok after
    → IsFrame template after
unfolding set_pbspro_init_container with_spec
set_pbspro_init_container-IsFrame lib cluster template after rtype made =
    let (generated, e, made1) =
      >>=-eq-ok (get_pbspro_init_container lib (server_name cluster)) _ made in
    let (containers, e1, made2) = >>=-eq-ok (with_pbspro_command rtype generated) _ made1 in
    subst (IsFrame template) (ok-injective made2) (record {
      other_containers = refl;
      container_names = refl;
      name = refl;
      labels = refl;
      annotations = refl;
      restart_policy = refl;
      scheduler_name = refl;
      host_network = refl;
    })

-- The steps after the init container.
finish-IsFrame :
    (template : PodTemplate) (rtype name : String)
    → IsFrame template (
        set_pbspro_security
          (set_pbspro_cmd
            (set_pbspro_network
              (set_pbspro_volumes template cluster_default_container_name rtype name))
            cluster_default_container_name
            rtype)
          cluster_default_container_name)
unfolding set_pbspro_volumes set_pbspro_network set_pbspro_cmd set_pbspro_security add_mounts
    run_pbspro_entrypoint run_pbspro_as_root with_spec
finish-IsFrame template rtype name =
    let main = cluster_default_container_name in
    let mounted = set_pbspro_network (set_pbspro_volumes template main rtype name) in
    let started = set_pbspro_cmd mounted main rtype in
    IsFrame-trans
      (with_main (add_mounts (pbspro_mounts rtype name)) (λ c. refl) template mounted refl refl refl
        refl refl refl refl)
      (IsFrame-trans
        (with_main (run_pbspro_entrypoint rtype) (λ c. refl) mounted started refl refl refl refl
          refl refl refl)
        (with_main run_pbspro_as_root (λ c. refl) started (set_pbspro_security started main) refl
          refl refl refl refl refl refl))

main_runs_as_root :
    (cs : List Container)
    → All RootIfMain (map (at_name cluster_default_container_name run_pbspro_as_root) cs)
unfolding at_name run_pbspro_as_root
main_runs_as_root [] = tt
main_runs_as_root (c ∷ cs) = elim (Bool-cases (str_eq c.name cluster_default_container_name)) [
  | inl e ↦ rw e ((λ h. refl), main_runs_as_root cs)
  | inr e ↦ rw e ((λ h. absurd (ground (arith, e, h))), main_runs_as_root cs)
]

set_pbspro_security-root :
    (template : PodTemplate)
    → All RootIfMain (set_pbspro_security template cluster_default_container_name).spec.containers
unfolding set_pbspro_security with_spec
set_pbspro_security-root template = main_runs_as_root template.spec.containers

-- When SetClusterSpec returns a template: the containers but for those named kubenode are as they were, in
-- their order, all containers keep their names, and the template's name, labels, annotations, restart
-- policy, scheduler and use of the host's network are kept; the containers named kubenode run as root.
pub set_pbspro_spec-IsFrame :
    (lib : Libraries) (cluster : KubeCluster) (template after : PodTemplate) (rtype index : String)
    (config_map : ConfigMap)
    → set_pbspro_spec lib cluster template rtype index config_map ≡ ok after
    → IsFrame template after × All RootIfMain after.spec.containers
unfolding set_pbspro_spec
set_pbspro_spec-IsFrame lib cluster template after rtype index config_map made =
    let main = cluster_default_container_name in
    let with_env = set_pbspro_pod_env cluster template main in
    let (with_init, e, rest) =
      >>=-eq-ok (set_pbspro_init_container lib cluster with_env rtype) _ made in
    subst (λ t. IsFrame template t × All RootIfMain t.spec.containers) (ok-injective rest)
      (
        IsFrame-trans
            (IsFrame-trans (set_pbspro_pod_env-IsFrame cluster template)
              (set_pbspro_init_container-IsFrame lib cluster with_env with_init rtype e))
            (finish-IsFrame with_init rtype config_map.name),
        set_pbspro_security-root (
            set_pbspro_cmd
              (set_pbspro_network (set_pbspro_volumes with_init main rtype config_map.name)) main
              rtype),
      )
