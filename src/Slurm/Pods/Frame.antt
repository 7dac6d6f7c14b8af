-- ===== src/Slurm/Pods/Frame.antt =====
-- What SetClusterSpec of the slurm schema leaves alone
-- (pkg/controller/cluster_schema/slurm_schema/slurm_schema.go).
use kubecluster.Prelude.{
  ℤ, pos, String, true, not, List, [], ◌∷◌, ◌++◌ as ◌+++◌, subst, some, ◌≡◌, refl, ap, ◌∙◌, map,
  filter, lookup, str_eq, arith, All, Bool-cases, inl, inr,
}
use kubecluster.Errors.{ok, >>=-eq-ok, ok-injective}
use kubecluster.Types.{
  Container, PodTemplate, ConfigMap, KubeCluster, cluster_default_container_name,
}
use kubecluster.Slurm.{Libraries}
use kubecluster.Slurm.Parsing.{get_slurm_ports_from_conf}
use kubecluster.Slurm.Environment.{
  shared_env, requests_of, replica_or_nil, resource_env, add_env, at_name, with_spec,
  get_init_container, with_command, controller_address, set_pod_env, set_init_container,
}
use kubecluster.Slurm.Volumes.{
  add_mounts, main_mounts, set_volumes, set_pod_network, run_entrypoint, set_cmd, run_as_root,
  set_security,
}
use kubecluster.Slurm.Pods.{set_slurm_spec}

-- The containers that are not the main container.
abbrev pub others : List Container → List Container
others cs = filter (λ (c : Container). not (str_eq c.name cluster_default_container_name)) cs

abbrev pub names : List Container → List String
names cs = map (λ (c : Container). c.name) cs

-- What a step of SetClusterSpec keeps of a template.
pub record IsFrame (before after : PodTemplate) : Type 0 where
  pub other_containers : others after.spec.containers ≡ others before.spec.containers
  pub container_names : names after.spec.containers ≡ names before.spec.containers
  pub name : after.name ≡ before.name
  pub labels : after.labels ≡ before.labels
  pub annotations : after.annotations ≡ before.annotations
  pub restart_policy : after.spec.restart_policy ≡ before.spec.restart_policy
  pub scheduler_name : after.spec.scheduler_name ≡ before.spec.scheduler_name
  pub host_network : after.spec.host_network ≡ before.spec.host_network

pub IsFrame-trans : {a b c : PodTemplate} → IsFrame a b → IsFrame b c → IsFrame a c
IsFrame-trans h k = record {
  other_containers = k.other_containers ∙ h.other_containers;
  container_names = k.container_names ∙ h.container_names;
  name = k.name ∙ h.name;
  labels = k.labels ∙ h.labels;
  annotations = k.annotations ∙ h.annotations;
  restart_policy = k.restart_policy ∙ h.restart_policy;
  scheduler_name = k.scheduler_name ∙ h.scheduler_name;
  host_network = k.host_network ∙ h.host_network;
}

-- The main container is changed and keeps its name.
module _ (f : Container → Container) (kept : (c : Container) → (f c).name ≡ c.name) where
  names-at_name :
      (cs : List Container) → names (map (at_name cluster_default_container_name f) cs) ≡ names cs
  unfolding at_name
  names-at_name [] = refl
  names-at_name (c ∷ cs) = elim (Bool-cases (str_eq c.name cluster_default_container_name)) [
    | inl e ↦ rw (e, kept c, names-at_name cs) refl
    | inr e ↦ rw (e, names-at_name cs) refl
  ]

  others-at_name :
      (cs : List Container) → others (map (at_name cluster_default_container_name f) cs) ≡ others cs
  unfolding at_name
  others-at_name [] = refl
  others-at_name (c ∷ cs) = elim (Bool-cases (str_eq c.name cluster_default_container_name)) [
    | inl e ↦ rw (e, kept c, e, others-at_name cs) refl
    | inr e ↦ rw (e, others-at_name cs, e) refl
  ]

-- A step that changes the main container alone, and no other field that is kept.
pub with_main :
    (f : Container → Container) (kept : (c : Container) → (f c).name ≡ c.name)
    (before after : PodTemplate)
    → after.spec.containers ≡ map (at_name cluster_default_container_name f) before.spec.containers
    → after.name ≡ before.name
    → after.labels ≡ before.labels
    → after.annotations ≡ before.annotations
    → after.spec.restart_policy ≡ before.spec.restart_policy
    → after.spec.scheduler_name ≡ before.spec.scheduler_name
    → after.spec.host_network ≡ before.spec.host_network
    → IsFrame before after
with_main f kept before after changed n l a r s h = record {
  other_containers = ap others changed ∙ others-at_name f kept before.spec.containers;
  container_names = ap names changed ∙ names-at_name f kept before.spec.containers;
  name = n;
  labels = l;
  annotations = a;
  restart_policy = r;
  scheduler_name = s;
  host_network = h;
}

set_pod_env-IsFrame :
    (lib : Libraries) (cluster : KubeCluster) (template after : PodTemplate) (rtype : String)
    (ctl d : ℤ)
    → set_pod_env lib cluster template cluster_default_container_name rtype ctl d ≡ ok after
    → IsFrame template after
unfolding set_pod_env add_env with_spec
set_pod_env-IsFrame lib cluster template after rtype ctl d made =
    let (env, e, made1) = >>=-eq-ok (shared_env cluster rtype ctl d) _ made in
    let (list, e1, made2) =
      >>=-eq-ok (requests_of lib (replica_or_nil (lookup rtype cluster.spec.cluster_replica_spec)))
        _ made1 in
    subst (IsFrame template) (ok-injective made2) (
      with_main (add_env (env +++ resource_env lib list)) (λ c. refl) template _ refl refl refl refl
        refl refl refl)

set_init_container-IsFrame :
    (lib : Libraries) (cluster : KubeCluster) (template after : PodTemplate) (rtype : String)
    → set_init_container lib cluster template rtype ≡ ok after
    → IsFrame template after
unfolding set_init_container with_spec
set_init_container-IsFrame lib cluster template after rtype made =
    let (generated, e, made1) =
      >>=-eq-ok (get_init_container lib (controller_address cluster)) _ made in
    let (containers, e1, made2) = >>=-eq-ok (with_command rtype generated) _ made1 in
    subst (IsFrame template) (ok-injective made2) (record {
      other_containers = refl;
      container_names = refl;
      name = refl;
      labels = refl;
      annotations = refl;
      restart_policy = refl;
      scheduler_name = refl;
      host_network = refl;
    })

-- The steps after the init container.
finish-IsFrame :
    (template : PodTemplate) (rtype name : String)
    → IsFrame template (
        set_security
          (set_cmd
            (set_pod_network (set_volumes template cluster_default_container_name rtype name))
            cluster_default_container_name)
          cluster_default_container_name)
unfolding set_volumes set_pod_network set_cmd set_security add_mounts run_entrypoint run_as_root
    with_spec
finish-IsFrame template rtype name =
    let main = cluster_default_container_name in
    let mounted = set_pod_network (set_volumes template main rtype name) in
    let started = set_cmd mounted main in
    IsFrame-trans
      (with_main (add_mounts (main_mounts rtype name)) (λ c. refl) template mounted refl refl refl
        refl refl refl refl)
      (IsFrame-trans
        (with_main run_entrypoint (λ c. refl) mounted started refl refl refl refl refl refl refl)
        (with_main run_as_root (λ c. refl) started (set_security started main) refl refl refl refl
          refl refl refl))

-- A container named kubenode runs as root.
abbrev pub RootIfMain : Container → Type 0
RootIfMain c = str_eq c.name cluster_default_container_name ≡ true → c.run_as_user ≡ some (pos 0)

main_runs_as_root :
    (cs : List Container)
    → All RootIfMain (map (at_name cluster_default_container_name run_as_root) cs)
unfolding at_name run_as_root
main_runs_as_root [] = tt
main_runs_as_root (c ∷ cs) = elim (Bool-cases (str_eq c.name cluster_default_container_name)) [
  | inl e ↦ rw e ((λ h. refl), main_runs_as_root cs)
  | inr e ↦ rw e ((λ h. absurd (ground (arith, e, h))), main_runs_as_root cs)
]

set_security-root :
    (template : PodTemplate)
    → All RootIfMain (set_security template cluster_default_container_name).spec.containers
unfolding set_security with_spec
set_security-root template = main_runs_as_root template.spec.containers

-- When SetClusterSpec returns a template: the containers but for those named kubenode are as they were, in
-- their order, all containers keep their names, and the template's name, labels, annotations, restart
-- policy, scheduler and use of the host's network are kept; the containers named kubenode run as root.
pub set_slurm_spec-IsFrame :
    (lib : Libraries) (cluster : KubeCluster) (template after : PodTemplate) (rtype index : String)
    (config_map : ConfigMap)
    → set_slurm_spec lib cluster template rtype index config_map ≡ ok after
    → IsFrame template after × All RootIfMain after.spec.containers
unfolding set_slurm_spec
set_slurm_spec-IsFrame lib cluster template after rtype index config_map made =
    let (ports, e, made1) = >>=-eq-ok (get_slurm_ports_from_conf _) _ made in
    let (with_env, e1, made2) = >>=-eq-ok (set_pod_env lib cluster template _ rtype _ _) _ made1 in
    let (with_init, e2, made3) =
      >>=-eq-ok (set_init_container lib cluster with_env rtype) _ made2 in
    subst (λ t. IsFrame template t × All RootIfMain t.spec.containers) (ok-injective made3)
      (
        IsFrame-trans
            (IsFrame-trans (set_pod_env-IsFrame lib cluster template with_env rtype _ _ e1)
              (set_init_container-IsFrame lib cluster with_env with_init rtype e2))
            (finish-IsFrame with_init rtype config_map.name),
        set_security-root (
            set_cmd
              (set_pod_network
                (set_volumes with_init cluster_default_container_name rtype config_map.name))
              cluster_default_container_name),
      )
