-- ===== src/Reconcile/PodCreation.antt =====
-- CreateNewPod of pkg/controller/ctrlcommon/pod.go.
use kubecluster.Prelude.{
  ℕ, pos, String, Bool, true, false, not, ◌&&◌, [], ◌∷◌, Option, none, some, Dict, str_eq,
  if◌then◌else◌,
}
use kubecluster.Errors.{Result, ok, err, panic, is_timeout}
use kubecluster.Types.{
  PodTemplate, PodRestartPolicy, RestartPolicy, ReplicaSpec, ReplicaSpecs, ConfigMap, KubeCluster,
}
use kubecluster.Strings.{itoa}
use kubecluster.Labels.{
  gen_replica_type_label, set_replica_type, set_replica_index, set_cluster_type, set_cluster_role,
  gen_general_name,
}
use kubecluster.Expectation.{gen_expectation_pods_key}
use kubecluster.World.{M, Call, EventType, ◌>>=◌, ◌>>◌, pure, raise, lift, try, note, get_cluster}
use kubecluster.Control.{
  PodGroupControl, GangKeys, copy_into, create_pods_with_controller_ref, get_scheduler_name,
  decorate_pod_template_spec,
}
use kubecluster.Reconcile.Naming.{Ctx, gen_owner_reference, gen_cluster_labels}

-- The labels of the pod with this index.
unfoldable pub new_pod_labels : KubeCluster → String → ℕ → Bool → Dict String
unfolding gen_cluster_labels set_replica_type set_replica_index set_cluster_type set_cluster_role
new_pod_labels cluster rtype index controller =
    let labels =
      set_cluster_type
        (set_replica_index
          (set_replica_type (gen_cluster_labels cluster.name) (gen_replica_type_label rtype)) index)
        cluster.spec.cluster_type in
    if controller then set_cluster_role labels "controller" else labels

-- The template with the pod's name and labels.
unfoldable pub named_template : KubeCluster → String → ℕ → ReplicaSpec → Bool → PodTemplate
unfolding new_pod_labels copy_into gen_general_name
named_template cluster rtype index spec controller = record spec.template {
  name = gen_general_name cluster.name rtype (itoa index);
  labels = copy_into spec.template.labels (new_pod_labels cluster rtype index controller);
}

-- core.SetRestartPolicy: pods have no policy ExitCode.
pod_restart_policy : RestartPolicy → PodRestartPolicy
pod_restart_policy RestartPolicy.exit_code = PodRestartPolicy.never
pod_restart_policy RestartPolicy.always = PodRestartPolicy.always
pod_restart_policy RestartPolicy.on_failure = PodRestartPolicy.on_failure
pod_restart_policy RestartPolicy.never = PodRestartPolicy.never
pod_restart_policy RestartPolicy.unset = PodRestartPolicy.unset

unfoldable pub set_restart_policy : PodTemplate → ReplicaSpec → PodTemplate
unfolding pod_restart_policy
set_restart_policy template spec = record template {
  spec = record template.spec { restart_policy = pod_restart_policy spec.restart_policy };
}

abbrev is_policy_set : PodRestartPolicy → Bool
is_policy_set PodRestartPolicy.unset = false
is_policy_set _ = true

-- A template that sets a restart policy is warned of.
abbrev warn_restart_policy : PodRestartPolicy → M Unit
warn_restart_policy policy =
    if is_policy_set policy
    then note (
        Call.event EventType.warning "SettedPodTemplateRestartPolicy"
          "Restart policy in pod template will be overwritten by restart policy in replica spec")
    else pure tt

-- The loop of `isCustomSchedulerSet`; a nil replica spec panics.
is_custom_scheduler_set : ReplicaSpecs → String → Result Bool
is_custom_scheduler_set [] gang_scheduler_name = ok false
is_custom_scheduler_set ((rtype, none) ∷ specs) gang_scheduler_name = panic
is_custom_scheduler_set ((rtype, some spec) ∷ specs) gang_scheduler_name =
    let rest = is_custom_scheduler_set specs gang_scheduler_name in
    let name = spec.template.spec.scheduler_name in
    if not (str_eq name "") && not (str_eq name gang_scheduler_name) then ok true else rest

-- A scheduler of the user's own is warned of.
abbrev pub warn_scheduler : Bool → M Unit
warn_scheduler custom =
    if custom
    then note (
        Call.event EventType.warning "SettedPodTemplateSchedulerName"
          "Another scheduler is specified when gang-scheduling is enabled and it will not be overwritten")
    else pure tt

-- What gang scheduling does to the template.
unfoldable pub decorate_by :
    Option PodGroupControl → GangKeys → PodTemplate → KubeCluster → String → M PodTemplate
unfolding note is_custom_scheduler_set decorate_pod_template_spec
decorate_by none keys template cluster rtype = pure template
decorate_by (some gang) keys template cluster rtype = do
  custom ←
      lift (is_custom_scheduler_set cluster.spec.cluster_replica_spec (get_scheduler_name gang))
  warn_scheduler custom
  pure (decorate_pod_template_spec keys gang template cluster rtype)

unfoldable pub decorate : Ctx → PodTemplate → KubeCluster → String → M PodTemplate
unfolding decorate_by
decorate ctx template cluster rtype = decorate_by ctx.gang ctx.gang_keys template cluster rtype

-- A creation is expected unless the server refuses it; a time-out is no refusal. The result tells
-- whether the server answered that it created the object.
unfoldable pub settle_creation : String → Result (Unit {0}) → M Bool
unfolding note
settle_creation key (ok _) = pure true
settle_creation key (err e) =
    if is_timeout e then pure false else (do note (Call.creation_observed key); raise e)
settle_creation key panic = lift panic

-- A creation that is announced by `RaiseExpectations(key, 1, 0)`, attempted and settled.
unfoldable pub announced : String → M Unit → M Bool
unfolding note settle_creation
announced key m = do
  note (Call.raise_expectations key (pos 1) (pos 0))
  r ← try m
  settle_creation key r

unfoldable pub create_new_pod : Ctx → String → ℕ → ReplicaSpec → Bool → ConfigMap → M Unit
unfolding named_template decorate announced set_restart_policy create_pods_with_controller_ref
create_new_pod ctx rtype index spec controller config_map = do
  cluster ← get_cluster
  cluster_key ← lift (ctx.key_func cluster)
  template ← lift (
      ctx.schema.set_cluster_spec cluster (named_template cluster rtype index spec controller) rtype
        (itoa index) config_map)
  warn_restart_policy template.spec.restart_policy
  decorated ← decorate ctx (set_restart_policy template spec) cluster rtype
  created ← announced (gen_expectation_pods_key cluster_key rtype) (
      create_pods_with_controller_ref ctx.env cluster.namespace decorated
        (some (gen_owner_reference cluster)))
  pure tt
