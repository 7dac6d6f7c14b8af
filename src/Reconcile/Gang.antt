-- ===== src/Reconcile/Gang.antt =====
-- Gang scheduling: pkg/controller/ctrlcommon/scheduling.go, CalcPGMinResources of
-- pkg/controller/ctrlcommon/util.go, and the pod groups of pkg/controller/control/podgroup_control.go.
mod Resources
unfoldable pub use Resources.*
use Prim.Native.String.{◌++◌}
use kubecluster.Prelude.{
  ℕ, zero, suc, ℤ, pos, pos_part, add32, leb_ℤ, ltb_ℤ, ◌+ℤ◌, String, Bool, true, false, ◌||◌, List,
  [], ◌∷◌, Option, none, some, Dict, lookup, insert, str_eq, if◌then◌else◌,
}
use kubecluster.Errors.{Error, Result, ok, err, panic, is_not_found, error_text}
use kubecluster.Types.{
  Container, PodTemplate, ReplicaSpec, ReplicaSpecs, RunPolicy, SchedulingPolicy, PodGroup,
  KubeCluster, OwnerReference,
}
use kubecluster.World.{
  Env, M, Call, ◌>>=◌, ◌>>◌, pure, raise, lift, try, request, get_calls, get_cluster,
}
use kubecluster.Control.{PodGroupControl}
use kubecluster.Reconcile.Naming.{Ctx, gen_owner_reference}

abbrev pub is_some : {A : Type 0} → Option A → Bool
is_some (some a) = true
is_some none = false

abbrev or_default : {A : Type 0} → Option A → A → A
or_default (some a) d = a
or_default none d = d

-- The parts of ReconcileKubeCluster that fill the pod group's spec.
abbrev pub min_member_of : ℤ → Option SchedulingPolicy → ℤ
min_member_of total none = total
min_member_of total (some policy) = or_default policy.min_available total

abbrev pub min_resources_of : Env → ℤ → ReplicaSpecs → Option SchedulingPolicy → Result (Dict ℤ)
min_resources_of env min_member specs none = calc_pg_min_resources env min_member specs
min_resources_of env min_member specs (some policy) = elim policy.min_resources [
  | some resources ↦ ok resources
  | none ↦ calc_pg_min_resources env min_member specs
]

abbrev queue_of : Option SchedulingPolicy → String
queue_of none = ""
queue_of (some policy) = policy.queue

abbrev priority_class_of : Option SchedulingPolicy → String
priority_class_of none = ""
priority_class_of (some policy) = policy.priority_class

abbrev timeout_of : Option SchedulingPolicy → Option ℤ
timeout_of none = none
timeout_of (some policy) = policy.schedule_timeout_seconds

-- pgSpecFill: each kind of pod group has its own fields, and a spec is replaced as a whole.
unfoldable pub fill_spec :
    PodGroupControl → ℤ → Option SchedulingPolicy → Dict ℤ → PodGroup → PodGroup
fill_spec PodGroupControl.volcano min_member policy resources group = record group {
  min_member = min_member;
  queue = queue_of policy;
  priority_class_name = priority_class_of policy;
  min_resources = some resources;
  schedule_timeout_seconds = none;
}
fill_spec (PodGroupControl.scheduler_plugins name) min_member policy resources group =
    record group {
      min_member = min_member;
      queue = "";
      priority_class_name = "";
      min_resources = some resources;
      schedule_timeout_seconds = timeout_of policy;
    }

-- VolcanoControl.NewEmptyPodGroup and SchedulerPluginsControl.NewEmptyPodGroup, with the name, the
-- namespace and the owner that SyncPodGroup sets.
abbrev new_pod_group : KubeCluster → PodGroup
new_pod_group cluster = record {
  name = cluster.name;
  namespace = cluster.namespace;
  owner = some (gen_owner_reference cluster);
  min_member = pos 0;
  queue = "";
  priority_class_name = "";
  min_resources = none;
  schedule_timeout_seconds = none;
  phase = "";
}

unfoldable pub get_pod_group : Ctx → KubeCluster → M PodGroup
get_pod_group ctx cluster = do
  calls ← get_calls
  lift (ctx.env.pod_group_get calls cluster.namespace cluster.name)

-- UpdatePodGroup and CreatePodGroup wrap the error of the request.
unfoldable pub wrapped : String → Result (Unit {0}) → M Unit
wrapped text (ok _) = pure tt
wrapped text (err e) = raise (Error.other (text ++ error_text e))
wrapped text panic = lift panic

-- The group that was created is read back.
abbrev pub created_group : Result PodGroup → M (Option PodGroup × Result (Unit {0}))
created_group (ok group) = pure (some group, ok tt)
created_group (err f) =
    pure
      (none, err (Error.other ("unable to get PodGroup after success creation: " ++ error_text f)))
created_group panic = lift panic

unfoldable pub after_group_creation :
    Ctx → KubeCluster → Result (Unit {0}) → M (Option PodGroup × Result (Unit {0}))
unfolding get_pod_group
after_group_creation ctx cluster (ok _) = do
  created ← try (get_pod_group ctx cluster)
  created_group created
after_group_creation ctx cluster (err f) =
    pure (none, err (Error.other ("unable to create PodGroup: " ++ error_text f)))
after_group_creation ctx cluster panic = lift panic

-- A group that is there is always updated: the spec is compared with a pointer to itself. The result
-- is the pod group, with the error of the update if there is one.
unfoldable pub sync_found :
    Ctx
    → (PodGroup → PodGroup)
    → KubeCluster
    → Result PodGroup
    → M (Option PodGroup × Result (Unit {0}))
unfolding wrapped after_group_creation
sync_found ctx fill cluster (ok group) = do
  r ← try (request ctx.env (Call.pod_group_update (fill group)))
  u ← try (
      wrapped ("unable to update a PodGroup, '" ++ group.namespace ++ "/" ++ group.name ++ "': ") r)
  pure (some (fill group), u)
sync_found ctx fill cluster (err e) =
    if is_not_found e
    then (do
      r ← try (request ctx.env (Call.pod_group_create (fill (new_pod_group cluster))))
      c ← try (wrapped "unable to create PodGroup: " r)
      after_group_creation ctx cluster c)
    else pure (none, err (Error.other ("unable to get a PodGroup: " ++ error_text e)))
sync_found ctx fill cluster panic = lift panic

-- SyncPodGroup
unfoldable pub sync_pod_group :
    Ctx → (PodGroup → PodGroup) → M (Option PodGroup × Result (Unit {0}))
unfolding sync_found get_pod_group
sync_pod_group ctx fill = do
  cluster ← get_cluster
  found ← try (get_pod_group ctx cluster)
  sync_found ctx fill cluster found

-- DelayPodCreationDueToPodGroup: volcano's groups have to be admitted first.
unfoldable pub delay_pod_creation : PodGroupControl → Option PodGroup → Bool
delay_pod_creation PodGroupControl.volcano none = true
delay_pod_creation PodGroupControl.volcano (some group) =
    str_eq group.phase "" || str_eq group.phase "Pending"
delay_pod_creation (PodGroupControl.scheduler_plugins name) group = false

-- DeletePodGroup: only a group that is known not to be there is not deleted.
unfoldable pub delete_unless_missing : Ctx → KubeCluster → Result PodGroup → M Unit
unfolding wrapped
delete_unless_missing ctx cluster found = if missing found then pure tt else (do
  r ← try (request ctx.env (Call.pod_group_delete cluster.namespace cluster.name))
  wrapped "unable to delete PodGroup: " r)
  where
    missing : Result PodGroup → Bool
    missing (err e) = is_not_found e
    missing _ = false

unfoldable pub delete_pod_group : Ctx → M Unit
unfolding delete_unless_missing get_pod_group
delete_pod_group ctx = do
  cluster ← get_cluster
  found ← try (get_pod_group ctx cluster)
  delete_unless_missing ctx cluster found
