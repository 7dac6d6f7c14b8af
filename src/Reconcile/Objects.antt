-- ===== src/Reconcile/Objects.antt =====
-- What KubeClusterReconciler of pkg/controller/cluster_controller.go reads from and writes to the API
-- server for a cluster, and the list helpers of pkg/common/util.go.
use Prim.Native.String.{◌++◌}
use kubecluster.Prelude.{ℕ, ℤ, String, List, [], ◌∷◌, Option, none, some, filter, if◌then◌else◌}
use kubecluster.Errors.{Error, Result, ok, err, panic, is_not_found}
use kubecluster.Types.{Pod, Service, ConfigMap, ReplicaSpecs, KubeCluster}
use kubecluster.Labels.{gen_labels}
use kubecluster.World.{
  M, Call, EventType, ◌>>=◌, ◌>>◌, pure, raise, lift, note, request, now, get_calls, get_cluster,
  set_status,
}
use kubecluster.Control.{update_config_map}
use kubecluster.Reconcile.Naming.{Ctx, controller_name}
use kubecluster.Reconcile.Limits.{in_seconds}

-- KubeClusterControlledPodList
kube_cluster_controlled_pod_list : Ctx → List Pod → KubeCluster → List Pod
kube_cluster_controlled_pod_list ctx list cluster =
    filter (λ (p : Pod). ctx.is_controlled_by p.owner cluster) list

unfoldable pub get_pods_for_cluster : Ctx → M (List Pod)
unfolding kube_cluster_controlled_pod_list
get_pods_for_cluster ctx = do
  cluster ← get_cluster
  calls ← get_calls
  list ← lift (ctx.env.pod_list calls (gen_labels controller_name cluster.name) cluster.namespace)
  pure (kube_cluster_controlled_pod_list ctx list cluster)

unfoldable pub get_services_for_cluster : Ctx → M (List Service)
get_services_for_cluster ctx = do
  cluster ← get_cluster
  calls ← get_calls
  lift (ctx.env.service_list calls (gen_labels controller_name cluster.name) cluster.namespace)

-- MessageResourceExists
abbrev exists_message : String → String
exists_message name =
    "Resource \"" ++ name
    ++ "\" of SlurmClusterClusterKind \"\" already exists and is not managed by SlurmClusterCluster"

-- A config map of another owner is reported, and is an error.
unfoldable pub found_config_map : Ctx → KubeCluster → Result ConfigMap → M (Option ConfigMap)
found_config_map ctx cluster (ok config_map) =
    if ctx.is_controlled_by config_map.owner cluster then pure (some config_map) else (do
      note (Call.event EventType.warning "ErrResourceExists" (exists_message config_map.name))
      raise (Error.other (exists_message config_map.name)))
found_config_map ctx cluster (err e) = if is_not_found e then pure none else raise e
found_config_map ctx cluster panic = lift panic

unfoldable pub get_config_map_for_cluster : Ctx → M (Option ConfigMap)
unfolding found_config_map
get_config_map_for_cluster ctx = do
  cluster ← get_cluster
  calls ← get_calls
  found_config_map ctx cluster (ctx.env.config_map_get calls cluster.namespace cluster.name)

-- common.ClearGeneratedFields, which takes the UID of the cluster in memory.
unfoldable pub clear_generated_fields : M Unit
clear_generated_fields s = (ok tt, record s { cluster = record s.cluster { uid = "" } })

-- UpdateClusterStatusInApiServer, which is always given the status of the cluster itself.
unfoldable pub update_cluster_status_in_api_server : Ctx → M Unit
unfolding clear_generated_fields
update_cluster_status_in_api_server ctx = do
  clear_generated_fields
  cluster ← get_cluster
  request ctx.env (Call.status_update cluster)

unfoldable pub update_config_map_in_api_server : Ctx → ConfigMap → M Unit
unfolding clear_generated_fields
update_config_map_in_api_server ctx config_map = do
  clear_generated_fields
  cluster ← get_cluster
  update_config_map ctx.env cluster.namespace config_map

-- A deadline puts the cluster in the work queue.
unfoldable pub after_deadline : String → Option ℤ → M Unit
after_deadline key none = pure tt
after_deadline key (some deadline) = note (Call.add_after key (in_seconds deadline))

unfoldable pub start_unless_set : Ctx → String → KubeCluster → Option ℕ → M Unit
unfolding after_deadline
start_unless_set ctx key cluster (some t) = pure tt
start_unless_set ctx key cluster none = do
  t ← now ctx.env
  set_status (record cluster.status { start_time = some t })
  after_deadline key cluster.spec.run_policy.active_deadline_seconds

unfoldable pub update_schema_statuses : Ctx → ReplicaSpecs → M Unit
update_schema_statuses ctx [] = pure tt
update_schema_statuses ctx ((rtype, spec) ∷ specs) = do
  ctx.schema.update_cluster_status ctx.env rtype
  update_schema_statuses ctx specs

-- KubeClusterReconciler.UpdateClusterStatus
unfoldable pub update_cluster_status : Ctx → M Unit
unfolding start_unless_set update_schema_statuses
update_cluster_status ctx = do
  cluster ← get_cluster
  key ← lift (ctx.key_func cluster)
  start_unless_set ctx key cluster cluster.status.start_time
  update_schema_statuses ctx cluster.spec.cluster_replica_spec
