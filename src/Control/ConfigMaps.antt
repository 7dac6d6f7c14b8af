-- ===== src/Control/ConfigMaps.antt =====
-- RealConfigMapControl of pkg/controller/control/configmap_control.go. What the server returns for a
-- created or updated config map is taken to be what was sent.
use Prim.Native.String.{◌++◌}
use kubecluster.Prelude.{ℕ, String, Option, none, some, if◌then◌else◌}
use kubecluster.Errors.{Error, Result, ok, err, panic, is_not_found, error_text}
use kubecluster.Types.{ConfigMap, OwnerReference}
use kubecluster.World.{
  Env, M, Call, EventType, ◌>>=◌, ◌>>◌, pure, raise, lift, try, note, request, get_calls,
}
use kubecluster.Control.Refs.{validate_controller_ref, to_references}
use kubecluster.Control.Pods.{
  failed_create_pod_reason, successful_create_pod_reason, failed_delete_pod_reason,
  successful_delete_pod_reason,
}

-- After the request to create.
abbrev pub settle_config_map_creation : String → Result (Unit {0}) → M Unit
settle_config_map_creation name (ok _) =
    note (Call.event EventType.normal successful_create_pod_reason ("Created pod: " ++ name))
settle_config_map_creation name (err e) = do
  note (Call.event EventType.warning failed_create_pod_reason ("Error creating: " ++ error_text e))
  raise e
settle_config_map_creation name panic = lift panic

unfoldable pub create_config_map : Env → String → ConfigMap → Option OwnerReference → M Unit
unfolding note request
create_config_map env namespace template ref = do
  r ← try (request env (Call.config_map_create namespace template (to_references ref)))
  settle_config_map_creation template.name r

unfoldable pub create_config_map_with_controller_ref :
    Env → String → ConfigMap → Option OwnerReference → M Unit
unfolding create_config_map validate_controller_ref
create_config_map_with_controller_ref env namespace template ref = do
  lift (validate_controller_ref ref)
  create_config_map env namespace template ref

unfoldable pub update_config_map : Env → String → ConfigMap → M Unit
unfolding request
update_config_map env namespace config_map =
    request env (Call.config_map_update namespace config_map)

-- After the request to delete.
abbrev pub settle_config_map_deletion : String → Result (Unit {0}) → M Unit
settle_config_map_deletion config_map_id (ok _) = note (
    Call.event EventType.normal successful_delete_pod_reason
      ("Deleted configMap: " ++ config_map_id))
settle_config_map_deletion config_map_id (err e) = do
  note (Call.event EventType.warning failed_delete_pod_reason ("Error deleting: " ++ error_text e))
  raise (Error.other ("unable to delete pods: " ++ error_text e))
settle_config_map_deletion config_map_id panic = lift panic

-- What is being deleted is left alone.
abbrev pub unless_deleted_config_map : Env → String → String → Option ℕ → M Unit
unless_deleted_config_map env namespace config_map_id (some t) = pure tt
unless_deleted_config_map env namespace config_map_id none = do
  r ← try (request env (Call.config_map_delete namespace config_map_id))
  settle_config_map_deletion config_map_id r

abbrev pub delete_found_config_map : Env → String → String → Result ConfigMap → M Unit
delete_found_config_map env namespace config_map_id (ok config_map) =
    unless_deleted_config_map env namespace config_map_id config_map.deletion_timestamp
delete_found_config_map env namespace config_map_id (err e) =
    if is_not_found e then pure tt else raise e
delete_found_config_map env namespace config_map_id panic = lift panic

unfoldable pub delete_config_map : Env → String → String → M Unit
unfolding note request get_calls
delete_config_map env namespace config_map_id = do
  calls ← get_calls
  delete_found_config_map env namespace config_map_id
      (env.config_map_get calls namespace config_map_id)
