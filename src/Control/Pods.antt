-- ===== src/Control/Pods.antt =====
-- RealPodControl of pkg/controller/control/pod_control.go. The object that the events are about is
-- the cluster, which has metadata, so `meta.Accessor` does not fail.
use Prim.Native.String.{◌++◌}
use kubecluster.Prelude.{ℕ, String, [], ◌∷◌, Option, none, some, Dict, str_eq, if◌then◌else◌}
use kubecluster.Errors.{Error, Result, ok, err, panic, is_not_found, error_text}
use kubecluster.Types.{Pod, PodTemplate, NewPod, OwnerReference}
use kubecluster.World.{
  Env, M, Call, EventType, ◌>>=◌, ◌>>◌, pure, raise, lift, try, note, request, get_calls,
}
use kubecluster.Control.Refs.{validate_controller_ref, get_pod_from_template}

abbrev pub failed_create_pod_reason : String
failed_create_pod_reason = "FailedCreatePod"

abbrev pub successful_create_pod_reason : String
successful_create_pod_reason = "SuccessfulCreatePod"

abbrev pub failed_delete_pod_reason : String
failed_delete_pod_reason = "FailedDeletePod"

abbrev pub successful_delete_pod_reason : String
successful_delete_pod_reason = "SuccessfulDeletePod"

-- `if len(nodeName) != 0 { pod.Spec.NodeName = nodeName }`
abbrev with_node_name : String → NewPod → NewPod
with_node_name node_name pod =
    if str_eq node_name ""
    then pod
    else record pod { spec = record pod.spec { node_name = node_name } }

-- After the request to create: an event, and the error if there is one.
abbrev pub settle_pod_creation : String → Result (Unit {0}) → M Unit
settle_pod_creation name (ok _) =
    note (Call.event EventType.normal successful_create_pod_reason ("Created pod: " ++ name))
settle_pod_creation name (err e) = do
  note (Call.event EventType.warning failed_create_pod_reason ("Error creating: " ++ error_text e))
  raise e
settle_pod_creation name panic = lift panic

unfoldable pub create_pod : Env → String → NewPod → M Unit
unfolding note request
create_pod env namespace pod = do
  r ← try (request env (Call.pod_create namespace pod))
  settle_pod_creation pod.name r

-- What has no labels is not created.
abbrev pub if_labelled : Dict String → String → M Unit → M Unit
if_labelled [] message m = raise (Error.other message)
if_labelled (_ ∷ _) message m = m

unfoldable pub create_pods : Env → String → String → PodTemplate → Option OwnerReference → M Unit
unfolding get_pod_from_template create_pod
create_pods env node_name namespace template ref =
    let pod = with_node_name node_name (get_pod_from_template template ref) in
    if_labelled pod.labels "unable to create pods, no labels" (create_pod env namespace pod)

unfoldable pub create_pods_with_controller_ref :
    Env → String → PodTemplate → Option OwnerReference → M Unit
unfolding create_pods validate_controller_ref
create_pods_with_controller_ref env namespace template ref = do
  lift (validate_controller_ref ref)
  create_pods env "" namespace template ref

unfoldable create_pods_on_node :
    Env → String → String → PodTemplate → Option OwnerReference → M Unit
unfolding create_pods validate_controller_ref
create_pods_on_node env node_name namespace template ref = do
  lift (validate_controller_ref ref)
  create_pods env node_name namespace template ref

-- After the request to delete.
abbrev pub settle_pod_deletion : String → Result (Unit {0}) → M Unit
settle_pod_deletion pod_id (ok _) =
    note (Call.event EventType.normal successful_delete_pod_reason ("Deleted pod: " ++ pod_id))
settle_pod_deletion pod_id (err e) = do
  note (Call.event EventType.warning failed_delete_pod_reason ("Error deleting: " ++ error_text e))
  raise (Error.other ("unable to delete pods: " ++ error_text e))
settle_pod_deletion pod_id panic = lift panic

-- What is being deleted is left alone.
abbrev pub unless_deleted_pod : Env → String → String → Option ℕ → M Unit
unless_deleted_pod env namespace pod_id (some t) = pure tt
unless_deleted_pod env namespace pod_id none = do
  r ← try (request env (Call.pod_delete namespace pod_id))
  settle_pod_deletion pod_id r

-- What `DeletePod` does by what it finds: a pod that is gone, or is being deleted, is left alone.
abbrev pub delete_found_pod : Env → String → String → Result Pod → M Unit
delete_found_pod env namespace pod_id (ok pod) =
    unless_deleted_pod env namespace pod_id pod.deletion_timestamp
delete_found_pod env namespace pod_id (err e) = if is_not_found e then pure tt else raise e
delete_found_pod env namespace pod_id panic = lift panic

unfoldable pub delete_pod : Env → String → String → M Unit
unfolding note request get_calls
delete_pod env namespace pod_id = do
  calls ← get_calls
  delete_found_pod env namespace pod_id (env.pod_get calls namespace pod_id)

-- RealPodControl.PatchPod
unfoldable pub patch_pod : Env → String → String → String → M Unit
unfolding request
patch_pod env namespace name patch = request env (Call.pod_patch namespace name patch)
