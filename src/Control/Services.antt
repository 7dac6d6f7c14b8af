-- ===== src/Control/Services.antt =====
-- RealServiceControl of pkg/controller/control/service_control.go.
use Prim.Native.String.{◌++◌}
use kubecluster.Prelude.{ℕ, String, Option, none, some, if◌then◌else◌}
use kubecluster.Errors.{Error, Result, ok, err, panic, is_not_found, error_text}
use kubecluster.Types.{Service, NewService, OwnerReference}
use kubecluster.World.{
  Env, M, Call, EventType, ◌>>=◌, ◌>>◌, pure, raise, lift, try, note, request, get_calls,
}
use kubecluster.Control.Pods.{if_labelled}
use kubecluster.Control.Refs.{validate_controller_ref, get_service_from_template}

abbrev failed_create_service_reason : String
failed_create_service_reason = "FailedCreateService"

abbrev successful_create_service_reason : String
successful_create_service_reason = "SuccessfulCreateService"

abbrev failed_delete_service_reason : String
failed_delete_service_reason = "FailedDeleteService"

abbrev successful_delete_service_reason : String
successful_delete_service_reason = "SuccessfulDeleteService"

-- After the request to create. The error is wrapped, and so loses its kind.
abbrev pub settle_service_creation : String → Result (Unit {0}) → M Unit
settle_service_creation name (ok _) =
    note
      (Call.event EventType.normal successful_create_service_reason ("Created service: " ++ name))
settle_service_creation name (err e) = do
  note (
      Call.event EventType.warning failed_create_service_reason
        ("Error creating: " ++ error_text e))
  raise (Error.other ("unable to create services: " ++ error_text e))
settle_service_creation name panic = lift panic

unfoldable pub create_service : Env → String → String → NewService → M Unit
unfolding note request
create_service env namespace name service = do
  r ← try (request env (Call.service_create namespace service))
  settle_service_creation name r

unfoldable pub create_services : Env → String → NewService → Option OwnerReference → M Unit
unfolding create_service get_service_from_template
create_services env namespace service ref =
    if_labelled service.labels "unable to create Services, no labels"
      (create_service env namespace service.name (get_service_from_template service ref))

unfoldable pub create_services_with_controller_ref :
    Env → String → NewService → Option OwnerReference → M Unit
unfolding create_services validate_controller_ref
create_services_with_controller_ref env namespace service ref = do
  lift (validate_controller_ref ref)
  create_services env namespace service ref

-- After the request to delete.
abbrev pub settle_service_deletion : String → Result (Unit {0}) → M Unit
settle_service_deletion service_id (ok _) = note (
    Call.event EventType.normal successful_delete_service_reason
      ("Deleted service: " ++ service_id))
settle_service_deletion service_id (err e) = do
  note (
      Call.event EventType.warning failed_delete_service_reason
        ("Error deleting: " ++ error_text e))
  raise (Error.other ("unable to delete service: " ++ error_text e))
settle_service_deletion service_id panic = lift panic

-- What is being deleted is left alone.
abbrev pub unless_deleted_service : Env → String → String → Option ℕ → M Unit
unless_deleted_service env namespace service_id (some t) = pure tt
unless_deleted_service env namespace service_id none = do
  r ← try (request env (Call.service_delete namespace service_id))
  settle_service_deletion service_id r

abbrev pub delete_found_service : Env → String → String → Result Service → M Unit
delete_found_service env namespace service_id (ok service) =
    unless_deleted_service env namespace service_id service.deletion_timestamp
delete_found_service env namespace service_id (err e) = if is_not_found e then pure tt else raise e
delete_found_service env namespace service_id panic = lift panic

unfoldable pub delete_service : Env → String → String → M Unit
unfolding note request get_calls
delete_service env namespace service_id = do
  calls ← get_calls
  delete_found_service env namespace service_id (env.service_get calls namespace service_id)

unfoldable pub patch_service : Env → String → String → String → M Unit
unfolding request
patch_service env namespace name patch = request env (Call.service_patch namespace name patch)
