-- ===== src/Control/Refs.antt =====
-- pkg/controller/control/utils.go, and the templates of pods, services and config maps.
use kubecluster.Prelude.{
  String, Bool, true, false, List, [], ◌∷◌, ◌++◌, Option, none, some, Dict, insert, str_eq,
  if◌then◌else◌,
}
use kubecluster.Errors.{Error, Result, ok, err}
use kubecluster.Types.{PodTemplate, NewPod, NewService, OwnerReference}

-- `p == nil || !*p`
is_unset : Option Bool → Bool
is_unset none = true
is_unset (some true) = false
is_unset (some false) = true

unfoldable pub validate_controller_ref : Option OwnerReference → Result (Unit {0})
unfolding is_unset
validate_controller_ref none = err (Error.other "controllerRef is nil")
validate_controller_ref (some ref) =
    if str_eq ref.api_version ""
    then err (Error.other "controllerRef has empty APIVersion")
    else if str_eq ref.kind ""
    then err (Error.other "controllerRef has empty Kind")
    else if is_unset ref.controller
    then err (Error.other "controllerRef.Controller is not set to true")
    else if is_unset ref.block_owner_deletion
    then err (Error.other "controllerRef.BlockOwnerDeletion is not set")
    else ok tt

-- The references to append: `if controllerRef != nil`.
abbrev pub to_references : Option OwnerReference → List OwnerReference
to_references none = []
to_references (some ref) = ref ∷ []

-- A `range` loop that copies a map into another.
unfoldable pub copy_into : Dict String → Dict String → Dict String
copy_into target [] = target
copy_into target ((k, v) ∷ rest) = copy_into (insert k v target) rest

get_pods_label_set : PodTemplate → Dict String
unfolding copy_into
get_pods_label_set template = copy_into [] template.labels

get_pods_finalizers : PodTemplate → List String
get_pods_finalizers template = template.finalizers

get_pods_annotation_set : PodTemplate → Dict String
unfolding copy_into
get_pods_annotation_set template = copy_into [] template.annotations

unfoldable pub get_pod_from_template : PodTemplate → Option OwnerReference → NewPod
unfolding get_pods_label_set get_pods_finalizers get_pods_annotation_set
get_pod_from_template template ref = record {
  name = template.name;
  labels = get_pods_label_set template;
  annotations = get_pods_annotation_set template;
  finalizers = get_pods_finalizers template;
  owner_references = to_references ref;
  spec = template.spec;
}

unfoldable pub get_service_from_template : NewService → Option OwnerReference → NewService
get_service_from_template template ref = record template {
  owner_references = template.owner_references ++ to_references ref;
}
