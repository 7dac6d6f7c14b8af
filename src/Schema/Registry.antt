-- ===== src/Schema/Registry.antt =====
-- The schemas that are enabled: pkg/controller/cluster_schema/register_cluster_schema.go. The constructors
-- of SupportedClusterSchemaReconciler only put parts together; here are its keys.
use Prim.Native.String.{◌++◌}
use kubecluster.Prelude.{
  String, Bool, true, false, List, [], ◌∷◌, ◌++◌ as ◌+++◌, Option, none, some, str_eq,
  if◌then◌else◌,
}
use kubecluster.Errors.{Error, Result, ok, err}
use kubecluster.Strings.{to_lower}
use kubecluster.Strings.Search.{join}

-- The keys of the map; a range over it goes in the order of the list.
abbrev supported_kinds : List String
supported_kinds = "slurm" ∷ "pbspro" ∷ []

-- EnabledSchemes.String, whose receiver may be nil.
unfoldable enabled_schemes_string : Option (List String) → String
enabled_schemes_string none = "nil"
enabled_schemes_string (some es) = join "," es

find_kind : String → List String → Option String
find_kind kind [] = none
find_kind kind (supported ∷ rest) =
    let later = find_kind kind rest in
    if str_eq (to_lower supported) (to_lower kind) then some supported else later

-- EnabledSchemes.Set
unfoldable set_enabled : List String → String → Result (List String)
unfolding find_kind
set_enabled es kind = elim (find_kind kind supported_kinds) [
  | some supported ↦ ok (es +++ supported ∷ [])
  | none ↦ err (Error.other ("cluster scheme " ++ kind ++ " is not supported yet"))
]

unfoldable fill_all : List String → List String
fill_all es = es +++ supported_kinds

unfoldable no_schemes : List String → Bool
no_schemes [] = true
no_schemes (e ∷ es) = false
