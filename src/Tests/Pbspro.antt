-- ===== src/Tests/Pbspro.antt =====
-- The PBS Pro configuration of a small cluster (pkg/controller/cluster_schema/pbspro_schema).
use kubecluster.Prelude.{String, [], ◌∷◌, some, ◌≡◌, refl, All, lookup, insert, erase}
use kubecluster.Errors.{Result, ok}
use kubecluster.Types.{PodTemplate, ReplicaSpecs, ConfigMap, empty_status}
use kubecluster.World.{State, ◌>>=◌, pure, lift, get_cluster}
use kubecluster.Strings.{to_lower, itoa, replace_slashes}
use kubecluster.Strings.Search.{lacks}
use kubecluster.Labels.{gen_general_name}
use kubecluster.Schema.Checks.{set_type_name_to_camel_case}
use kubecluster.Slurm.ConfigMaps.{put_unless, put}
use kubecluster.Slurm.Pods.Frame.{IsFrame, RootIfMain}
use kubecluster.Pbspro.{server_name}
use kubecluster.Pbspro.Conf.Lines.{NamesServer, pbs_conf-NamesServer}
use kubecluster.Pbspro.Entrypoints.{gen_pbs_server_entrypoint}
use kubecluster.Pbspro.ConfigMaps.{is_need_reconcile_config_map, reconcile_pbspro_config_map}
use kubecluster.Pbspro.ConfigMaps.Filled.{IsFilled, reconcile_pbspro_config_map-IsFilled}
use kubecluster.Pbspro.ConfigMaps.Settled.{reconcile_pbspro_config_map_idem}
use kubecluster.Pbspro.Pods.{set_pbspro_spec, default_pbspro_specs}
use kubecluster.Pbspro.Pods.Frame.{set_pbspro_spec-IsFrame}
use kubecluster.Pbspro.Pods.Defaults.{ServesEntry, default_pbspro_specs-Serves}
use kubecluster.Tests.Libraries.{libraries}
use kubecluster.Tests.Fixtures.{template, replicas, cluster, state, env, config_map}

abbrev pbs_specs : ReplicaSpecs
pbs_specs = ("server", some (replicas 1)) ∷ ("Worker", some (replicas 2)) ∷ []

abbrev text_of : Result String → String
text_of (ok text) = text
text_of _ = ""

abbrev script : String
script = text_of (gen_pbs_server_entrypoint (cluster empty_status))

reconcile_pbspro_config_map-IsFilled_example :
    (made : ConfigMap) × (reconcile_pbspro_config_map env config_map (state empty_status)
      ≡ (ok made, state empty_status))
    × IsFilled (cluster empty_status) script config_map made
unfolding is_need_reconcile_config_map lookup gen_pbs_server_entrypoint
reconcile_pbspro_config_map-IsFilled_example =
    reconcile_pbspro_config_map-IsFilled env config_map script (state empty_status) refl refl

abbrev after : Result ConfigMap × State
after = reconcile_pbspro_config_map env config_map (state empty_status)

abbrev made_of : Result ConfigMap → ConfigMap
made_of (ok made) = made
made_of _ = config_map

reconcile_pbspro_config_map_idem_example :
    reconcile_pbspro_config_map env (made_of after.0) (state empty_status)
    ≡ (ok (made_of after.0), state empty_status)
unfolding reconcile_pbspro_config_map is_need_reconcile_config_map lookup insert
    gen_pbs_server_entrypoint ◌>>=◌ get_cluster pure put_unless put lift
reconcile_pbspro_config_map_idem_example =
    reconcile_pbspro_config_map_idem env config_map (made_of after.0) (state empty_status) after.1
      (state empty_status) refl

abbrev template_of : Result PodTemplate → PodTemplate
template_of (ok t) = t
template_of _ = template

abbrev dressed : Result PodTemplate
dressed = set_pbspro_spec libraries (cluster empty_status) template "Worker" "0" config_map

set_pbspro_spec-IsFrame_example :
    IsFrame template (template_of dressed) × All RootIfMain (template_of dressed).spec.containers
unfolding set_pbspro_spec
set_pbspro_spec-IsFrame_example =
    set_pbspro_spec-IsFrame libraries (cluster empty_status) template (template_of dressed) "Worker"
      "0" config_map refl

abbrev specs_of : Result ReplicaSpecs → ReplicaSpecs
specs_of (ok specs) = specs
specs_of _ = []

default_pbspro_specs-Serves_example : All ServesEntry (specs_of (default_pbspro_specs pbs_specs))
unfolding default_pbspro_specs set_type_name_to_camel_case to_lower lookup insert erase
default_pbspro_specs-Serves_example =
    default_pbspro_specs-Serves pbs_specs (specs_of (default_pbspro_specs pbs_specs)) refl

pbs_conf-NamesServer_example : NamesServer (cluster empty_status)
unfolding lacks server_name gen_general_name replace_slashes to_lower itoa
pbs_conf-NamesServer_example = pbs_conf-NamesServer (cluster empty_status) refl refl
