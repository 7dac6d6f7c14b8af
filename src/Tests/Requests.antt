-- ===== src/Tests/Requests.antt =====
-- A request for a small cluster, and the update of its config map
-- (pkg/controller/cluster_controller.go).
use kubecluster.Prelude.{[], ◌∷◌, Option, ◌≡◌, refl, lookup, insert, mul64, quot}
use kubecluster.Errors.{Result, ok}
use kubecluster.Types.{ConfigMap, empty_status}
use kubecluster.World.{State, ◌>>=◌, pure, lift, note, now, get_cluster, set_specs}
use kubecluster.Strings.{to_lower, itoa, itoa_ℤ, replace_slashes}
use kubecluster.Strings.Search.{replace_first}
use kubecluster.Labels.{gen_general_name}
use kubecluster.Slurm.Resources.{get_resource_request, get_resource_request_list}
use kubecluster.Slurm.Ports.{get_slurm_ports_from_spec, set_ports_in}
use kubecluster.Slurm.Drawn.{gen_slurm_random_port, set_slurm_ports}
use kubecluster.Slurm.Conf.{create_slurm_conf}
use kubecluster.Slurm.ConfigMaps.{reconcile_slurm_config_map}
use kubecluster.Slurm.Pods.{slurm_schema}
use kubecluster.Schema.Checks.{NameRules}
use kubecluster.Reconcile.Naming.{gen_owner_reference}
use kubecluster.Reconcile.ConfigMaps.{same_data, reconcile_config_map}
use kubecluster.Reconcile.Ownerless.{reconcile_config_map-uid}
use kubecluster.Reconcile.Entry.{Entry}
use kubecluster.Tests.Libraries.{libraries}
use kubecluster.Tests.Fixtures.{cache, cluster, state, config_map, env, ctx, schema}

abbrev after : Result ConfigMap × State
after = reconcile_slurm_config_map 5 libraries env config_map (state empty_status)

abbrev made_of : Result ConfigMap → ConfigMap
made_of (ok made) = made
made_of _ = config_map

reconcile_config_map-uid_example :
    (gen_owner_reference
      (reconcile_config_map ctx (Option.some config_map) (state empty_status)).1.cluster).uid
    ≡ ""
unfolding reconcile_slurm_config_map ◌>>=◌ lookup pure insert get_cluster get_slurm_ports_from_spec
    gen_slurm_random_port now note set_slurm_ports lift set_ports_in set_specs create_slurm_conf
    get_resource_request get_resource_request_list itoa itoa_ℤ replace_first gen_general_name
    replace_slashes to_lower mul64 quot same_data slurm_schema
reconcile_config_map-uid_example =
    reconcile_config_map-uid ctx (Option.some config_map) config_map (made_of after.0)
      (state empty_status) (state empty_status) after.1 refl refl refl

abbrev rules : NameRules
rules = record { name_is_dns1035_label = λ name. []; is_dns1035_label = λ name. [] }

abbrev entry : Entry
entry = record {
  cluster_get = λ calls namespace name. ok (cluster empty_status);
  schemas = ("slurm", schema) ∷ [];
  rules = rules;
  cache = cache;
  stores = λ type. [];
  clock = λ t. t;
}
