-- ===== src/Tests/Slurm.antt =====
-- The slurm configuration of a small cluster (pkg/controller/cluster_schema/slurm_schema).
use kubecluster.Prelude.{pos, String, [], ◌∷◌, ◌≡◌, refl, arith, All, lookup, insert, mul64, quot}
use kubecluster.Errors.{Result, ok}
use kubecluster.Types.{ConfigMap, PodTemplate, empty_status}
use kubecluster.World.{State, ◌>>=◌, pure, lift, note, now, get_cluster, set_specs}
use kubecluster.Strings.{to_lower, itoa, itoa_ℤ, replace_slashes, atoi}
use kubecluster.Labels.{gen_general_name}
use kubecluster.Strings.Search.{split_on, lacks, replace_first}
use kubecluster.Slurm.{slurm_conf_key}
use kubecluster.Slurm.Resources.{get_resource_request, get_resource_request_list}
use kubecluster.Slurm.Parsing.{get_slurm_ports_from_conf}
use kubecluster.Slurm.Ports.{get_slurm_ports_from_spec, set_ports_in}
use kubecluster.Slurm.Drawn.{gen_slurm_random_port, set_slurm_ports}
use kubecluster.Slurm.Drawn.Ends.{Ports, gen_slurm_random_port-Ends}
use kubecluster.Slurm.Conf.{node_lines, create_slurm_conf}
use kubecluster.Slurm.Conf.Nodes.{NodeLines, node_lines-split}
use kubecluster.Slurm.Conf.ReadBack.{get_slurm_ports_from_conf-create_slurm_conf}
use kubecluster.Slurm.ConfigMaps.{reconcile_slurm_config_map}
use kubecluster.Slurm.ConfigMaps.Settled.{update_slurm_config_map-reconciled}
use kubecluster.Slurm.HostNetwork.{update_slurm_config_map}
use kubecluster.Slurm.Pods.{set_slurm_spec}
use kubecluster.Slurm.Pods.Frame.{IsFrame, RootIfMain, set_slurm_spec-IsFrame}
use kubecluster.Tests.Libraries.{libraries, quantities, libraries-IsIntn}
use kubecluster.Tests.Fixtures.{template, cluster, state, env, config_map}

gen_slurm_random_port-Ends_example :
    Ports (gen_slurm_random_port 5 libraries env (state empty_status))
gen_slurm_random_port-Ends_example =
    gen_slurm_random_port-Ends 5 libraries env 0 (state empty_status) libraries-IsIntn (omega arith)
      (omega arith)

node_lines-split_example :
    NodeLines "demo" "Worker"
      (pos 8, pos 32, pos 0)
      0
      2
      (split_on 10 (node_lines "demo" "Worker" (pos 8, pos 32, pos 0) 0 2))
unfolding lacks to_lower
node_lines-split_example = node_lines-split "demo" "Worker" (pos 8, pos 32, pos 0) 0 2 refl refl

abbrev value : Result String → String
value (ok s) = s
value _ = ""

abbrev conf : String
conf = value (create_slurm_conf quantities (cluster empty_status) (pos 10001) (pos 10002))

get_slurm_ports_from_conf-create_slurm_conf_example :
    get_slurm_ports_from_conf conf ≡ ok (pos 10001, pos 10002)
unfolding lacks create_slurm_conf get_resource_request get_resource_request_list itoa_ℤ lookup
get_slurm_ports_from_conf-create_slurm_conf_example =
    get_slurm_ports_from_conf-create_slurm_conf quantities (cluster empty_status) 10001 10002 conf
      refl refl (omega arith) (omega arith) (omega arith) (omega arith) refl

abbrev after : Result ConfigMap × State
after = reconcile_slurm_config_map 5 libraries env config_map (state empty_status)

abbrev made_of : Result ConfigMap → ConfigMap
made_of (ok made) = made
made_of _ = config_map

abbrev made : ConfigMap
made = made_of after.0

update_slurm_config_map-reconciled_example :
    update_slurm_config_map libraries env made after.1 ≡ (ok made, after.1)
unfolding reconcile_slurm_config_map ◌>>=◌ lookup pure insert get_cluster get_slurm_ports_from_spec
    gen_slurm_random_port now note set_slurm_ports lift set_ports_in set_specs create_slurm_conf
    get_resource_request get_resource_request_list itoa itoa_ℤ replace_first gen_general_name
    replace_slashes to_lower mul64 quot
update_slurm_config_map-reconciled_example =
    update_slurm_config_map-reconciled 5 libraries env config_map made (state empty_status) after.1
      after.1 refl

abbrev configured : ConfigMap
configured = record config_map { contents = (slurm_conf_key, conf) ∷ [] }

abbrev template_of : Result PodTemplate → PodTemplate
template_of (ok t) = t
template_of _ = template

abbrev dressed : Result PodTemplate
dressed = set_slurm_spec libraries (cluster empty_status) template "Worker" "0" configured

set_slurm_spec-IsFrame_example :
    IsFrame template (template_of dressed) × All RootIfMain (template_of dressed).spec.containers
unfolding set_slurm_spec get_slurm_ports_from_conf split_on lookup create_slurm_conf
    get_resource_request get_resource_request_list itoa_ℤ replace_first gen_general_name
    replace_slashes to_lower mul64 quot atoi
set_slurm_spec-IsFrame_example =
    set_slurm_spec-IsFrame libraries (cluster empty_status) template (template_of dressed) "Worker"
      "0" configured refl
