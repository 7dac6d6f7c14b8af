-- ===== src/Reconcile/Rules/Writes.antt =====
-- UpdateConfigMapInApiServer of pkg/controller/cluster_controller.go under an invariant of the requests.
use kubecluster.Prelude.{String, List}
use kubecluster.Types.{ConfigMap}
use kubecluster.World.{Call}
use kubecluster.World.Keeps.{Keeps, Keeps-bind, Keeps-then, Keeps-request, Keeps-get_cluster}
use kubecluster.Control.{update_config_map}
use kubecluster.Reconcile.Naming.{Ctx}
use kubecluster.Reconcile.Objects.{clear_generated_fields, update_config_map_in_api_server}
use kubecluster.Reconcile.Rules.{Stable}

pub clear_generated_fields-Keeps : {I : List Call → Type 0} → Keeps I clear_generated_fields
unfolding clear_generated_fields
clear_generated_fields-Keeps = record { at = λ s h. h }

pub update_config_map_in_api_server-Keeps :
    {I : List Call → Type 0} (ctx : Ctx) (config_map : ConfigMap)
    → ((namespace : String) → Stable I (Call.config_map_update namespace config_map))
    → Keeps I (update_config_map_in_api_server ctx config_map)
unfolding update_config_map_in_api_server update_config_map
update_config_map_in_api_server-Keeps ctx config_map stable =
    Keeps-then _ _ clear_generated_fields-Keeps (
      Keeps-bind _ _ Keeps-get_cluster
        (λ cluster. Keeps-request ctx.env _ (stable cluster.namespace)))
