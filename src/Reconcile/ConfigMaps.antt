-- ===== src/Reconcile/ConfigMaps.antt =====
-- ReconcileConfigMap and CreateNewConfigMap of pkg/controller/ctrlcommon/configmap.go.
use kubecluster.Prelude.{
  String, Bool, [], ◌∷◌, Option, none, some, Dict, lookup, str_eq, true, false, ◌&&◌, if◌then◌else◌,
}
use kubecluster.Types.{ConfigMap, OwnerReference, KubeCluster}
use kubecluster.Expectation.{gen_expectation_config_map_key}
use kubecluster.World.{M, ◌>>=◌, ◌>>◌, pure, lift, get_cluster}
use kubecluster.Control.{create_config_map_with_controller_ref}
use kubecluster.Reconcile.Naming.{Ctx, gen_owner_reference}
use kubecluster.Reconcile.PodCreation.{announced}
use kubecluster.Reconcile.Objects.{update_config_map_in_api_server}

-- The config map as it is sent: a name and no data.
abbrev pub new_config_map : KubeCluster → ConfigMap
new_config_map cluster = record {
  name = cluster.name;
  namespace = "";
  owner = none;
  deletion_timestamp = none;
  contents = [];
  binary_contents = [];
}

-- What was created is what the server sends back; after a time-out it is what was sent.
abbrev received : String → OwnerReference → ConfigMap → Bool → ConfigMap
received namespace ref config_map created =
    if created then record config_map { namespace = namespace; owner = some ref } else config_map

unfoldable pub create_new_config_map : Ctx → M ConfigMap
unfolding get_cluster create_config_map_with_controller_ref announced
create_new_config_map ctx = do
  cluster ← get_cluster
  cluster_key ← lift (ctx.key_func cluster)
  created ← announced (gen_expectation_config_map_key cluster_key) (
      create_config_map_with_controller_ref ctx.env cluster.namespace (new_config_map cluster)
        (some (gen_owner_reference cluster)))
  pure (received cluster.namespace (gen_owner_reference cluster) (new_config_map cluster) created)

-- Has every key of the first map the same value in the second?
abbrev includes : Dict String → Dict String → Bool
includes [] m = true
includes ((k, v) ∷ entries) m =
    let rest = includes entries m in
    elim (lookup k m) [ some w ↦ str_eq v w && rest | none ↦ false ]

-- reflect.DeepEqual of two `map[string]string`
unfoldable pub same_data : Dict String → Dict String → Bool
same_data a b = includes a b && includes b a

abbrev pub config_map_or_new : Ctx → Option ConfigMap → M ConfigMap
config_map_or_new ctx (some config_map) = pure config_map
config_map_or_new ctx none = create_new_config_map ctx

-- An update is sent when the schema changed the data.
unfoldable pub reconcile_config_map : Ctx → Option ConfigMap → M ConfigMap
unfolding get_cluster update_config_map_in_api_server create_new_config_map
reconcile_config_map ctx found = do
  config_map ← config_map_or_new ctx found
  changed ← ctx.schema.reconcile_config_map ctx.env config_map
  (if same_data changed.contents config_map.contents
      then pure tt
      else update_config_map_in_api_server ctx changed)
  pure changed
