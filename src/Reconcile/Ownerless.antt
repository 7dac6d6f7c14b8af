-- ===== src/Reconcile/Ownerless.antt =====
-- The UID of a cluster whose config map was just updated: UpdateConfigMapInApiServer of
-- pkg/controller/cluster_controller.go and ReconcileConfigMap of pkg/controller/ctrlcommon/configmap.go.
use kubecluster.Prelude.{false, Option, ◌≡◌, refl}
use kubecluster.Errors.{Result, ok, err, panic}
use kubecluster.Types.{ConfigMap}
use kubecluster.World.{State, M, ◌>>=◌, ◌>>◌, pure, get_cluster, request}
use kubecluster.Control.{update_config_map}
use kubecluster.Reconcile.Naming.{Ctx, gen_owner_reference}
use kubecluster.Reconcile.ConfigMaps.{config_map_or_new, same_data, reconcile_config_map}
use kubecluster.Reconcile.Objects.{clear_generated_fields, update_config_map_in_api_server}

then_pure : {A : Type 0} (m : M (Unit {0})) (a : A) (s : State) → ((m >> pure a) s).1 ≡ (m s).1
unfolding ◌>>=◌ pure
then_pure m a s = after (m s)
  where
    after : (p : Result (Unit {0}) × State) → (((λ t. p) >> pure a) s).1 ≡ p.1
    after (ok u, s') = refl
    after (err e, s') = refl
    after (panic, s') = refl

-- The server's answer does not set the UID again.
update-clears :
    (ctx : Ctx) (changed : ConfigMap) (s : State)
    → (update_config_map_in_api_server ctx changed s).1.cluster.uid ≡ ""
unfolding update_config_map_in_api_server update_config_map clear_generated_fields ◌>>=◌ get_cluster
    request
update-clears ctx changed s = refl

-- When ReconcileConfigMap sends an update of the config map, accepted or not, the cluster in memory has no
-- UID after it: every owner reference that this reconciliation then gives to a pod or a service has an
-- empty UID.
pub reconcile_config_map-uid :
    (ctx : Ctx) (found : Option ConfigMap) (config_map changed : ConfigMap) (s s' s'' : State)
    → config_map_or_new ctx found s ≡ (ok config_map, s')
    → ctx.schema.reconcile_config_map ctx.env config_map s' ≡ (ok changed, s'')
    → same_data changed.contents config_map.contents ≡ false
    → (gen_owner_reference (reconcile_config_map ctx found s).1.cluster).uid ≡ ""
unfolding reconcile_config_map gen_owner_reference ◌>>=◌
reconcile_config_map-uid ctx found config_map changed s s' s'' had made differs =
    rw (had, made, differs)
      (rw (then_pure (update_config_map_in_api_server ctx changed) changed s'')
        (update-clears ctx changed s''))
