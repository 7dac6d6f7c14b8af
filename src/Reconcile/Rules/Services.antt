-- ===== src/Reconcile/Rules/Services.antt =====
-- Invariants of the requests through CreateNewService and ReconcileServices
-- (pkg/controller/ctrlcommon/service.go).
use kubecluster.Prelude.{ℕ, suc, ℤ, pos, leb_ℤ, String, true, List, [], ◌∷◌, Option, some, ◌≡◌, All}
use kubecluster.Types.{Service, NewService, OwnerReference, ReplicaSpec}
use kubecluster.Slices.Indexed.{AllAt}
use kubecluster.World.{Call}
use kubecluster.World.Keeps.{
  Keeps, Keeps-bind, Keeps-then, Keeps-pure, Keeps-lift, Keeps-when, Keeps-get_cluster,
}
use kubecluster.Control.{create_services_with_controller_ref}
use kubecluster.Expectation.{gen_expectation_services_key}
use kubecluster.Reconcile.Naming.{Ctx, gen_owner_reference}
use kubecluster.Reconcile.PodCreation.{announced}
use kubecluster.Reconcile.Services.{
  new_service, create_new_service, reconcile_service_slice, reconcile_service_slices,
}
use kubecluster.Reconcile.Rules.{Stable, StableEvents, delete_service-Keeps}

-- What `I` must keep for the services of a context.
pub record ServiceRules (ctx : Ctx) (I : List Call → Type 0) : Type 0 where
  pub events : StableEvents I
  pub creations :
      (key namespace : String) (service : NewService) (ref : Option OwnerReference)
      → Keeps I (announced key (create_services_with_controller_ref ctx.env namespace service ref))

module _ {ctx : Ctx} {I : List Call → Type 0} (rules : ServiceRules ctx I) where
  create_new_service-Keeps :
      (rtype : String) (spec : ReplicaSpec) (index container : String)
      → Keeps I (create_new_service ctx rtype spec index container)
  unfolding create_new_service
  create_new_service-Keeps rtype spec index container = Keeps-bind _ _ Keeps-get_cluster (λ cluster.
      Keeps-bind _ _ (Keeps-lift _) (λ key. Keeps-bind _ _ (Keeps-lift _) (λ ports.
        Keeps-bind _ _
          (rules.creations (gen_expectation_services_key key rtype) cluster.namespace
            (new_service cluster rtype index ports) (some (gen_owner_reference cluster)))
          (λ done. Keeps-pure tt))))

  -- May the service of this index be deleted?
  abbrev DeletesService : ℤ → ℕ → Service → Type 0
  DeletesService replicas index service =
      leb_ℤ replicas (pos index) ≡ true
      → Stable I (Call.service_delete service.namespace service.name)

  reconcile_service_slice-Keeps :
      (rtype : String) (spec : ReplicaSpec) (replicas : ℤ) (index : ℕ) (slice : List Service)
      → All (DeletesService replicas index) slice
      → Keeps I (reconcile_service_slice ctx rtype spec replicas index slice)
  unfolding reconcile_service_slice
  reconcile_service_slice-Keeps rtype spec replicas index [] h =
      create_new_service-Keeps rtype spec _ ctx.schema.get_default_container_name
  reconcile_service_slice-Keeps rtype spec replicas index (service ∷ []) h =
      Keeps-when (leb_ℤ replicas (pos index)) _
        (λ e. delete_service-Keeps ctx.env rules.events service.namespace service.name (h.0 e))
  reconcile_service_slice-Keeps rtype spec replicas index (service ∷ other ∷ services) h =
      Keeps-pure tt

  pub reconcile_service_slices-Keeps :
      (rtype : String) (spec : ReplicaSpec) (replicas : ℤ) (index : ℕ)
      (slices : List (List Service))
      → AllAt (DeletesService replicas) index slices
      → Keeps I (reconcile_service_slices ctx rtype spec replicas index slices)
  unfolding reconcile_service_slices
  reconcile_service_slices-Keeps rtype spec replicas index [] h = Keeps-pure tt
  reconcile_service_slices-Keeps rtype spec replicas index (slice ∷ slices) h =
      Keeps-then _ _ (reconcile_service_slice-Keeps rtype spec replicas index slice h.0)
        (reconcile_service_slices-Keeps rtype spec replicas (suc index) slices h.1)
