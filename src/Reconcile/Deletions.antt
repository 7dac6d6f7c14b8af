-- ===== src/Reconcile/Deletions.antt =====
-- What ReconcilePods (pkg/controller/ctrlcommon/service.go) may do to the API server.
use mathlib.Core.List.{Memᴰ}
use kubecluster.Prelude.{
  ℕ, ℤ, pos, leb_ℤ, String, Bool, true, ◌||◌, List, [], ◌∷◌, some, ◌≡◌, refl, All, filter,
  Bool-cases, inl, inr,
}
use kubecluster.Errors.{ok}
use kubecluster.Types.{Pod, ReplicaSpec, ConfigMap}
use kubecluster.Labels.{replica_index, gen_replica_type_label}
use kubecluster.World.{Call, State}
use kubecluster.Reconcile.Naming.{Ctx}
use kubecluster.Reconcile.Select.{replica_type_selector, filter_pods_for_replica_type}
use kubecluster.Reconcile.Pods.{is_restarted, reconcile_pods}
use kubecluster.Reconcile.Rules.Pods.{PodRules, reconcile_pods-Keeps}
use kubecluster.Reconcile.Rules.Creations.{announced_pods-Keeps}

-- A listed pod of the replica type, under the selector of its label.
pub record IsSelected (ctx : Ctx) (rtype : String) (pods : List Pod) (pod : Pod) : Type 0 where
  listed : Memᴰ pod pods
  selected :
      ctx.selector_matches (replica_type_selector (gen_replica_type_label rtype)) pod.labels ≡ true

-- The pod with this namespace and name may be deleted: it is selected, and its index is beyond the
-- number of replicas or it failed in a way that its restart policy restarts.
pub record IsDoomed (ctx : Ctx) (rtype : String) (spec : ReplicaSpec) (pods : List Pod)
    (namespace id : String) : Type 0 where
  pod : Pod
  is_selected : IsSelected ctx rtype pods pod
  same_namespace : pod.namespace ≡ namespace
  same_name : pod.name ≡ id
  replicas : ℤ
  desired : spec.replicas ≡ some replicas
  index : ℕ
  labelled : replica_index pod.labels ≡ ok (pos index)
  cause : (leb_ℤ replicas (pos index) || is_restarted spec pod) ≡ true

-- The requests and notes of ReconcilePods.
abbrev pub Allowed : Ctx → String → ReplicaSpec → List Pod → Call → Type 0
Allowed ctx rtype spec pods (Call.pod_delete namespace id) =
    IsDoomed ctx rtype spec pods namespace id
Allowed ctx rtype spec pods (Call.pod_create namespace pod) = Unit
Allowed ctx rtype spec pods (Call.event t reason message) = Unit
Allowed ctx rtype spec pods (Call.raise_expectations key add del) = Unit
Allowed ctx rtype spec pods (Call.creation_observed key) = Unit
Allowed ctx rtype spec pods _ = ⊥

All-filter :
    {A : Type 0} (p : A → Bool) (xs ys : List A)
    → ((x : A) → Memᴰ x ys → Memᴰ x xs)
    → All (λ x. Memᴰ x xs × (p x ≡ true)) (filter p ys)
All-filter p xs [] h = tt
All-filter p xs (y ∷ ys) h = elim (Bool-cases (p y)) [
  | inl e ↦ rw e ((h y (Memᴰ.head refl), e), All-filter p xs ys (λ x m. h x (Memᴰ.tail m)))
  | inr e ↦ rw e (All-filter p xs ys (λ x m. h x (Memᴰ.tail m)))
]

-- ReconcilePods deletes no pod but those that it has to, and asks the server for nothing else than to
-- create pods: if every earlier request was of that kind, every request after it is.
pub reconcile_pods-Allowed :
    (ctx : Ctx) (rtype : String) (spec : ReplicaSpec) (pods : List Pod) (config_map : ConfigMap)
    (s : State)
    → All (Allowed ctx rtype spec pods) s.calls
    → All (Allowed ctx rtype spec pods) (reconcile_pods ctx rtype spec pods config_map s).1.calls
unfolding filter_pods_for_replica_type
reconcile_pods-Allowed ctx rtype spec pods config_map s h =
    (reconcile_pods-Keeps rules Selected rtype spec pods config_map
        (All-filter _ pods pods (λ x m. m))
        (λ replicas index pod desired listed cause calls earlier. (
          record {
            pod = pod;
            is_selected = record { listed = listed.0.0; selected = listed.0.1 };
            same_namespace = refl;
            same_name = refl;
            replicas = replicas;
            desired = desired;
            index = index;
            labelled = listed.1;
            cause = cause;
          },
          earlier,
        ))).at
      s h
  where
    Selected : Pod → Type 0
    Selected pod =
        Memᴰ pod pods
        × (ctx.selector_matches (replica_type_selector (gen_replica_type_label rtype)) pod.labels
            ≡ true)

    rules : PodRules ctx (All (Allowed ctx rtype spec pods))
    rules = record {
      events = λ t reason message calls earlier. (tt, earlier);
      deletions = λ key calls earlier. (tt, earlier);
      creations = λ key namespace template ref.
          announced_pods-Keeps ctx.env (λ t reason message calls earlier. (tt, earlier)) key
            namespace template ref (λ calls earlier. (tt, earlier))
            (λ pod e calls earlier. (tt, earlier)) (λ calls earlier. (tt, earlier));
    }
