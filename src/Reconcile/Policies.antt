-- ===== src/Reconcile/Policies.antt =====
-- The clean-up policies of a failed cluster: DeletePodAndServices of
-- pkg/controller/ctrlcommon/controller.go.
use mathlib.Core.List.{Memᴰ}
use kubecluster.Prelude.{String, true, false, ◌||◌, List, [], ◌∷◌, some, ◌≡◌, refl, All, arith}
use kubecluster.Types.{Pod, CleanKubeNodePolicy, RunPolicy, ClusterStatus}
use kubecluster.Conditions.{is_finished}
use kubecluster.World.{Call, State, ◌>>=◌, pure, lift}
use kubecluster.World.Keeps.{Keeps, Keeps-then, Keeps-pure, Keeps-cases}
use kubecluster.Reconcile.Naming.{Ctx}
use kubecluster.Reconcile.Pods.{deref}
use kubecluster.Reconcile.CleanUp.{
  is_none_policy, is_kept, delete_pod_and_service, delete_unkept, delete_pod_and_services,
}
use kubecluster.Reconcile.Rules.{delete_pod-Keeps, delete_service-Keeps}

-- A listed pod of this namespace and name that the policy does not keep.
pub record IsSwept (policy : CleanKubeNodePolicy) (pods : List Pod) (namespace id : String)
    : Type 0 where
  pod : Pod
  listed : Memᴰ pod pods
  same_namespace : pod.namespace ≡ namespace
  same_name : pod.name ≡ id
  swept : (is_none_policy policy || is_kept policy pod.phase) ≡ false

abbrev pub SweepsOnly : CleanKubeNodePolicy → List Pod → Call → Type 0
SweepsOnly policy pods (Call.pod_delete namespace id) = IsSwept policy pods namespace id
SweepsOnly policy pods (Call.service_delete namespace id) = IsSwept policy pods namespace id
SweepsOnly policy pods (Call.event t reason message) = Unit
SweepsOnly policy pods _ = ⊥

module _ (ctx : Ctx) (policy : CleanKubeNodePolicy) (pods : List Pod) where
  delete_pod_and_service-Keeps :
      (pod : Pod)
      → Memᴰ pod pods
      → (is_none_policy policy || is_kept policy pod.phase) ≡ false
      → Keeps (All (SweepsOnly policy pods)) (delete_pod_and_service ctx pod)
  unfolding delete_pod_and_service
  delete_pod_and_service-Keeps pod listed e =
      Keeps-then _ _
        (delete_pod-Keeps ctx.env (λ t r m calls h. (tt, h)) _ _ (λ calls h. (swept, h)))
        (Keeps-then _ _
          (delete_service-Keeps ctx.env (λ t r m calls h. (tt, h)) _ _ (λ calls h. (swept, h)))
          (delete_pod-Keeps ctx.env (λ t r m calls h. (tt, h)) _ _ (λ calls h. (swept, h))))
    where
      swept : IsSwept policy pods pod.namespace pod.name
      swept = record {
        pod = pod;
        listed = listed;
        same_namespace = refl;
        same_name = refl;
        swept = e;
      }

  delete_unkept-Keeps :
      (rest : List Pod)
      → ((pod : Pod) → Memᴰ pod rest → Memᴰ pod pods)
      → is_none_policy policy ≡ false
      → Keeps (All (SweepsOnly policy pods)) (delete_unkept ctx policy rest)
  unfolding delete_unkept
  delete_unkept-Keeps [] listed e = Keeps-pure tt
  delete_unkept-Keeps (pod ∷ rest) listed e =
      Keeps-then _ _
        (Keeps-cases (is_kept policy pod.phase) _ _ (λ kept. Keeps-pure tt)
          (λ swept.
            delete_pod_and_service-Keeps pod (listed pod (Memᴰ.head refl))
              (ground (arith, e, swept))))
        (delete_unkept-Keeps rest (λ p m. listed p (Memᴰ.tail m)) e)

-- Of a failed cluster DeletePodAndServices deletes only pods that the policy does not keep, and their
-- services: none at all under the policy None, and under Running only pods that run or are pending.
pub delete_pod_and_services-SweepsOnly :
    (ctx : Ctx) (policy : CleanKubeNodePolicy) (run_policy : RunPolicy) (status : ClusterStatus)
    (pods : List Pod) (s : State)
    → is_finished status ≡ true
    → run_policy.clean_kube_node_policy ≡ some policy
    → All (SweepsOnly policy pods) s.calls
    → All (SweepsOnly policy pods) (delete_pod_and_services ctx run_policy status pods s).1.calls
unfolding delete_pod_and_services deref lift pure ◌>>=◌
delete_pod_and_services-SweepsOnly ctx policy run_policy status [] s finished chosen h = h
delete_pod_and_services-SweepsOnly ctx policy run_policy status (pod ∷ pods) s finished chosen h =
    rw (finished, chosen)
      ((Keeps-cases (is_none_policy policy) _ _ (λ e. Keeps-pure tt)
          (λ e. delete_unkept-Keeps ctx policy (pod ∷ pods) (pod ∷ pods) (λ p m. m) e)).at
        s h)
