-- ===== src/Tests/Claims.antt =====
-- A manager that adopts one worker, releases another and keeps a third
-- (pkg/controller/control/controller_ref_manager.go).
use kubecluster.Prelude.{
  ℕ, ◌+◌, ◌≤◌, Bool, true, false, List, [], ◌∷◌, Option, none, some, ◌≡◌, refl, ◌≢◌, subst, arith,
  lookup, count, filter,
}
use kubecluster.Errors.{ok, panic}
use kubecluster.Types.{Phase, OwnerReference, Pod, empty_status}
use kubecluster.World.{Call, EventType, State, M, note, ◌>>=◌, try, pure}
use kubecluster.Control.{patch_pod}
use kubecluster.Claims.{
  Manager, AdoptOnce, claim_all, adopt_pod, adopt_object, release_pod, release_object, claim_pods,
  claim_services, meta_of_pod, meta_of_service,
}
use kubecluster.Claims.Deleted.{owned_match, claim_pods-deleted}
use kubecluster.Claims.Settled.{IsCalm}
use kubecluster.Claims.Claimed.{Claiming, claim_pods-Claiming}
use kubecluster.Claims.Once.{AsksOnce, claim_pods-asks}
use kubecluster.Tests.Fixtures.{worker, env, state, matches}

ask : M (Unit {0})
unfolding note
ask = note (Call.event EventType.normal "CanAdopt" "")

abbrev manager : Option ℕ → Manager
manager deleted = record {
  name = "demo";
  uid = "u1";
  deletion_timestamp = deleted;
  group_version = "kubecluster.org/v1alpha1";
  kind = "KubeCluster";
  selector_matches = matches (("kubeclusetr.org/replica-type", "worker") ∷ []);
  can_adopt_func = some ask;
}

abbrev owner : OwnerReference
owner = record {
  api_version = "kubecluster.org/v1alpha1";
  kind = "KubeCluster";
  name = "demo";
  uid = "u1";
  controller = some true;
  block_owner_deletion = some true;
}

abbrev orphan : Pod
orphan = worker Phase.running "0"

abbrev owned : Pod
owned = record (worker Phase.running "1") { owner = some owner }

abbrev strayed : Pod
strayed = record (worker Phase.running "2") { owner = some owner; labels = [] }

abbrev pods : List Pod
pods = orphan ∷ owned ∷ strayed ∷ record orphan { name = "demo-worker-3" } ∷ []

abbrev asks : Call → Bool
asks (Call.event type reason message) = true
asks _ = false

some-injective : {f g : M (Unit {0})} → some f ≡ some g → f ≡ g
some-injective e = cc

ask-calm : (s : State) → (ask s).0 ≢ panic
unfolding ask
ask-calm s h = cc

ask-asks : (s : State) → count asks (ask s).1.calls ≤ count asks s.calls + 1
unfolding ask
ask-asks s = omega arith

manager-IsCalm : (deleted : Option ℕ) → IsCalm env (manager deleted)
manager-IsCalm deleted = record {
  replies = λ calls call h. cc;
  checks = λ f s e. subst (λ g. (g s).0 ≢ panic) (some-injective e) (ask-calm s);
}

manager-AsksOnce : AsksOnce asks (manager none)
manager-AsksOnce = record {
  at_most_one = λ f s e.
      subst (λ g. count asks (g s).1.calls ≤ count asks s.calls + 1) (some-injective e)
        (ask-asks s);
  no_pod_patch = λ _ _ _. refl;
  no_service_patch = λ _ _ _. refl;
}

-- The orphans are adopted after one question, and what does not match is released.
claims_three :
    count asks (claim_pods env (manager none) [] pods AdoptOnce.fresh (state empty_status)).1.calls
    ≡ 1
unfolding claim_pods claim_all ◌>>=◌ lookup adopt_pod adopt_object try ask pure patch_pod
    release_pod release_object
claims_three = refl

claim_pods-deleted_example :
    (claim_pods env (manager (some 7)) [] pods AdoptOnce.fresh (state empty_status) ≡ (
      ok (filter (owned_match (manager (some 7)) meta_of_pod []) pods, [], AdoptOnce.fresh),
      state empty_status,
    ))
    × (claim_services env (manager (some 7)) [] [] AdoptOnce.fresh (state empty_status) ≡ (
      ok (filter (owned_match (manager (some 7)) meta_of_service []) [], [], AdoptOnce.fresh),
      state empty_status,
    ))
claim_pods-deleted_example =
    claim_pods-deleted env (manager (some 7)) 7 [] pods [] [] AdoptOnce.fresh (state empty_status)
      refl

claim_pods-Claiming_example :
    Claiming
      (manager none)
      meta_of_pod
      []
      pods
      (claim_pods env (manager none) [] pods AdoptOnce.fresh (state empty_status))
    × Claiming
        (manager none)
        meta_of_service
        []
        []
        (claim_services env (manager none) [] [] AdoptOnce.fresh (state empty_status))
claim_pods-Claiming_example =
    claim_pods-Claiming env (manager none) [] pods [] [] AdoptOnce.fresh (state empty_status)
      (manager-IsCalm none)

claim_pods-asks_example :
    (count asks (claim_pods env (manager none) [] pods AdoptOnce.fresh (state empty_status)).1.calls
      ≤ 0 + 1)
    × (count asks
          (claim_services env (manager none) [] [] AdoptOnce.fresh (state empty_status)).1.calls
        ≤ 0 + 1)
claim_pods-asks_example =
    claim_pods-asks asks env (manager none) [] pods [] [] (state empty_status) manager-AsksOnce
