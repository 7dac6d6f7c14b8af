-- ===== src/Claims/Once.antt =====
-- `CanAdoptFunc` is called at most once by a manager (sync.Once in
-- pkg/controller/control/controller_ref_manager.go).
use kubecluster.Prelude.{
  ℕ, ◌+◌, ◌≤◌, String, Bool, true, false, List, [], ◌∷◌, Option, none, some, ◌≡◌, refl, count, not,
  ◌||◌, str_eq, arith, Bool-cases, inl, inr,
}
use kubecluster.Errors.{Result, ok, err, panic}
use kubecluster.Types.{Pod, Service, OwnerReference}
use kubecluster.World.{Call, Env, State, M, ◌>>=◌, pure, try}
use kubecluster.World.Keeps.{Keeps-raise, Keeps-request}
use kubecluster.Control.{patch_pod, patch_service}
use kubecluster.Claims.{
  Manager, AdoptOnce, Meta, Attempt, Claims, is_set, add_claim, can_adopt, run_can_adopt, adopt_if,
  adopt_object, release_object, settle_attempt, claim_by_owner, claim_object, claim_all, claim_pods,
  claim_services, meta_of_pod, meta_of_service, adopt_pod, release_pod, adopt_service,
  release_service,
}
use kubecluster.Claims.Spends.{budget, Spends, Spends-bind, IsQuiet, Spends-quiet}

module _ (asks : Call → Bool) where
  module _ (m : Manager)
      (asks_once : (f : M (Unit {0})) (s : State)
        → m.can_adopt_func ≡ some f
        → count asks (f s).1.calls ≤ count asks s.calls + 1) where
    can_adopt-Spends :
        (once : AdoptOnce) (n : ℕ) (s : State)
        → count asks s.calls + budget once ≤ n
        → Spends asks budget n (can_adopt m once s)
    unfolding ◌>>=◌ pure try
    can_adopt-Spends (AdoptOnce.done r) n s h = h
    can_adopt-Spends AdoptOnce.fresh n s h = asked m.can_adopt_func refl
      where
        after :
            (f : M (Unit {0})) (p : Result (Unit {0}) × State)
            → count asks p.1.calls ≤ count asks s.calls + 1
            → Spends asks budget n (run_can_adopt (some (λ _. p)) s)
        after f (ok a, s') g = omega arith
        after f (err a, s') g = omega arith
        after f (panic, s') g = omega arith

        asked :
            (f : Option (M (Unit {0})))
            → m.can_adopt_func ≡ f
            → Spends asks budget n (run_can_adopt f s)
        asked none e = omega arith
        asked (some f) e = after f (f s) (asks_once f s e)

    module _ (patch : String → String → String → M (Unit {0}))
        (patches : (namespace name text : String) → IsQuiet asks (patch namespace name text)) where
      adopt_if-IsQuiet : (obj : Meta) (once : AdoptOnce) → IsQuiet asks (adopt_if m patch obj once)
      unfolding IsQuiet adopt_if
      adopt_if-IsQuiet obj AdoptOnce.fresh c = patches _ _ _ c
      adopt_if-IsQuiet obj (AdoptOnce.done (ok _)) c = patches _ _ _ c
      adopt_if-IsQuiet obj (AdoptOnce.done (err e)) c = Keeps-raise _
      adopt_if-IsQuiet obj (AdoptOnce.done panic) c = patches _ _ _ c

      adopt_object-Spends :
          (obj : Meta) (once : AdoptOnce) (n : ℕ) (s : State)
          → count asks s.calls + budget once ≤ n
          → Spends asks (λ (r : Attempt). budget r.1) n (adopt_object m patch obj once s)
      unfolding adopt_object pure
      adopt_object-Spends obj once n s h =
          Spends-bind asks budget (λ (r : Attempt). budget r.1) n (can_adopt m once) _ s
            (can_adopt-Spends once n s h)
            (λ once' s' h'.
              Spends-bind asks (λ _. budget once') (λ (r : Attempt). budget r.1) n
                (try (adopt_if m patch obj once')) _ s'
                (Spends-quiet asks (adopt_if m patch obj once') (budget once') n s'
                  (adopt_if-IsQuiet obj once') h')
                (λ r s'' h''. h''))

      release_object-Spends :
          (obj : Meta) (once : AdoptOnce) (n : ℕ) (s : State)
          → count asks s.calls + budget once ≤ n
          → Spends asks (λ (r : Attempt). budget r.1) n (release_object m patch obj once s)
      unfolding release_object pure
      release_object-Spends obj once n s h =
          Spends-bind asks (λ _. budget once) (λ (r : Attempt). budget r.1) n (try (patch _ _ _)) _
            s (Spends-quiet asks (patch _ _ _) (budget once) n s (patches _ _ _) h) (λ r s' h'. h')

  module _ (m : Manager) (adopt release : AdoptOnce → M Attempt)
      (adopts : (once : AdoptOnce) (n : ℕ) (s : State)
        → count asks s.calls + budget once ≤ n
        → Spends asks (λ (r : Attempt). budget r.1) n (adopt once s))
      (releases : (once : AdoptOnce) (n : ℕ) (s : State)
        → count asks s.calls + budget once ≤ n
        → Spends asks (λ (r : Attempt). budget r.1) n (release once s))
      (obj : Meta) where
    settle-Spends :
        (attempt : M Attempt) (success : Bool) (n : ℕ) (s : State)
        → Spends asks (λ (r : Attempt). budget r.1) n (attempt s)
        → Spends asks
            (λ (r : Result Bool × AdoptOnce). budget r.1)
            n
            ((attempt >>= λ r. pure (settle_attempt success r)) s)
    unfolding pure
    settle-Spends attempt success n s h =
        Spends-bind asks (λ (r : Attempt). budget r.1) _ n attempt _ s h kept
      where
        kept :
            (r : Attempt) (s' : State)
            → count asks s'.calls + budget r.1 ≤ n
            → count asks s'.calls + budget (settle_attempt success r).1 ≤ n
        kept (ok _, once) s' g = g
        kept (err e, once) s' g = g
        kept (panic, once) s' g = g

    claim_by_owner-Spends :
        (matches : Bool) (owner : Option OwnerReference) (once : AdoptOnce) (n : ℕ) (s : State)
        → count asks s.calls + budget once ≤ n
        → Spends asks
            (λ (r : Result Bool × AdoptOnce). budget r.1)
            n
            (claim_by_owner m adopt release obj matches owner once s)
    unfolding pure
    claim_by_owner-Spends matches none once n s h =
        elim (Bool-cases (is_set m.deletion_timestamp || not matches)) [
          | inl e ↦ rw e h
          | inr e ↦ elim (Bool-cases (is_set obj.deletion_timestamp)) [
            | inl d ↦ rw (e, d) h
            | inr d ↦ rw (e, d) (settle-Spends (adopt once) true n s (adopts once n s h))
          ]
        ]
    claim_by_owner-Spends matches (some ref) once n s h = elim (Bool-cases (str_eq ref.uid m.uid)) [
      | inl e ↦ elim (Bool-cases matches) [
        | inl t ↦ rw (e, t) h
        | inr t ↦ elim (Bool-cases (is_set m.deletion_timestamp)) [
          | inl d ↦ rw (e, t, d) h
          | inr d ↦ rw (e, t, d) (settle-Spends (release once) false n s (releases once n s h))
        ]
      ]
      | inr e ↦ rw e h
    ]

  module _ {A : Type 0} (m : Manager) (meta_of : A → Meta)
      (adopt release : A → AdoptOnce → M Attempt) (filters : List (A → Bool))
      (adopts : (x : A) (once : AdoptOnce) (n : ℕ) (s : State)
        → count asks s.calls + budget once ≤ n
        → Spends asks (λ (r : Attempt). budget r.1) n (adopt x once s))
      (releases : (x : A) (once : AdoptOnce) (n : ℕ) (s : State)
        → count asks s.calls + budget once ≤ n
        → Spends asks (λ (r : Attempt). budget r.1) n (release x once s)) where
    claim_all-Spends :
        (xs : List A) (once : AdoptOnce) (n : ℕ) (s : State)
        → count asks s.calls + budget once ≤ n
        → Spends asks
            (λ (c : Claims A). budget c.2)
            n
            (claim_all m meta_of adopt release filters xs once s)
    unfolding claim_all claim_object pure
    claim_all-Spends [] once n s h = h
    claim_all-Spends (x ∷ xs) once n s h =
        Spends-bind asks _ _ n _ _ s
          (claim_by_owner-Spends m (adopt x) (release x) (adopts x) (releases x) (meta_of x) _ _
            once n s h)
          (λ r s' h'.
            Spends-bind asks _ _ n _ _ s' (claim_all-Spends xs r.1 n s' h')
              (λ rest s'' h''. added x r.0 rest s'' h''))
      where
        added :
            (x : A) (r : Result Bool) (rest : Claims A) (s' : State)
            → count asks s'.calls + budget rest.2 ≤ n
            → count asks s'.calls + budget (add_claim x r rest).2 ≤ n
        added x (ok true) rest s' g = g
        added x (ok false) rest s' g = g
        added x (err e) rest s' g = g
        added x panic rest s' g = g

-- `asks` tells the calls by which `CanAdoptFunc` looks at the controller: no patch is one of them.
pub record AsksOnce (asks : Call → Bool) (m : Manager) : Type 0 where
  pub at_most_one :
      (f : M (Unit {0})) (s : State)
      → m.can_adopt_func ≡ some f
      → count asks (f s).1.calls ≤ count asks s.calls + 1
  pub no_pod_patch :
      (namespace name text : String) → asks (Call.pod_patch namespace name text) ≡ false
  pub no_service_patch :
      (namespace name text : String) → asks (Call.service_patch namespace name text) ≡ false

calls_of :
    {A : Type 0} (asks : Call → Bool) (left : A → ℕ) (n : ℕ) (p : Result A × State)
    → Spends asks left n p
    → count asks p.1.calls ≤ n
calls_of asks left n (ok a, s) h = omega arith
calls_of asks left n (err e, s) h = h
calls_of asks left n (panic, s) h = h

-- However many objects a new manager adopts, ClaimPods and ClaimServices ask whether the controller
-- may adopt at most once, whether they fail or not.
pub claim_pods-asks :
    (asks : Call → Bool) (env : Env) (m : Manager) (pod_filters : List (Pod → Bool))
    (pods : List Pod) (service_filters : List (Service → Bool)) (services : List Service)
    (s : State)
    → AsksOnce asks m
    → (count asks (claim_pods env m pod_filters pods AdoptOnce.fresh s).1.calls
        ≤ count asks s.calls + 1)
      × (count asks (claim_services env m service_filters services AdoptOnce.fresh s).1.calls
          ≤ count asks s.calls + 1)
unfolding claim_pods claim_services adopt_pod release_pod adopt_service release_service patch_pod
    patch_service IsQuiet
claim_pods-asks asks env m pod_filters pods service_filters services s once = (
  calls_of asks _ _ _ (
      claim_all-Spends asks m meta_of_pod (adopt_pod env m) (release_pod env m) pod_filters
        (λ p.
          adopt_object-Spends asks m once.at_most_one (patch_pod env) pod_patches (meta_of_pod p))
        (λ p.
          release_object-Spends asks m once.at_most_one (patch_pod env) pod_patches (meta_of_pod p))
        pods AdoptOnce.fresh _ s (omega arith)),
  calls_of asks _ _ _ (
      claim_all-Spends asks m meta_of_service (adopt_service env m) (release_service env m)
        service_filters
        (λ p.
          adopt_object-Spends asks m once.at_most_one (patch_service env) service_patches
            (meta_of_service p))
        (λ p.
          release_object-Spends asks m once.at_most_one (patch_service env) service_patches
            (meta_of_service p))
        services AdoptOnce.fresh _ s (omega arith)),
)
  where
    pod_patches : (namespace name text : String) → IsQuiet asks (patch_pod env namespace name text)
    pod_patches namespace name text c =
        Keeps-request env _ (λ calls h. rw (once.no_pod_patch namespace name text) h)

    service_patches :
        (namespace name text : String) → IsQuiet asks (patch_service env namespace name text)
    service_patches namespace name text c =
        Keeps-request env _ (λ calls h. rw (once.no_service_patch namespace name text) h)
