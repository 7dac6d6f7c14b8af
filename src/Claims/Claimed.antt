-- ===== src/Claims/Claimed.antt =====
-- Which objects ClaimPods and ClaimServices claim (pkg/controller/control/controller_ref_manager.go).
use kubecluster.Prelude.{
  Bool, true, false, not, ◌&&◌, ◌||◌, List, [], ◌∷◌, Option, none, some, ◌≡◌, ◌≢◌, refl, str_eq,
  arith, Bool-cases, inl, inr,
}
use kubecluster.Errors.{Error, Result, ok, err, panic, is_not_found}
use kubecluster.Types.{Pod, Service, OwnerReference}
use kubecluster.World.{Env, State, M, ◌>>=◌, pure, request}
use kubecluster.Control.{patch_pod, patch_service}
use kubecluster.Claims.{
  Manager, AdoptOnce, Meta, Attempt, Claims, is_set, add_claim, settle_attempt, claim_owned,
  claim_orphan, claim_by_owner, claim_object, claim_all, match_object, claim_pods, claim_services,
  meta_of_pod, meta_of_service, adopt_pod, release_pod, adopt_service, release_service,
}
use kubecluster.Claims.Deleted.{owns, owned_match}
use kubecluster.Claims.Settled.{IsCalm, Settles, adopt_object-Settles, release_object-Settles}

-- An orphan that matches, where neither it nor the controller is being deleted.
abbrev free_to_adopt : Manager → Meta → Bool → Option OwnerReference → Bool
free_to_adopt m obj matches (some ref) = false
free_to_adopt m obj matches none =
    not (is_set m.deletion_timestamp) && not (is_set obj.deletion_timestamp) && matches

abbrev adoptable : {A : Type 0} → Manager → (A → Meta) → List (A → Bool) → A → Bool
adoptable m meta_of filters x =
    free_to_adopt m (meta_of x) (match_object m meta_of filters x) (meta_of x).owner

-- `IsClaim owned free xs ys`: the claims `ys` are the owned elements of `xs` and some of its free
-- ones, in the order of `xs`.
pub data IsClaim {A : Type 0} (owned free : A → Bool) : List A → List A → Type 0 where
  no_claim : IsClaim owned free [] []
  kept :
      {x : A} {xs ys : List A}
      → owned x ≡ true
      → IsClaim owned free xs ys
      → IsClaim owned free (x ∷ xs) (x ∷ ys)
  adopted :
      {x : A} {xs ys : List A}
      → free x ≡ true
      → IsClaim owned free xs ys
      → IsClaim owned free (x ∷ xs) (x ∷ ys)
  passed :
      {x : A} {xs ys : List A}
      → owned x ≡ false
      → IsClaim owned free xs ys
      → IsClaim owned free (x ∷ xs) ys

-- What became of an object that is owned and matches, or is free to be adopted.
data Fits (own free : Bool) : Result Bool → Type 0 where
  was_owned : own ≡ true → Fits own free (ok true)
  was_free : free ≡ true → Fits own free (ok true)
  refused : own ≡ false → Fits own free (ok false)
  failed : {e : Error} → own ≡ false → Fits own free (err e)

record Verdict (own free : Bool) (p : Result (Result Bool × AdoptOnce) × State) : Type 0 where
  outcome : Result Bool
  other : AdoptOnce
  later : State
  returned : p ≡ (ok (outcome, other), later)
  fits : Fits own free outcome

at_once :
    {own free : Bool} (r : Result Bool) (once : AdoptOnce) (s : State)
    → Fits own free r
    → Verdict own free (pure (r, once) s)
unfolding pure
at_once r once s h = record { outcome = r; other = once; later = s; returned = refl; fits = h }

settle-Fits :
    (own free success : Bool) (r : Result (Unit {0})) (once : AdoptOnce)
    → r ≢ panic
    → own ≡ false
    → Fits own free (ok success)
    → Fits own free (settle_attempt success (r, once)).0
settle-Fits own free success (ok _) once calm owned h = h
settle-Fits own free success (err e) once calm owned h = elim (Bool-cases (is_not_found e)) [
  | inl n ↦ rw n (Fits.refused owned)
  | inr n ↦ rw n (Fits.failed owned)
]
settle-Fits own free success panic once calm owned h = ground arith

after_attempt :
    {own free : Bool} (success : Bool) (attempt : M Attempt) (s : State)
    → Settles (attempt s)
    → own ≡ false
    → Fits own free (ok success)
    → Verdict own free ((attempt >>= λ r. pure (settle_attempt success r)) s)
unfolding ◌>>=◌ pure
after_attempt {own} {free} success attempt s settles owned h = record {
  outcome = (settle_attempt success (settles.outcome, settles.other)).0;
  other = (settle_attempt success (settles.outcome, settles.other)).1;
  later = settles.later;
  returned = rw settles.returned refl;
  fits = settle-Fits own free success settles.outcome settles.other settles.calm owned h;
}

module _ (m : Manager) (adopt release : AdoptOnce → M Attempt)
    (adopts : (once : AdoptOnce) (s : State) → Settles (adopt once s))
    (releases : (once : AdoptOnce) (s : State) → Settles (release once s)) (obj : Meta) where
  claim_owned-Verdict :
      (matches free : Bool) (ref : OwnerReference) (once : AdoptOnce) (s : State)
      → Verdict
          (owns m (some ref) && matches)
          free
          (claim_owned m adopt release obj matches ref once s)
  claim_owned-Verdict true free ref once s = elim (Bool-cases (str_eq ref.uid m.uid)) [
    | inl e ↦ rw e (at_once (ok true) once s (Fits.was_owned refl))
    | inr e ↦ rw e (at_once (ok false) once s (Fits.refused refl))
  ]
  claim_owned-Verdict false free ref once s = elim (Bool-cases (str_eq ref.uid m.uid)) [
    | inl e ↦ elim (Bool-cases (is_set m.deletion_timestamp)) [
      | inl d ↦ rw (e, d) (at_once (ok false) once s (Fits.refused refl))
      | inr d ↦
          rw (e, d)
            (after_attempt false (release once) s (releases once s) refl (Fits.refused refl))
    ]
    | inr e ↦ rw e (at_once (ok false) once s (Fits.refused refl))
  ]

  claim_orphan-Verdict :
      (matches free : Bool) (once : AdoptOnce) (s : State)
      → free ≡ (not (is_set m.deletion_timestamp) && not (is_set obj.deletion_timestamp) && matches)
      → Verdict false free (claim_orphan m adopt release obj matches once s)
  claim_orphan-Verdict matches free once s h =
      elim (Bool-cases (is_set m.deletion_timestamp || not matches)) [
        | inl e ↦ rw e (at_once (ok false) once s (Fits.refused refl))
        | inr e ↦ elim (Bool-cases (is_set obj.deletion_timestamp)) [
          | inl d ↦ rw (e, d) (at_once (ok false) once s (Fits.refused refl))
          | inr d ↦
              rw (e, d)
                (after_attempt true (adopt once) s (adopts once s) refl
                  (Fits.was_free (ground arith)))
        ]
      ]

  claim_by_owner-Verdict :
      (matches : Bool) (owner : Option OwnerReference) (once : AdoptOnce) (s : State)
      → Verdict
          (owns m owner && matches)
          (free_to_adopt m obj matches owner)
          (claim_by_owner m adopt release obj matches owner once s)
  claim_by_owner-Verdict matches none once s = claim_orphan-Verdict matches _ once s refl
  claim_by_owner-Verdict matches (some ref) once s = claim_owned-Verdict matches _ ref once s

-- The claims of one more object.
add_claim-IsClaim :
    {A : Type 0} {owned free : A → Bool} {xs : List A} (x : A) (r : Result Bool) (claims : Claims A)
    → Fits (owned x) (free x) r
    → IsClaim owned free xs claims.0
    → IsClaim owned free (x ∷ xs) (add_claim x r claims).0
add_claim-IsClaim x _ claims (Fits.was_owned h) c = IsClaim.kept h c
add_claim-IsClaim x _ claims (Fits.was_free h) c = IsClaim.adopted h c
add_claim-IsClaim x _ claims (Fits.refused h) c = IsClaim.passed h c
add_claim-IsClaim x _ claims (Fits.failed h) c = IsClaim.passed h c

-- A loop that returns the claims of `xs`.
pub record Claiming {A : Type 0} (m : Manager) (meta_of : A → Meta) (filters : List (A → Bool))
    (xs : List A) (p : Result (Claims A) × State) : Type 0 where
  pub claims : Claims A
  pub later : State
  pub returned : p ≡ (ok claims, later)
  pub claimed : IsClaim (owned_match m meta_of filters) (adoptable m meta_of filters) xs claims.0

module _ {A : Type 0} (m : Manager) (meta_of : A → Meta) (adopt release : A → AdoptOnce → M Attempt)
    (filters : List (A → Bool))
    (adopts : (x : A) (once : AdoptOnce) (s : State) → Settles (adopt x once s))
    (releases : (x : A) (once : AdoptOnce) (s : State) → Settles (release x once s)) where
  claim_object-Verdict :
      (x : A) (once : AdoptOnce) (s : State)
      → Verdict (owned_match m meta_of filters x) (adoptable m meta_of filters x) (
          claim_object m
            (adopt x)
            (release x)
            (meta_of x)
            (match_object m meta_of filters x)
            once
            s)
  unfolding claim_object
  claim_object-Verdict x once s =
      claim_by_owner-Verdict m (adopt x) (release x) (adopts x) (releases x) (meta_of x)
        (match_object m meta_of filters x) (meta_of x).owner once s

  claim_all-Claiming :
      (xs : List A) (once : AdoptOnce) (s : State)
      → Claiming m meta_of filters xs (claim_all m meta_of adopt release filters xs once s)
  unfolding claim_all ◌>>=◌ pure
  claim_all-Claiming [] once s = record {
    claims = ([], [], once);
    later = s;
    returned = refl;
    claimed = IsClaim.no_claim;
  }
  claim_all-Claiming (x ∷ xs) once s =
      let v = claim_object-Verdict x once s in
      let rest = claim_all-Claiming xs v.other v.later in
      record {
        claims = add_claim x v.outcome rest.claims;
        later = rest.later;
        returned = rw (v.returned, rest.returned) refl;
        claimed = add_claim-IsClaim x v.outcome rest.claims v.fits rest.claimed;
      }

-- When neither the API server nor `CanAdoptFunc` panics, ClaimPods and ClaimServices return, with or
-- without errors: the claims are, in order, all objects that the controller owns and that match, and
-- otherwise only orphans that match, where neither the orphan nor the controller is being deleted.
pub claim_pods-Claiming :
    (env : Env) (m : Manager) (pod_filters : List (Pod → Bool)) (pods : List Pod)
    (service_filters : List (Service → Bool)) (services : List Service) (once : AdoptOnce)
    (s : State)
    → IsCalm env m
    → Claiming m meta_of_pod pod_filters pods (claim_pods env m pod_filters pods once s)
      × Claiming m meta_of_service service_filters services
          (claim_services env m service_filters services once s)
unfolding claim_pods claim_services adopt_pod release_pod adopt_service release_service patch_pod
    patch_service request
claim_pods-Claiming env m pod_filters pods service_filters services once s calm = (
  claim_all-Claiming m meta_of_pod (adopt_pod env m) (release_pod env m) pod_filters
      (λ p.
        adopt_object-Settles env m calm (patch_pod env) (λ _ _ _ s. calm.replies s.calls _)
          (meta_of_pod p))
      (λ p.
        release_object-Settles env m calm (patch_pod env) (λ _ _ _ s. calm.replies s.calls _)
          (meta_of_pod p))
      pods once s,
  claim_all-Claiming m meta_of_service (adopt_service env m) (release_service env m) service_filters
      (λ p.
        adopt_object-Settles env m calm (patch_service env) (λ _ _ _ s. calm.replies s.calls _)
          (meta_of_service p))
      (λ p.
        release_object-Settles env m calm (patch_service env) (λ _ _ _ s. calm.replies s.calls _)
          (meta_of_service p))
      services once s,
)
