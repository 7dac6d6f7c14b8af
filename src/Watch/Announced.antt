-- ===== src/Watch/Announced.antt =====
-- Announced requests to create: each follows its `RaiseExpectations(key, 1, 0)` at once
-- (pkg/controller/ctrlcommon/pod.go, pkg/controller/ctrlcommon/service.go).
use kubecluster.Prelude.{◌++◌, ap, pos, String, List, [], ◌∷◌, ◌≡◌, Dict}
use kubecluster.Errors.{Result, ok, err, panic}
use kubecluster.Types.{NewPod, NewService}
use kubecluster.World.{Call, EventType, Env, State, M, ◌>>=◌, ◌>>◌, raise, lift, try, note, request}
use kubecluster.World.Keeps.{
  Keeps, Keeps-note, Keeps-then, Keeps-raise, Keeps-lift, Keeps-pure, Keeps-if,
}
use kubecluster.Control.{if_labelled}
use kubecluster.Reconcile.PodCreation.{settle_creation, announced}

-- The last call raised the expectation of one creation, under a key with a property.
abbrev pub RaisedLast : (String → Type 0) → List Call → Type 0
RaisedLast P (Call.raise_expectations key add del ∷ calls) = (add ≡ pos 1) × (del ≡ pos 0) × P key
RaisedLast P _ = ⊥

abbrev PodAnnounced : (String → String → NewPod → Type 0) → Call → List Call → Type 0
PodAnnounced Q (Call.pod_create namespace pod) calls = RaisedLast (λ key. Q key namespace pod) calls
PodAnnounced Q _ calls = Unit

-- Each request to create a pod stands directly after the raise of an expectation, whose key, the
-- namespace and the pod have the property `Q`.
abbrev pub PodsAnnounced : (String → String → NewPod → Type 0) → List Call → Type 0
PodsAnnounced Q [] = Unit
PodsAnnounced Q (c ∷ calls) = PodAnnounced Q c calls × PodsAnnounced Q calls

abbrev ServiceAnnounced : (String → String → NewService → Type 0) → Call → List Call → Type 0
ServiceAnnounced Q (Call.service_create namespace service) calls =
    RaisedLast (λ key. Q key namespace service) calls
ServiceAnnounced Q _ calls = Unit

-- The same of the requests to create services.
abbrev pub ServicesAnnounced : (String → String → NewService → Type 0) → List Call → Type 0
ServicesAnnounced Q [] = Unit
ServicesAnnounced Q (c ∷ calls) = ServiceAnnounced Q c calls × ServicesAnnounced Q calls

-- The calls are some earlier ones and later ones of which `P` holds.
abbrev pub Since : List Call → (List Call → Type 0) → List Call → Type 0
Since before P calls = (later : List Call) × (calls ≡ later ++ before) × P later

module _ {before : List Call} {P : List Call → Type 0} {calls : List Call} where
  pub Since-cons :
      (c : Call)
      → ((later : List Call) → P later → P (c ∷ later))
      → Since before P calls
      → Since before P (c ∷ calls)
  Since-cons c f (later, e, p) = (c ∷ later, ap (λ l. c ∷ l) e, f later p)

  pub Since-cons_two :
      (c d : Call)
      → ((later : List Call) → P later → P (c ∷ d ∷ later))
      → Since before P calls
      → Since before P (c ∷ d ∷ calls)
  Since-cons_two c d f (later, e, p) = (c ∷ d ∷ later, ap (λ l. c ∷ d ∷ l) e, f later p)

-- An invariant that a request to create may break unless it follows its announcement.
module _ (I : List Call → Type 0)
    (events : (t : EventType) (reason message : String) (calls : List Call)
      → I calls
      → I (Call.event t reason message ∷ calls)) where
  bind-at :
      {A B : Type 0} (m : M A) (f : A → M B) (s : State)
      → I (m s).1.calls
      → ((a : A) → I (f a (m s).1).1.calls)
      → I ((m >>= f) s).1.calls
  unfolding ◌>>=◌ lift
  bind-at {A = A} {B = B} m f s h k = continued (m s).0 (m s).1 h k
    where
      continued :
          (r : Result A) (t : State)
          → I t.calls
          → ((a : A) → I (f a t).1.calls)
          → I ((lift r >>= f) t).1.calls
      continued (ok a) t h k = k a
      continued (err e) t h k = h
      continued panic t h k = h

  module _ (env : Env) (c : Call) (key : String) (k : Result (Unit {0}) → M (Unit {0}))
      (ks : (r : Result (Unit {0})) → Keeps I (k r))
      (raises : (calls : List Call)
        → I calls
        → I (Call.raise_expectations key (pos 1) (pos 0) ∷ calls))
      (withdrawals : (calls : List Call) → I calls → I (Call.creation_observed key ∷ calls))
      (creates : (calls : List Call)
        → I calls
        → I (c ∷ Call.raise_expectations key (pos 1) (pos 0) ∷ calls)) where
    after_raise : State → State
    after_raise s = record s { calls = Call.raise_expectations key (pos 1) (pos 0) ∷ s.calls }

    labelled-at :
        (labels : Dict String) (message : String) (s : State)
        → I s.calls
        → I ((if_labelled labels message (try (request env c) >>= k)) (after_raise s)).1.calls
    unfolding raise try request after_raise
    labelled-at [] message s h = raises s.calls h
    labelled-at (l ∷ labels) message s h =
        bind-at (try (request env c)) k (after_raise s) (creates s.calls h)
          (λ r. (ks r).at _ (creates s.calls h))

    settle_creation-Keeps : (r : Result (Unit {0})) → Keeps I (settle_creation key r)
    unfolding settle_creation
    settle_creation-Keeps (ok _) = Keeps-pure _
    settle_creation-Keeps (err e) =
        Keeps-if _ _ _ (Keeps-pure _)
          (Keeps-then _ _ (Keeps-note (Call.creation_observed key) withdrawals) (Keeps-raise e))
    settle_creation-Keeps panic = Keeps-lift _

    pub announced_request-Keeps :
        (r : Result (Unit {0})) (labels : Dict String) (message : String)
        → Keeps I (announced key (lift r >> if_labelled labels message (try (request env c) >>= k)))
    unfolding announced note ◌>>=◌ lift try after_raise
    announced_request-Keeps r labels message = record {
      at = λ s h.
          bind-at (try (lift r >> if_labelled labels message (try (request env c) >>= k)))
            (settle_creation key) (after_raise s)
            (bind-at (lift r) (λ u. if_labelled labels message (try (request env c) >>= k))
              (after_raise s) (raises s.calls h) (λ u. labelled-at labels message s h))
            (λ q. (settle_creation-Keeps q).at _ (
              bind-at (lift r) (λ u. if_labelled labels message (try (request env c) >>= k))
                (after_raise s) (raises s.calls h) (λ u. labelled-at labels message s h)));
    }
