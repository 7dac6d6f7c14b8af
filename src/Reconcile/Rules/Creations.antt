-- ===== src/Reconcile/Rules/Creations.antt =====
-- Invariants of the requests through an announced creation of a pod (pkg/controller/ctrlcommon/pod.go
-- and pkg/controller/control/pod_control.go).
use kubecluster.Prelude.{pos, String, List, [], ◌∷◌, Option, Dict, ◌≡◌, refl}
use kubecluster.Errors.{Result, ok, err, panic}
use kubecluster.Types.{PodTemplate, NewPod, OwnerReference}
use kubecluster.World.{Call, Env, M}
use kubecluster.World.Keeps.{
  Keeps, Keeps-bind, Keeps-then, Keeps-pure, Keeps-raise, Keeps-lift, Keeps-try, Keeps-if,
  Keeps-note, Keeps-request,
}
use kubecluster.Control.{
  settle_pod_creation, if_labelled, create_pod, create_pods, create_pods_with_controller_ref,
  get_pod_from_template, to_references,
}
use kubecluster.Reconcile.PodCreation.{settle_creation, announced}
use kubecluster.Reconcile.Rules.{Stable, StableEvents}

module _ {I : List Call → Type 0} (env : Env) (events : StableEvents I) where
  settle_pod_creation-Keeps :
      (name : String) (r : Result (Unit {0})) → Keeps I (settle_pod_creation name r)
  settle_pod_creation-Keeps name (ok a) = Keeps-note _ (events _ _ _)
  settle_pod_creation-Keeps name (err e) =
      Keeps-then _ _ (Keeps-note _ (events _ _ _)) (Keeps-raise _)
  settle_pod_creation-Keeps name panic = Keeps-lift panic

  if_labelled-Keeps :
      (labels : Dict String) (message : String) (m : M (Unit {0}))
      → Keeps I m
      → Keeps I (if_labelled labels message m)
  if_labelled-Keeps [] message m h = Keeps-raise _
  if_labelled-Keeps (l ∷ labels) message m h = h

  create_pod-Keeps :
      (namespace : String) (pod : NewPod)
      → Stable I (Call.pod_create namespace pod)
      → Keeps I (create_pod env namespace pod)
  unfolding create_pod
  create_pod-Keeps namespace pod h =
      Keeps-bind _ _ (Keeps-try _ (Keeps-request env _ h)) (settle_pod_creation-Keeps pod.name)

  settle_creation-Keeps :
      (key : String) (r : Result (Unit {0}))
      → Stable I (Call.creation_observed key)
      → Keeps I (settle_creation key r)
  unfolding settle_creation
  settle_creation-Keeps key (ok a) h = Keeps-pure _
  settle_creation-Keeps key (err e) h =
      Keeps-if _ _ _ (Keeps-pure _) (Keeps-then _ _ (Keeps-note _ h) (Keeps-raise e))
  settle_creation-Keeps key panic h = Keeps-lift panic

  pub announced_pods-Keeps :
      (key namespace : String) (template : PodTemplate) (ref : Option OwnerReference)
      → Stable I (Call.raise_expectations key (pos 1) (pos 0))
      → ((pod : NewPod)
          → pod.owner_references ≡ to_references ref
          → Stable I (Call.pod_create namespace pod))
      → Stable I (Call.creation_observed key)
      → Keeps I (announced key (create_pods_with_controller_ref env namespace template ref))
  unfolding announced create_pods_with_controller_ref create_pods get_pod_from_template
  announced_pods-Keeps key namespace template ref raised created observed =
      Keeps-then _ _ (Keeps-note _ raised) (
        Keeps-bind _ _
          (Keeps-try _ (
            Keeps-then _ _ (Keeps-lift _)
              (if_labelled-Keeps _ _ _ (create_pod-Keeps namespace _ (created _ refl)))))
          (λ r. settle_creation-Keeps key r observed))
