-- ===== src/Watch/Labelled.antt =====
-- What the labels of a pod hold on their way from CreateNewPod to the request to create
-- (pkg/controller/ctrlcommon/pod.go, pkg/controller/control).
use kubecluster.Prelude.{
  ℕ, ◌≤◌, String, Bool, true, false, [], ◌∷◌, Option, none, some, ◌≡◌, refl, ◌∙◌, arith, Dict,
  lookup, insert, lookup-insert, eq_iff, str_eq, count, if◌then◌else◌, inl, inr, Bool-cases,
}
use kubecluster.Types.{KubeCluster, ReplicaSpec, PodTemplate}
use kubecluster.Labels.{gen_replica_type_label, replica_type_label, cluster_type_label}
use kubecluster.Control.{PodGroupControl, GangKeys, copy_into, decorate_pod_template_spec}
use kubecluster.Reconcile.PodCreation.{new_pod_labels, named_template}

-- How often a key stands in a dictionary.
abbrev pub occurs : String → Dict String → ℕ
occurs asked d = count (λ (e : String × String). str_eq e.0 asked) d

-- The last value under a key.
abbrev last : String → Dict String → Option String
last asked [] = none
last asked ((k, v) ∷ d) = elim (last asked d) [
  | some w ↦ some w
  | none ↦ if str_eq k asked then some v else none
]

abbrev or_else : Option String → Option String → Option String
or_else (some v) old = some v
or_else none old = old

lookup-copy_into :
    (asked : String) (target d : Dict String)
    → lookup asked (copy_into target d) ≡ or_else (last asked d) (lookup asked target)
unfolding copy_into
lookup-copy_into asked target [] = refl
lookup-copy_into asked target ((k, v) ∷ d) =
    ground (arith, lookup-copy_into asked (insert k v target) d, lookup-insert k asked v target)

last_absent : (asked : String) (d : Dict String) → occurs asked d ≡ 0 → last asked d ≡ none
last_absent asked [] h = refl
last_absent asked ((k, v) ∷ d) h = ground (arith, last_absent asked d)

last-lookup :
    (asked : String) (d : Dict String) → occurs asked d ≤ 1 → last asked d ≡ lookup asked d
unfolding lookup
last-lookup asked [] h = refl
last-lookup asked ((k, v) ∷ d) h = ground (arith, last_absent asked d, last-lookup asked d)

occurs-insert_other :
    (asked k v : String) (d : Dict String)
    → str_eq k asked ≡ false
    → occurs asked (insert k v d) ≡ occurs asked d
unfolding insert
occurs-insert_other asked k v [] h = ground arith
occurs-insert_other asked k v ((n, w) ∷ d) h =
    ground (arith, eq_iff n k, eq_iff k asked, eq_iff n asked, occurs-insert_other asked k v d h)

occurs-insert :
    (asked k v : String) (d : Dict String) → occurs asked d ≤ 1 → occurs asked (insert k v d) ≤ 1
unfolding insert
occurs-insert asked k v [] h = ground arith
occurs-insert asked k v ((n, w) ∷ d) h = ground (
  arith,
  eq_iff n k,
  eq_iff k asked,
  eq_iff n asked,
  occurs-insert_other asked k v d,
  occurs-insert asked k v d,
)

occurs-copy_into :
    (asked : String) (target d : Dict String)
    → occurs asked target ≤ 1
    → occurs asked (copy_into target d) ≤ 1
unfolding copy_into
occurs-copy_into asked target [] h = h
occurs-copy_into asked target ((k, v) ∷ d) h =
    occurs-copy_into asked (insert k v target) d (occurs-insert asked k v target h)

-- The labels name the type of the cluster and the replica type, and none twice.
pub record Labelled (cluster : KubeCluster) (rtype : String) (d : Dict String) : Type 0 where
  pub type : lookup cluster_type_label d ≡ some cluster.spec.cluster_type
  pub replica : lookup replica_type_label d ≡ some (gen_replica_type_label rtype)
  pub once : (asked : String) → occurs asked d ≤ 1

-- The pod group's label is neither of the two.
pub record OtherKey (keys : GangKeys) : Type 0 where
  pub not_type : str_eq keys.pod_group_label cluster_type_label ≡ false
  pub not_replica : str_eq keys.pod_group_label replica_type_label ≡ false

module _ (cluster : KubeCluster) (rtype : String) where
  pub named_template-Labelled :
      (index : ℕ) (spec : ReplicaSpec) (controller : Bool)
      → ((asked : String) → occurs asked spec.template.labels ≤ 1)
      → Labelled cluster rtype (named_template cluster rtype index spec controller).labels
  unfolding named_template new_pod_labels insert
  named_template-Labelled index spec controller once = record {
    type =
        lookup-copy_into cluster_type_label spec.template.labels
          (new_pod_labels cluster rtype index controller)
        ∙ named_type controller;
    replica =
        lookup-copy_into replica_type_label spec.template.labels
          (new_pod_labels cluster rtype index controller)
        ∙ named_replica controller;
    once = λ asked.
        occurs-copy_into asked spec.template.labels (new_pod_labels cluster rtype index controller)
          (once asked);
  }
    where
      named_type :
          (b : Bool)
          → or_else
              (last cluster_type_label (new_pod_labels cluster rtype index b))
              (lookup cluster_type_label spec.template.labels)
            ≡ some cluster.spec.cluster_type
      named_type true = refl
      named_type false = refl

      named_replica :
          (b : Bool)
          → or_else
              (last replica_type_label (new_pod_labels cluster rtype index b))
              (lookup replica_type_label spec.template.labels)
            ≡ some (gen_replica_type_label rtype)
      named_replica true = refl
      named_replica false = refl

  insert-Labelled :
      (k v : String) (d : Dict String)
      → str_eq k cluster_type_label ≡ false
      → str_eq k replica_type_label ≡ false
      → Labelled cluster rtype d
      → Labelled cluster rtype (insert k v d)
  insert-Labelled k v d t r h = record {
    type = lookup-insert k cluster_type_label v d ∙ rw t h.type;
    replica = lookup-insert k replica_type_label v d ∙ rw r h.replica;
    once = λ asked. occurs-insert asked k v d (h.once asked);
  }

  pub copy_into-Labelled :
      (d : Dict String) → Labelled cluster rtype d → Labelled cluster rtype (copy_into [] d)
  unfolding lookup
  copy_into-Labelled d h = record {
    type = copied cluster_type_label _ h.type;
    replica = copied replica_type_label _ h.replica;
    once = λ asked. occurs-copy_into asked [] d (omega arith);
  }
    where
      copied : (asked v : String) → lookup asked d ≡ some v → lookup asked (copy_into [] d) ≡ some v
      copied asked v e =
          lookup-copy_into asked [] d ∙ rw (last-lookup asked d (h.once asked), e) refl

  pub decorate_pod_template_spec-Labelled :
      (keys : GangKeys) (gang : PodGroupControl) (template : PodTemplate)
      → OtherKey keys
      → Labelled cluster rtype template.labels
      → Labelled cluster rtype (decorate_pod_template_spec keys gang template cluster rtype).labels
  unfolding decorate_pod_template_spec
  decorate_pod_template_spec-Labelled keys PodGroupControl.volcano template other h =
      elim (Bool-cases (str_eq template.spec.scheduler_name "")) [ inl e ↦ rw e h | inr e ↦ rw e h ]
  decorate_pod_template_spec-Labelled keys (PodGroupControl.scheduler_plugins name) template other
        h =
      elim (Bool-cases (str_eq template.spec.scheduler_name "")) [
        | inl e ↦ rw e (
            insert-Labelled keys.pod_group_label cluster.name template.labels other.not_type
              other.not_replica h)
        | inr e ↦ rw e (
            insert-Labelled keys.pod_group_label cluster.name template.labels other.not_type
              other.not_replica h)
      ]
