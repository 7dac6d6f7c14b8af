-- ===== src/Schema/Defaults.antt =====
-- The defaults of a cluster: SetDefaults_KubeCluster of apis/kubecluster.org/v1alpha1/cluster_defaults.go.
use kubecluster.Prelude.{
  ℤ, pos, String, true, false, [], ◌∷◌, Option, none, some, ◌≡◌, refl, inl, inr, Bool-cases, map,
  Option-cases, str_eq,
}
use kubecluster.Types.{ReplicaSpec, ReplicaSpecs, CleanKubeNodePolicy, KubeCluster}
use kubecluster.Schema.Checks.{
  set_default_replicas, default_entry, default_policy, main_container_or_default,
  set_defaults_kube_cluster,
}

set_default_replicas_idem :
    (spec : Option ReplicaSpec)
    → set_default_replicas (set_default_replicas spec) ≡ set_default_replicas spec
set_default_replicas_idem none = refl
set_default_replicas_idem (some spec) = elim (Option-cases spec.replicas) [
  | inl unset ↦ rw unset refl
  | inr (n, set) ↦ rw set refl
]

default_entries_idem :
    (specs : ReplicaSpecs) → map default_entry (map default_entry specs) ≡ map default_entry specs
default_entries_idem [] = refl
default_entries_idem ((rtype, spec) ∷ specs) =
    cc (set_default_replicas_idem spec, default_entries_idem specs)

default_policy_idem :
    (policy : Option CleanKubeNodePolicy)
    → default_policy (default_policy policy) ≡ default_policy policy
default_policy_idem none = refl
default_policy_idem (some policy) = refl

main_container_or_default_idem :
    (name : String)
    → main_container_or_default (main_container_or_default name) ≡ main_container_or_default name
main_container_or_default_idem name = elim (Bool-cases (str_eq name "")) [
  | inl e ↦ rw e refl
  | inr e ↦ rw e (rw e refl)
]

-- An entry before and after: the same replica type, and the same spec but for the count, which is kept
-- where it was set and is 1 where it was not.
abbrev pub EntryDefaulted : String × Option ReplicaSpec → String × Option ReplicaSpec → Type 0
EntryDefaulted (rtype, none) after = after ≡ (rtype, none)
EntryDefaulted (rtype, some spec) (after, none) = ⊥
EntryDefaulted (rtype, some spec) (after, some new) =
    (after ≡ rtype)
    × (new.template ≡ spec.template)
    × (new.restart_policy ≡ spec.restart_policy)
    × ((n : ℤ) → spec.replicas ≡ some n → new.replicas ≡ some n)
    × (spec.replicas ≡ none → new.replicas ≡ some (pos 1))

abbrev pub EntriesDefaulted : ReplicaSpecs → ReplicaSpecs → Type 0
EntriesDefaulted [] [] = Unit
EntriesDefaulted [] (e ∷ es) = ⊥
EntriesDefaulted (e ∷ es) [] = ⊥
EntriesDefaulted (e ∷ es) (new ∷ news) = EntryDefaulted e new × EntriesDefaulted es news

-- The cluster `before` with the three fields of `after` that have defaults.
abbrev pub with_fields_of : KubeCluster → KubeCluster → KubeCluster
with_fields_of after before = record before {
  spec = record before.spec {
    main_container = after.spec.main_container;
    run_policy = record before.spec.run_policy {
      clean_kube_node_policy = after.spec.run_policy.clean_kube_node_policy;
    };
    cluster_replica_spec = after.spec.cluster_replica_spec;
  };
}

pub record IsDefaulted (before after : KubeCluster) : Type 0 where
  pub named :
      str_eq before.spec.main_container "" ≡ false
      → after.spec.main_container ≡ before.spec.main_container
  pub unnamed : str_eq before.spec.main_container "" ≡ true → after.spec.main_container ≡ "kubenode"
  pub policy_set :
      (policy : CleanKubeNodePolicy)
      → before.spec.run_policy.clean_kube_node_policy ≡ some policy
      → after.spec.run_policy.clean_kube_node_policy ≡ some policy
  pub policy_unset :
      before.spec.run_policy.clean_kube_node_policy ≡ none
      → after.spec.run_policy.clean_kube_node_policy ≡ some CleanKubeNodePolicy.all
  pub entries : EntriesDefaulted before.spec.cluster_replica_spec after.spec.cluster_replica_spec
  pub rest : after ≡ with_fields_of after before
  pub stable : set_defaults_kube_cluster after ≡ after

default_entries-EntriesDefaulted :
    (specs : ReplicaSpecs) → EntriesDefaulted specs (map default_entry specs)
default_entries-EntriesDefaulted [] = tt
default_entries-EntriesDefaulted ((rtype, none) ∷ specs) =
    (refl, default_entries-EntriesDefaulted specs)
default_entries-EntriesDefaulted ((rtype, some spec) ∷ specs) = (
  (refl, refl, refl, (λ n set. rw set refl), (λ unset. rw unset refl)),
  default_entries-EntriesDefaulted specs,
)

set_defaults_kube_cluster_idem :
    (cluster : KubeCluster)
    → set_defaults_kube_cluster (set_defaults_kube_cluster cluster)
      ≡ set_defaults_kube_cluster cluster
unfolding set_defaults_kube_cluster
set_defaults_kube_cluster_idem cluster = cc (
  main_container_or_default_idem cluster.spec.main_container,
  default_policy_idem cluster.spec.run_policy.clean_kube_node_policy,
  default_entries_idem cluster.spec.cluster_replica_spec,
)

-- The defaults of a cluster: a main container that is named and a clean-up policy that is set are kept, and
-- else are "kubenode" and All; the replica types stay, in their order, a replica count that is set is kept,
-- an unset one becomes 1, and an entry with no spec stays so; everything else is as it was. Setting the
-- defaults again changes nothing.
pub set_defaults_kube_cluster-IsDefaulted :
    (cluster : KubeCluster) → IsDefaulted cluster (set_defaults_kube_cluster cluster)
unfolding set_defaults_kube_cluster
set_defaults_kube_cluster-IsDefaulted cluster = record {
  named = λ e. rw e refl;
  unnamed = λ e. rw e refl;
  policy_set = λ policy set. rw set refl;
  policy_unset = λ unset. rw unset refl;
  entries = default_entries-EntriesDefaulted cluster.spec.cluster_replica_spec;
  rest = refl;
  stable = set_defaults_kube_cluster_idem cluster;
}
