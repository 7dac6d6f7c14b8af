-- ===== src/Schema/Validated.antt =====
-- What the checks and defaults of apis/kubecluster.org/v1alpha1 give the reconciliation.
use mathlib.Core.List.{Memᴰ}
use kubecluster.Prelude.{
  ℤ, String, true, false, List, [], ◌∷◌, ◌++◌, All, arith, lookup, insert, lookup-insert,
  if◌then◌else◌, ◌∙◌, Option, none, some, ◌≡◌, ◌≢◌, refl, sym, ap, subst, inl, inr, Bool-cases,
  Dict, count, ◌==◌, str_eq,
}
use kubecluster.Errors.{Error, Result, ok, err, >>=-eq-ok}
use kubecluster.Types.{
  Container, ContainerPort, ReplicaSpec, ReplicaSpecs, ClusterSpec, cluster_default_container_name,
}
use kubecluster.Reconcile.Select.{collect_ports, find_ports, get_ports_from_cluster}
use kubecluster.Schema.Checks.{
  NameRules, is_named, check_images, check_containers, check_spec, check_specs, check_some_specs,
  check_name, main_container_or_default, validate_v1alpha_cluster_specs,
}
use kubecluster.Strings.{to_lower}

-- The number under a name in a list of ports: the last one counts.
abbrev pub number_of : String → List ContainerPort → Option ℤ
number_of name [] = none
number_of name (p ∷ ps) = elim (number_of name ps) [
  | some n ↦ some n
  | none ↦ if str_eq p.name name then some p.container_port else none
]

-- The dictionary is that of the ports of the first container of the name.
pub record PortsOf (name : String) (cs : List Container) (ports : Dict ℤ) : Type 0 where
  pub before : List Container
  pub main : Container
  pub after : List Container
  pub placed : cs ≡ before ++ main ∷ after
  pub first : All (λ (c : Container). str_eq c.name name ≡ false) before
  pub named : str_eq main.name name ≡ true
  pub numbers : (asked : String) → lookup asked ports ≡ number_of asked main.ports

-- The ports are found, and are those of the container.
abbrev pub Found : String → List Container → Result (Dict ℤ) → Type 0
Found name cs r = (ports : Dict ℤ) × (r ≡ ok ports) × PortsOf name cs ports

-- What an inner loop that starts with some ports knows of a name.
abbrev or_else : Option ℤ → Option ℤ → Option ℤ
or_else (some n) old = some n
or_else none old = old

lookup-collect_ports :
    (asked : String) (ports : Dict ℤ) (ps : List ContainerPort)
    → lookup asked (collect_ports ports ps) ≡ or_else (number_of asked ps) (lookup asked ports)
lookup-collect_ports asked ports [] = refl
lookup-collect_ports asked ports (p ∷ ps) = ground (
  arith,
  lookup-collect_ports asked (insert p.name p.container_port ports) ps,
  lookup-insert p.name asked p.container_port ports,
)

or_else-none : (o : Option ℤ) → or_else o none ≡ o
or_else-none none = refl
or_else-none (some n) = refl

find_ports-named :
    (name : String) (cs : List Container)
    → (count (is_named name) cs == 0) ≡ false
    → Found name cs (find_ports cs name)
unfolding find_ports lookup
find_ports-named name [] h = cc
find_ports-named name (c ∷ cs) h = elim (Bool-cases (str_eq c.name name)) [
  | inl e ↦ (
    collect_ports [] c.ports,
    rw e refl,
    record {
      before = [];
      main = c;
      after = cs;
      placed = refl;
      first = tt;
      named = e;
      numbers =
          λ asked. lookup-collect_ports asked [] c.ports ∙ or_else-none (number_of asked c.ports);
    },
  )
  | inr e ↦
      let (ports, found, p) = find_ports-named name cs (rw e at h) in
      (
        ports,
        rw e found,
        record {
          before = c ∷ p.before;
          main = p.main;
          after = p.after;
          placed = ap (λ l. c ∷ l) p.placed;
          first = (e, p.first);
          named = p.named;
          numbers = p.numbers;
        },
      )
]

err_ne_ok : {e : Error} {r : Result (Unit {0})} → r ≡ err e → r ≢ ok tt
err_ne_ok h k = cc

named_of_checked :
    (name rtype : String) (cs : List Container)
    → check_containers name rtype cs ≡ ok tt
    → (count (is_named name) cs == 0) ≡ false
unfolding check_containers
named_of_checked name rtype [] h = cc
named_of_checked name rtype (c ∷ cs) h =
    let (u, imaged, named) = >>=-eq-ok (check_images rtype (c ∷ cs)) _ h in
    elim (Bool-cases (count (is_named name) (c ∷ cs) == 0)) [
      | inl e ↦ absurd (err_ne_ok refl (rw e at named))
      | inr e ↦ e
    ]

ports_of_checked :
    (rules : NameRules) (name : String) (specs : ReplicaSpecs) (rtype : String) (spec : ReplicaSpec)
    → check_specs rules name specs ≡ ok tt
    → Memᴰ (rtype, some spec) specs
    → Found name spec.template.spec.containers (get_ports_from_cluster spec name)
unfolding check_specs get_ports_from_cluster
ports_of_checked rules name [] rtype spec h m = elim m [ ]
ports_of_checked rules name ((r, o) ∷ specs) rtype spec h (Memᴰ.head e) =
    let (u, well_named, rest) = >>=-eq-ok (check_name (rules.is_dns1035_label (to_lower r))) _ h in
    let (v, checked, others) = >>=-eq-ok (check_spec name r o) _ rest in
    find_ports-named name spec.template.spec.containers (
      named_of_checked name r spec.template.spec.containers (
        subst (λ q. check_spec name r q ≡ ok tt)
          (sym (ap (λ (p : String × Option ReplicaSpec). p.1) e)) checked))
ports_of_checked rules name ((r, o) ∷ specs) rtype spec h (Memᴰ.tail m) =
    let (u, well_named, rest) = >>=-eq-ok (check_name (rules.is_dns1035_label (to_lower r))) _ h in
    let (v, checked, others) = >>=-eq-ok (check_spec name r o) _ rest in
    ports_of_checked rules name specs rtype spec others m

checked_of_some :
    (rules : NameRules) (name : String) (specs : ReplicaSpecs)
    → check_some_specs rules name specs ≡ ok tt
    → check_specs rules name specs ≡ ok tt
checked_of_some rules name [] h = cc
checked_of_some rules name (s ∷ specs) h = h

checked_of_valid :
    (rules : NameRules) (spec : ClusterSpec)
    → validate_v1alpha_cluster_specs rules spec ≡ ok tt
    → check_specs rules (main_container_or_default spec.main_container) spec.cluster_replica_spec
      ≡ ok tt
unfolding validate_v1alpha_cluster_specs
checked_of_valid rules spec h = elim (Bool-cases (str_eq spec.cluster_type "")) [
  | inl e ↦ absurd (err_ne_ok refl (rw e at h))
  | inr e ↦ checked_of_some rules _ spec.cluster_replica_spec (rw e at h)
]

-- In a cluster that passes the checks and whose main container is unnamed or kubenode, GetPortsFromCluster
-- succeeds for each replica type: it finds the ports of the first container named kubenode, each name with
-- the last number that the container has under it.
pub validated-ports :
    (rules : NameRules) (spec : ClusterSpec) (rtype : String) (replica : ReplicaSpec)
    → validate_v1alpha_cluster_specs rules spec ≡ ok tt
    → main_container_or_default spec.main_container ≡ cluster_default_container_name
    → Memᴰ (rtype, some replica) spec.cluster_replica_spec
    → Found cluster_default_container_name replica.template.spec.containers
        (get_ports_from_cluster replica cluster_default_container_name)
validated-ports rules spec rtype replica h main m =
    subst
      (λ name. Found name replica.template.spec.containers (get_ports_from_cluster replica name))
      main
      (ports_of_checked rules _ spec.cluster_replica_spec rtype replica
        (checked_of_valid rules spec h) m)
