-- ===== src/Pbspro/Pods/Defaults.antt =====
-- The ports that Default of the PBS Pro schema sets
-- (pkg/controller/cluster_schema/pbspro_schema/pbspro_schema.go).
use kubecluster.Prelude.{
  ℕ, zero, suc, ℤ, pos, String, Bool, true, false, List, [], ◌∷◌, ◌++◌, Option, none, some, ◌≡◌,
  eq_refl, refl, sym, ◌∙◌, subst, str_eq, All, Bool-cases, inl, inr, if◌then◌else◌,
}
use kubecluster.Errors.{Result, ok, err, panic, >>=-eq-ok, ok-injective, map_ok}
use kubecluster.Types.{
  Container, ContainerPort, ReplicaSpec, ReplicaSpecs, cluster_default_container_name,
}
use kubecluster.Slurm.Ports.{
  default_index_from, or_zero, get_default_container_index, container_at, names_port,
  has_default_port, set_default_port, set_port_unless, with_containers,
}
use kubecluster.Schema.Status.{pbspro_server}
use kubecluster.Schema.Checks.{set_type_name_to_camel_case}
use kubecluster.Pbspro.Pods.{ensure_port, set_pbspro_ports, set_ports_of_all, default_pbspro_specs}

-- The container at an index has a port of the name.
abbrev HasPort : String → ℕ → List Container → Type 0
HasPort name i cs = (c : Container) × (container_at cs i ≡ ok c) × (names_port name c.ports ≡ true)

names_port-append :
    (name : String) (ports : List ContainerPort) (p : ContainerPort)
    → names_port name (ports ++ p ∷ [])
      ≡ (if names_port name ports then true else str_eq p.name name)
unfolding names_port
names_port-append name [] p = elim (Bool-cases (str_eq p.name name)) [
  | inl e ↦ rw e refl
  | inr e ↦ rw e refl
]
names_port-append name (q ∷ ports) p = elim (Bool-cases (str_eq q.name name)) [
  | inl e ↦ rw e refl
  | inr e ↦ rw e (names_port-append name ports p)
]

map_ok-eq :
    {A B : Type 0} (f : A → B) (r : Result A) {b : B}
    → map_ok f r ≡ ok b
    → (a : A) × (r ≡ ok a) × (f a ≡ b)
map_ok-eq f (ok a) e = (a, refl, ok-injective e)
map_ok-eq f (err x) e = cc
map_ok-eq f panic e = cc

-- What appending a port to the container of an index does.
record Grows (before after : List Container) : Type 0 where
  index :
      (k : ℕ) (name : String) → default_index_from k after name ≡ default_index_from k before name
  keeps : (name : String) (i : ℕ) → HasPort name i before → HasPort name i after

Grows-refl : (cs : List Container) → Grows cs cs
Grows-refl cs = record { index = λ k name. refl; keeps = λ name i h. h }

Grows-trans : {a b c : List Container} → Grows a b → Grows b c → Grows a c
Grows-trans g h = record {
  index = λ k name. h.index k name ∙ g.index k name;
  keeps = λ name i p. h.keeps name i (g.keeps name i p);
}

grown_head :
    (c d : Container) (cs : List Container)
    → d.name ≡ c.name
    → ((name : String) → names_port name c.ports ≡ true → names_port name d.ports ≡ true)
    → Grows (c ∷ cs) (d ∷ cs)
unfolding default_index_from container_at
grown_head c d cs same ports = record { index = λ k name. rw same refl; keeps = keeps }
  where
    keeps : (name : String) (i : ℕ) → HasPort name i (c ∷ cs) → HasPort name i (d ∷ cs)
    keeps name zero (x, there, named) = (
      d,
      refl,
      ports name (subst (λ y. names_port name y.ports ≡ true) (sym (ok-injective there)) named),
    )
    keeps name (suc i) (x, there, named) = (x, there, named)

grown_tail : (c : Container) (cs ds : List Container) → Grows cs ds → Grows (c ∷ cs) (c ∷ ds)
unfolding default_index_from container_at
grown_tail c cs ds g = record { index = λ k name. rw (g.index (suc k) name) refl; keeps = keeps }
  where
    keeps : (name : String) (i : ℕ) → HasPort name i (c ∷ cs) → HasPort name i (c ∷ ds)
    keeps name zero h = h
    keeps name (suc i) h = g.keeps name i h

set_default_port-Grows :
    (cs after : List Container) (name : String) (port : ℤ) (i : ℕ)
    → set_default_port cs name port i ≡ ok after
    → Grows cs after × HasPort name i after
unfolding set_default_port container_at
set_default_port-Grows [] after name port i e = cc
set_default_port-Grows (c ∷ cs) after name port zero e =
    let d = record c { ports = c.ports ++ record { name = name; container_port = port } ∷ [] } in
    subst (λ x. Grows (c ∷ cs) x × HasPort name zero x) (ok-injective e)
      (
        grown_head c d cs refl (λ asked h. rw (names_port-append asked c.ports _, h) refl),
        (d, refl, rw (names_port-append name c.ports _) (or_true (names_port name c.ports))),
      )
  where
    or_true : (b : Bool) → (if b then true else str_eq name name) ≡ true
    or_true true = refl
    or_true false = eq_refl name
set_default_port-Grows (c ∷ cs) after name port (suc i) e =
    let (rest, made, same) = map_ok-eq (λ ds. c ∷ ds) (set_default_port cs name port i) e in
    let (grown, (x, there, named)) = set_default_port-Grows cs rest name port i made in
    subst (λ y. Grows (c ∷ cs) y × HasPort name (suc i) y) same
      (grown_tail c cs rest grown, (x, there, named))

ensure_port-Grows :
    (cs after : List Container) (i : ℕ) (name : String) (port : ℕ)
    → ensure_port cs i name port ≡ ok after
    → Grows cs after × HasPort name i after
unfolding ensure_port has_default_port set_port_unless
ensure_port-Grows cs after i name port e =
    let (has, found, rest) = >>=-eq-ok (has_default_port cs i name) _ e in
    let (c, there, named) =
      map_ok-eq (λ (d : Container). names_port name d.ports) (container_at cs i) found in
    settled has c there named rest
  where
    settled :
        (has : Bool) (c : Container)
        → container_at cs i ≡ ok c
        → names_port name c.ports ≡ has
        → set_port_unless has cs name (pos port) i ≡ ok after
        → Grows cs after × HasPort name i after
    settled true c there named e' =
        subst (λ x. Grows cs x × HasPort name i x) (ok-injective e')
          (Grows-refl cs, (c, there, named))
    settled false c there named e' = set_default_port-Grows cs after name _ i e'

-- The container that Default looks at has the three ports.
abbrev Serves : List Container → Type 0
Serves cs =
    let i = get_default_container_index cs cluster_default_container_name in
    HasPort "serve-port" i cs × HasPort "comm-port" i cs × HasPort "sched-port" i cs

set_pbspro_ports-Serves :
    (cs after : List Container) → set_pbspro_ports cs ≡ ok after → Serves after
unfolding set_pbspro_ports get_default_container_index or_zero
set_pbspro_ports-Serves cs after e =
    let main = cluster_default_container_name in
    let i = get_default_container_index cs main in
    let (served, e1, rest1) = >>=-eq-ok (ensure_port cs i "serve-port" 15001) _ e in
    let (linked, e2, rest2) = >>=-eq-ok (ensure_port served i "comm-port" 17001) _ rest1 in
    let (g1, serve) = ensure_port-Grows cs served i "serve-port" 15001 e1 in
    let (g2, comm) = ensure_port-Grows served linked i "comm-port" 17001 e2 in
    let (g3, sched) = ensure_port-Grows linked after i "sched-port" 15004 rest2 in
    rw ((Grows-trans g1 (Grows-trans g2 g3)).index 0 main)
      (g3.keeps "serve-port" i (g2.keeps "serve-port" i serve), g3.keeps "comm-port" i comm, sched)

abbrev pub ServesEntry : String × Option ReplicaSpec → Type 0
ServesEntry (rtype, none) = ⊥
ServesEntry (rtype, some spec) = Serves spec.template.spec.containers

set_ports_of_all-Serves :
    (specs after : ReplicaSpecs) → set_ports_of_all specs ≡ ok after → All ServesEntry after
unfolding set_ports_of_all with_containers
set_ports_of_all-Serves [] after e = subst (All ServesEntry) (ok-injective e) tt
set_ports_of_all-Serves ((rtype, none) ∷ specs) after e = cc
set_ports_of_all-Serves ((rtype, some spec) ∷ specs) after e =
    let (cs, e1, rest1) = >>=-eq-ok (set_pbspro_ports spec.template.spec.containers) _ e in
    let (rest, e2, made) = >>=-eq-ok (set_ports_of_all specs) _ rest1 in
    subst (All ServesEntry) (ok-injective made) (
      set_pbspro_ports-Serves spec.template.spec.containers cs e1,
      set_ports_of_all-Serves specs rest e2,
    )

-- When Default of the PBS Pro schema returns, every replica type is set, and the first of its containers
-- named kubenode, or its first container where none is, has ports named serve-port, comm-port and
-- sched-port.
pub default_pbspro_specs-Serves :
    (specs after : ReplicaSpecs) → default_pbspro_specs specs ≡ ok after → All ServesEntry after
unfolding default_pbspro_specs
default_pbspro_specs-Serves specs after e =
    set_ports_of_all-Serves (set_type_name_to_camel_case specs pbspro_server) after e
