-- ===== src/Slurm/Ports.antt =====
-- The ports of slurm: util.go and setSlurmPorts of slurm_schema.go, and the default ports of
-- apis/kubecluster.org/v1alpha1/defauting_utils.go.
use kubecluster.Prelude.{
  ℕ, zero, suc, ℤ, pos, eqb_ℤ, to_int32, String, Bool, true, false, not, ◌&&◌, List, [], ◌∷◌, ◌++◌,
  Option, none, some, str_eq, if◌then◌else◌,
}
use kubecluster.Errors.{Error, Result, ok, err, panic, ◌>>=◌, map_ok}
use kubecluster.Types.{
  Container, ContainerPort, ReplicaSpec, ReplicaSpecs, cluster_default_container_name,
}
use kubecluster.Slurm.{slurmctl_port_name, slurmd_port_name}

-- The loop of GetDefaultContainerIndex from an index on.
unfoldable pub default_index_from : ℕ → List Container → String → Option ℕ
default_index_from i [] name = none
default_index_from i (c ∷ cs) name =
    let rest = default_index_from (suc i) cs name in if str_eq c.name name then some i else rest

unfoldable pub or_zero : Option ℕ → ℕ
or_zero none = 0
or_zero (some i) = i

unfoldable pub get_default_container_index : List Container → String → ℕ
unfolding default_index_from or_zero
get_default_container_index cs name = or_zero (default_index_from 0 cs name)

-- `spec.Containers[index]`, which panics out of range.
unfoldable pub container_at : List Container → ℕ → Result Container
container_at [] i = panic
container_at (c ∷ cs) zero = ok c
container_at (c ∷ cs) (suc i) = container_at cs i

unfoldable pub names_port : String → List ContainerPort → Bool
names_port name [] = false
names_port name (p ∷ ports) =
    let rest = names_port name ports in if str_eq p.name name then true else rest

unfoldable pub has_default_port : List Container → ℕ → String → Result Bool
unfolding container_at names_port
has_default_port cs i name = map_ok (λ (c : Container). names_port name c.ports) (container_at cs i)

unfoldable pub set_default_port : List Container → String → ℤ → ℕ → Result (List Container)
set_default_port [] name port i = panic
set_default_port (c ∷ cs) name port zero =
    ok (record c { ports = c.ports ++ record { name = name; container_port = port } ∷ [] } ∷ cs)
set_default_port (c ∷ cs) name port (suc i) =
    map_ok (λ rest. c ∷ rest) (set_default_port cs name port i)

unfoldable pub set_port_unless : Bool → List Container → String → ℤ → ℕ → Result (List Container)
unfolding set_default_port
set_port_unless true cs name port i = ok cs
set_port_unless false cs name port i = set_default_port cs name (to_int32 port) i

set_slurm_default_ports : List Container → String → ℤ → ℤ → Result (List Container)
unfolding get_default_container_index has_default_port set_port_unless
set_slurm_default_ports cs name slurmctl_port slurmd_port = do
  let i = get_default_container_index cs name
  has_ctl ← has_default_port cs i slurmctl_port_name
  with_ctl ← set_port_unless has_ctl cs slurmctl_port_name slurmctl_port i
  has_d ← has_default_port with_ctl i slurmd_port_name
  set_port_unless has_d with_ctl slurmd_port_name slurmd_port i

-- The loop of getSlurmDefaultPort, which ends as soon as both ports are known.
scan_ports : List ContainerPort → ℤ → ℤ → ℤ × ℤ
scan_ports [] ctl d = (ctl, d)
scan_ports (p ∷ ports) ctl d =
    let is_ctl = str_eq p.name slurmctl_port_name in
    let is_d = not is_ctl && str_eq p.name slurmd_port_name in
    let ctl' = if is_ctl then p.container_port else ctl in
    let d' = if is_d then p.container_port else d in
    let rest = scan_ports ports ctl' d' in
    if not (eqb_ℤ d' (pos 0)) && not (eqb_ℤ ctl' (pos 0)) then (ctl', d') else rest

get_slurm_default_port : List Container → String → Result (ℤ × ℤ)
unfolding scan_ports get_default_container_index container_at
get_slurm_default_port cs name =
    map_ok (λ (c : Container). scan_ports c.ports (pos 0) (pos 0))
      (container_at cs (get_default_container_index cs name))

unfoldable pub both_set : ℤ × ℤ → Bool
both_set (ctl, d) = not (eqb_ℤ d (pos 0)) && not (eqb_ℤ ctl (pos 0))

-- The replica types are met in the order of the list; a nil replica panics.
unfoldable pub get_slurm_ports_from_spec : ReplicaSpecs → String → Result (ℤ × ℤ)
unfolding get_slurm_default_port both_set
get_slurm_ports_from_spec [] name = err (Error.other "can not find slurm ports for kclusetr")
get_slurm_ports_from_spec ((rtype, none) ∷ specs) name = panic
get_slurm_ports_from_spec ((rtype, some spec) ∷ specs) name = do
  ports ← get_slurm_default_port spec.template.spec.containers name
  if both_set ports then ok ports else get_slurm_ports_from_spec specs name

unfoldable pub with_containers : ReplicaSpec → List Container → ReplicaSpec
with_containers spec cs = record spec {
  template = record spec.template { spec = record spec.template.spec { containers = cs } };
}

unfoldable pub set_ports_in : ReplicaSpecs → ℤ → ℤ → Result ReplicaSpecs
unfolding set_slurm_default_ports with_containers
set_ports_in [] slurmctl_port slurmd_port = ok []
set_ports_in ((rtype, none) ∷ specs) slurmctl_port slurmd_port = panic
set_ports_in ((rtype, some spec) ∷ specs) slurmctl_port slurmd_port = do
  cs ←
      set_slurm_default_ports spec.template.spec.containers cluster_default_container_name
        slurmctl_port slurmd_port
  rest ← set_ports_in specs slurmctl_port slurmd_port
  ok ((rtype, some (with_containers spec cs)) ∷ rest)
