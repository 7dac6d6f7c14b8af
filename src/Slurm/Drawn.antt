-- ===== src/Slurm/Drawn.antt =====
-- Ports that are drawn at random, genSlurmRandomPort of util.go, and ports that are set in the
-- specification of the replicas, setSlurmPorts of slurm_schema.go
-- (pkg/controller/cluster_schema/slurm_schema).
pub mod Ends
use kubecluster.Prelude.{ℕ, zero, suc, ◌+◌, ◌-◌, ◌==◌, ℤ, pos, Bool, true, false, if◌then◌else◌}
use kubecluster.Errors.{Result, panic}
use kubecluster.World.{Env, M, ◌>>=◌, pure, lift, now, get_cluster, set_specs}
use kubecluster.Slurm.{Libraries}
use kubecluster.Slurm.Ports.{set_ports_in}

-- The source is seeded with the time.
unfoldable pub gen_random_int31n : Libraries → Env → ℕ → ℕ → M ℕ
gen_random_int31n lib env min max = do t ← now env; pure (lib.intn t (max - min + 1) + min)

-- The loop that draws slurmd's port until it differs from slurmctld's. The code has no bound on the
-- rounds; a model of a loop that still runs after `fuel` rounds is one that never returns: a panic.
unfoldable pub draw_other : ℕ → Libraries → Env → ℕ → M ℕ
unfolding gen_random_int31n
draw_other zero lib env slurmctl_port = lift panic
draw_other (suc fuel) lib env slurmctl_port = do
  slurmd_port ← gen_random_int31n lib env 10000 20000
  (if slurmctl_port == slurmd_port then draw_other fuel lib env slurmctl_port else pure slurmd_port)

unfoldable pub gen_slurm_random_port : ℕ → Libraries → Env → M (ℕ × ℕ)
unfolding gen_random_int31n draw_other
gen_slurm_random_port fuel lib env = do
  slurmctl_port ← gen_random_int31n lib env 10000 20000
  slurmd_port ← draw_other fuel lib env slurmctl_port
  pure (slurmctl_port, slurmd_port)

unfoldable pub set_slurm_ports : ℤ → ℤ → M (Unit {0})
set_slurm_ports slurmctl_port slurmd_port = do
  cluster ← get_cluster
  specs ← lift (set_ports_in cluster.spec.cluster_replica_spec slurmctl_port slurmd_port)
  set_specs specs
