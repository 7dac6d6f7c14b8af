-- ===== src/Slurm/Drawn/Ends.antt =====
-- The drawing of two ports ends (genSlurmRandomPort of
-- pkg/controller/cluster_schema/slurm_schema/util.go).
use kubecluster.Prelude.{
  ℕ, zero, suc, ◌+◌, ◌≤◌, ◌<◌, ◌==◌, ◌≡◌, ◌≢◌, refl, false, inl, inr, Bool-cases, subst, arith,
}
use kubecluster.Errors.{Result, ok}
use kubecluster.World.{Env, State, ◌>>=◌, pure, now}
use kubecluster.Slurm.{Libraries}
use kubecluster.Slurm.Drawn.{gen_random_int31n, draw_other, gen_slurm_random_port}

-- Intn(n) is below n, as math/rand documents.
abbrev pub IsIntn : Libraries → Type 0
IsIntn lib = (seed n : ℕ) → 0 < n → lib.intn seed n < n

-- What a draw at the reading `i` of the clock gives.
abbrev drawn_at : Libraries → Env → ℕ → ℕ
drawn_at lib env i = lib.intn (env.clock i) 10001 + 10000

-- A second port in range that is not the first.
record Other (lib : Libraries) (env : Env) (first : ℕ) (p : Result ℕ × State) : Type 0 where
  second : ℕ
  later : State
  returned : p ≡ (ok second, later)
  distinct : first ≢ second
  from : 10000 ≤ second
  to : second ≤ 20000

-- The first draw is another one.
at_once :
    (fuel : ℕ) (lib : Libraries) (env : Env) (first : ℕ) (s : State)
    → IsIntn lib
    → (first == drawn_at lib env s.ticks) ≡ false
    → Other lib env first (draw_other (suc fuel) lib env first s)
unfolding draw_other gen_random_int31n ◌>>=◌ pure now
at_once fuel lib env first s law e = rw e (record {
  second = drawn_at lib env s.ticks;
  later = record s { ticks = s.ticks + 1 };
  returned = refl;
  distinct = ground (arith, e);
  from = omega arith;
  to = let l = law (env.clock s.ticks) 10001 (omega arith) in omega arith;
})

draw_other-Other :
    (fuel : ℕ) (lib : Libraries) (env : Env) (first k : ℕ) (s : State)
    → IsIntn lib
    → k < fuel
    → first ≢ drawn_at lib env (s.ticks + k)
    → Other lib env first (draw_other fuel lib env first s)
unfolding draw_other gen_random_int31n ◌>>=◌ pure now
draw_other-Other zero lib env first k s law h d = absurd (omega arith)
draw_other-Other (suc fuel) lib env first zero s law h d =
    at_once fuel lib env first s law (ground arith)
draw_other-Other (suc fuel) lib env first (suc k) s law h d =
    elim (Bool-cases (first == drawn_at lib env s.ticks)) [
      | inl e ↦ rw e (
          draw_other-Other fuel lib env first k (record s { ticks = s.ticks + 1 }) law (omega arith)
            (subst (λ i. first ≢ drawn_at lib env i) (omega arith) d))
      | inr e ↦ at_once fuel lib env first s law e
    ]

-- Two ports in the range that the code names.
pub record Ports (p : Result (ℕ × ℕ) × State) : Type 0 where
  pub slurmctl : ℕ
  pub slurmd : ℕ
  pub later : State
  pub returned : p ≡ (ok (slurmctl, slurmd), later)
  pub distinct : slurmctl ≢ slurmd
  pub slurmctl_from : 10000 ≤ slurmctl
  pub slurmctl_to : slurmctl ≤ 20000
  pub slurmd_from : 10000 ≤ slurmd
  pub slurmd_to : slurmd ≤ 20000

-- The sources are seeded with the clock: if one of the next `fuel` readings gives another draw than the
-- first reading, genSlurmRandomPort returns within `fuel` rounds, with two different ports from 10000 to
-- 20000.
pub gen_slurm_random_port-Ends :
    (fuel : ℕ) (lib : Libraries) (env : Env) (k : ℕ) (s : State)
    → IsIntn lib
    → k < fuel
    → drawn_at lib env s.ticks ≢ drawn_at lib env (s.ticks + 1 + k)
    → Ports (gen_slurm_random_port fuel lib env s)
unfolding gen_slurm_random_port gen_random_int31n ◌>>=◌ pure now
gen_slurm_random_port-Ends fuel lib env k s law h d =
    let first = drawn_at lib env s.ticks in
    let other = draw_other-Other fuel lib env first k (record s { ticks = s.ticks + 1 }) law h d in
    let l = law (env.clock s.ticks) 10001 (omega arith) in
    record {
      slurmctl = first;
      slurmd = other.second;
      later = other.later;
      returned = rw other.returned refl;
      distinct = other.distinct;
      slurmctl_from = omega arith;
      slurmctl_to = omega arith;
      slurmd_from = other.from;
      slurmd_to = other.to;
    }
