-- ===== src/Tests.antt =====
-- Examples at concrete inputs: each applies a theorem where its hypotheses hold.
mod Libraries
mod Fixtures
mod Slurm
mod Pbspro
mod Conditions
mod Expectations
mod Watched
mod Claims
mod Slices
mod Clusters
mod Schemas
mod Requests
