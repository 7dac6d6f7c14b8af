-- ===== src/Tests/Slices.antt =====
-- Labels, decimal numbers and slices.
use kubecluster.Prelude.{
  ℕ, ◌<◌, pos, List, [], ◌∷◌, ◌++◌, some, ◌≡◌, refl, arith, length, get_elem?, lookup,
}
use kubecluster.Errors.{ok, panic}
use kubecluster.Types.{Pod, Phase}
use kubecluster.Labels.{replica_index, set_replica_index, replica_index-set_replica_index}
use kubecluster.Strings.{atoi}
use kubecluster.Slices.{get_slices}
use kubecluster.Slices.Contents.{at_index}
use kubecluster.Slices.Panics.{largest, slice_count, get_slices_total, get_slices_negative}
use kubecluster.Tests.Fixtures.{worker}

replica_index-set_replica_index_example : replica_index (set_replica_index [] 42) ≡ ok (pos 42)
replica_index-set_replica_index_example = replica_index-set_replica_index [] 42 (omega arith)

abbrev workers : List Pod
workers = worker Phase.running "1" ∷ worker Phase.running "0" ∷ []

get_slices_total_example :
    (slices : List (List Pod)) × (get_slices (λ (p : Pod). p.labels) workers (pos 3) ≡ ok slices)
    × (length slices ≡ slice_count (λ (p : Pod). p.labels) workers (pos 3))
    × ((j : ℕ)
        → j < slice_count (λ (p : Pod). p.labels) workers (pos 3)
        → get_elem? slices j ≡ some (at_index (λ (p : Pod). p.labels) j workers))
unfolding replica_index largest slice_count lookup atoi
get_slices_total_example =
    get_slices_total (λ (p : Pod). p.labels) workers (pos 3) (omega arith, (omega arith, tt))
      (omega arith)

get_slices_negative_example :
    get_slices (λ (p : Pod). p.labels) (workers ++ worker Phase.running "-1" ∷ []) (pos 3) ≡ panic
unfolding replica_index lookup atoi
get_slices_negative_example =
    get_slices_negative (λ (p : Pod). p.labels) workers (worker Phase.running "-1") [] 0 (pos 3)
      refl
