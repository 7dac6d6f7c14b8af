-- ===== src/Slices.antt =====
-- The slices that pods and services are sorted into by their index label: GetPodSlices and
-- CalculatePodSliceSize of pkg/core/pod.go, and their twins in pkg/core/service.go.
pub mod Panics
pub mod Contents
pub mod Indexed
use kubecluster.Prelude.{
  ℕ, zero, suc, ◌*◌, ◌^◌, leb, ℤ, pos, add64, ltb_ℤ, eqb_ℤ, String, Bool, true, false, List, [],
  ◌∷◌, ◌++◌, Dict, replicate, if◌then◌else◌,
}
use kubecluster.Errors.{Result, ok, err, panic, ◌>>=◌}
use kubecluster.Types.{Pod, Service}
use kubecluster.Labels.{replica_index}

-- core.MaxInt
pub max_int : ℤ → ℤ → ℤ
max_int x y = if ltb_ℤ x y then y else x

-- A label that is no number is passed over.
pub max_index : ℤ → Result ℤ → ℤ
unfolding max_int
max_index size (ok index) = max_int size index
max_index size (err e) = size
max_index size panic = size

-- The two files repeat the code for pods and services, which differ in where the labels stand.
module _ {A : Type 0} (labels_of : A → Dict String) where
  -- The loop of `CalculatePodSliceSize`.
  pub scan_size : ℤ → List A → ℤ
  unfolding max_index
  scan_size size [] = size
  scan_size size (x ∷ xs) = scan_size (max_index size (replica_index (labels_of x))) xs

  pub calculate_slice_size : List A → ℤ → ℤ
  unfolding scan_size
  calculate_slice_size xs replicas = max_int (add64 (scan_size (pos 0) xs) (pos 1)) replicas

-- `slices[index] = append(slices[index], x)`, which panics out of range.
module _ {A : Type 0} where
  pub append_at_nat : ℕ → A → List (List A) → Result (List (List A))
  append_at_nat i x [] = panic
  append_at_nat zero x (s ∷ slices) = ok ((s ++ x ∷ []) ∷ slices)
  append_at_nat (suc i) x (s ∷ slices) = do rest ← append_at_nat i x slices; ok (s ∷ rest)

  pub append_at : ℤ → A → List (List A) → Result (List (List A))
  append_at (ℤ.pos i) x slices = append_at_nat i x slices
  append_at (ℤ.negsuc i) x slices = panic

  -- One round of the loop of `GetPodSlices`. An index that is out of range is only warned of.
  pub place : Result ℤ → A → List (List A) → Result (List (List A))
  unfolding append_at append_at_nat
  place (ok index) x slices = append_at index x slices
  place (err e) x slices = ok slices
  place panic x slices = panic

-- The bytes of a slice header, and the bytes that one allocation can have: the address space of
-- Go's runtime on a 64-bit machine.
abbrev pub header_bytes : ℕ
header_bytes = 24

abbrev pub allocation_limit : ℕ
allocation_limit = 2 ^ 48

-- `make([][]*v1.Pod, size)`, which panics when the size is negative or the slices would not fit in
-- the address space.
abbrev pub make_slices : {A : Type 0} → ℤ → Result (List (List A))
make_slices (ℤ.pos n) =
    if leb (header_bytes * n) allocation_limit then ok (replicate n []) else panic
make_slices (ℤ.negsuc n) = panic

module _ {A : Type 0} (labels_of : A → Dict String) where
  pub place_all : List A → List (List A) → Result (List (List A))
  unfolding place
  place_all [] slices = ok slices
  place_all (x ∷ xs) slices = do
    slices' ← place (replica_index (labels_of x)) x slices
    place_all xs slices'

  pub get_slices : List A → ℤ → Result (List (List A))
  unfolding calculate_slice_size place_all
  get_slices xs replicas = do
    slices ← make_slices (calculate_slice_size labels_of xs replicas)
    place_all xs slices

unfoldable calculate_pod_slice_size : List Pod → ℤ → ℤ
unfolding calculate_slice_size
calculate_pod_slice_size = calculate_slice_size (λ (p : Pod). p.labels)

unfoldable pub get_pod_slices : List Pod → ℤ → Result (List (List Pod))
unfolding get_slices
get_pod_slices = get_slices (λ (p : Pod). p.labels)

unfoldable calculate_service_slice_size : List Service → ℤ → ℤ
unfolding calculate_slice_size
calculate_service_slice_size = calculate_slice_size (λ (s : Service). s.labels)

unfoldable pub get_service_slices : List Service → ℤ → Result (List (List Service))
unfolding get_slices
get_service_slices = get_slices (λ (s : Service). s.labels)
