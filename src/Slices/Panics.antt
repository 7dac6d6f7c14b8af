-- ===== src/Slices/Panics.antt =====
-- How large the slices are, and when sorting into them panics (pkg/core/pod.go,
-- pkg/core/service.go).
use kubecluster.Prelude.{
  ℕ, zero, suc, ◌+◌, ◌*◌, ◌^◌, true, false, Bool-cases, ◌≤◌, ◌<◌, ℤ, pos, negsuc, pos_part,
  add64-pos, String, List, [], ◌∷◌, ◌++◌, some, ◌⊎◌, inl, inr, Dict, replicate, ◌≡◌, refl, arith,
  All, get_elem?, length, leb, if◌then◌else◌,
}
use kubecluster.Errors.{Result, ok, err, panic}
use kubecluster.Labels.{replica_index}
use kubecluster.Slices.{
  max_int, max_index, scan_size, calculate_slice_size, append_at_nat, append_at, place, place_all,
  get_slices, header_bytes, allocation_limit, make_slices,
}
use kubecluster.Slices.Contents.{Fits, at_index, place_all-replicate}

-- The largest of `size` and the labels that are numbers.
abbrev max_nat : ℕ → ℕ → ℕ
max_nat a b = if leb a b then b else a

abbrev index_of : Result ℤ → ℕ
index_of (ok (ℤ.pos i)) = i
index_of (ok (ℤ.negsuc i)) = 0
index_of (err e) = 0
index_of panic = 0

-- Sorting an object in makes no error: it goes well or panics.
module _ {A : Type 0} where
  append_at_nat_cases :
      (i : ℕ) (x : A) (ss : List (List A))
      → (append_at_nat i x ss ≡ panic) ⊎ ((ss' : List (List A)) × (append_at_nat i x ss ≡ ok ss'))
  unfolding append_at_nat
  append_at_nat_cases i x [] = inl refl
  append_at_nat_cases zero x (s ∷ ss) = inr (_, refl)
  append_at_nat_cases (suc i) x (s ∷ ss) = elim (append_at_nat_cases i x ss) [
    | inl e ↦ inl (rw e)
    | inr (ss', e) ↦ inr (s ∷ ss', rw e)
  ]

  place_cases :
      (r : Result ℤ) (x : A) (ss : List (List A))
      → (place r x ss ≡ panic) ⊎ ((ss' : List (List A)) × (place r x ss ≡ ok ss'))
  unfolding place append_at
  place_cases (ok (ℤ.pos i)) x ss = append_at_nat_cases i x ss
  place_cases (ok (ℤ.negsuc i)) x ss = inl refl
  place_cases (err e) x ss = inr (ss, refl)
  place_cases panic x ss = inl refl

  make_slices_cases :
      (size : ℤ)
      → (make_slices {A = A} size ≡ panic)
        ⊎ ((ss : List (List A)) × (make_slices {A = A} size ≡ ok ss))
  make_slices_cases (ℤ.pos n) = elim (Bool-cases (leb (header_bytes * n) allocation_limit)) [
    | inl e ↦ inr (replicate n [], rw e refl)
    | inr e ↦ inl (rw e refl)
  ]
  make_slices_cases (ℤ.negsuc n) = inl refl

  place_negative : (n : ℕ) (x : A) (ss : List (List A)) → place (ok (negsuc n)) x ss ≡ panic
  unfolding place append_at
  place_negative n x ss = refl

fits :
    (n : ℕ) → header_bytes * n ≤ allocation_limit → leb (header_bytes * n) allocation_limit ≡ true
fits n l = ground (arith, l)

exceeds :
    (n : ℕ) → allocation_limit < header_bytes * n → leb (header_bytes * n) allocation_limit ≡ false
exceeds n l = ground (arith, l)

module _ {A : Type 0} (labels_of : A → Dict String) where
  abbrev label : A → Result ℤ
  label x = replica_index (labels_of x)

  unfoldable pub largest : ℕ → List A → ℕ
  largest size [] = size
  largest size (x ∷ xs) = largest (max_nat size (index_of (label x))) xs

  -- No label is a negative number.
  abbrev NonNegative : A → Type 0
  NonNegative x = Fits (2 ^ 63) (label x)

  max_index-index_of :
      (size : ℕ) (r : Result ℤ)
      → Fits (2 ^ 63) r
      → max_index (pos size) r ≡ pos (max_nat size (index_of r))
  unfolding max_index max_int
  max_index-index_of size (ok (ℤ.pos i)) h = ground arith
  max_index-index_of size (ok (ℤ.negsuc i)) h = elim h [ ]
  max_index-index_of size (err e) h = ground arith
  max_index-index_of size panic h = elim h [ ]

  scan_size-largest :
      (size : ℕ) (xs : List A)
      → All NonNegative xs
      → scan_size labels_of (pos size) xs ≡ pos (largest size xs)
  unfolding scan_size largest
  scan_size-largest size [] h = refl
  scan_size-largest size (x ∷ xs) h =
      rw (max_index-index_of size (label x) h.0)
        (scan_size-largest (max_nat size (index_of (label x))) xs h.1)

  le-largest : (size : ℕ) (xs : List A) → size ≤ largest size xs
  unfolding largest
  le-largest size [] = omega arith
  le-largest size (x ∷ xs) = ground (arith, le-largest (max_nat size (index_of (label x))) xs)

  Fits-mono : (n m : ℕ) (r : Result ℤ) → Fits (2 ^ 63) r → index_of r < n → n ≤ m → Fits m r
  Fits-mono n m (ok (ℤ.pos i)) h k l = omega arith
  Fits-mono n m (ok (ℤ.negsuc i)) h k l = h
  Fits-mono n m (err e) h k l = tt
  Fits-mono n m panic h k l = h

  All-Fits :
      (size m : ℕ) (xs : List A)
      → All NonNegative xs
      → largest size xs < m
      → All (λ x. Fits m (label x)) xs
  unfolding largest
  All-Fits size m [] h l = tt
  All-Fits size m (x ∷ xs) h l = (
    Fits-mono m m (label x) h.0 (ground (arith, le-largest (max_nat size (index_of (label x))) xs))
        (omega arith),
    All-Fits (max_nat size (index_of (label x))) m xs h.1 l,
  )

  max_int-pos : (n : ℕ) (z : ℤ) → max_int (pos n) z ≡ pos (max_nat n (pos_part z))
  unfolding max_int
  max_int-pos n (ℤ.pos m) = ground arith
  max_int-pos n (ℤ.negsuc m) = ground arith

  -- The number of slices: one above the largest label, or the replicas that are wanted.
  unfoldable pub slice_count : List A → ℤ → ℕ
  slice_count xs replicas = max_nat (largest 0 xs + 1) (pos_part replicas)

  calculate_slice_size-slice_count :
      (xs : List A) (replicas : ℤ)
      → All NonNegative xs
      → header_bytes * slice_count xs replicas ≤ allocation_limit
      → calculate_slice_size labels_of xs replicas ≡ pos (slice_count xs replicas)
  unfolding calculate_slice_size slice_count
  calculate_slice_size-slice_count xs replicas h l =
      rw (scan_size-largest 0 xs h, add64-pos (largest 0 xs) 1 (ground (arith, l)))
        (max_int-pos (largest 0 xs + 1) replicas)

  -- With no negative label, and labels and a replica count for which the slices fit in the address space,
  -- the slices are made: one above the largest label, and at least the replicas that are wanted; slice j
  -- holds the objects whose label is j, in their order, and an object whose label is no number is in none.
  pub get_slices_total :
      (xs : List A) (replicas : ℤ)
      → All NonNegative xs
      → header_bytes * slice_count xs replicas ≤ allocation_limit
      → (slices : List (List A)) × (get_slices labels_of xs replicas ≡ ok slices)
        × (length slices ≡ slice_count xs replicas)
        × ((j : ℕ)
            → j < slice_count xs replicas
            → get_elem? slices j ≡ some (at_index labels_of j xs))
  unfolding get_slices
  get_slices_total xs replicas h l =
      rw (calculate_slice_size-slice_count xs replicas h l, fits (slice_count xs replicas) l)
        (place_all-replicate labels_of xs (slice_count xs replicas)
          (All-Fits 0 (slice_count xs replicas) xs h (unfold slice_count in ground arith)))

  get_slices_too_large :
      (xs : List A) (replicas : ℤ) (n : ℕ)
      → calculate_slice_size labels_of xs replicas ≡ pos n
      → allocation_limit < header_bytes * n
      → get_slices labels_of xs replicas ≡ panic
  unfolding get_slices
  get_slices_too_large xs replicas n e l = rw (e, exceeds n l) refl

  place_all_negative :
      (xs : List A) (ss : List (List A)) (x : A) (ys : List A) (n : ℕ)
      → label x ≡ ok (negsuc n)
      → place_all labels_of (xs ++ x ∷ ys) ss ≡ panic
  unfolding place_all
  place_all_negative [] ss x ys n h = rw h (rw (place_negative n x ss))
  place_all_negative (y ∷ xs) ss x ys n h = elim (place_cases (label y) y ss) [
    | inl stopped ↦ rw stopped
    | inr (ss', went) ↦ rw went (place_all_negative xs ss' x ys n h)
  ]

  -- A negative label is warned of and then used as an index: sorting panics, wherever the object stands.
  pub get_slices_negative :
      (xs : List A) (x : A) (ys : List A) (n : ℕ) (replicas : ℤ)
      → label x ≡ ok (negsuc n)
      → get_slices labels_of (xs ++ x ∷ ys) replicas ≡ panic
  unfolding get_slices
  get_slices_negative xs x ys n replicas h =
      elim (make_slices_cases {A = A} (calculate_slice_size labels_of (xs ++ x ∷ ys) replicas)) [
        | inl stopped ↦ rw stopped refl
        | inr (ss, made) ↦ rw made (place_all_negative xs ss x ys n h)
      ]
