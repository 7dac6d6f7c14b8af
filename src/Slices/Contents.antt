-- ===== src/Slices/Contents.antt =====
-- What GetPodSlices and GetServiceSlices return (pkg/core/pod.go, pkg/core/service.go): slice i holds
-- the objects whose label is i, in their order.
use kubecluster.Prelude.{
  ℕ, zero, suc, ◌<◌, ℤ, pos, eqb_ℤ, String, Bool, false, List, [], ◌∷◌, ◌++◌, append-nil, sym,
  append_assoc, Option, none, some, Dict, ◌≡◌, refl, ap, ◌∙◌, arith, All, filter, get_elem?, length,
  replicate, length-replicate, ◌==◌, if◌then◌else◌,
}
use kubecluster.Errors.{Result, ok, err, panic}
use kubecluster.Labels.{replica_index}
use kubecluster.Slices.{append_at_nat, append_at, place, place_all}

-- Does a parsed label name slice `j`?
abbrev index_is : ℕ → Result ℤ → Bool
index_is j (ok index) = eqb_ℤ index (pos j)
index_is j (err e) = false
index_is j panic = false

-- The objects that follow those of a slice.
abbrev extend {ℓ} : {A : Type ℓ} → List A → Option (List A) → Option (List A)
extend ys none = none
extend ys (some s) = some (s ++ ys)

extend-nil {ℓ} : {A : Type ℓ} (o : Option (List A)) → extend [] o ≡ o
extend-nil none = refl
extend-nil (some s) = ap some (append-nil s)

extend-extend {ℓ} :
    {A : Type ℓ} (xs ys : List A) (o : Option (List A))
    → extend ys (extend xs o) ≡ extend (xs ++ ys) o
extend-extend xs ys none = refl
extend-extend xs ys (some s) = ap some (append_assoc s xs ys)

-- What `append_at_nat` leaves where the index is in range.
module _ {ℓ} {A : Type ℓ} where
  push : ℕ → A → List (List A) → List (List A)
  push i x [] = []
  push zero x (s ∷ ss) = (s ++ x ∷ []) ∷ ss
  push (suc i) x (s ∷ ss) = s ∷ push i x ss

  length-push : (i : ℕ) (x : A) (ss : List (List A)) → length (push i x ss) ≡ length ss
  unfolding push
  length-push i x [] = refl
  length-push zero x (s ∷ ss) = refl
  length-push (suc i) x (s ∷ ss) = ap suc (length-push i x ss)

  get_elem?-push :
      (i : ℕ) (x : A) (ss : List (List A)) (j : ℕ)
      → get_elem? (push i x ss) j
        ≡ (if i == j then extend (x ∷ []) (get_elem? ss j) else get_elem? ss j)
  unfolding push
  get_elem?-push i x [] j = ground arith
  get_elem?-push zero x (s ∷ ss) zero = refl
  get_elem?-push zero x (s ∷ ss) (suc j) = ground arith
  get_elem?-push (suc i) x (s ∷ ss) zero = ground arith
  get_elem?-push (suc i) x (s ∷ ss) (suc j) = ground (arith, get_elem?-push i x ss j)

append_at_nat-push :
    {A : Type 0} (i : ℕ) (x : A) (ss : List (List A))
    → i < length ss
    → append_at_nat i x ss ≡ ok (push i x ss)
unfolding append_at_nat push
append_at_nat-push i x [] h = elim h [ ]
append_at_nat-push zero x (s ∷ ss) h = refl
append_at_nat-push (suc i) x (s ∷ ss) h = rw (append_at_nat-push i x ss (omega arith))

-- A parsed label that names a slice below `n`, or none.
abbrev pub Fits : ℕ → Result ℤ → Type 0
Fits n (ok (ℤ.pos i)) = i < n
Fits n (ok (ℤ.negsuc i)) = ⊥
Fits n (err e) = Unit
Fits n panic = ⊥

module _ {A : Type 0} (labels_of : A → Dict String) where
  push_one : Result ℤ → A → List (List A) → List (List A)
  unfolding push
  push_one (ok (ℤ.pos i)) x ss = push i x ss
  push_one _ x ss = ss

  abbrev label : A → Result ℤ
  label x = replica_index (labels_of x)

  push_all : List A → List (List A) → List (List A)
  push_all [] ss = ss
  push_all (x ∷ xs) ss = push_all xs (push_one (label x) x ss)

  length-push_one :
      (r : Result ℤ) (x : A) (ss : List (List A)) → length (push_one r x ss) ≡ length ss
  unfolding push_one
  length-push_one (ok (ℤ.pos i)) x ss = length-push i x ss
  length-push_one (ok (ℤ.negsuc i)) x ss = refl
  length-push_one (err e) x ss = refl
  length-push_one panic x ss = refl

  length-push_all : (xs : List A) (ss : List (List A)) → length (push_all xs ss) ≡ length ss
  unfolding push_all
  length-push_all [] ss = refl
  length-push_all (x ∷ xs) ss =
      length-push_all xs (push_one (label x) x ss) ∙ length-push_one (label x) x ss

  place-push_one :
      (r : Result ℤ) (x : A) (ss : List (List A))
      → Fits (length ss) r
      → place r x ss ≡ ok (push_one r x ss)
  unfolding place append_at push_one
  place-push_one (ok (ℤ.pos i)) x ss h = append_at_nat-push i x ss h
  place-push_one (ok (ℤ.negsuc i)) x ss h = elim h [ ]
  place-push_one (err e) x ss h = refl
  place-push_one panic x ss h = elim h [ ]

  place_all-push_all :
      (xs : List A) (ss : List (List A))
      → All (λ x. Fits (length ss) (label x)) xs
      → place_all labels_of xs ss ≡ ok (push_all xs ss)
  unfolding place_all push_all
  place_all-push_all [] ss h = refl
  place_all-push_all (x ∷ xs) ss h =
      rw (place-push_one (label x) x ss h.0)
        (place_all-push_all xs (push_one (label x) x ss) (rw (length-push_one (label x) x ss) h.1))

  get_elem?-push_one :
      (r : Result ℤ) (x : A) (ss : List (List A)) (j : ℕ)
      → get_elem? (push_one r x ss) j
        ≡ (if index_is j r then extend (x ∷ []) (get_elem? ss j) else get_elem? ss j)
  unfolding push_one
  get_elem?-push_one (ok (ℤ.pos i)) x ss j = ground (arith, get_elem?-push i x ss j)
  get_elem?-push_one (ok (ℤ.negsuc i)) x ss j = ground arith
  get_elem?-push_one (err e) x ss j = refl
  get_elem?-push_one panic x ss j = refl

  -- The objects whose label is `j`.
  abbrev pub at_index : ℕ → List A → List A
  at_index j = filter (λ x. index_is j (label x))

  get_elem?-push_all :
      (xs : List A) (ss : List (List A)) (j : ℕ)
      → get_elem? (push_all xs ss) j ≡ extend (at_index j xs) (get_elem? ss j)
  unfolding push_all
  get_elem?-push_all [] ss j = sym (extend-nil (get_elem? ss j))
  get_elem?-push_all (x ∷ xs) ss j =
      rw (get_elem?-push_all xs (push_one (label x) x ss) j, get_elem?-push_one (label x) x ss j)
        (ground (arith, extend-extend (x ∷ []) (at_index j xs) (get_elem? ss j)))

  get_elem?-replicate : (n j : ℕ) → j < n → get_elem? (replicate {A = List A} n []) j ≡ some []
  get_elem?-replicate zero j h = elim h [ ]
  get_elem?-replicate (suc n) zero h = refl
  get_elem?-replicate (suc n) (suc j) h = get_elem?-replicate n j (omega arith)

  -- With every label in range of `n`, the loop fills `n` slices by label.
  pub place_all-replicate :
      (xs : List A) (n : ℕ)
      → All (λ x. Fits n (label x)) xs
      → (slices : List (List A)) × (place_all labels_of xs (replicate n []) ≡ ok slices)
        × (length slices ≡ n)
        × ((j : ℕ) → j < n → get_elem? slices j ≡ some (at_index j xs))
  place_all-replicate xs n h = (
    push_all xs (replicate n []),
    place_all-push_all xs (replicate n []) (rw (length-replicate {A = List A} n []) h),
    length-push_all xs (replicate n []) ∙ length-replicate n [],
    λ j l. get_elem?-push_all xs (replicate n []) j ∙ rw (get_elem?-replicate n j l) refl,
  )
