-- ===== src/Slices/Indexed.antt =====
-- Whatever GetPodSlices and GetServiceSlices return (pkg/core/pod.go, pkg/core/service.go), slice i
-- holds only objects that were listed under the label i.
use kubecluster.Prelude.{
  ℕ, zero, suc, ◌+◌, ℤ, pos, String, List, [], ◌∷◌, Dict, ◌≡◌, ◌≢◌, refl, inl, inr, Bool-cases, leb,
  ◌*◌, subst, arith, All, All-append, replicate,
}
use kubecluster.Errors.{Result, ok, err, panic, >>=-eq-ok, ok-injective}
use kubecluster.Labels.{replica_index}
use kubecluster.Slices.{
  append_at_nat, append_at, place, place_all, get_slices, calculate_slice_size, header_bytes,
  allocation_limit, make_slices,
}

-- `Q i x` for every `x` in the slice of index `i`, where the first slice has the given index.
abbrev pub AllAt : {A : Type 0} → (ℕ → A → Type 0) → ℕ → List (List A) → Type 0
AllAt Q i [] = Unit
AllAt Q i (s ∷ ss) = All (Q i) s × AllAt Q (suc i) ss

All-map :
    {A : Type 0} (P Q : A → Type 0) → ((x : A) → P x → Q x) → (xs : List A) → All P xs → All Q xs
All-map P Q f [] h = tt
All-map P Q f (x ∷ xs) h = (f x h.0, All-map P Q f xs h.1)

pub AllAt-map :
    {A : Type 0} (P Q : ℕ → A → Type 0)
    → ((i : ℕ) (x : A) → P i x → Q i x)
    → (i : ℕ) (ss : List (List A)) → AllAt P i ss
    → AllAt Q i ss
AllAt-map P Q f i [] h = tt
AllAt-map P Q f i (s ∷ ss) h = (All-map (P i) (Q i) (f i) s h.0, AllAt-map P Q f (suc i) ss h.1)

pub All-always : {A : Type 0} (P : A → Type 0) → ((x : A) → P x) → (xs : List A) → All P xs
All-always P f [] = tt
All-always P f (x ∷ xs) = (f x, All-always P f xs)

pub AllAt-always :
    {A : Type 0} (Q : ℕ → A → Type 0)
    → ((i : ℕ) (x : A) → Q i x)
    → (i : ℕ) (ss : List (List A)) → AllAt Q i ss
AllAt-always Q f i [] = tt
AllAt-always Q f i (s ∷ ss) = (All-always (Q i) (f i) s, AllAt-always Q f (suc i) ss)

panic_ne_ok : {A : Type 0} (a : A) → panic ≢ ok a
panic_ne_ok a h = cc

module _ {A : Type 0} (Q : ℕ → A → Type 0) where
  append_at_nat-AllAt :
      (i k : ℕ) (x : A) (ss ss' : List (List A))
      → append_at_nat i x ss ≡ ok ss'
      → AllAt Q k ss
      → Q (k + i) x
      → AllAt Q k ss'
  unfolding append_at_nat
  append_at_nat-AllAt i k x [] ss' e h q = cc
  append_at_nat-AllAt zero k x (s ∷ ss) ss' e h q =
      subst (AllAt Q k) (ok-injective e)
        (All-append (Q k) s (x ∷ []) h.0 (subst (λ n. Q n x) (omega arith) q, tt), h.1)
  append_at_nat-AllAt (suc i) k x (s ∷ ss) ss' e h q =
      let (rest, found, is_rest) = >>=-eq-ok (append_at_nat i x ss) (λ r. ok (s ∷ r)) e in
      subst (AllAt Q k) (ok-injective is_rest) (
        h.0,
        append_at_nat-AllAt i (suc k) x ss rest found h.1 (subst (λ n. Q n x) (omega arith) q),
      )

  place-AllAt :
      (r : Result ℤ) (x : A) (ss ss' : List (List A))
      → place r x ss ≡ ok ss'
      → AllAt Q 0 ss
      → ((i : ℕ) → r ≡ ok (pos i) → Q i x)
      → AllAt Q 0 ss'
  unfolding place append_at
  place-AllAt (ok (ℤ.pos i)) x ss ss' e h q =
      append_at_nat-AllAt i 0 x ss ss' e h (subst (λ n. Q n x) (omega arith) (q i refl))
  place-AllAt (ok (ℤ.negsuc i)) x ss ss' e h q = cc
  place-AllAt (err f) x ss ss' e h q = subst (AllAt Q 0) (ok-injective e) h
  place-AllAt panic x ss ss' e h q = cc

  AllAt-replicate : (n i : ℕ) → AllAt Q i (replicate n [])
  AllAt-replicate zero i = tt
  AllAt-replicate (suc n) i = (tt, AllAt-replicate n (suc i))

  make_slices-AllAt : (size : ℤ) (ss : List (List A)) → make_slices size ≡ ok ss → AllAt Q 0 ss
  make_slices-AllAt (ℤ.pos n) ss h = elim (Bool-cases (leb (header_bytes * n) allocation_limit)) [
    | inl e ↦ subst (AllAt Q 0) (ok-injective (rw e at h)) (AllAt-replicate n 0)
    | inr e ↦ absurd (panic_ne_ok ss (rw e at h))
  ]
  make_slices-AllAt (ℤ.negsuc n) ss h = absurd (panic_ne_ok ss h)

module _ {A : Type 0} (labels_of : A → Dict String) (P : A → Type 0) where
  -- Listed, with this index.
  abbrev pub ListedAt : ℕ → A → Type 0
  ListedAt i x = P x × (replica_index (labels_of x) ≡ ok (pos i))

  place_all-AllAt :
      (xs : List A) (ss ss' : List (List A))
      → place_all labels_of xs ss ≡ ok ss'
      → AllAt ListedAt 0 ss
      → All P xs
      → AllAt ListedAt 0 ss'
  unfolding place_all
  place_all-AllAt [] ss ss' e h p = subst (AllAt ListedAt 0) (ok-injective e) h
  place_all-AllAt (x ∷ xs) ss ss' e h p =
      let (mid, placed, rest) =
        >>=-eq-ok (place (replica_index (labels_of x)) x ss) (place_all labels_of xs) e in
      place_all-AllAt xs mid ss' rest
        (place-AllAt ListedAt (replica_index (labels_of x)) x ss mid placed h (λ i l. (p.0, l))) p.1

  pub get_slices-AllAt :
      (xs : List A) (replicas : ℤ) (ss : List (List A))
      → get_slices labels_of xs replicas ≡ ok ss
      → All P xs
      → AllAt ListedAt 0 ss
  unfolding get_slices
  get_slices-AllAt xs replicas ss e p =
      let (made, allocated, placed) =
        >>=-eq-ok (make_slices (calculate_slice_size labels_of xs replicas))
          (place_all labels_of xs) e in
      place_all-AllAt xs made ss placed
        (make_slices-AllAt ListedAt (calculate_slice_size labels_of xs replicas) made allocated) p
