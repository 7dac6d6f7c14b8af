-- ===== src/Expectation/Observed.antt =====
-- How observed creations and deletions meet the expectations that were set
-- (pkg/controller/expectation/expectation.go).
use native.Mathlib.Nat.{add-zero, zero-add, add_assoc}
use kubecluster.Prelude.{
  ℕ, suc, ◌+◌, ◌-◌, ◌^◌, ◌≤◌, ◌<◌, ℤ, pos, neg, sub_ℕ, add64, String, false, ◌&&◌, ◌||◌, List, [],
  ◌∷◌, some, ◌≡◌, refl, arith, str_eq, eq_iff, eq_refl, Bool-cases, ◌∙◌, leb, ltb, length, inl, inr,
  if◌then◌else◌,
}
use kubecluster.Errors.{Result, ok, ◌>>=◌}
use kubecluster.Expectation.Typed.{IsTyped, put-IsTyped}
use kubecluster.Expectation.{
  add_counts, Cache, ControlleeExpectations, controllee, expectations_timeout,
  satisfied_expectations, set_expectations, lower_expectations, creation_observed,
  deletion_observed,
}

-- What a watch reports of the objects under a key.
pub data Observation : Type 0 where
  creation : String → Observation
  deletion : String → Observation

abbrev pub creations : String → List Observation → ℕ
creations k [] = 0
creations k (creation j ∷ os) = let rest = creations k os in if str_eq j k then suc rest else rest
creations k (deletion j ∷ os) = creations k os

abbrev pub deletions : String → List Observation → ℕ
deletions k [] = 0
deletions k (creation j ∷ os) = deletions k os
deletions k (deletion j ∷ os) = let rest = deletions k os in if str_eq j k then suc rest else rest

creations-cons :
    (k : String) (o : Observation) (os : List Observation)
    → creations k (o ∷ os) ≡ creations k (o ∷ []) + creations k os
creations-cons k (creation j) os = ground arith
creations-cons k (deletion j) os = omega arith

deletions-cons :
    (k : String) (o : Observation) (os : List Observation)
    → deletions k (o ∷ os) ≡ deletions k (o ∷ []) + deletions k os
deletions-cons k (creation j) os = omega arith
deletions-cons k (deletion j) os = ground arith

-- An observation is counted at most once.
counted_once :
    (k : String) (o : Observation) → (creations k (o ∷ []) ≤ 1) × (deletions k (o ∷ []) ≤ 1)
counted_once k (creation j) = ground arith
counted_once k (deletion j) = ground arith

sub_ℕ-zero : (a : ℕ) → sub_ℕ a 0 ≡ pos a
sub_ℕ-zero a = ground arith

-- One observation lowers an int64 by one.
lower_once : (a n : ℕ) → a < 2 ^ 62 → n < 2 ^ 62 → add64 (sub_ℕ a n) (neg (pos 1)) ≡ sub_ℕ a (n + 1)
unfolding add64
lower_once a n h k = ground arith

keep : (a n : ℕ) → a < 2 ^ 62 → n < 2 ^ 62 → add64 (sub_ℕ a n) (neg (pos 0)) ≡ sub_ℕ a n
unfolding add64
keep a n h k = ground arith

module _ (c : Cache) where
  open c use {Store, get_by_key, put, get_by_key-put}

  observe : Store → Observation → Result Store
  observe s (creation k) = creation_observed c s k
  observe s (deletion k) = deletion_observed c s k

  pub observe_all : Store → List Observation → Result Store
  observe_all s [] = ok s
  observe_all s (o ∷ os) = do s' ← observe s o; observe_all s' os

  abbrev standing : String → ℕ → ℕ → ℕ → ℕ → ℕ → ControlleeExpectations
  standing k a d t n m = record { add = sub_ℕ a n; del = sub_ℕ d m; key = k; timestamp = t }

  -- Under `k` stand `a - n` expected creations and `d - m` expected deletions, set at `t`.
  abbrev Stands : Store → String → ℕ → ℕ → ℕ → ℕ → ℕ → Type 0
  Stands s k a d t n m = get_by_key s k ≡ ok (some (controllee (standing k a d t n m)))

  creation_observed_lem :
      (s : Store) (j : String) → creation_observed c s j ≡ lower_expectations c s j (pos 1) (pos 0)
  unfolding creation_observed
  creation_observed_lem s j = refl

  deletion_observed_lem :
      (s : Store) (j : String) → deletion_observed c s j ≡ lower_expectations c s j (pos 0) (pos 1)
  unfolding deletion_observed
  deletion_observed_lem s j = refl

  module _ (k : String) (a d t : ℕ) (la : a < 2 ^ 62) (ld : d < 2 ^ 62) where
    -- The store stays typed, and `n` and `m` observations are counted under `k`.
    abbrev After : Result Store → ℕ → ℕ → Type 0
    After r n m = (s : Store) × (r ≡ ok s) × IsTyped c s × Stands s k a d t n m

    own_creation :
        (s : Store) (n m : ℕ)
        → n < 2 ^ 62
        → m < 2 ^ 62
        → IsTyped c s
        → Stands s k a d t n m
        → After (creation_observed c s k) (n + 1) m
    unfolding creation_observed
    own_creation s n m ln lm typed h = (
      put s k (controllee (standing k a d t (n + 1) m)),
      rw (h, lower_once a n la ln, keep d m ld lm) refl,
      put-IsTyped c s k _ refl typed,
      get_by_key-put s k k _ ∙ rw (eq_refl k),
    )

    own_deletion :
        (s : Store) (n m : ℕ)
        → n < 2 ^ 62
        → m < 2 ^ 62
        → IsTyped c s
        → Stands s k a d t n m
        → After (deletion_observed c s k) n (m + 1)
    unfolding deletion_observed
    own_deletion s n m ln lm typed h = (
      put s k (controllee (standing k a d t n (m + 1))),
      rw (h, keep a n la ln, lower_once d m ld lm) refl,
      put-IsTyped c s k _ refl typed,
      get_by_key-put s k k _ ∙ rw (eq_refl k),
    )

    other_lowered :
        (s : Store) (j : String) (add del : ℤ) (n m : ℕ)
        → str_eq j k ≡ false
        → IsTyped c s
        → Stands s k a d t n m
        → After (lower_expectations c s j add del) n m
    unfolding lower_expectations
    other_lowered s j add del n m other typed h = elim (typed.at j) [
      | inl e ↦ (s, rw e, typed, h)
      | inr (x, e, own) ↦ (
        put s j (controllee (add_counts x (neg add) (neg del))),
        rw e,
        put-IsTyped c s j _ own typed,
        get_by_key-put s j k _ ∙ rw other h,
      )
    ]

    observe-After :
        (s : Store) (o : Observation) (n m : ℕ)
        → n < 2 ^ 62
        → m < 2 ^ 62
        → IsTyped c s
        → Stands s k a d t n m
        → After (observe s o) (n + creations k (o ∷ [])) (m + deletions k (o ∷ []))
    unfolding observe
    observe-After s (creation j) n m ln lm typed h = elim (Bool-cases (str_eq j k)) [
      | inl same ↦ rw (same, (eq_iff j k).0 same, add-zero) (own_creation s n m ln lm typed h)
      | inr other ↦
          rw other
            (simp (add-zero, creation_observed_lem) (other_lowered s j _ _ n m other typed h))
    ]
    observe-After s (deletion j) n m ln lm typed h = elim (Bool-cases (str_eq j k)) [
      | inl same ↦ rw (same, (eq_iff j k).0 same, add-zero) (own_deletion s n m ln lm typed h)
      | inr other ↦
          rw other
            (simp (add-zero, deletion_observed_lem) (other_lowered s j _ _ n m other typed h))
    ]

    observe_all-After :
        (s : Store) (os : List Observation) (n m : ℕ)
        → n + length os < 2 ^ 62
        → m + length os < 2 ^ 62
        → IsTyped c s
        → Stands s k a d t n m
        → After (observe_all s os) (n + creations k os) (m + deletions k os)
    unfolding observe_all
    observe_all-After s [] n m ln lm typed h = (s, refl, typed, simp add-zero h)
    observe_all-After s (o ∷ os) n m ln lm typed h =
        let (s', e, typed', h') = observe-After s o n m (omega arith) (omega arith) typed h in
        rw e (
          rw (creations-cons k o os, deletions-cons k o os, ← add_assoc, ← add_assoc)
            (observe_all-After s' os (n + creations k (o ∷ [])) (m + deletions k (o ∷ []))
              (omega (arith, (counted_once k o).0)) (omega (arith, (counted_once k o).1)) typed'
              h'))

    satisfied_of_Stands :
        (s : Store) (n m now : ℕ)
        → Stands s k a d t n m
        → satisfied_expectations c s k now
          ≡ ok (leb a n && leb d m || ltb expectations_timeout (now - t))
    unfolding satisfied_expectations
    satisfied_of_Stands s n m now h = rw h (ground arith)

    set_stands : (s : Store) → IsTyped c s → After (set_expectations c s k (pos a) (pos d) t) 0 0
    unfolding set_expectations
    set_stands s typed = (
      put s k (controllee _),
      refl,
      put-IsTyped c s k _ refl typed,
      get_by_key-put s k k _ ∙ rw (eq_refl k, sub_ℕ-zero a, sub_ℕ-zero d) refl,
    )

    -- After expectations of `a` creations and `d` deletions were set at time `t` on a typed store, and
    -- whatever creations and deletions were observed since, of this key and of others, the key is
    -- satisfied at time `now` exactly when at least `a` creations and `d` deletions of this key are
    -- among them, or more than five minutes have passed.
    pub satisfied_after_observations :
        (s : Store) (os : List Observation) (now : ℕ)
        → length os < 2 ^ 62
        → IsTyped c s
        → (s' : Store) × ((do r ← set_expectations c s k (pos a) (pos d) t; observe_all r os)
            ≡ ok s')
          × (satisfied_expectations c s' k now
              ≡ ok (
                  leb a (creations k os) && leb d (deletions k os)
                  || ltb expectations_timeout (now - t)))
    satisfied_after_observations s os now l typed =
        let (r, set, typed', h) = set_stands s typed in
        let (s', e, _, h') = observe_all-After r os 0 0 (omega arith) (omega arith) typed' h in
        (s', rw set e, rw (zero-add, zero-add) at (satisfied_of_Stands s' _ _ now h'))
