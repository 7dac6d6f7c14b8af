-- ===== src/Expectation/Typed.antt =====
-- What the operations of pkg/controller/expectation/expectation.go leave in the store.
use kubecluster.Prelude.{
  ℕ, ℤ, String, Bool, false, List, [], ◌∷◌, Option, none, some, ◌≡◌, refl, ◌⊎◌, inl, inr, str_eq,
  eq_iff, Bool-cases, ◌∙◌, sym, neg, subst,
}
use kubecluster.Errors.{Result, ok, ◌>>=◌, ok-injective}
use kubecluster.Expectation.{
  Cache, ControlleeExpectations, controllee, Item, add_counts, set_expectations, raise_expectations,
  lower_expectations, delete_expectations, set_pre_satisfied_expectations,
  pre_satisfied_expectations,
}

-- A call of the interface that changes the store.
pub data Op : Type 0 where
  set : String → ℤ → ℤ → ℕ → Op
  raise : String → ℤ → ℤ → Op
  lower : String → ℤ → ℤ → Op
  delete : String → Op
  set_pre_satisfied : String → Bool → Op

module _ (c : Cache) where
  open c use {
    Store, empty, get_by_key, put, remove, get_by_key-empty, get_by_key-put, get_by_key-remove,
  }

  apply : Store → Op → Result Store
  apply s (Op.set k add del now) = set_expectations c s k add del now
  apply s (Op.raise k add del) = raise_expectations c s k add del
  apply s (Op.lower k add del) = lower_expectations c s k add del
  apply s (Op.delete k) = delete_expectations c s k
  apply s (Op.set_pre_satisfied k satisfied) = ok (set_pre_satisfied_expectations c s k satisfied)

  unfoldable pub run : Store → List Op → Result Store
  unfolding apply
  run s [] = ok s
  run s (op ∷ ops) = do s' ← apply s op; run s' ops

  -- Nothing under a key, or expectations of that key.
  abbrev Holds : String → Result (Option Item) → Type 0
  Holds k r =
      (r ≡ ok none) ⊎ ((e : ControlleeExpectations) × (r ≡ ok (some (controllee e))) × (e.key ≡ k))

  pub record IsTyped (s : Store) : Type 0 where
    pub at : (k : String) → Holds k (get_by_key s k)

  pub put-IsTyped :
      (s : Store) (j : String) (e : ControlleeExpectations)
      → e.key ≡ j
      → IsTyped s
      → IsTyped (put s j (controllee e))
  put-IsTyped s j e own h = record {
    at = λ k. elim (Bool-cases (str_eq j k)) [
      | inl same ↦ inr (e, get_by_key-put s j k _ ∙ rw same, own ∙ (eq_iff j k).0 same)
      | inr other ↦ rw (get_by_key-put s j k _) (rw other (h.at k))
    ];
  }

  remove-IsTyped : (s : Store) (j : String) → IsTyped s → IsTyped (remove s j)
  remove-IsTyped s j h = record {
    at = λ k. elim (Bool-cases (str_eq j k)) [
      | inl same ↦ inl (get_by_key-remove s j k ∙ rw same)
      | inr other ↦ rw (get_by_key-remove s j k) (rw other (h.at k))
    ];
  }

  -- An operation does what it is called for: no error, no panic, and a typed store.
  abbrev Succeeds : Result Store → Type 0
  Succeeds r = (s : Store) × (r ≡ ok s) × IsTyped s

  raise-IsTyped :
      (s : Store) (k : String) (add del : ℤ)
      → IsTyped s
      → Succeeds (raise_expectations c s k add del)
  unfolding raise_expectations
  raise-IsTyped s k add del h = elim (h.at k) [
    | inl e ↦ (s, rw e, h)
    | inr (x, e, own) ↦ (_, rw e, put-IsTyped s k (add_counts x add del) own h)
  ]

  lower-IsTyped :
      (s : Store) (k : String) (add del : ℤ)
      → IsTyped s
      → Succeeds (lower_expectations c s k add del)
  unfolding lower_expectations
  lower-IsTyped s k add del h = elim (h.at k) [
    | inl e ↦ (s, rw e, h)
    | inr (x, e, own) ↦ (_, rw e, put-IsTyped s k (add_counts x (neg add) (neg del)) own h)
  ]

  delete-IsTyped : (s : Store) (k : String) → IsTyped s → Succeeds (delete_expectations c s k)
  unfolding delete_expectations
  delete-IsTyped s k h = elim (h.at k) [
    | inl e ↦ (s, rw e, h)
    | inr (x, e, own) ↦ (_, rw e, remove-IsTyped s x.key h)
  ]

  -- On a typed store no operation fails or panics, and the store stays typed.
  apply-IsTyped : (s : Store) (op : Op) → IsTyped s → Succeeds (apply s op)
  unfolding apply set_expectations set_pre_satisfied_expectations
  apply-IsTyped s (Op.set k add del now) h = (_, refl, put-IsTyped s k _ refl h)
  apply-IsTyped s (Op.raise k add del) h = raise-IsTyped s k add del h
  apply-IsTyped s (Op.lower k add del) h = lower-IsTyped s k add del h
  apply-IsTyped s (Op.delete k) h = delete-IsTyped s k h
  apply-IsTyped s (Op.set_pre_satisfied k b) h = (s, refl, h)

  run-IsTyped : (s : Store) (ops : List Op) → IsTyped s → Succeeds (run s ops)
  unfolding run
  run-IsTyped s [] h = (s, refl, h)
  run-IsTyped s (op ∷ ops) h =
      let (s', e, h') = apply-IsTyped s op h in rw e (run-IsTyped s' ops h')

  pub empty-IsTyped : IsTyped empty
  empty-IsTyped = record { at = λ k. inl (get_by_key-empty k) }

  -- Any sequence of operations on a new store goes through: none returns an error, and the
  -- type assertion on what the store holds never panics.
  pub run_total : (ops : List Op) → (s : Store) × (run empty ops ≡ ok s) × IsTyped s
  run_total ops = run-IsTyped empty ops empty-IsTyped

  IsTyped-pre_satisfied :
      (s : Store) (k : String) → IsTyped s → pre_satisfied_expectations c s k ≡ false
  unfolding pre_satisfied_expectations
  IsTyped-pre_satisfied s k h = elim (h.at k) [ inl e ↦ rw e | inr (x, e, own) ↦ rw e ]

  -- Whatever operations have run, `PreSatisfiedExpectations` is false of every key: what
  -- `SetPreSatisfiedExpectations` is given goes nowhere, and no other operation stores a `bool`.
  pub never_pre_satisfied :
      (ops : List Op) (s : Store) (k : String)
      → run empty ops ≡ ok s
      → pre_satisfied_expectations c s k ≡ false
  never_pre_satisfied ops s k e =
      let (s', e', h) = run_total ops in
      IsTyped-pre_satisfied s k (subst IsTyped (ok-injective (sym e' ∙ e)) h)
