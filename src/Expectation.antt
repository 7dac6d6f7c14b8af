-- ===== src/Expectation.antt =====
-- The expectations of a controller: pkg/controller/expectation/expectation.go and util.go.
pub mod Typed
pub mod Observed
use Prim.Native.String.{◌++◌}
use kubecluster.Prelude.{
  ℕ, ◌-◌, ◌*◌, ℤ, pos, neg, add64, leb_ℤ, ltb, String, Bool, true, false, ◌&&◌, List, [], ◌∷◌,
  Option, none, some, ◌≡◌, Dict, lookup, insert, erase, str_eq, if◌then◌else◌,
}
use kubecluster.Errors.{Error, Result, ok, err, panic, ◌>>=◌}
use kubecluster.Strings.{to_lower}

pub record ControlleeExpectations : Type 0 where
  pub add : ℤ  -- int64
  pub del : ℤ  -- int64
  pub key : String
  pub timestamp : ℕ

-- What the store holds is an `interface{}`: a `*ControlleeExpectations`, or a `bool`.
pub data Item : Type 0 where
  controllee : ControlleeExpectations → Item
  boolean : Bool → Item

-- ExpKeyFunc
exp_key_func : Item → Result String
exp_key_func (controllee e) = ok e.key
exp_key_func (boolean b) = err (Error.other "could not find key for obj")

-- client-go's cache.Store: items under keys, which the key function of the store computes.
pub record Cache : Type 1 where
  pub Store : Type 0
  pub empty : Store
  pub get_by_key : Store → String → Result (Option Item)
  pub put : Store → String → Item → Store
  pub remove : Store → String → Store
  pub get_by_key-empty : (k : String) → get_by_key empty k ≡ ok none
  pub get_by_key-put :
      (s : Store) (j k : String) (x : Item)
      → get_by_key (put s j x) k ≡ (if str_eq j k then ok (some x) else get_by_key s k)
  pub get_by_key-remove :
      (s : Store) (j k : String)
      → get_by_key (remove s j) k ≡ (if str_eq j k then ok none else get_by_key s k)

-- 5 * time.Minute, in nanoseconds
abbrev pub expectations_timeout : ℕ
expectations_timeout = 5 * 60 * 1000000000

-- ControlleeExpectations.Add
pub add_counts : ControlleeExpectations → ℤ → ℤ → ControlleeExpectations
add_counts e add del = record e { add = add64 e.add add; del = add64 e.del del }

fulfilled : ControlleeExpectations → Bool
fulfilled e = leb_ℤ e.add (pos 0) && leb_ℤ e.del (pos 0)

is_expired : ControlleeExpectations → ℕ → Bool
is_expired e now = ltb expectations_timeout (now - e.timestamp)

-- The type assertion `exp.(*ControlleeExpectations)`, which panics on another type.
assert_controllee : Option Item → Result (Option ControlleeExpectations)
assert_controllee none = ok none
assert_controllee (some (controllee e)) = ok (some e)
assert_controllee (some (boolean b)) = panic

-- `preSatisfied, ok := exp.(bool); return preSatisfied && ok`
assert_true : Result (Option Item) → Bool
assert_true (ok (some (boolean b))) = b
assert_true (ok (some (controllee e))) = false
assert_true (ok none) = false
assert_true (err e) = false
assert_true panic = false

-- A controller is synced if its expectations are met or have expired, and if it has none.
is_synced : ℕ → Result (Option ControlleeExpectations) → Result Bool
is_synced now (ok none) = ok true
is_synced now (ok (some e)) =
    ok (if fulfilled e then true else if is_expired e now then true else false)
is_synced now (err e) = ok true
is_synced now panic = panic

module _ (c : Cache) where
  open c use {Store, get_by_key, put, remove}

  -- cache.Store's `Add` under ExpKeyFunc.
  store_add : Store → Item → Result Store
  unfolding exp_key_func
  store_add s x = do key ← exp_key_func x; ok (put s key x)

  get_expectations : Store → String → Result (Option ControlleeExpectations)
  unfolding assert_controllee
  get_expectations s k = get_by_key s k >>= assert_controllee

  pub satisfied_expectations : Store → String → ℕ → Result Bool
  unfolding get_expectations is_synced fulfilled is_expired
  satisfied_expectations s k now = is_synced now (get_expectations s k)

  pub set_expectations : Store → String → ℤ → ℤ → ℕ → Result Store
  unfolding store_add
  set_expectations s k add del now =
      store_add s (controllee (record { add = add; del = del; key = k; timestamp = now }))

  unfoldable expect_creations : Store → String → ℤ → ℕ → Result Store
  unfolding set_expectations
  expect_creations s k adds now = set_expectations s k adds (pos 0) now

  unfoldable expect_deletions : Store → String → ℤ → ℕ → Result Store
  unfolding set_expectations
  expect_deletions s k dels now = set_expectations s k (pos 0) dels now

  -- The counters are changed behind the pointer that the store holds, under the same key.
  change : Store → String → Result (Option ControlleeExpectations) → ℤ → ℤ → Result Store
  unfolding add_counts
  change s k (ok none) add del = ok s
  change s k (ok (some e)) add del = ok (put s k (controllee (add_counts e add del)))
  change s k (err e) add del = ok s
  change s k panic add del = panic

  pub raise_expectations : Store → String → ℤ → ℤ → Result Store
  unfolding change get_expectations
  raise_expectations s k add del = change s k (get_expectations s k) add del

  pub lower_expectations : Store → String → ℤ → ℤ → Result Store
  unfolding change get_expectations
  lower_expectations s k add del = change s k (get_expectations s k) (neg add) (neg del)

  pub creation_observed : Store → String → Result Store
  unfolding lower_expectations
  creation_observed s k = lower_expectations s k (pos 1) (pos 0)

  pub deletion_observed : Store → String → Result Store
  unfolding lower_expectations
  deletion_observed s k = lower_expectations s k (pos 0) (pos 1)

  drop_found : Store → String → Result (Option Item) → Result Store
  unfolding exp_key_func
  drop_found s k (ok (some x)) = elim (exp_key_func x) [
    | ok key ↦ ok (remove s key)
    | err e ↦ ok s
    | panic ↦ panic
  ]
  drop_found s k (ok none) = ok s
  drop_found s k (err e) = ok s
  drop_found s k panic = panic

  pub delete_expectations : Store → String → Result Store
  unfolding drop_found
  delete_expectations s k = drop_found s k (get_by_key s k)

  -- An empty body.
  pub set_pre_satisfied_expectations : Store → String → Bool → Store
  set_pre_satisfied_expectations s k satisfied = s

  pub pre_satisfied_expectations : Store → String → Bool
  unfolding assert_true
  pre_satisfied_expectations s k = assert_true (get_by_key s k)

-- util.go
unfoldable pub gen_expectation_pods_key : String → String → String
gen_expectation_pods_key cluster_key replica_type =
    cluster_key ++ "/" ++ to_lower replica_type ++ "/pods"

unfoldable pub gen_expectation_services_key : String → String → String
gen_expectation_services_key cluster_key replica_type =
    cluster_key ++ "/" ++ to_lower replica_type ++ "/services"

unfoldable pub gen_expectation_config_map_key : String → String
gen_expectation_config_map_key cluster_key = cluster_key ++ "/configmap"

unfoldable pub gen_pre_satisfied_key : String → String
gen_pre_satisfied_key cluster_key = cluster_key ++ "/presatisfied"
