-- ===== src/Reconcile/Gang/Resources.antt =====
-- The least resources of a pod group: AddResourceList and CalcPGMinResources of
-- pkg/controller/ctrlcommon/util.go.
use kubecluster.Prelude.{
  ℕ, zero, suc, ℤ, pos, pos_part, add32, leb_ℤ, ltb_ℤ, ◌+ℤ◌, String, List, [], ◌∷◌, Option, none,
  some, Dict, lookup, insert, if◌then◌else◌,
}
use kubecluster.Errors.{Result, ok, err, panic}
use kubecluster.Types.{Container, ReplicaSpec, ReplicaSpecs}
use kubecluster.World.{Env}

-- `value.Add(quantity)` under a name.
abbrev add_quantity : Dict ℤ → String → ℤ → Dict ℤ
add_quantity list name quantity = elim (lookup name list) [
  | some value ↦ insert name (value +ℤ quantity) list
  | none ↦ insert name quantity list
]

abbrev add_quantities : Dict ℤ → Dict ℤ → Dict ℤ
add_quantities list [] = list
add_quantities list ((name, quantity) ∷ rest) =
    add_quantities (add_quantity list name quantity) rest

-- AddResourceList: the limits count only where the requests are nil.
add_resource_list : Dict ℤ → Option (Dict ℤ) → Option (Dict ℤ) → Dict ℤ
add_resource_list list (some req) limit = add_quantities list req
add_resource_list list none (some limit) = add_quantities list limit
add_resource_list list none none = list

pub record ReplicaPriority : Type 0 where
  pub priority : ℤ
  pub spec : ReplicaSpec

-- A priority class that cannot be read counts as 0; a nil spec panics.
abbrev priority_or_zero : Result ℤ → ℤ
priority_or_zero (ok value) = value
priority_or_zero _ = pos 0

-- `sort.Sort` by falling priority. Of two equal ones the sort, which is not stable, leaves open which
-- comes first; here it is the one that the map gave first.
insert_by_priority : ReplicaPriority → List ReplicaPriority → List ReplicaPriority
insert_by_priority x [] = x ∷ []
insert_by_priority x (y ∷ ys) =
    let rest = insert_by_priority x ys in
    if ltb_ℤ x.priority y.priority then y ∷ rest else x ∷ y ∷ ys

sort_by_priority : Env → ReplicaSpecs → Result (List ReplicaPriority)
sort_by_priority env [] = ok []
sort_by_priority env ((rtype, none) ∷ specs) = panic
sort_by_priority env ((rtype, some spec) ∷ specs) = elim (sort_by_priority env specs) [
  | ok sorted ↦ ok (
      insert_by_priority
        (record {
          priority =
              priority_or_zero (env.priority_class_get spec.template.spec.priority_class_name);
          spec = spec;
        })
        sorted)
  | err e ↦ err e
  | panic ↦ panic
]

abbrev add_containers : Dict ℤ → List Container → Dict ℤ
add_containers list [] = list
add_containers list (c ∷ cs) = add_containers (add_resource_list list c.requests c.limits) cs

-- The inner loop: `fuel` is the number of replicas that are left, `count` the pods counted so far.
unfoldable pub add_pods_of : ℕ → ℤ → ℤ → List Container → Dict ℤ → ℤ × Dict ℤ
unfolding add_resource_list
add_pods_of zero min_member count containers list = (count, list)
add_pods_of (suc fuel) min_member count containers list =
    let rest =
      add_pods_of fuel min_member (add32 count (pos 1)) containers
        (add_containers list containers) in
    if leb_ℤ min_member count then (count, list) else rest

add_tasks : ℤ → ℤ → List ReplicaPriority → Dict ℤ → Dict ℤ
add_tasks min_member count [] list = list
add_tasks min_member count (task ∷ tasks) list = elim task.spec.replicas [
  | none ↦ add_tasks min_member count tasks list
  | some replicas ↦
      let (count', list') =
        add_pods_of (pos_part replicas) min_member count task.spec.template.spec.containers list in
      add_tasks min_member count' tasks list'
]

unfoldable pub calc_pg_min_resources : Env → ℤ → ReplicaSpecs → Result (Dict ℤ)
unfolding sort_by_priority add_tasks insert_by_priority
calc_pg_min_resources env min_member specs = elim (sort_by_priority env specs) [
  | ok tasks ↦ ok (add_tasks min_member (pos 0) tasks [])
  | err e ↦ err e
  | panic ↦ panic
]
