-- ===== src/Slurm/Resources.antt =====
-- The resources that a replica requests: getResourceRequestList, getResourceRequest and getGpuQuantity of
-- pkg/controller/cluster_schema/slurm_schema/util.go.
use kubecluster.Prelude.{
  ◌^◌, ℤ, pos, eqb_ℤ, mul64, quot, List, [], ◌∷◌, Option, none, some, Dict, str_eq, if◌then◌else◌,
}
use kubecluster.Errors.{Error, Result, ok, err, ◌>>=◌}
use kubecluster.Types.{Container, ReplicaSpec}
use kubecluster.Strings.{to_lower}
use kubecluster.Strings.Search.{contains}
use kubecluster.Slurm.{Resources, Quantities}

module _ (q : Quantities) where
  add_requests : Resources → List Container → Resources
  add_requests total [] = total
  add_requests total (c ∷ cs) = add_requests (q.add total c.requests) cs

  max_requests : Resources → List Container → Resources
  max_requests total [] = total
  max_requests total (c ∷ cs) = max_requests (q.max total c.requests) cs

  add_overhead : Resources → Resources → Resources
  add_overhead total none = total
  add_overhead total (some overhead) = q.add total (some overhead)

  unfoldable pub get_resource_request_list : ReplicaSpec → Resources
  unfolding add_requests max_requests add_overhead
  get_resource_request_list spec =
      let pod = spec.template.spec in
      add_overhead (max_requests (add_requests (some []) pod.containers) pod.init_containers)
        pod.overhead

  -- The first resource in the order of the list whose name holds `gpu`; it is there, so the second
  -- look-up finds it.
  first_gpu : Dict ℤ → ℤ
  first_gpu [] = pos 0
  first_gpu ((name, amount) ∷ rest) =
      let later = first_gpu rest in if contains (to_lower name) "gpu" then amount else later

  pub get_gpu_quantity : Resources → ℤ
  unfolding first_gpu
  get_gpu_quantity none = pos 0
  get_gpu_quantity (some list) = first_gpu list

  memory_or_default : Resources → Result ℤ
  memory_or_default list =
      if str_eq (q.print (q.memory list)) "0"
      then q.parse "32Gi"
      else q.parse (q.print (q.memory list))

  memory_amount : Option ℤ → Result ℤ
  memory_amount none = err (Error.other "exchange memory to realMemory failed")
  memory_amount (some amount) = ok (quot (mul64 amount (pos 1000)) (2 ^ 30))

  cpus_of : ℤ → ℤ
  cpus_of milli = if eqb_ℤ milli (pos 0) then pos 8 else quot milli 1000

  -- The numbers of cpus, of units of memory and of gpus.
  unfoldable pub get_resource_request : Resources → Result (ℤ × ℤ × ℤ)
  unfolding memory_or_default memory_amount cpus_of get_gpu_quantity
  get_resource_request none =
      err (Error.other "container resource request(cpu or memory or gpu) must be set")
  get_resource_request (some list) = do
    memory ← memory_or_default (some list)
    real_memory ← memory_amount (q.as_int64 memory)
    ok (
      cpus_of (q.milli_value (q.cpu (some list))),
      real_memory,
      quot (q.milli_value (get_gpu_quantity (some list))) 1000,
    )
