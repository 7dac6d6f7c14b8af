-- ===== src/Tests/Libraries.antt =====
-- Small libraries for the slurm schema's configuration: amounts are whole numbers, a draw is the time
-- modulo the bound, and the template gives one init container.
use kubecluster.Prelude.{
  ◌+◌, ◌%◌, ℤ, pos, mul64, String, Bool, false, [], ◌∷◌, ◌++◌, Option, none, some, lookup, str_eq,
  arith, if◌then◌else◌,
}
use kubecluster.Errors.{Error, ok, err}
use kubecluster.Types.{Container, OwnerReference, KubeCluster}
use kubecluster.Strings.{itoa_ℤ}
use kubecluster.Slurm.{Resources, Quantities, Libraries}
use kubecluster.Slurm.Drawn.Ends.{IsIntn}

abbrev both : Resources → Resources → Resources
both none b = b
both (some a) none = some a
both (some a) (some b) = some (a ++ b)

abbrev amount : String → Resources → ℤ
amount name none = pos 0
amount name (some list) = elim (lookup name list) [ some n ↦ n | none ↦ pos 0 ]

abbrev pub quantities : Quantities
quantities = record {
  add = both;
  max = both;
  memory = amount "memory";
  cpu = amount "cpu";
  print = itoa_ℤ;
  parse = λ text. if str_eq text "32Gi" then ok (pos 32) else ok (pos 64);
  as_int64 = λ n. some n;
  milli_value = λ n. mul64 n (pos 1000);
}

abbrev init_container : Container
init_container = record {
  name = "init-slurm";
  image = "slurm-minimal";
  command = "sh" ∷ [];
  ports = [];
  env = [];
  volume_mounts = [];
  run_as_user = none;
  requests = none;
  limits = none;
}

abbrev pub is_owner : Option OwnerReference → KubeCluster → Bool
is_owner none cluster = false
is_owner (some ref) cluster = str_eq ref.uid cluster.uid

abbrev pub libraries : Libraries
libraries = record {
  quantities = quantities;
  config = record {
    init_container_template_file = "/etc/config/initContainer.yaml";
    init_container_image = "slurm-minimal";
    init_container_max_tries = pos 100;
  };
  intn = λ seed n. seed % n;
  int63 = λ seed k. seed + k;
  read_file = λ name. err (Error.not_found name);
  render = λ template address image tries. ok template;
  unmarshal = λ text. ok (init_container ∷ []);
  is_controlled_by = is_owner;
}

pub libraries-IsIntn : IsIntn libraries
libraries-IsIntn seed n h = omega arith
