-- ===== src/World.antt =====
-- The world of a reconciliation. The Kubernetes API server, the clocks and the parts of the client
-- libraries are an environment: each answer may depend on all requests made so far. The state is the
-- cluster that is being reconciled, whose status the code writes, and the requests made.
pub mod Keeps
pub mod Ensures
use kubecluster.Prelude.{ℕ, suc, ◌+◌, ℤ, String, Bool, List, [], ◌∷◌, Option, none, some, Dict}
use kubecluster.Errors.{Error, Result, ok, err, panic}
use kubecluster.Types.{
  Pod, PodTemplate, NewPod, Service, NewService, ConfigMap, OwnerReference, KubeCluster,
  ClusterStatus, PodGroup, ReplicaSpecs,
}

pub data EventType : Type 0 where
  normal warning : EventType

-- What the code does to the world. The expectations of a schema are behind an interface: a call of
-- it stands here too, and `kubecluster.Expectation` says what it does.
pub data Call : Type 0 where
  pod_create : String → NewPod → Call
  pod_delete : String → String → Call
  pod_patch service_patch : String → String → String → Call
  service_create : String → NewService → Call
  service_delete : String → String → Call
  config_map_create : String → ConfigMap → List OwnerReference → Call
  config_map_update : String → ConfigMap → Call
  config_map_delete : String → String → Call
  pod_group_create pod_group_update : PodGroup → Call
  pod_group_delete : String → String → Call
  cluster_delete : String → String → Call
  status_update : KubeCluster → Call
  event : EventType → String → String → Call
  set_expectations : String → ℤ → ℤ → Call
  raise_expectations : String → ℤ → ℤ → Call
  creation_observed deletion_observed : String → Call
  add_after : String → ℤ → Call

-- `calls` has the last call first.
pub record State : Type 0 where
  pub cluster : KubeCluster
  pub calls : List Call
  pub ticks : ℕ

-- The answers of the API server to the requests that read and to those that write, and the clock,
-- whose readings are numbered.
pub record Env : Type 0 where
  pub pod_list : List Call → Dict String → String → Result (List Pod)
  pub service_list : List Call → Dict String → String → Result (List Service)
  pub pod_get : List Call → String → String → Result Pod
  pub service_get : List Call → String → String → Result Service
  pub config_map_get : List Call → String → String → Result ConfigMap
  pub pod_group_get : List Call → String → String → Result PodGroup
  pub priority_class_get : String → Result ℤ
  pub reply : List Call → Call → Result (Unit {0})
  pub clock : ℕ → ℕ

-- A method that reads and writes the state. What was written before an error stays written.
abbrev pub M : Type 0 → Type 0
M A = State → Result A × State

abbrev continue : {A B : Type 0} → Result A → (A → M B) → M B
continue (ok a) f s = f a s
continue (err e) f s = (err e, s)
continue panic f s = (panic, s)

infixl 5 ◌>>=◌ ◌>>◌
unfoldable pub ◌>>=◌ : {A B : Type 0} → M A → (A → M B) → M B
◌>>=◌ m f s = let (r, s') = m s in continue r f s'

abbrev pub ◌>>◌ : {B : Type 0} → M Unit → M B → M B
m >> k = m >>= λ _. k

unfoldable pub pure : {A : Type 0} → A → M A
pure a s = (ok a, s)

unfoldable pub raise : {A : Type 0} → Error → M A
raise e s = (err e, s)

unfoldable pub lift : {A : Type 0} → Result A → M A
lift r s = (r, s)

-- `if err := m; …`: the error is handed on as a value.
abbrev caught : {A : Type 0} → Result A → Result (Result A)
caught (ok a) = ok (ok a)
caught (err e) = ok (err e)
caught panic = panic

unfoldable pub try : {A : Type 0} → M A → M (Result A)
try m s = let (r, s') = m s in (caught r, s')

-- A call that returns nothing to the code.
unfoldable pub note : Call → M Unit
note call s = (ok tt, record s { calls = call ∷ s.calls })

-- A request to the API server, and its answer.
unfoldable pub request : Env → Call → M Unit
request env call s = (env.reply s.calls call, record s { calls = call ∷ s.calls })

unfoldable pub now : Env → M ℕ
now env s = (ok (env.clock s.ticks), record s { ticks = s.ticks + 1 })

unfoldable pub get_cluster : M KubeCluster
get_cluster s = (ok s.cluster, s)

unfoldable pub get_calls : M (List Call)
get_calls s = (ok s.calls, s)

unfoldable pub set_status : ClusterStatus → M Unit
set_status status s = (ok tt, record s { cluster = record s.cluster { status = status } })

-- A change of the replicas' specifications in memory.
unfoldable pub set_specs : ReplicaSpecs → M Unit
set_specs specs s = (
  ok tt,
  record s {
    cluster = record s.cluster { spec = record s.cluster.spec { cluster_replica_spec = specs } };
  },
)

-- The cluster in memory is another one: it was fetched, or copied and changed.
unfoldable pub set_cluster : KubeCluster → M Unit
set_cluster cluster s = (ok tt, record s { cluster = cluster })
