-- ===== src/Reconcile/Accounting.antt =====
-- The expected creations against the requests to create: what CreateNewPod, CreateNewService and
-- CreateNewConfigMap of pkg/controller/ctrlcommon leave in the expectations.
pub mod Attempts
pub mod Creations
pub mod Balance
pub mod Whole
use kubecluster.Prelude.{
  ℕ, suc, ◌+◌, ℤ, pos, eqb_ℤ, Bool, true, false, not, List, [], ◌∷◌, ◌≡◌, count, if◌then◌else◌,
}
use kubecluster.Errors.{Error, Result, ok, err, panic, is_timeout}
use kubecluster.World.{Call, Env}

-- `RaiseExpectations(key, 1, 0)`, for any key.
abbrev pub raises_creation : Call → Bool
raises_creation (Call.raise_expectations key add del) = eqb_ℤ add (pos 1)
raises_creation _ = false

abbrev pub observes_creation : Call → Bool
observes_creation (Call.creation_observed key) = true
observes_creation _ = false

-- The server did not refuse: it created the object, or timed out.
abbrev pub is_accepted : Result (Unit {0}) → Bool
is_accepted (err e) = is_timeout e
is_accepted _ = true

-- May this request to create, with this answer, have created its object?
abbrev pub may_create : Call → Result (Unit {0}) → Bool
may_create (Call.pod_create namespace pod) r = is_accepted r
may_create (Call.service_create namespace service) r = is_accepted r
may_create (Call.config_map_create namespace config_map refs) r = is_accepted r
may_create _ r = false

-- The number of those requests.
unfoldable pub may_have_created : Env → List Call → ℕ
may_have_created env [] = 0
may_have_created env (c ∷ calls) =
    let rest = may_have_created env calls in
    if may_create c (env.reply calls c) then suc rest else rest

abbrev pub is_timed_out : Result (Unit {0}) → Bool
is_timed_out (err e) = is_timeout e
is_timed_out _ = false

abbrev pub is_timed_out_service : Call → Result (Unit {0}) → Bool
is_timed_out_service (Call.service_create namespace service) r = is_timed_out r
is_timed_out_service _ r = false

-- The number of requests for services that timed out.
unfoldable pub timed_out_services : Env → List Call → ℕ
timed_out_services env [] = 0
timed_out_services env (c ∷ calls) =
    let rest = timed_out_services env calls in
    if is_timed_out_service c (env.reply calls c) then suc rest else rest

-- The creations that were announced are those that were withdrawn and those whose request may have
-- created, but for the services whose request timed out: these were withdrawn too.
unfoldable pub Balanced : Env → List Call → Type 0
unfolding may_have_created timed_out_services
Balanced env calls =
    count raises_creation calls + timed_out_services env calls
    ≡ count observes_creation calls + may_have_created env calls
