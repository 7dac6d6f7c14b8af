-- ===== src/Schema/Restarts.antt =====
-- Restarting and failing under the two schemas: UpdateClusterStatus of
-- pkg/controller/cluster_schema/slurm_schema/slurm_schema.go and
-- pkg/controller/cluster_schema/pbspro_schema/pbspro_schema.go.
use kubecluster.Prelude.{
  ℕ, pos, ltb_ℤ, eqb_ℤ, String, Bool, true, false, List, [], ◌∷◌, Option, none, some, ◌≡◌, refl,
  ◌∙◌, ◌⊎◌, inl, inr, arith, Bool-cases, Option-cases, lookup, str_eq,
}
use kubecluster.Types.{
  ClusterCondition, ClusterStatus, ReplicaStatus, ConditionType, ConditionStatus, same_type,
}
use kubecluster.Conditions.{is_failed, new_condition, update_cluster_conditions}
use kubecluster.Conditions.Filter.{occurrences}
use kubecluster.Conditions.Invariant.{IsWellFormed}
use kubecluster.Conditions.Failing.{
  is_failed-set_condition, set_failed-is_failed, set_running-restarting,
}
use kubecluster.World.{Call, Env, State, ◌>>=◌, pure, lift, note, now, get_cluster, set_status}
use kubecluster.World.Keeps.{
  Keeps, Keeps-bind, Keeps-then, Keeps-pure, Keeps-lift, Keeps-if, Keeps-note, Keeps-now,
  Keeps-get_cluster, Keeps-set_status,
}
use kubecluster.Reconcile.Status.{update_conditions}
use kubecluster.Reconcile.Rules.{StableEvents, update_conditions-Keeps}
use kubecluster.Schema.Status.{
  slurm_controller, last_restarting, status_entry, complete_at, mark_failed, restart_or_fail,
  failed_message, settle_failures, pbspro_server, update_pbspro_status, update_slurm_status,
}

-- The status updates make no request and note nothing but events.
module _ {I : List Call → Type 0} (events : StableEvents I) (env : Env) where
  complete_at-Keeps : (status : ClusterStatus) (t : Option ℕ) → Keeps I (complete_at env status t)
  complete_at-Keeps status (some t) = Keeps-pure tt
  complete_at-Keeps status none = Keeps-bind _ _ (Keeps-now env) (λ t. Keeps-set_status _)

  mark_failed-Keeps : (msg : String) → Keeps I (mark_failed env msg)
  unfolding mark_failed
  mark_failed-Keeps msg = Keeps-then _ _ (Keeps-note _ (events _ _ _)) (
      Keeps-bind _ _ Keeps-get_cluster (λ cluster.
        Keeps-then _ _ (complete_at-Keeps cluster.status cluster.status.completion_time)
          (update_conditions-Keeps _ _ _ _ _)))

  restart_or_fail-Keeps :
      (fails : Bool) (msg : String) (c : Option ClusterCondition)
      → Keeps I (restart_or_fail env fails msg c)
  unfolding restart_or_fail
  restart_or_fail-Keeps fails msg (some c) = update_conditions-Keeps _ _ _ _ _
  restart_or_fail-Keeps fails msg none = Keeps-if fails _ _ (mark_failed-Keeps msg) (Keeps-pure tt)

  pub update_slurm_status-Keeps : (rtype : String) → Keeps I (update_slurm_status env rtype)
  unfolding update_slurm_status
  update_slurm_status-Keeps rtype = Keeps-bind _ _ Keeps-get_cluster (λ cluster.
      Keeps-bind _ _ (Keeps-lift _) (λ r.
        Keeps-then _ _ (Keeps-if _ _ _ (update_conditions-Keeps _ _ _ _ _) (Keeps-pure tt)) (
          Keeps-if _ _ _
            (Keeps-bind _ _ Keeps-get_cluster
              (λ c. restart_or_fail-Keeps _ _ (last_restarting c.status.conditions)))
            (Keeps-pure tt))))

last_restarting-none :
    (cs : List ClusterCondition)
    → occurrences ConditionType.restarting cs ≡ 0
    → last_restarting cs ≡ none
unfolding last_restarting
last_restarting-none [] h = refl
last_restarting-none (c ∷ cs) h = elim (Bool-cases (same_type c.type ConditionType.restarting)) [
  | inl e ↦ absurd (ground (arith, h, e))
  | inr e ↦ rw (last_restarting-none cs (ground (arith, h, e)), e)
]

update_conditions-failed :
    (env : Env) (type : ConditionType) (st : ConditionStatus) (reason msg : String) (s : State)
    → same_type type ConditionType.failed ≡ false
    → is_failed (update_conditions env type st reason msg s).1.cluster.status
      ≡ is_failed s.cluster.status
unfolding update_conditions update_cluster_conditions new_condition now get_cluster set_status ◌>>=◌
update_conditions-failed env type st reason msg s h = is_failed-set_condition s.cluster.status _ h

mark_failed-failed :
    (env : Env) (msg : String) (s : State)
    → is_failed (mark_failed env msg s).1.cluster.status ≡ true
unfolding mark_failed update_conditions update_cluster_conditions new_condition note now get_cluster
    set_status ◌>>=◌ pure
mark_failed-failed env msg s = elim (Option-cases s.cluster.status.completion_time) [
  | inl e ↦ rw e (set_failed-is_failed _ _ refl refl)
  | inr (t, e) ↦ rw e (set_failed-is_failed _ _ refl refl)
]

restart_or_fail-spares :
    (env : Env) (msg : String) (c : Option ClusterCondition) (s : State)
    → is_failed (restart_or_fail env false msg c s).1.cluster.status ≡ is_failed s.cluster.status
unfolding restart_or_fail pure
restart_or_fail-spares env msg none s = refl
restart_or_fail-spares env msg (some c) s =
    update_conditions-failed env ConditionType.restarting _ _ _ s (unfold same_type in refl)

settle_failures-spares :
    (env : Env) (b : Bool) (msg : String) (s : State)
    → is_failed (settle_failures env b false msg s).1.cluster.status ≡ is_failed s.cluster.status
unfolding get_cluster ◌>>=◌ pure
settle_failures-spares env true msg s = restart_or_fail-spares env msg _ s
settle_failures-spares env false msg s = refl

-- Failures of replicas other than the controller never fail a slurm cluster.
pub update_slurm_status-worker :
    (env : Env) (rtype : String) (s : State)
    → str_eq rtype slurm_controller ≡ false
    → is_failed (update_slurm_status env rtype s).1.cluster.status ≡ is_failed s.cluster.status
unfolding update_slurm_status status_entry get_cluster ◌>>=◌ lift pure
update_slurm_status-worker env rtype s h =
    elim (Option-cases (lookup rtype s.cluster.status.replica_statuses)) [
      | inl missing ↦ rw missing refl
      | inr (r, found) ↦
          rw (found, h)
            (settle_failures-spares env (ltb_ℤ (pos 0) r.failed)
              (failed_message s.cluster r.failed rtype " replica(s) failed.") s)
    ]

-- Failures of replicas other than the server never fail a PBS Pro cluster.
pub update_pbspro_status-worker :
    (env : Env) (rtype : String) (s : State)
    → str_eq rtype pbspro_server ≡ false
    → is_failed (update_pbspro_status env rtype s).1.cluster.status ≡ is_failed s.cluster.status
unfolding update_pbspro_status status_entry get_cluster ◌>>=◌ lift pure
update_pbspro_status-worker env rtype s h =
    elim (Option-cases (lookup rtype s.cluster.status.replica_statuses)) [
      | inl missing ↦ rw missing refl
      | inr (r, found) ↦
          rw (found, h)
            (settle_failures-spares env (ltb_ℤ (pos 0) r.failed)
              (failed_message s.cluster r.failed rtype " replica(p) failed.") s)
    ]

restarting_spares :
    (env : Env) (fails : Bool) (msg : String) (c : ClusterCondition) (s : State)
    → is_failed (restart_or_fail env fails msg (some c) s).1.cluster.status
      ≡ is_failed s.cluster.status
unfolding restart_or_fail
restarting_spares env fails msg c s =
    update_conditions-failed env ConditionType.restarting _ _ _ s (unfold same_type in refl)

settle_restarting :
    (env : Env) (b fails : Bool) (msg : String) (c : ClusterCondition) (s : State)
    → last_restarting s.cluster.status.conditions ≡ some c
    → is_failed (settle_failures env b fails msg s).1.cluster.status ≡ is_failed s.cluster.status
unfolding get_cluster ◌>>=◌ pure
settle_restarting env true fails msg c s h = rw h (restarting_spares env fails msg c s)
settle_restarting env false fails msg c s h = refl

-- A PBS Pro cluster that is restarting, and whose server has no active pod, does not fail by the status
-- update of the server, however many of its pods have failed.
pub update_pbspro_status-restarting :
    (env : Env) (s : State) (r : ReplicaStatus) (c : ClusterCondition)
    → lookup pbspro_server s.cluster.status.replica_statuses ≡ some r
    → ltb_ℤ (pos 0) r.active ≡ false
    → last_restarting s.cluster.status.conditions ≡ some c
    → is_failed (update_pbspro_status env pbspro_server s).1.cluster.status
      ≡ is_failed s.cluster.status
unfolding update_pbspro_status status_entry get_cluster ◌>>=◌ lift pure
update_pbspro_status-restarting env s r c found idle h =
    rw (found, idle)
      (settle_restarting env (ltb_ℤ (pos 0) r.failed) (str_eq pbspro_server pbspro_server) _ c s h)

running_is_no_failure : same_type ConditionType.running ConditionType.failed ≡ false
unfolding same_type
running_is_no_failure = refl

restart_or_fail-fails :
    (env : Env) (msg : String) (c : Option ClusterCondition) (s : State)
    → (is_failed s.cluster.status ≡ true) ⊎ (c ≡ none)
    → is_failed (restart_or_fail env true msg c s).1.cluster.status ≡ true
unfolding restart_or_fail
restart_or_fail-fails env msg none s h = mark_failed-failed env msg s
restart_or_fail-fails env msg (some c) s (inl e) =
    update_conditions-failed env ConditionType.restarting _ _ _ s (unfold same_type in refl) ∙ e
restart_or_fail-fails env msg (some c) s (inr e) = cc

-- The controller's pod has failed and none is active: a slurm cluster whose conditions are well formed
-- fails, even if its condition is Restarting because the pod is about to be created again.
pub update_slurm_status-controller :
    (env : Env) (s : State) (r : ReplicaStatus)
    → IsWellFormed s.cluster.status
    → lookup slurm_controller s.cluster.status.replica_statuses ≡ some r
    → ltb_ℤ (pos 0) r.failed ≡ true
    → eqb_ℤ r.active (pos 0) ≡ true
    → is_failed (update_slurm_status env slurm_controller s).1.cluster.status ≡ true
unfolding update_slurm_status status_entry update_conditions update_cluster_conditions new_condition
    now get_cluster set_status ◌>>=◌ lift
update_slurm_status-controller env s r h found failed idle =
    rw (found, failed, idle)
      (restart_or_fail-fails env _ _ _ (elim (Bool-cases (is_failed s.cluster.status)) [
        | inl e ↦ inl (is_failed-set_condition s.cluster.status _ running_is_no_failure ∙ e)
        | inr alive ↦
            inr (last_restarting-none _ (set_running-restarting s.cluster.status _ h alive refl))
      ]))
