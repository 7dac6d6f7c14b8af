-- ===== src/Reconcile/Rules/Pods.antt =====
-- Invariants of the requests through CreateNewPod (pkg/controller/ctrlcommon/pod.go) and ReconcilePods
-- (pkg/controller/ctrlcommon/service.go).
use kubecluster.Prelude.{
  ℕ, suc, ℤ, pos, leb_ℤ, String, Bool, true, ◌||◌, List, [], ◌∷◌, Option, none, some, ◌≡◌, ap,
  arith, All,
}
use kubecluster.Errors.{ok, ok-injective}
use kubecluster.Types.{
  Pod, PodTemplate, OwnerReference, ReplicaSpec, ConfigMap, KubeCluster, ConditionType,
  ConditionStatus,
}
use kubecluster.Labels.{gen_replica_type_label}
use kubecluster.Slices.{get_pod_slices}
use kubecluster.Slices.Indexed.{AllAt, AllAt-map, ListedAt, get_slices-AllAt}
use kubecluster.World.{Call}
use kubecluster.World.Keeps.{
  Keeps, Keeps-bind, Keeps-bind-lift, Keeps-then, Keeps-pure, Keeps-lift, Keeps-if, Keeps-note,
  Keeps-when, Keeps-get_cluster, Keeps-set_status,
}
use kubecluster.Control.{PodGroupControl, create_pods_with_controller_ref}
use kubecluster.Expectation.{gen_expectation_pods_key}
use kubecluster.Reconcile.Naming.{Ctx, gen_owner_reference}
use kubecluster.Reconcile.Select.{filter_pods_for_replica_type}
use kubecluster.Reconcile.PodCreation.{create_new_pod, announced, decorate_by, decorate}
use kubecluster.Reconcile.Pods.{
  deref, find_exit_code, is_restarted, report_found, report_exit_code, delete_expected, restart_pod,
  count_in_status, reconcile_single_pod, reconcile_pod_slice, reconcile_pod_slices, reconcile_pods,
}
use kubecluster.Reconcile.Rules.{Stable, StableEvents, delete_pod-Keeps, update_conditions-Keeps}

-- What `I` must keep for the pods of a context.
pub record PodRules (ctx : Ctx) (I : List Call → Type 0) : Type 0 where
  pub events : StableEvents I
  pub deletions : (key : String) → Stable I (Call.raise_expectations key (pos 0) (pos 1))
  pub creations :
      (key namespace : String) (template : PodTemplate) (ref : Option OwnerReference)
      → Keeps I (announced key (create_pods_with_controller_ref ctx.env namespace template ref))

deref-some : (o : Option ℤ) (z : ℤ) → deref o ≡ ok z → o ≡ some z
unfolding deref
deref-some (some y) z e = ap some (ok-injective e)
deref-some none z e = cc

module _ {ctx : Ctx} {I : List Call → Type 0} (rules : PodRules ctx I) where
  decorate-Keeps :
      (template : PodTemplate) (cluster : KubeCluster) (rtype : String)
      (gang : Option PodGroupControl)
      → Keeps I (decorate_by gang ctx.gang_keys template cluster rtype)
  unfolding decorate_by
  decorate-Keeps template cluster rtype none = Keeps-pure template
  decorate-Keeps template cluster rtype (some gang) = Keeps-bind _ _ (Keeps-lift _) (λ custom.
      Keeps-then _ _ (Keeps-if custom _ _ (Keeps-note _ (rules.events _ _ _)) (Keeps-pure tt))
        (Keeps-pure _))

  create_new_pod-Keeps :
      (rtype : String) (index : ℕ) (spec : ReplicaSpec) (controller : Bool) (config_map : ConfigMap)
      → Keeps I (create_new_pod ctx rtype index spec controller config_map)
  unfolding create_new_pod decorate
  create_new_pod-Keeps rtype index spec controller config_map =
      Keeps-bind _ _ Keeps-get_cluster (λ cluster. Keeps-bind _ _ (Keeps-lift _) (λ key.
        Keeps-bind _ _ (Keeps-lift _) (λ template.
          Keeps-then _ _ (Keeps-if _ _ _ (Keeps-note _ (rules.events _ _ _)) (Keeps-pure tt)) (
            Keeps-bind _ _ (decorate-Keeps _ cluster rtype ctx.gang) (λ decorated.
              Keeps-bind _ _
                (rules.creations (gen_expectation_pods_key key rtype) cluster.namespace decorated
                  (some (gen_owner_reference cluster)))
                (λ done. Keeps-pure tt))))))

  report_found-Keeps : (pod : Pod) (code : Option ℤ) → Keeps I (report_found pod code)
  report_found-Keeps pod none = Keeps-pure tt
  report_found-Keeps pod (some code) = Keeps-note _ (rules.events _ _ _)

  delete_expected-Keeps :
      (key : String) (pod : Pod)
      → Stable I (Call.pod_delete pod.namespace pod.name)
      → Keeps I (delete_expected ctx key pod)
  unfolding delete_expected
  delete_expected-Keeps key pod h =
      Keeps-then _ _ (delete_pod-Keeps ctx.env rules.events pod.namespace pod.name h)
        (Keeps-note _ (rules.deletions key))

  restart_pod-Keeps :
      (key rtype : String) (pod : Pod)
      → Stable I (Call.pod_delete pod.namespace pod.name)
      → Keeps I (restart_pod ctx key rtype pod)
  unfolding restart_pod
  restart_pod-Keeps key rtype pod h = Keeps-then _ _ (delete_expected-Keeps key pod h) (
      Keeps-bind _ _ Keeps-get_cluster (λ cluster.
        Keeps-then _ _ (Keeps-note _ (rules.events _ _ _))
          (update_conditions-Keeps ctx.env ConditionType.restarting ConditionStatus.cond_true _ _)))

  count_in_status-Keeps : (rtype : String) (pod : Pod) → Keeps I (count_in_status rtype pod)
  unfolding count_in_status
  count_in_status-Keeps rtype pod =
      Keeps-bind _ _ Keeps-get_cluster
        (λ cluster. Keeps-bind _ _ (Keeps-lift _) (λ status. Keeps-set_status status))

  -- May the pod of this index be deleted?
  abbrev Deletes : ReplicaSpec → ℤ → ℕ → Pod → Type 0
  Deletes spec replicas index pod =
      (leb_ℤ replicas (pos index) || is_restarted spec pod) ≡ true
      → Stable I (Call.pod_delete pod.namespace pod.name)

  reconcile_single_pod-Keeps :
      (key rtype : String) (spec : ReplicaSpec) (replicas : ℤ) (index : ℕ) (pod : Pod)
      → Deletes spec replicas index pod
      → Keeps I (reconcile_single_pod ctx key rtype spec replicas index pod)
  unfolding reconcile_single_pod report_exit_code
  reconcile_single_pod-Keeps key rtype spec replicas index pod h =
      Keeps-then _ _
        (Keeps-when (leb_ℤ replicas (pos index)) _
          (λ e. delete_expected-Keeps key pod (h (ground (arith, e)))))
        (Keeps-then _ _ (report_found-Keeps pod (find_exit_code pod.container_statuses)) (
          Keeps-then _ _
            (Keeps-when (is_restarted spec pod) _
              (λ e. restart_pod-Keeps key rtype pod (h (ground (arith, e)))))
            (count_in_status-Keeps rtype pod)))

  reconcile_pod_slice-Keeps :
      (key rtype : String) (spec : ReplicaSpec) (replicas : ℤ) (config_map : ConfigMap) (index : ℕ)
      (slice : List Pod)
      → All (Deletes spec replicas index) slice
      → Keeps I (reconcile_pod_slice ctx key rtype spec replicas config_map index slice)
  unfolding reconcile_pod_slice
  reconcile_pod_slice-Keeps key rtype spec replicas config_map index [] h =
      Keeps-bind _ _ Keeps-get_cluster
        (λ cluster. create_new_pod-Keeps rtype index spec _ config_map)
  reconcile_pod_slice-Keeps key rtype spec replicas config_map index (pod ∷ []) h =
      reconcile_single_pod-Keeps key rtype spec replicas index pod h.0
  reconcile_pod_slice-Keeps key rtype spec replicas config_map index (pod ∷ other ∷ pods) h =
      Keeps-pure tt

  reconcile_pod_slices-Keeps :
      (key rtype : String) (spec : ReplicaSpec) (replicas : ℤ) (config_map : ConfigMap) (index : ℕ)
      (slices : List (List Pod))
      → AllAt (Deletes spec replicas) index slices
      → Keeps I (reconcile_pod_slices ctx key rtype spec replicas config_map index slices)
  unfolding reconcile_pod_slices
  reconcile_pod_slices-Keeps key rtype spec replicas config_map index [] h = Keeps-pure tt
  reconcile_pod_slices-Keeps key rtype spec replicas config_map index (slice ∷ slices) h =
      Keeps-then _ _ (reconcile_pod_slice-Keeps key rtype spec replicas config_map index slice h.0)
        (reconcile_pod_slices-Keeps key rtype spec replicas config_map (suc index) slices h.1)

  -- The pods that are listed satisfy `P`, which with the index decides what may be deleted.
  pub reconcile_pods-Keeps :
      (P : Pod → Type 0) (rtype : String) (spec : ReplicaSpec) (pods : List Pod)
      (config_map : ConfigMap)
      → All P (filter_pods_for_replica_type ctx pods (gen_replica_type_label rtype))
      → ((replicas : ℤ) (index : ℕ) (pod : Pod)
          → spec.replicas ≡ some replicas
          → ListedAt (λ (p : Pod). p.labels) P index pod
          → Deletes spec replicas index pod)
      → Keeps I (reconcile_pods ctx rtype spec pods config_map)
  unfolding reconcile_pods get_pod_slices
  reconcile_pods-Keeps P rtype spec pods config_map listed h =
      Keeps-bind _ _ Keeps-get_cluster (λ cluster. Keeps-bind _ _ (Keeps-lift _) (λ key.
        Keeps-bind-lift (deref spec.replicas) _ (λ replicas found.
          Keeps-then _ _ (Keeps-set_status _) (
            Keeps-bind-lift _ _ (λ slices sorted.
              reconcile_pod_slices-Keeps _ rtype spec replicas config_map 0 slices (
                AllAt-map _ _
                  (λ index pod. h replicas index pod (deref-some spec.replicas replicas found)) 0
                  slices
                  (get_slices-AllAt (λ (p : Pod). p.labels) P _ replicas slices sorted listed)))))))
