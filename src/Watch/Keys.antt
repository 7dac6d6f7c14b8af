-- ===== src/Watch/Keys.antt =====
-- The expectation that a created object lowers is the one that its creation raised
-- (pkg/controller/ctrlcommon/pod.go, pkg/controller/ctrlcommon/service.go, pkg/common/util/reconciler.go).
use kubecluster.Prelude.{
  [], ℕ, ◌≤◌, String, Bool, true, false, List, Option, none, some, ◌≡◌, refl, subst, sym, Dict,
  lookup, str_eq, ◌∙◌,
}
use kubecluster.Errors.{Result, ok, err, panic, ok-injective}
use kubecluster.Types.{
  KubeCluster, PodTemplate, NewPod, NewService, ReplicaSpec, ConfigMap, OwnerReference,
}
use kubecluster.Strings.{itoa}
use kubecluster.Labels.{gen_replica_type_label}
use kubecluster.Expectation.{gen_expectation_pods_key, gen_expectation_services_key}
use kubecluster.World.{Call, State, M, ◌>>=◌, ◌>>◌, pure, lift, note, get_cluster}
use kubecluster.World.Keeps.{
  Keeps, Keeps-bind, Keeps-bind-lift, Keeps-then, Keeps-pure, Keeps-lift, Keeps-if, Keeps-note,
  Keeps-raise,
}
use kubecluster.Control.{
  PodGroupControl, decorate_pod_template_spec, get_pod_from_template, get_service_from_template,
  settle_pod_creation, settle_service_creation, create_pod, create_pods,
  create_pods_with_controller_ref, create_service, create_services,
  create_services_with_controller_ref,
}
use kubecluster.Reconcile.Naming.{Ctx, gen_owner_reference}
use kubecluster.Reconcile.PodCreation.{
  announced, create_new_pod, decorate, decorate_by, named_template, set_restart_policy,
  warn_scheduler,
}
use kubecluster.Reconcile.Services.{new_service, create_new_service}
use kubecluster.Watch.Announced.{
  Since, Since-cons, Since-cons_two, PodsAnnounced, ServicesAnnounced, announced_request-Keeps,
}
use kubecluster.Watch.Observed.{
  ReportsController, cluster_key, PodObserved, ServiceObserved, service-ServiceObserved,
  pod-PodObserved,
}
use kubecluster.Watch.Labelled.{
  occurs, Labelled, OtherKey, named_template-Labelled, decorate_pod_template_spec-Labelled,
}

-- The schema sets no label of a pod.
abbrev pub KeepsLabels : Ctx → Type 0
KeepsLabels ctx =
    (cluster : KubeCluster) (template after : PodTemplate) (rtype index : String)
    (config_map : ConfigMap)
    → ctx.schema.set_cluster_spec cluster template rtype index config_map ≡ ok after
    → after.labels ≡ template.labels

module _ {S : Type 0} (schemas : Dict S) (schema : S)
    (controller_of : List OwnerReference → Option OwnerReference)
    (reports : ReportsController controller_of) (ctx : Ctx) (rtype : String) where
  module _ (cluster : KubeCluster)
      (registered : lookup cluster.spec.cluster_type schemas ≡ some schema)
      (typed : str_eq cluster.spec.cluster_type "" ≡ false)
      (named : str_eq (gen_replica_type_label rtype) "" ≡ false) (before : List Call) where
    abbrev QPod : String → String → NewPod → Type 0
    QPod = PodObserved controller_of schemas cluster.spec.cluster_type

    abbrev QService : String → String → NewService → Type 0
    QService = ServiceObserved controller_of schemas cluster.spec.cluster_type

    abbrev PodI : List Call → Type 0
    PodI = Since before (PodsAnnounced QPod)

    abbrev ServiceI : List Call → Type 0
    ServiceI = Since before (ServicesAnnounced QService)

    announced_pod-Keeps :
        (key : String) (template : PodTemplate)
        → QPod key cluster.namespace
            (get_pod_from_template template (some (gen_owner_reference cluster)))
        → Keeps PodI (
            announced key (
              create_pods_with_controller_ref ctx.env cluster.namespace template
                (some (gen_owner_reference cluster))))
    unfolding create_pods_with_controller_ref create_pods create_pod
    announced_pod-Keeps key template q =
        let pod = get_pod_from_template template (some (gen_owner_reference cluster)) in
        announced_request-Keeps PodI
          (λ t reason message calls h. Since-cons _ (λ later p. (tt, p)) h) ctx.env
          (Call.pod_create cluster.namespace pod) key (settle_pod_creation pod.name)
          (settled pod.name) (λ calls h. Since-cons _ (λ later p. (tt, p)) h)
          (λ calls h. Since-cons _ (λ later p. (tt, p)) h)
          (λ calls h. Since-cons_two _ _ (λ later p. ((refl, refl, q), (tt, p))) h) _ pod.labels _
      where
        settled : (name : String) (r : Result (Unit {0})) → Keeps PodI (settle_pod_creation name r)
        settled name (ok _) = Keeps-note _ (λ calls h. Since-cons _ (λ later p. (tt, p)) h)
        settled name (err e) =
            Keeps-then _ _ (Keeps-note _ (λ calls h. Since-cons _ (λ later p. (tt, p)) h))
              (Keeps-raise e)
        settled name panic = Keeps-lift _

    announced_service-Keeps :
        (key : String) (service : NewService)
        → QService key cluster.namespace
            (get_service_from_template service (some (gen_owner_reference cluster)))
        → Keeps ServiceI (
            announced key (
              create_services_with_controller_ref ctx.env cluster.namespace service
                (some (gen_owner_reference cluster))))
    unfolding create_services_with_controller_ref create_services create_service
    announced_service-Keeps key service q =
        announced_request-Keeps ServiceI
          (λ t reason message calls h. Since-cons _ (λ later p. (tt, p)) h) ctx.env
          (Call.service_create cluster.namespace
            (get_service_from_template service (some (gen_owner_reference cluster))))
          key (settle_service_creation service.name) (settled service.name)
          (λ calls h. Since-cons _ (λ later p. (tt, p)) h)
          (λ calls h. Since-cons _ (λ later p. (tt, p)) h)
          (λ calls h. Since-cons_two _ _ (λ later p. ((refl, refl, q), (tt, p))) h) _ service.labels
          _
      where
        settled :
            (name : String) (r : Result (Unit {0}))
            → Keeps ServiceI (settle_service_creation name r)
        settled name (ok _) = Keeps-note _ (λ calls h. Since-cons _ (λ later p. (tt, p)) h)
        settled name (err e) =
            Keeps-then _ _ (Keeps-note _ (λ calls h. Since-cons _ (λ later p. (tt, p)) h))
              (Keeps-raise _)
        settled name panic = Keeps-lift _

    -- A warning at most, and then the rest on the template.
    warned-Keeps :
        {A : Type 0} (r : Result Bool) (template : PodTemplate) (f : PodTemplate → M A)
        → Keeps PodI (f template)
        → Keeps PodI (lift r >>= (λ custom. warn_scheduler custom >> pure template) >>= f)
    unfolding ◌>>=◌ lift pure note
    warned-Keeps (ok true) template f k = record {
      at = λ s h. k.at _ (Since-cons _ (λ later p. (tt, p)) h);
    }
    warned-Keeps (ok false) template f k = record { at = k.at }
    warned-Keeps (err e) template f k = record { at = λ s h. h }
    warned-Keeps panic template f k = record { at = λ s h. h }

    -- What gang scheduling makes of a template: its labels stay, and it notes no request to create.
    decorated-Keeps :
        {A : Type 0} (template : PodTemplate) (gang : Option PodGroupControl)
        (f : PodTemplate → M A)
        → OtherKey ctx.gang_keys
        → Labelled cluster rtype template.labels
        → ((t : PodTemplate) → Labelled cluster rtype t.labels → Keeps PodI (f t))
        → Keeps PodI (decorate_by gang ctx.gang_keys template cluster rtype >>= f)
    unfolding decorate_by pure ◌>>=◌
    decorated-Keeps template none f other h k = record { at = (k template h).at }
    decorated-Keeps template (some gang) f other h k = warned-Keeps _ _ f (
        k (decorate_pod_template_spec ctx.gang_keys gang template cluster rtype)
          (decorate_pod_template_spec-Labelled cluster rtype ctx.gang_keys gang template other h))

  -- Of the calls that CreateNewPod adds, each request to create a pod stands directly after the
  -- `RaiseExpectations(key, 1, 0)` of a key, and the predicates observe the creation and the deletion of
  -- what was sent, as an object of the API server with any version, under that key and in the schema of the
  -- cluster's type. The type is registered, the replica type has a name, the key of the cluster is its
  -- namespace and name, the schema sets no labels, the template's labels name none twice, the gang
  -- scheduler's label is neither the cluster type's nor the replica type's, and GetControllerOf reports the
  -- one reference that is set to be the controller.
  pub create_new_pod-IsObserved :
      (index : ℕ) (spec : ReplicaSpec) (controller : Bool) (config_map : ConfigMap) (s : State)
      → lookup s.cluster.spec.cluster_type schemas ≡ some schema
      → str_eq s.cluster.spec.cluster_type "" ≡ false
      → str_eq (gen_replica_type_label rtype) "" ≡ false
      → ctx.key_func s.cluster ≡ ok (cluster_key s.cluster)
      → KeepsLabels ctx
      → OtherKey ctx.gang_keys
      → ((asked : String) → occurs asked spec.template.labels ≤ 1)
      → Since s.calls
          (PodsAnnounced (PodObserved controller_of schemas s.cluster.spec.cluster_type))
          (create_new_pod ctx rtype index spec controller config_map s).1.calls
  unfolding create_new_pod decorate set_restart_policy get_cluster ◌>>=◌
  create_new_pod-IsObserved index spec controller config_map s registered typed named keyed kept
        other once =
      (Keeps-bind-lift (ctx.key_func s.cluster) _ (λ key found.
          Keeps-bind-lift _ _ (λ template made.
            Keeps-then _ _
              (Keeps-if _ _ _ (Keeps-note _ (λ calls h. Since-cons _ (λ later p. (tt, p)) h))
                (Keeps-pure tt))
              (decorated-Keeps s.cluster registered typed named s.calls _ ctx.gang _ other
                (subst (Labelled s.cluster rtype)
                  (sym (
                    kept s.cluster (named_template s.cluster rtype index spec controller) template
                      rtype (itoa index) config_map made))
                  (named_template-Labelled s.cluster rtype index spec controller once))
                (λ t labelled.
                  Keeps-bind _ _
                    (announced_pod-Keeps s.cluster registered typed named s.calls
                      (gen_expectation_pods_key key rtype) t
                      (subst
                        (λ k.
                          PodObserved controller_of schemas s.cluster.spec.cluster_type
                            (gen_expectation_pods_key k rtype) s.cluster.namespace
                            (get_pod_from_template t (some (gen_owner_reference s.cluster))))
                        (ok-injective (sym keyed ∙ found))
                        (pod-PodObserved schemas schema controller_of reports rtype s.cluster
                          registered typed named t labelled)))
                    (λ created. Keeps-pure tt)))))).at
        s ([], refl, tt)

  -- Of the calls that CreateNewService adds, each request to create a service stands directly after the
  -- `RaiseExpectations(key, 1, 0)` of a key, and the predicates observe the creation and the deletion of
  -- what was sent, as an object of the API server with any version, under that key and in the schema of the
  -- cluster's type. The type is registered, the replica type has a name, the key of the cluster is its
  -- namespace and name, and GetControllerOf reports the one reference that is set to be the controller.
  pub create_new_service-IsObserved :
      (spec : ReplicaSpec) (index default_container_name : String) (s : State)
      → lookup s.cluster.spec.cluster_type schemas ≡ some schema
      → str_eq s.cluster.spec.cluster_type "" ≡ false
      → str_eq (gen_replica_type_label rtype) "" ≡ false
      → ctx.key_func s.cluster ≡ ok (cluster_key s.cluster)
      → Since s.calls
          (ServicesAnnounced (ServiceObserved controller_of schemas s.cluster.spec.cluster_type))
          (create_new_service ctx rtype spec index default_container_name s).1.calls
  unfolding create_new_service get_cluster ◌>>=◌
  create_new_service-IsObserved spec index default_container_name s registered typed named keyed =
      (Keeps-bind-lift (ctx.key_func s.cluster) _ (λ key found.
          Keeps-bind _ _ (Keeps-lift _) (λ ports.
            Keeps-bind _ _
              (announced_service-Keeps s.cluster registered typed named s.calls
                (gen_expectation_services_key key rtype) (new_service s.cluster rtype index ports)
                (subst
                  (λ k.
                    ServiceObserved controller_of schemas s.cluster.spec.cluster_type
                      (gen_expectation_services_key k rtype) s.cluster.namespace
                      (get_service_from_template (new_service s.cluster rtype index ports)
                        (some (gen_owner_reference s.cluster))))
                  (ok-injective (sym keyed ∙ found))
                  (service-ServiceObserved schemas schema controller_of reports rtype s.cluster
                    registered typed named index ports)))
              (λ created. Keeps-pure tt)))).at
        s ([], refl, tt)
