-- ===== src/Pbspro/ConfigMaps/Settled.antt =====
-- What a second ReconcileConfigMap does to the config map of a PBS Pro cluster
-- (pkg/controller/cluster_schema/pbspro_schema/configmap.go).
use kubecluster.Prelude.{
  String, true, false, ◌≡◌, refl, lookup-insert, str_eq, eq_refl, ◌⊎◌, Bool-cases, inl, inr,
}
use kubecluster.Errors.{ok}
use kubecluster.Types.{ConfigMap, KubeCluster}
use kubecluster.World.{Env, State, ◌>>=◌, get_cluster, pure}
use kubecluster.World.Ensures.{
  Ensures, Ensures-ok, Ensures-bind, Ensures-any, Ensures-pure, Ensures-cases,
}
use kubecluster.Slurm.ConfigMaps.{put, put_unless, exists}
use kubecluster.Pbspro.{
  pbs_server_conf_key, pbs_worker_conf_key, pbs_mom_config_key, server_entrypoint,
  pbs_worker_entrypoint,
}
use kubecluster.Pbspro.ConfigMaps.{
  is_need_reconcile_config_map, put_configurations, put_server_entrypoint_unless,
  reconcile_pbspro_config_map,
}

-- The keys before the server's script.
record IsConfigured (cm : ConfigMap) : Type 0 where
  server : exists pbs_server_conf_key cm ≡ true
  workers : exists pbs_worker_conf_key cm ≡ true
  mom : exists pbs_mom_config_key cm ≡ true

record IsScripted (cm : ConfigMap) : Type 0 where
  configured : IsConfigured cm
  script : exists server_entrypoint cm ≡ true

record IsComplete (cm : ConfigMap) : Type 0 where
  scripted : IsScripted cm
  worker_script : exists pbs_worker_entrypoint cm ≡ true

exists-put_self : (key value : String) (cm : ConfigMap) → exists key (put key value cm) ≡ true
unfolding put
exists-put_self key value cm = rw (lookup-insert key key value cm.contents, eq_refl key) refl

exists-put :
    (asked key value : String) (cm : ConfigMap)
    → exists asked cm ≡ true
    → exists asked (put key value cm) ≡ true
unfolding put
exists-put asked key value cm h =
    rw (lookup-insert key asked value cm.contents)
      (elim (Bool-cases (str_eq key asked)) [ inl e ↦ rw e refl | inr e ↦ rw e h ])

exists-put_unless_self :
    (key value : String) (cm : ConfigMap) → exists key (put_unless key value cm) ≡ true
unfolding put_unless
exists-put_unless_self key value cm = elim (Bool-cases (exists key cm)) [
  | inl e ↦ rw (e, e) refl
  | inr e ↦ rw e (exists-put_self key value cm)
]

exists-put_unless :
    (asked key value : String) (cm : ConfigMap)
    → exists asked cm ≡ true
    → exists asked (put_unless key value cm) ≡ true
unfolding put_unless
exists-put_unless asked key value cm h = elim (Bool-cases (exists key cm)) [
  | inl e ↦ rw (e, h) refl
  | inr e ↦ rw e (exists-put asked key value cm h)
]

put_configurations-IsConfigured :
    (cluster : KubeCluster) (cm : ConfigMap) → IsConfigured (put_configurations cluster cm)
unfolding put_configurations
put_configurations-IsConfigured cluster cm = record {
  server = exists-put_unless pbs_server_conf_key pbs_mom_config_key _ _ (
      exists-put_unless pbs_server_conf_key pbs_worker_conf_key _ _
        (exists-put_unless_self pbs_server_conf_key _ cm));
  workers =
      exists-put_unless pbs_worker_conf_key pbs_mom_config_key _ _
        (exists-put_unless_self pbs_worker_conf_key _ _);
  mom = exists-put_unless_self pbs_mom_config_key _ _;
}

put_server_entrypoint_unless-IsScripted :
    (cluster : KubeCluster) (cm : ConfigMap)
    → IsConfigured cm
    → Ensures IsScripted (put_server_entrypoint_unless cluster cm)
unfolding put_server_entrypoint_unless
put_server_entrypoint_unless-IsScripted cluster cm h =
    Ensures-cases (exists server_entrypoint cm) _ _
      (λ e. Ensures-pure cm (record { configured = h; script = e }))
      (λ e. Ensures-bind _ _ (Ensures-any _) (λ script u. Ensures-pure _ (record {
        configured = record {
          server = exists-put pbs_server_conf_key server_entrypoint script cm h.server;
          workers = exists-put pbs_worker_conf_key server_entrypoint script cm h.workers;
          mom = exists-put pbs_mom_config_key server_entrypoint script cm h.mom;
        };
        script = exists-put_self server_entrypoint script cm;
      })))

put_worker_entrypoint-IsComplete :
    (value : String) (cm : ConfigMap)
    → IsScripted cm
    → IsComplete (put_unless pbs_worker_entrypoint value cm)
put_worker_entrypoint-IsComplete value cm h =
    let kept = exists-put_unless_to value cm in
    record {
      scripted = record {
        configured = record {
          server = kept pbs_server_conf_key h.configured.server;
          workers = kept pbs_worker_conf_key h.configured.workers;
          mom = kept pbs_mom_config_key h.configured.mom;
        };
        script = kept server_entrypoint h.script;
      };
      worker_script = exists-put_unless_self pbs_worker_entrypoint value cm;
    }
  where
    exists-put_unless_to :
        (value : String) (cm : ConfigMap) (asked : String)
        → exists asked cm ≡ true
        → exists asked (put_unless pbs_worker_entrypoint value cm) ≡ true
    exists-put_unless_to value cm asked = exists-put_unless asked pbs_worker_entrypoint value cm

-- What ReconcileConfigMap returns is complete, or was found to need nothing.
Settles : ConfigMap → Type 0
Settles cm = IsComplete cm ⊎ (is_need_reconcile_config_map cm ≡ false)

reconcile-Settles :
    (env : Env) (cm : ConfigMap) → Ensures Settles (reconcile_pbspro_config_map env cm)
unfolding reconcile_pbspro_config_map Settles
reconcile-Settles env cm =
    Ensures-cases (is_need_reconcile_config_map cm) _ _
      (λ e. Ensures-bind _ _ (Ensures-any _) (λ cluster u.
        Ensures-bind _ _
          (put_server_entrypoint_unless-IsScripted cluster _
            (put_configurations-IsConfigured cluster cm))
          (λ scripted h. Ensures-pure _ (inl (put_worker_entrypoint-IsComplete _ scripted h)))))
      (λ e. Ensures-pure cm (inr e))

complete_is_kept :
    (env : Env) (cm : ConfigMap) (s : State)
    → IsComplete cm
    → reconcile_pbspro_config_map env cm s ≡ (ok cm, s)
unfolding reconcile_pbspro_config_map put_configurations put_server_entrypoint_unless put_unless
    ◌>>=◌ get_cluster pure
complete_is_kept env cm s h =
    let c = h.scripted.configured in
    elim (Bool-cases (is_need_reconcile_config_map cm)) [
      | inl e ↦ rw (e, c.server, c.workers, c.mom, h.scripted.script, h.worker_script) refl
      | inr e ↦ rw e refl
    ]

-- A config map that ReconcileConfigMap has returned is returned as it is by the next ReconcileConfigMap, in
-- any state of the cluster: a change of its replica types or of their counts does not reach the server's
-- script any more.
pub reconcile_pbspro_config_map_idem :
    (env : Env) (cm made : ConfigMap) (s s' later : State)
    → reconcile_pbspro_config_map env cm s ≡ (ok made, s')
    → reconcile_pbspro_config_map env made later ≡ (ok made, later)
unfolding reconcile_pbspro_config_map Settles pure
reconcile_pbspro_config_map_idem env cm made s s' later e =
    elim (Ensures-ok (reconcile-Settles env cm) s s' e) [
      | inl complete ↦ complete_is_kept env made later complete
      | inr settled ↦ rw settled refl
    ]
