-- ===== src/Slurm/ConfigMaps/Settled.antt =====
-- What ReconcileConfigMap leaves (pkg/controller/cluster_schema/slurm_schema/configmap.go).
use kubecluster.Prelude.{
  ℕ, String, true, not, ◌&&◌, List, [], ◌∷◌, ◌≡◌, refl, lookup-insert, str_eq, if◌then◌else◌, arith,
  Bool-cases, inl, inr,
}
use kubecluster.Errors.{ok}
use kubecluster.Types.{ConfigMap}
use kubecluster.World.{Env, State, pure}
use kubecluster.World.Ensures.{
  Ensures, Ensures-ok, Ensures-bind, Ensures-any, Ensures-pure, Ensures-cases,
}
use kubecluster.Slurm.{
  Libraries, munge_key, slurm_conf_key, config_map_ready_key, host_net_work_nodes_list_key,
}
use kubecluster.Slurm.ConfigMaps.{
  put, put_binary, exists, put_readiness, put_munge_key_unless, put_conf_unless,
  need_reconcile_config_map, reconcile_slurm_config_map,
}
use kubecluster.Slurm.HostNetwork.{update_slurm_config_map}

-- The config map has the text of slurm.conf, and says whether it is ready.
record IsMade (cm : ConfigMap) : Type 0 where
  has_conf : exists slurm_conf_key cm ≡ true
  has_ready : exists config_map_ready_key cm ≡ true

exists-put :
    (asked key value : String) (cm : ConfigMap)
    → exists asked (put key value cm) ≡ (if str_eq key asked then true else exists asked cm)
unfolding put
exists-put asked key value cm =
    rw (lookup-insert key asked value cm.contents)
      (elim (Bool-cases (str_eq key asked)) [ inl e ↦ rw e refl | inr e ↦ rw e refl ])

put_readiness-IsMade :
    (names : List String) (cm : ConfigMap)
    → exists slurm_conf_key cm ≡ true
    → IsMade (put_readiness names cm)
unfolding put_readiness
put_readiness-IsMade [] cm h = record {
  has_conf = rw (exists-put slurm_conf_key config_map_ready_key "true" cm) h;
  has_ready = exists-put config_map_ready_key config_map_ready_key "true" cm;
}
put_readiness-IsMade (name ∷ names) cm h = record {
  has_conf =
      rw
        (
          exists-put slurm_conf_key host_net_work_nodes_list_key _
              (put config_map_ready_key "false" cm),
          exists-put slurm_conf_key config_map_ready_key "false" cm,
        )
        h;
  has_ready =
      rw
        (
          exists-put config_map_ready_key host_net_work_nodes_list_key _
              (put config_map_ready_key "false" cm),
          exists-put config_map_ready_key config_map_ready_key "false" cm,
        )
        refl;
}

put_munge_key_unless-IsMade :
    (fuel : ℕ) (lib : Libraries) (env : Env) (cm : ConfigMap)
    → IsMade cm
    → Ensures IsMade (put_munge_key_unless fuel lib env cm)
unfolding put_munge_key_unless put_binary
put_munge_key_unless-IsMade fuel lib env cm h =
    Ensures-cases (exists munge_key cm) _ _ (λ e. Ensures-pure cm h)
      (λ e. Ensures-bind _ _ (Ensures-any _) (λ t u.
        Ensures-bind _ _ (Ensures-any _)
          (λ key v. Ensures-pure _ (record { has_conf = h.has_conf; has_ready = h.has_ready }))))

put_conf_unless-exists :
    (fuel : ℕ) (lib : Libraries) (env : Env) (cm : ConfigMap)
    → Ensures
        (λ (made : ConfigMap). exists slurm_conf_key made ≡ true)
        (put_conf_unless fuel lib env cm)
unfolding put_conf_unless
put_conf_unless-exists fuel lib env cm =
    Ensures-cases (exists slurm_conf_key cm) _ _ (λ e. Ensures-pure cm e)
      (λ e.
        Ensures-bind _ _ (Ensures-any _)
          (λ conf u. Ensures-pure _ (exists-put slurm_conf_key slurm_conf_key conf cm)))

reconcile-IsMade :
    (fuel : ℕ) (lib : Libraries) (env : Env) (cm : ConfigMap)
    → Ensures IsMade (reconcile_slurm_config_map fuel lib env cm)
unfolding reconcile_slurm_config_map need_reconcile_config_map
reconcile-IsMade fuel lib env cm = Ensures-bind _ _ (Ensures-any _) (λ u v.
    Ensures-cases (exists slurm_conf_key cm && not (need_reconcile_config_map cm)) _ _
      (λ e.
        Ensures-pure cm (record { has_conf = ground (arith, e); has_ready = ground (arith, e) }))
      (λ e. Ensures-bind _ _ (put_conf_unless-exists fuel lib env _) (λ configured h.
        Ensures-bind _ _ (Ensures-any _) (λ cluster w. Ensures-bind _ _ (Ensures-any _) (λ names x.
          put_munge_key_unless-IsMade fuel lib env _ (put_readiness-IsMade names configured h))))))

-- UpdateConfigMap changes nothing of a config map that ReconcileConfigMap has returned, whatever its pods
-- are: the key `ready`, which keeps it from the update, is always there. So a cluster with replicas on the
-- host's network keeps the value false under it.
pub update_slurm_config_map-reconciled :
    (fuel : ℕ) (lib : Libraries) (env : Env) (cm made : ConfigMap) (s s' later : State)
    → reconcile_slurm_config_map fuel lib env cm s ≡ (ok made, s')
    → update_slurm_config_map lib env made later ≡ (ok made, later)
unfolding update_slurm_config_map pure
update_slurm_config_map-reconciled fuel lib env cm made s s' later e =
    let h = Ensures-ok (reconcile-IsMade fuel lib env cm) s s' e in rw h.has_ready refl
