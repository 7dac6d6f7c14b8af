-- ===== src/Slurm/ConfigMaps/Requests.antt =====
-- ReconcileConfigMap of the slurm schema (configmap.go) asks the API server for nothing: it notes events.
use kubecluster.Prelude.{ℕ, zero, suc, ◌==◌, ℤ, not, ◌&&◌, String, List, Option, none, some, lookup}
use kubecluster.Errors.{Result, ok, err, panic}
use kubecluster.Types.{ConfigMap}
use kubecluster.World.{Call, Env}
use kubecluster.World.Keeps.{
  Keeps, Keeps-bind, Keeps-then, Keeps-pure, Keeps-raise, Keeps-lift, Keeps-if, Keeps-note,
  Keeps-get_cluster, Keeps-set_specs, Keeps-now,
}
use kubecluster.Reconcile.Rules.{StableEvents}
use kubecluster.Slurm.{Libraries, slurm_conf_key, munge_key}
use kubecluster.Slurm.Drawn.{gen_random_int31n, draw_other, gen_slurm_random_port, set_slurm_ports}
use kubecluster.Slurm.ConfigMaps.{
  exists, need_reconcile_config_map, ports_or_random, wrap_conf_error, gen_slurm_conf,
  ports_of_conf, put_conf_unless, put_munge_key_unless, reconcile_slurm_config_map,
}

module _ {I : List Call → Type 0} (events : StableEvents I) (lib : Libraries) (env : Env) where
  gen_random_int31n-Keeps : (min max : ℕ) → Keeps I (gen_random_int31n lib env min max)
  unfolding gen_random_int31n
  gen_random_int31n-Keeps min max = Keeps-bind _ _ (Keeps-now env) (λ t. Keeps-pure _)

  draw_other-Keeps : (fuel first : ℕ) → Keeps I (draw_other fuel lib env first)
  unfolding draw_other
  draw_other-Keeps zero first = Keeps-lift panic
  draw_other-Keeps (suc fuel) first =
      Keeps-bind _ _ (gen_random_int31n-Keeps 10000 20000)
        (λ second. Keeps-if (first == second) _ _ (draw_other-Keeps fuel first) (Keeps-pure second))

  gen_slurm_random_port-Keeps : (fuel : ℕ) → Keeps I (gen_slurm_random_port fuel lib env)
  unfolding gen_slurm_random_port
  gen_slurm_random_port-Keeps fuel =
      Keeps-bind _ _ (gen_random_int31n-Keeps 10000 20000)
        (λ first. Keeps-bind _ _ (draw_other-Keeps fuel first) (λ second. Keeps-pure _))

  set_slurm_ports-Keeps : (ctl d : ℤ) → Keeps I (set_slurm_ports ctl d)
  unfolding set_slurm_ports
  set_slurm_ports-Keeps ctl d =
      Keeps-bind _ _ Keeps-get_cluster
        (λ cluster. Keeps-bind _ _ (Keeps-lift _) (λ specs. Keeps-set_specs specs))

  ports_or_random-Keeps : (fuel : ℕ) (r : Result (ℤ × ℤ)) → Keeps I (ports_or_random fuel lib env r)
  unfolding ports_or_random
  ports_or_random-Keeps fuel (ok ports) = Keeps-pure ports
  ports_or_random-Keeps fuel (err e) =
      Keeps-bind _ _ (gen_slurm_random_port-Keeps fuel)
        (λ drawn. Keeps-then _ _ (Keeps-note _ (events _ _ _)) (Keeps-pure _))
  ports_or_random-Keeps fuel panic = Keeps-lift panic

  wrap_conf_error-Keeps : (r : Result String) → Keeps I (wrap_conf_error r)
  unfolding wrap_conf_error
  wrap_conf_error-Keeps (ok conf) = Keeps-pure conf
  wrap_conf_error-Keeps (err e) = Keeps-raise _
  wrap_conf_error-Keeps panic = Keeps-lift panic

  gen_slurm_conf-Keeps : (fuel : ℕ) → Keeps I (gen_slurm_conf fuel lib env)
  unfolding gen_slurm_conf
  gen_slurm_conf-Keeps fuel = Keeps-bind _ _ Keeps-get_cluster (λ cluster.
      Keeps-bind _ _ (ports_or_random-Keeps fuel _) (λ ports.
        Keeps-then _ _ (set_slurm_ports-Keeps ports.0 ports.1)
          (Keeps-bind _ _ Keeps-get_cluster (λ configured. wrap_conf_error-Keeps _))))

  ports_of_conf-Keeps : (conf : Option String) → Keeps I (ports_of_conf conf)
  unfolding ports_of_conf
  ports_of_conf-Keeps none = Keeps-pure tt
  ports_of_conf-Keeps (some conf) =
      Keeps-bind _ _ (Keeps-lift _) (λ ports. set_slurm_ports-Keeps ports.0 ports.1)

  put_conf_unless-Keeps : (fuel : ℕ) (cm : ConfigMap) → Keeps I (put_conf_unless fuel lib env cm)
  unfolding put_conf_unless
  put_conf_unless-Keeps fuel cm =
      Keeps-if (exists slurm_conf_key cm) _ _ (Keeps-pure cm)
        (Keeps-bind _ _ (gen_slurm_conf-Keeps fuel) (λ conf. Keeps-pure _))

  put_munge_key_unless-Keeps :
      (fuel : ℕ) (cm : ConfigMap) → Keeps I (put_munge_key_unless fuel lib env cm)
  unfolding put_munge_key_unless
  put_munge_key_unless-Keeps fuel cm =
      Keeps-if (exists munge_key cm) _ _ (Keeps-pure cm)
        (Keeps-bind _ _ (Keeps-now env) (λ t. Keeps-bind _ _ (Keeps-lift _) (λ key. Keeps-pure _)))

  pub reconcile_slurm_config_map-Keeps :
      (fuel : ℕ) (cm : ConfigMap) → Keeps I (reconcile_slurm_config_map fuel lib env cm)
  unfolding reconcile_slurm_config_map
  reconcile_slurm_config_map-Keeps fuel cm =
      Keeps-then _ _ (ports_of_conf-Keeps (lookup slurm_conf_key cm.contents)) (
        Keeps-if (exists slurm_conf_key cm && not (need_reconcile_config_map cm)) _ _
          (Keeps-pure cm)
          (Keeps-bind _ _ (put_conf_unless-Keeps fuel _) (λ configured.
            Keeps-bind _ _ Keeps-get_cluster (λ cluster.
              Keeps-bind _ _ (Keeps-lift _) (λ names. put_munge_key_unless-Keeps fuel _)))))
