-- ===== src/Pbspro/ConfigMaps/Filled.antt =====
-- What ReconcileConfigMap writes into the config map of a PBS Pro cluster
-- (pkg/controller/cluster_schema/pbspro_schema/configmap.go).
use kubecluster.Prelude.{
  String, true, [], ◌∷◌, Option, none, some, ◌≡◌, refl, sym, ◌∙◌, subst, Dict, lookup,
  lookup-insert, str_eq, if◌then◌else◌, Bool-cases, inl, inr, eq_iff,
}
use kubecluster.Errors.{ok}
use kubecluster.Types.{ConfigMap, KubeCluster}
use kubecluster.World.{Env, State, ◌>>=◌, pure, lift, get_cluster}
use kubecluster.Slurm.ConfigMaps.{put, put_unless, exists}
use kubecluster.Pbspro.{
  pbs_server_conf_key, pbs_worker_conf_key, pbs_mom_config_key, server_entrypoint,
  pbs_worker_entrypoint,
}
use kubecluster.Pbspro.Conf.{gen_server_pbs_conf, gen_worker_pbs_conf, gen_pbs_mom_config}
use kubecluster.Pbspro.Entrypoints.{gen_pbs_server_entrypoint, gen_pbs_worker_entrypoint}
use kubecluster.Pbspro.ConfigMaps.{
  is_need_reconcile_config_map, put_configurations, put_server_entrypoint_unless,
  reconcile_pbspro_config_map,
}

-- What is there already comes first.
abbrev pub or_else : Option String → Option String → Option String
or_else (some v) w = some v
or_else none w = w

-- The texts that the schema has for a cluster, by their keys.
abbrev pub texts : KubeCluster → String → Dict String
texts cluster script =
    (pbs_server_conf_key, gen_server_pbs_conf cluster)
    ∷ (pbs_worker_conf_key, gen_worker_pbs_conf cluster)
    ∷ (pbs_mom_config_key, gen_pbs_mom_config cluster)
    ∷ (server_entrypoint, script)
    ∷ (pbs_worker_entrypoint, gen_pbs_worker_entrypoint)
    ∷ []

-- Each key reads as before; a key without a value reads as the schema's text for it, if there is one.
pub record IsFilled (cluster : KubeCluster) (script : String) (before after : ConfigMap)
    : Type 0 where
  pub reads :
      (key : String)
      → lookup key after.contents
        ≡ or_else (lookup key before.contents) (lookup key (texts cluster script))
  pub binary : after.binary_contents ≡ before.binary_contents

or_else_none : (x : Option String) → or_else x none ≡ x
or_else_none (some v) = refl
or_else_none none = refl

or_else_assoc : (x y z : Option String) → or_else (or_else x y) z ≡ or_else x (or_else y z)
or_else_assoc (some v) y z = refl
or_else_assoc none y z = refl

lookup_at :
    (key asked : String) (d : Dict String) (found : Option String)
    → lookup key d ≡ found
    → str_eq key asked ≡ true
    → lookup asked d ≡ found
lookup_at key asked d found e h = subst (λ k. lookup k d ≡ found) ((eq_iff key asked).0 h) e

lookup-put_unless :
    (key value asked : String) (cm : ConfigMap)
    → lookup asked (put_unless key value cm).contents
      ≡ or_else (lookup asked cm.contents) (if str_eq key asked then some value else none)
unfolding put_unless put
lookup-put_unless key value asked cm = by_found (lookup key cm.contents) refl
  where
    by_found :
        (found : Option String)
        → lookup key cm.contents ≡ found
        → lookup asked (put_unless key value cm).contents
          ≡ or_else (lookup asked cm.contents) (if str_eq key asked then some value else none)
    by_found none e = elim (Bool-cases (str_eq key asked)) [
      | inl h ↦
          rw
            (
              e,
              lookup-insert key asked value cm.contents,
              h,
              lookup_at key asked cm.contents none e h,
            )
            refl
      | inr h ↦
          rw
            (
              e,
              lookup-insert key asked value cm.contents,
              h,
              or_else_none (lookup asked cm.contents),
            )
            refl
    ]
    by_found (some v) e = elim (Bool-cases (str_eq key asked)) [
      | inl h ↦ rw (e, h, lookup_at key asked cm.contents (some v) e h) refl
      | inr h ↦ rw (e, h, or_else_none (lookup asked cm.contents)) refl
    ]

-- One write after the other.
put_all : Dict String → ConfigMap → ConfigMap
put_all [] cm = cm
put_all ((key, value) ∷ entries) cm = put_all entries (put_unless key value cm)

lookup-put_all :
    (entries : Dict String) (asked : String) (cm : ConfigMap)
    → lookup asked (put_all entries cm).contents
      ≡ or_else (lookup asked cm.contents) (lookup asked entries)
unfolding put_all lookup
lookup-put_all [] asked cm = sym (or_else_none (lookup asked cm.contents))
lookup-put_all ((key, value) ∷ entries) asked cm =
    rw
      (
        lookup-put_all entries asked (put_unless key value cm),
        lookup-put_unless key value asked cm,
        or_else_assoc (lookup asked cm.contents) (if str_eq key asked then some value else none)
            (lookup asked entries),
      )
      (elim (Bool-cases (str_eq key asked)) [ inl e ↦ rw e refl | inr e ↦ rw e refl ])

binary-put_all :
    (entries : Dict String) (cm : ConfigMap)
    → (put_all entries cm).binary_contents ≡ cm.binary_contents
unfolding put_all put_unless put
binary-put_all [] cm = refl
binary-put_all ((key, value) ∷ entries) cm = elim (Bool-cases (exists key cm)) [
  | inl e ↦ binary-put_all entries (put_unless key value cm) ∙ rw e refl
  | inr e ↦ binary-put_all entries (put_unless key value cm) ∙ rw e refl
]

module _ (cluster : KubeCluster) (script : String)
    (scripted : gen_pbs_server_entrypoint cluster ≡ ok script) where
  put_server_entrypoint_unless-ok :
      (cm : ConfigMap) (s : State)
      → put_server_entrypoint_unless cluster cm s ≡ (ok (put_unless server_entrypoint script cm), s)
  unfolding put_server_entrypoint_unless put_unless ◌>>=◌ lift pure
  put_server_entrypoint_unless-ok cm s = elim (Bool-cases (exists server_entrypoint cm)) [
    | inl e ↦ rw e refl
    | inr e ↦ rw (e, scripted) refl
  ]

-- When a config map lacks pbs.conf or the configuration of pbs_mom, and every replica type has a count, as
-- the server's script could be made, ReconcileConfigMap returns it with the schema's texts under the keys
-- that had none, and every other key and the binary data as they were; no request is made.
pub reconcile_pbspro_config_map-IsFilled :
    (env : Env) (cm : ConfigMap) (script : String) (s : State)
    → is_need_reconcile_config_map cm ≡ true
    → gen_pbs_server_entrypoint s.cluster ≡ ok script
    → (made : ConfigMap) × (reconcile_pbspro_config_map env cm s ≡ (ok made, s))
      × IsFilled s.cluster script cm made
unfolding reconcile_pbspro_config_map put_configurations put_all ◌>>=◌ get_cluster pure
reconcile_pbspro_config_map-IsFilled env cm script s needed scripted =
    let entries = texts s.cluster script in
    (
      put_all entries cm,
      rw
          (
            needed,
            put_server_entrypoint_unless-ok s.cluster script scripted
                (put_configurations s.cluster cm) s,
          )
          refl,
      record { reads = λ key. lookup-put_all entries key cm; binary = binary-put_all entries cm },
    )
