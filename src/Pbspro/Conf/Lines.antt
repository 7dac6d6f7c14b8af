-- ===== src/Pbspro/Conf/Lines.antt =====
-- The lines of the three configurations of PBS Pro
-- (pkg/controller/cluster_schema/pbspro_schema/configmap.go).
use Prim.Native.String.{◌++◌, ◌∷◌ as ◌◂◌, char_at}
use kubecluster.Prelude.{String, true, [], ◌∷◌, ◌≡◌, refl, ap, sym, ◌∙◌}
use kubecluster.Types.{KubeCluster}
use kubecluster.Strings.Search.{replace_first, split_on, lacks}
use text.Mathlib.TextLemmas.{append_assoc, cons-append, nil-append}
use kubecluster.Strings.Search.Splitting.{split_on-append, split_on-lacks, lacks-append}
use kubecluster.Strings.Search.Replacing.{replace_first-chain}
use kubecluster.Pbspro.{pbs_exec, server_name}
use kubecluster.Pbspro.Conf.{
  place_holder_pbs_server, place_holder_pbs_start_mom, place_holder_client_host,
  place_holder_pbs_exec, pbs_start_mom_value, pbs_server_conf_template, pbs_worker_conf_template,
  pbs_mom_priv_config_template, gen_server_pbs_conf, gen_worker_pbs_conf, gen_pbs_mom_config,
}

abbrev server_tail : String
server_tail =
    "\nPBS_START_SERVER=1\nPBS_START_SCHED=1\nPBS_START_COMM=1\nPBS_HOME=/var/spool/pbs\nPBS_CORE_LIMIT=unlimited\n"

abbrev worker_tail : String
worker_tail = "\nPBS_START_COMM=1\nPBS_HOME=/var/spool/pbs\n"

abbrev server_text : String → String → String → String
server_text name mom exec =
    "PBS_SERVER=" ++ name ++ "\nPBS_START_MOM=" ++ mom ++ "\nPBS_EXEC=" ++ exec ++ server_tail

abbrev worker_text : String → String → String
worker_text name exec =
    "PBS_SERVER=" ++ name ++ "\nPBS_START_MOM=1\nPBS_EXEC=" ++ exec ++ worker_tail

-- The place holders begin with a dollar, of code 36, which the name of the server lacks.
module _ (name : String) (name_ok : lacks 36 name ≡ true) where
  server_filled :
      replace_first place_holder_pbs_server name pbs_server_conf_template
      ≡ server_text name place_holder_pbs_start_mom place_holder_pbs_exec
  unfolding lacks
  server_filled =
      replace_first-chain (char_at "$" 0) "{PBS_SERVER}" name ("PBS_SERVER=" ∷ []) _ (refl, tt)

  mom_filled :
      replace_first place_holder_pbs_start_mom pbs_start_mom_value
        (server_text name place_holder_pbs_start_mom place_holder_pbs_exec)
      ≡ server_text name pbs_start_mom_value place_holder_pbs_exec
  unfolding lacks
  mom_filled =
      replace_first-chain (char_at "$" 0) "{PBS_START_MOM}" pbs_start_mom_value
        ("PBS_SERVER=" ∷ name ∷ "\nPBS_START_MOM=" ∷ [])
        ("\nPBS_EXEC=" ++ place_holder_pbs_exec ++ server_tail) (refl, (name_ok, (refl, tt)))

  exec_filled :
      replace_first place_holder_pbs_exec pbs_exec
        (server_text name pbs_start_mom_value place_holder_pbs_exec)
      ≡ server_text name pbs_start_mom_value pbs_exec
  unfolding lacks
  exec_filled =
      replace_first-chain (char_at "$" 0) "{PBS_EXEC}" pbs_exec
        ("PBS_SERVER=" ∷ name ∷ "\nPBS_START_MOM=1\nPBS_EXEC=" ∷ []) server_tail
        (refl, (name_ok, (refl, tt)))

  worker_filled :
      replace_first place_holder_pbs_server name pbs_worker_conf_template
      ≡ worker_text name place_holder_pbs_exec
  unfolding lacks
  worker_filled =
      replace_first-chain (char_at "$" 0) "{PBS_SERVER}" name ("PBS_SERVER=" ∷ []) _ (refl, tt)

  worker_exec_filled :
      replace_first place_holder_pbs_exec pbs_exec (worker_text name place_holder_pbs_exec)
      ≡ worker_text name pbs_exec
  unfolding lacks
  worker_exec_filled =
      replace_first-chain (char_at "$" 0) "{PBS_EXEC}" pbs_exec
        ("PBS_SERVER=" ∷ name ∷ "\nPBS_START_MOM=1\nPBS_EXEC=" ∷ []) worker_tail
        (refl, (name_ok, (refl, tt)))

  client_filled :
      replace_first place_holder_client_host name pbs_mom_priv_config_template
      ≡ "$clienthost " ++ name ++ "\n"
  unfolding replace_first lacks
  client_filled =
      ap (λ s. char_at "$" 0 ◂ s)
        (replace_first-chain (char_at "$" 0) "{CLIENT_HOST}" name ("clienthost " ∷ []) "\n"
          (refl, tt))
      ∙ sym (cons-append (char_at "$" 0) "clienthost " (name ++ "\n"))

  server_conf :
      replace_first place_holder_pbs_exec pbs_exec (
        replace_first place_holder_pbs_start_mom pbs_start_mom_value
          (replace_first place_holder_pbs_server name pbs_server_conf_template))
      ≡ server_text name pbs_start_mom_value pbs_exec
  server_conf =
      ap
        (λ t.
          replace_first place_holder_pbs_exec pbs_exec
            (replace_first place_holder_pbs_start_mom pbs_start_mom_value t))
        server_filled
      ∙ ap (λ t. replace_first place_holder_pbs_exec pbs_exec t) mom_filled
      ∙ exec_filled

  worker_conf :
      replace_first place_holder_pbs_exec pbs_exec
        (replace_first place_holder_pbs_server name pbs_worker_conf_template)
      ≡ worker_text name pbs_exec
  worker_conf =
      ap (λ t. replace_first place_holder_pbs_exec pbs_exec t) worker_filled ∙ worker_exec_filled

newline : (rest : String) → "\n" ++ rest ≡ (char_at "\n" 0 ◂ rest)
newline rest = cons-append (char_at "\n" 0) "" rest ∙ ap (λ s. char_at "\n" 0 ◂ s) (nil-append rest)

-- A line that names the server, before other lines.
named_line :
    (head name rest : String)
    → lacks 10 head ≡ true
    → lacks 10 name ≡ true
    → split_on 10 (head ++ name ++ "\n" ++ rest) ≡ (head ++ name) ∷ split_on 10 rest
named_line head name rest h g =
    ap (split_on 10) (sym (append_assoc head name ("\n" ++ rest)))
    ∙ ap (λ t. split_on 10 ((head ++ name) ++ t)) (newline rest)
    ∙ split_on-append 10 (head ++ name) (char_at "\n" 0) rest refl
    ∙ rw (split_on-lacks 10 (head ++ name) (lacks-append 10 head name h g)) refl

-- The lines of the configurations of a cluster.
pub record NamesServer (cluster : KubeCluster) : Type 0 where
  pub server_lines :
      split_on 10 (gen_server_pbs_conf cluster)
      ≡ ("PBS_SERVER=" ++ server_name cluster)
        ∷ "PBS_START_MOM=1"
        ∷ "PBS_EXEC=/opt/pbs"
        ∷ "PBS_START_SERVER=1"
        ∷ "PBS_START_SCHED=1"
        ∷ "PBS_START_COMM=1"
        ∷ "PBS_HOME=/var/spool/pbs"
        ∷ "PBS_CORE_LIMIT=unlimited"
        ∷ ""
        ∷ []
  pub worker_lines :
      split_on 10 (gen_worker_pbs_conf cluster)
      ≡ ("PBS_SERVER=" ++ server_name cluster)
        ∷ "PBS_START_MOM=1"
        ∷ "PBS_EXEC=/opt/pbs"
        ∷ "PBS_START_COMM=1"
        ∷ "PBS_HOME=/var/spool/pbs"
        ∷ ""
        ∷ []
  pub mom_lines :
      split_on 10 (gen_pbs_mom_config cluster) ≡ ("$clienthost " ++ server_name cluster) ∷ "" ∷ []

-- The configurations of a PBS Pro cluster, line by line, when the name of its server pod holds no dollar
-- and no end of line: those of the server and of the workers name that pod as the server, both start
-- pbs_mom, and only the server's starts the server and the scheduler; that of pbs_mom names it as the host
-- of its clients.
pub pbs_conf-NamesServer :
    (cluster : KubeCluster)
    → lacks 36 (server_name cluster) ≡ true
    → lacks 10 (server_name cluster) ≡ true
    → NamesServer cluster
unfolding gen_server_pbs_conf gen_worker_pbs_conf gen_pbs_mom_config split_on lacks
pbs_conf-NamesServer cluster no_dollar no_end =
    let name = server_name cluster in
    record {
      server_lines =
          ap (split_on 10) (server_conf name no_dollar)
          ∙ named_line "PBS_SERVER=" name server_rest refl no_end;
      worker_lines =
          ap (split_on 10) (worker_conf name no_dollar)
          ∙ named_line "PBS_SERVER=" name worker_rest refl no_end;
      mom_lines =
          ap (split_on 10) (client_filled name no_dollar)
          ∙ named_line "$clienthost " name "" refl no_end;
    }
  where
    server_rest : String
    server_rest =
        "PBS_START_MOM=1\nPBS_EXEC=/opt/pbs\nPBS_START_SERVER=1\nPBS_START_SCHED=1\nPBS_START_COMM=1\nPBS_HOME=/var/spool/pbs\nPBS_CORE_LIMIT=unlimited\n"

    worker_rest : String
    worker_rest = "PBS_START_MOM=1\nPBS_EXEC=/opt/pbs\nPBS_START_COMM=1\nPBS_HOME=/var/spool/pbs\n"
