-- ===== src/Pbspro/Entrypoints.antt =====
-- The scripts that the containers run: genServerCommand, genWorkerCommand and getGeneralCommand of util.go,
-- genPBSServerEntrypoint and genPBSWorkerEntrypoint of configmap.go
-- (pkg/controller/cluster_schema/pbspro_schema).
use Prim.Native.String.{◌++◌}
use kubecluster.Prelude.{pos_part, String, List, [], ◌∷◌, ◌++◌ as ◌+++◌, map}
use kubecluster.Errors.{Result, ok, ◌>>=◌}
use kubecluster.Types.{KubeCluster, ReplicaSpecs}
use kubecluster.Strings.Search.{join, replace_first}
use kubecluster.Slurm.Environment.{replicas_of}
use kubecluster.Slurm.Entrypoints.{and_line}
use kubecluster.Slurm.ConfigMaps.{names_from}
use kubecluster.Pbspro.{
  pbs_sh, pbs_cmd, pbs_exec, pbs_bin, pbs_nodes, pbs_iff, pbs_rcp, pbs_init_shell, share_path,
}

abbrev get_general_command : List String
get_general_command =
    ("if [ -d " ++ share_path ++ " ];then cp -r -p -n " ++ share_path ++ "/* /opt;fi")
    ∷ ("if [ -d " ++ pbs_exec ++ " ];then chmod a+s " ++ pbs_iff ++ " " ++ pbs_rcp ++ ";fi ")
    ∷ ("if [ -e " ++ pbs_init_shell ++ " ];then sh " ++ pbs_init_shell ++ ";fi")
    ∷ ("if [ -e " ++ pbs_sh ++ " ];then chmod +x " ++ pbs_sh ++ " && . " ++ pbs_sh ++ ";fi ")
    ∷ (pbs_cmd ++ " status ")
    ∷ []

abbrev gen_server_command : List String
gen_server_command = "rm -rf /var/spool/pbs" ∷ get_general_command

abbrev gen_worker_command : List String
gen_worker_command = get_general_command +++ "sleep infinity" ∷ []

-- Each command is a line, after an empty line.
and_lines : String → List String → String
and_lines shell [] = shell
and_lines shell (command ∷ commands) = and_lines (and_line shell command) commands

abbrev quoted : String → String
quoted name = "\"" ++ name ++ "\""

-- The quoted names of all pods, of the server too; a nil count panics.
quoted_names : String → ReplicaSpecs → Result (List String)
unfolding replicas_of names_from
quoted_names cluster_name [] = ok []
quoted_names cluster_name ((rtype, spec) ∷ specs) = do
  n ← replicas_of spec
  rest ← quoted_names cluster_name specs
  ok (map quoted (names_from cluster_name rtype 0 (pos_part n)) +++ rest)

abbrev qmgr_create_node_cmds : String
qmgr_create_node_cmds =
    "for node_name in \"${node_names[@]}\"; do\n  node_exists=0\n  \n  while [ $node_exists -eq 0 ]; do\n\techo \"try create node $node_name\"\n    {{.Pbsnodes}} \"$node_name\" > /dev/null 2>&1\n\n    return_code=$?\n    if [ $return_code -eq 0 ]; then\n      echo \"create node $node_name success\"\n      node_exists=1\n    else\n\t  {{.Qmgr}} -c \"create node $node_name\"\n      sleep 5\n    fi\n  done\ndone"

qmgr_create_node_cmd : String
unfolding replace_first
qmgr_create_node_cmd =
    replace_first "{{.Qmgr}}" (pbs_bin ++ "/qmgr")
      (replace_first "{{.Pbsnodes}}" pbs_nodes qmgr_create_node_cmds)

unfoldable pub gen_pbs_server_entrypoint : KubeCluster → Result String
unfolding quoted_names and_lines qmgr_create_node_cmd
gen_pbs_server_entrypoint cluster = do
  names ← quoted_names cluster.name cluster.spec.cluster_replica_spec
  ok (
      and_lines (and_lines "#!/bin/bash\n" gen_server_command)
        (("node_names=(" ++ join " " names ++ ")") ∷ qmgr_create_node_cmd ∷ "sleep infinity" ∷ []))

unfoldable pub gen_pbs_worker_entrypoint : String
unfolding and_lines
gen_pbs_worker_entrypoint = and_lines "#!/bin/bash\n" gen_worker_command
