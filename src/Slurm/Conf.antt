-- ===== src/Slurm/Conf.antt =====
-- The text of slurm.conf: slurmConfTemplate, createSlurmConf and what it calls, in
-- pkg/controller/cluster_schema/slurm_schema/configmap.go.
pub mod Nodes
pub mod Filled
pub mod Reading
pub mod ReadBack
use Prim.Native.String.{◌++◌}
use kubecluster.Prelude.{
  ℕ, zero, suc, ℤ, pos_part, String, List, [], ◌∷◌, Option, none, some, str_eq, if◌then◌else◌,
}
use kubecluster.Errors.{Result, ok, panic, ◌>>=◌}
use kubecluster.Types.{ReplicaSpec, ReplicaSpecs, KubeCluster}
use kubecluster.Strings.{itoa, itoa_ℤ}
use kubecluster.Strings.Search.{replace_first}
use kubecluster.Labels.{gen_general_name}
use kubecluster.Schema.Status.{slurm_controller}
use kubecluster.Slurm.{Quantities, spool_dir}
use kubecluster.Slurm.Resources.{get_resource_request_list, get_resource_request}

abbrev pub place_holder_cluster_name : String
place_holder_cluster_name = "${CLUSTER_NAME}"

abbrev pub place_holder_control_machine : String
place_holder_control_machine = "${CONTROL_MACHINE}"

abbrev pub place_holder_control_addr : String
place_holder_control_addr = "${CONTROL_ADDRESS}"

abbrev pub place_holder_slurmctld_port : String
place_holder_slurmctld_port = "${SLURMCTLD_PORT}"

abbrev pub place_holder_slurmd_port : String
place_holder_slurmd_port = "${slurmd_port}"

-- The template in three parts: up to the names, up to the ports, and the rest.
abbrev pub template_head : String
template_head =
    "#\n# slurm.conf file. Please run configurator.html\n# (in doc/html) to build a configuration file customized\n# for your environment.\n#\n#\n# slurm.conf file generated by configurator.html.\n# Put this file on all nodes of your cluster.\n# See the slurm.conf man page for more information.\n#\n################################################\n#                   CONTROL                    #\n################################################"

abbrev pub template_paths : String
template_paths =
    "\n################################################\n#            LOGGING & OTHER PATHS             #\n################################################\nSlurmctldPidFile=/var/run/slurmctld.pid \nSlurmdPidFile=/var/run/slurmd.pid \nSlurmctldDebug=3 \nSlurmdDebug=3 "

abbrev pub template_tail : String
template_tail =
    "SlurmdSpoolDir=/var/spool/slurmd \nSlurmdUser=root \nStateSaveLocation=/var/spool \n\n################################################\n#           SCHEDULING & ALLOCATION            #\n################################################\nSchedulerType=sched/backfill \nSelectType=select/cons_tres \nSelectTypeParameters=CR_Core_Memory \n\n################################################\n#                    OTHER                     #\n################################################\nMpiDefault=none \nSwitchType=switch/none \nProctrackType=proctrack/pgid \nReturnToService=1 \nTaskPlugin=task/none \n################################################\n#                  ACCOUNTING                  #\n################################################\nAccountingStorageType=accounting_storage/none \njobAcctGatherType=jobacct_gather/none \nGresTypes=gpu \n"

-- The template with five texts in the places of the place holders.
abbrev pub filled_in : String → String → String → String → String → String
filled_in name machine address slurmctld_port slurmd_port =
    template_head ++ "\n" ++ "ClusterName=" ++ name ++ " " ++ "\n" ++ "ControlMachine=" ++ machine
    ++ " " ++ "\n" ++ "ControlAddr=" ++ address ++ " " ++ "\n" ++ template_paths ++ "\n"
    ++ "SlurmctldPort=" ++ slurmctld_port ++ " " ++ "\n" ++ "SlurmdPort=" ++ slurmd_port ++ " "
    ++ "\n" ++ template_tail

abbrev pub slurm_conf_template : String
slurm_conf_template =
    filled_in place_holder_cluster_name place_holder_control_machine place_holder_control_addr
      place_holder_slurmctld_port place_holder_slurmd_port

abbrev create_slurm_conf_partitions : String
create_slurm_conf_partitions =
    "################################################\n#                  PARTITIONS                  #\n################################################\nPartitionName=all Nodes=ALL Default=YES MaxTime=INFINITE State=UP\n"

abbrev node_prefix : String
node_prefix =
    "################################################\n#                    NODES                     #\n################################################\n"

pub node_line : String → ℤ × ℤ × ℤ → String
node_line name (cpus, real_memory, gpus) =
    "NodeName="
    ++ name
    ++ " NodeAddr="
    ++ name
    ++ " CPUs="
    ++ itoa_ℤ cpus
    ++ " RealMemory="
    ++ itoa_ℤ real_memory
    ++ " Gres=gpu:"
    ++ itoa_ℤ gpus
    ++ " State=UNKNOWN \n"

-- The lines of `n` replicas from an index on.
pub node_lines : String → String → ℤ × ℤ × ℤ → ℕ → ℕ → String
unfolding node_line
node_lines cluster_name rtype request i zero = ""
node_lines cluster_name rtype request i (suc n) =
    node_line (gen_general_name cluster_name rtype (itoa i)) request
    ++ node_lines cluster_name rtype request (suc i) n

-- The five replacements.
pub fill_template : String → String → String → String
fill_template cluster_name slurmctld_port slurmd_port =
    let machine = gen_general_name cluster_name slurm_controller (itoa 0) in
    let named = replace_first place_holder_cluster_name cluster_name slurm_conf_template in
    let placed = replace_first place_holder_control_machine machine named in
    let addressed = replace_first place_holder_control_addr machine placed in
    let controlled = replace_first place_holder_slurmctld_port slurmctld_port addressed in
    replace_first place_holder_slurmd_port slurmd_port controlled

module _ (q : Quantities) where
  lines_of_replicas : String → String → ReplicaSpec → Option ℤ → Result String
  unfolding node_lines
  lines_of_replicas cluster_name rtype spec none = ok ""
  lines_of_replicas cluster_name rtype spec (some replicas) = do
    request ← get_resource_request q (get_resource_request_list q spec)
    ok (node_lines cluster_name rtype request 0 (pos_part replicas))

  create_slurm_conf_nodes_by_replica : String → String → Option ReplicaSpec → Result String
  unfolding lines_of_replicas
  create_slurm_conf_nodes_by_replica cluster_name rtype none = panic
  create_slurm_conf_nodes_by_replica cluster_name rtype (some spec) =
      lines_of_replicas cluster_name rtype spec spec.replicas

  node_conf : String → ReplicaSpecs → Result String
  unfolding create_slurm_conf_nodes_by_replica
  node_conf cluster_name [] = ok ""
  node_conf cluster_name ((rtype, spec) ∷ specs) = do
    let rest = node_conf cluster_name specs
    if str_eq rtype slurm_controller then rest else (do
      replica_conf ← create_slurm_conf_nodes_by_replica cluster_name rtype spec
      others ← rest
      ok (replica_conf ++ others))

  pub create_slurm_conf_nodes : KubeCluster → Result String
  unfolding node_conf
  create_slurm_conf_nodes cluster = do
    nodes ← node_conf cluster.name cluster.spec.cluster_replica_spec
    ok (node_prefix ++ "\n" ++ nodes)

  unfoldable pub create_slurm_conf : KubeCluster → ℤ → ℤ → Result String
  unfolding fill_template create_slurm_conf_nodes
  create_slurm_conf cluster master_port worker_port = do
    nodes ← create_slurm_conf_nodes cluster
    ok (
        fill_template cluster.name (itoa_ℤ master_port) (itoa_ℤ worker_port)
        ++ "\n"
        ++ nodes
        ++ "\n"
        ++ create_slurm_conf_partitions
        ++ "\n")
