-- ===== src/Slurm/Conf/ReadBack.antt =====
-- The ports that createSlurmConf writes are the ones that getSlurmPortsFromConf reads
-- (pkg/controller/cluster_schema/slurm_schema).
use Prim.Native.String.{◌++◌}
use kubecluster.Prelude.{
  ℕ, ◌^◌, ◌<◌, ◌≢◌, pos, String, true, [], ◌∷◌, ◌≡◌, refl, ap, ◌∙◌, subst, arith,
}
use kubecluster.Errors.{ok, >>=-eq-ok, ok-injective}
use kubecluster.Strings.{itoa, itoa_ℤ, to_lower}
use kubecluster.Strings.Digits.{lacks-itoa, lacks-replace_slashes}
use kubecluster.Strings.Search.{split_on, lacks}
use kubecluster.Strings.Search.Replacing.{chain-append}
use kubecluster.Strings.Search.Splitting.{lacks-append, differs}
use kubecluster.Labels.{gen_general_name}
use kubecluster.Types.{KubeCluster}
use kubecluster.Schema.Status.{slurm_controller}
use kubecluster.Slurm.{Quantities}
use kubecluster.Slurm.Parsing.{get_slurm_ports_from_conf}
use kubecluster.Slurm.Conf.{
  filled_in, template_head, template_paths, template_tail, create_slurm_conf,
  create_slurm_conf_nodes,
}
use kubecluster.Slurm.Conf.Filled.{fill_template_lem}
use kubecluster.Slurm.Conf.Reading.{
  is_other, all_other, reads, reads_others, reads_other, reads_ctl, reads_slurmd,
}

lacks-machine :
    (k : ℕ) (name : String)
    → k < 45
    → lacks k "-controller-0" ≡ true
    → lacks k name ≡ true
    → lacks k (gen_general_name name slurm_controller (itoa 0)) ≡ true
unfolding gen_general_name to_lower itoa
lacks-machine k name l h g =
    lacks-replace_slashes k (name ++ "-controller-0") l (lacks-append k name "-controller-0" g h)

-- The text of the filled template and of what follows it, read.
reads_filled :
    (name machine : String) (n m : ℕ) (rest : String)
    → lacks 10 name ≡ true
    → lacks 10 machine ≡ true
    → n < 2 ^ 63
    → m < 2 ^ 63
    → n ≢ 0
    → m ≢ 0
    → reads (filled_in name machine machine (itoa n) (itoa m) ++ rest) (pos 0, pos 0)
      ≡ ok (pos n, pos m)
unfolding is_other all_other lacks differs split_on
reads_filled name machine n m rest hn hm ln lm n0 m0 =
    ap (λ t. reads t (pos 0, pos 0))
      (chain-append
        (template_head
          ∷ "\n"
          ∷ "ClusterName="
          ∷ name
          ∷ " "
          ∷ "\n"
          ∷ "ControlMachine="
          ∷ machine
          ∷ " "
          ∷ "\n"
          ∷ "ControlAddr="
          ∷ machine
          ∷ " "
          ∷ "\n"
          ∷ template_paths
          ∷ "\n"
          ∷ "SlurmctldPort="
          ∷ itoa n
          ∷ " "
          ∷ "\n"
          ∷ "SlurmdPort="
          ∷ itoa m
          ∷ " "
          ∷ "\n"
          ∷ [])
        template_tail rest)
    ∙ reads_others template_head _ (pos 0, pos 0) refl
    ∙ reads_other "ClusterName=" name _ (pos 0, pos 0) refl refl hn
    ∙ reads_other "ControlMachine=" machine _ (pos 0, pos 0) refl refl hm
    ∙ reads_other "ControlAddr=" machine _ (pos 0, pos 0) refl refl hm
    ∙ reads_others template_paths _ (pos 0, pos 0) refl
    ∙ reads_ctl n _ ln
    ∙ reads_slurmd n m _ lm n0 m0

-- A slurm.conf that was made for a cluster, whose name holds neither a dollar nor a line break, with two
-- ports that are not 0 and are numbers of an int64: whatever the nodes are, the two ports are read back.
pub get_slurm_ports_from_conf-create_slurm_conf :
    (q : Quantities) (cluster : KubeCluster) (n m : ℕ) (conf : String)
    → lacks 36 cluster.name ≡ true
    → lacks 10 cluster.name ≡ true
    → n < 2 ^ 63
    → m < 2 ^ 63
    → n ≢ 0
    → m ≢ 0
    → create_slurm_conf q cluster (pos n) (pos m) ≡ ok conf
    → get_slurm_ports_from_conf conf ≡ ok (pos n, pos m)
unfolding create_slurm_conf get_slurm_ports_from_conf itoa_ℤ
get_slurm_ports_from_conf-create_slurm_conf q cluster n m conf dollar line ln lm n0 m0 made =
    let (nodes, listed, e) = >>=-eq-ok (create_slurm_conf_nodes q cluster) _ made in
    let machine = gen_general_name cluster.name slurm_controller (itoa 0) in
    let filled =
      fill_template_lem cluster.name (itoa n) (itoa m) dollar
        (lacks-machine 36 cluster.name (omega arith) (unfold lacks in refl) dollar)
        (lacks-itoa 36 n (omega arith)) in
    subst (λ t. get_slurm_ports_from_conf t ≡ ok (pos n, pos m)) (ok-injective e)
      (rw filled (
        unfold reads in
        reads_filled cluster.name machine n m _ line
          (lacks-machine 10 cluster.name (omega arith) (unfold lacks in refl) line) ln lm n0 m0))
