-- ===== src/Slurm/Conf/Nodes.antt =====
-- The lines of slurm.conf that name the nodes: createSlurmConfNodesByReplica of
-- pkg/controller/cluster_schema/slurm_schema/configmap.go.
use Prim.Native.String.{◌++◌}
use text.Mathlib.TextLemmas.{append_assoc}
use mathlib.Core.List.{◌++◌ as ◌+++◌}
use kubecluster.Prelude.{
  ℕ, zero, suc, ◌+◌, ◌<◌, ℤ, pos, negsuc, String, true, List, [], ◌∷◌, some, ◌≡◌, refl, sym, ap,
  ◌∙◌, length, get_elem?, arith,
}
use kubecluster.Strings.{itoa, itoa_ℤ, to_lower}
use kubecluster.Strings.Digits.{lacks-itoa, lacks-replace_slashes}
use kubecluster.Strings.Search.{split_on, lacks}
use kubecluster.Strings.Search.Replacing.{chain, chain-append}
use kubecluster.Strings.Search.Splitting.{split_on-lacks, lacks-append}
use kubecluster.Labels.{gen_general_name}
use kubecluster.Slurm.Conf.{node_line, node_lines}
use kubecluster.Slurm.Conf.Reading.{split_newline}

-- The line of a node without its line break.
pub node_text : String → ℤ × ℤ × ℤ → String
node_text name (cpus, real_memory, gpus) =
    "NodeName="
    ++ name
    ++ " NodeAddr="
    ++ name
    ++ " CPUs="
    ++ itoa_ℤ cpus
    ++ " RealMemory="
    ++ itoa_ℤ real_memory
    ++ " Gres=gpu:"
    ++ itoa_ℤ gpus
    ++ " State=UNKNOWN "

lacks-itoa_ℤ : (z : ℤ) → lacks 10 (itoa_ℤ z) ≡ true
unfolding itoa_ℤ
lacks-itoa_ℤ (pos n) = lacks-itoa 10 n (omega arith)
lacks-itoa_ℤ (negsuc n) =
    lacks-append 10 "-" (itoa (suc n)) (unfold lacks in refl) (lacks-itoa 10 (suc n) (omega arith))

node_text-lacks :
    (name : String) (request : ℤ × ℤ × ℤ)
    → lacks 10 name ≡ true
    → lacks 10 (node_text name request) ≡ true
unfolding node_text
node_text-lacks name (cpus, real_memory, gpus) h =
    lacks-append 10 "NodeName=" _ (unfold lacks in refl) (
      lacks-append 10 name _ h (
        lacks-append 10 " NodeAddr=" _ (unfold lacks in refl) (
          lacks-append 10 name _ h (
            lacks-append 10 " CPUs=" _ (unfold lacks in refl) (
              lacks-append 10 (itoa_ℤ cpus) _ (lacks-itoa_ℤ cpus) (
                lacks-append 10 " RealMemory=" _ (unfold lacks in refl) (
                  lacks-append 10 (itoa_ℤ real_memory) _ (lacks-itoa_ℤ real_memory) (
                    lacks-append 10 " Gres=gpu:" _ (unfold lacks in refl) (
                      lacks-append 10 (itoa_ℤ gpus) " State=UNKNOWN " (lacks-itoa_ℤ gpus)
                        (unfold lacks in refl))))))))))

node_line_lem :
    (name : String) (request : ℤ × ℤ × ℤ) (s : String)
    → node_line name request ++ s ≡ node_text name request ++ ("\n" ++ s)
unfolding node_line node_text
node_line_lem name (cpus, real_memory, gpus) s =
    let pieces =
      "NodeName="
      ∷ name
      ∷ " NodeAddr="
      ∷ name
      ∷ " CPUs="
      ∷ itoa_ℤ cpus
      ∷ " RealMemory="
      ∷ itoa_ℤ real_memory
      ∷ " Gres=gpu:"
      ∷ itoa_ℤ gpus
      ∷ [] in
    chain-append pieces " State=UNKNOWN \n" s
    ∙ ap (λ t. chain pieces t) (append_assoc " State=UNKNOWN " "\n" s)
    ∙ sym (chain-append pieces " State=UNKNOWN " ("\n" ++ s))

-- The lines of a text that begins with a node's line.
split_node :
    (name : String) (request : ℤ × ℤ × ℤ) (s : String)
    → lacks 10 name ≡ true
    → split_on 10 (node_line name request ++ s) ≡ node_text name request ∷ split_on 10 s
split_node name request s h =
    ap (λ t. split_on 10 t) (node_line_lem name request s)
    ∙ split_newline (node_text name request) s
    ∙ ap (λ lines. lines +++ split_on 10 s)
        (split_on-lacks 10 (node_text name request) (node_text-lacks name request h))

lacks-gen_general_name :
    (cluster_name rtype : String) (i : ℕ)
    → lacks 10 cluster_name ≡ true
    → lacks 10 (to_lower rtype) ≡ true
    → lacks 10 (gen_general_name cluster_name rtype (itoa i)) ≡ true
unfolding gen_general_name
lacks-gen_general_name cluster_name rtype i h g = lacks-replace_slashes 10 _ (omega arith) (
    lacks-append 10 cluster_name _ h (
      lacks-append 10 "-" _ (unfold lacks in refl) (
        lacks-append 10 (to_lower rtype) _ g
          (lacks-append 10 "-" (itoa i) (unfold lacks in refl) (lacks-itoa 10 i (omega arith))))))

-- The lines of `n` replicas from the index `i` on.
pub record NodeLines (cluster_name rtype : String) (request : ℤ × ℤ × ℤ) (i n : ℕ)
    (lines : List String) : Type 0 where
  pub count : length lines ≡ n + 1
  pub line :
      (k : ℕ)
      → k < n
      → get_elem? lines k
        ≡ some (node_text (gen_general_name cluster_name rtype (itoa (i + k))) request)
  pub last : get_elem? lines n ≡ some ""

-- When neither the cluster's name nor the replica type has a line break, the text for `n` replicas from an
-- index on has one line for each of them, in order, with the name of that replica's pod and with the
-- resources that were asked for, and after them an empty line and no more.
pub node_lines-split :
    (cluster_name rtype : String) (request : ℤ × ℤ × ℤ) (i n : ℕ)
    → lacks 10 cluster_name ≡ true
    → lacks 10 (to_lower rtype) ≡ true
    → NodeLines cluster_name rtype request i n
        (split_on 10 (node_lines cluster_name rtype request i n))
unfolding node_lines split_on
node_lines-split cluster_name rtype request i zero h g = record {
  count = refl;
  line = λ k l. absurd (omega arith);
  last = refl;
}
node_lines-split cluster_name rtype request i (suc n) h g =
    let rest = node_lines-split cluster_name rtype request (suc i) n h g in
    rw
      (split_node (gen_general_name cluster_name rtype (itoa i)) request
        (node_lines cluster_name rtype request (suc i) n)
        (lacks-gen_general_name cluster_name rtype i h g))
      (record { count = omega (arith, rest.count); line = lines rest.line; last = rest.last })
  where
    lines :
        ((k : ℕ)
          → k < n
          → get_elem? (split_on 10 (node_lines cluster_name rtype request (suc i) n)) k
            ≡ some (node_text (gen_general_name cluster_name rtype (itoa (suc i + k))) request))
        → (k : ℕ) → k < suc n
        → get_elem?
            (node_text (gen_general_name cluster_name rtype (itoa i)) request
              ∷ split_on 10 (node_lines cluster_name rtype request (suc i) n))
            k
          ≡ some (node_text (gen_general_name cluster_name rtype (itoa (i + k))) request)
    lines later zero l =
        ap (λ j. some (node_text (gen_general_name cluster_name rtype (itoa j)) request))
          (omega arith)
    lines later (suc k) l =
        later k (omega arith)
        ∙ ap (λ j. some (node_text (gen_general_name cluster_name rtype (itoa j)) request))
            (omega arith)
