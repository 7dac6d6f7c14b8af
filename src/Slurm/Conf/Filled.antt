-- ===== src/Slurm/Conf/Filled.antt =====
-- What the five replacements of createSlurmConf (configmap.go of the slurm schema) make of the template.
use Prim.Native.String.{char_at}
use kubecluster.Prelude.{String, Bool, true, ◌&&◌, List, [], ◌∷◌, All, arith, ◌≡◌, refl}
use kubecluster.Strings.{itoa}
use kubecluster.Strings.Search.{replace_first, lacks}
use kubecluster.Strings.Search.Replacing.{replace_first-chain}
use kubecluster.Labels.{gen_general_name}
use kubecluster.Schema.Status.{slurm_controller}
use kubecluster.Slurm.Conf.{
  filled_in, slurm_conf_template, fill_template, template_head, template_paths,
  place_holder_cluster_name, place_holder_control_machine, place_holder_control_addr,
  place_holder_slurmctld_port, place_holder_slurmd_port,
}

-- Are all texts without a dollar, of code 36?
all_lack : List String → Bool
unfolding lacks
all_lack [] = true
all_lack (p ∷ ps) = let rest = all_lack ps in lacks 36 p && rest

lacking : (ps : List String) → all_lack ps ≡ true → All (λ p. lacks 36 p ≡ true) ps
unfolding all_lack
lacking [] h = tt
lacking (p ∷ ps) h = (ground (arith, h), lacking ps (ground (arith, h)))

-- The place holders begin with a dollar, of code 36, which the values lack.
module _ (name machine ctl : String) (name_ok : lacks 36 name ≡ true)
    (machine_ok : lacks 36 machine ≡ true) (ctl_ok : lacks 36 ctl ≡ true) where
  name_filled :
      (new : String)
      → replace_first place_holder_cluster_name new slurm_conf_template
        ≡ filled_in new place_holder_control_machine place_holder_control_addr
            place_holder_slurmctld_port place_holder_slurmd_port
  unfolding lacks all_lack
  name_filled new =
      let parts = template_head ∷ "\n" ∷ "ClusterName=" ∷ [] in
      replace_first-chain (char_at "$" 0) "{CLUSTER_NAME}" new parts _ (lacking parts refl)

  machine_filled :
      (new : String)
      → replace_first place_holder_control_machine new (
          filled_in name place_holder_control_machine place_holder_control_addr
            place_holder_slurmctld_port place_holder_slurmd_port)
        ≡ filled_in name new place_holder_control_addr place_holder_slurmctld_port
            place_holder_slurmd_port
  unfolding lacks all_lack
  machine_filled new =
      let parts =
        template_head ∷ "\n" ∷ "ClusterName=" ∷ name ∷ " " ∷ "\n" ∷ "ControlMachine=" ∷ [] in
      replace_first-chain (char_at "$" 0) "{CONTROL_MACHINE}" new parts _
        (lacking parts (rw name_ok refl))

  address_filled :
      (new : String)
      → replace_first place_holder_control_addr new (
          filled_in name machine place_holder_control_addr place_holder_slurmctld_port
            place_holder_slurmd_port)
        ≡ filled_in name machine new place_holder_slurmctld_port place_holder_slurmd_port
  unfolding lacks all_lack
  address_filled new =
      let parts =
        (template_head ∷ "\n" ∷ "ClusterName=" ∷ name ∷ " " ∷ "\n" ∷ "ControlMachine=" ∷ machine
          ∷ " " ∷ "\n" ∷ "ControlAddr=" ∷ []) in
      replace_first-chain (char_at "$" 0) "{CONTROL_ADDRESS}" new parts _
        (lacking parts (rw (name_ok, machine_ok) refl))

  ctl_filled :
      (new : String)
      → replace_first place_holder_slurmctld_port new
          (filled_in name machine machine place_holder_slurmctld_port place_holder_slurmd_port)
        ≡ filled_in name machine machine new place_holder_slurmd_port
  unfolding lacks all_lack
  ctl_filled new =
      let parts =
        (template_head ∷ "\n" ∷ "ClusterName=" ∷ name ∷ " " ∷ "\n" ∷ "ControlMachine=" ∷ machine
          ∷ " " ∷ "\n" ∷ "ControlAddr=" ∷ machine ∷ " " ∷ "\n" ∷ template_paths ∷ "\n"
          ∷ "SlurmctldPort=" ∷ []) in
      replace_first-chain (char_at "$" 0) "{SLURMCTLD_PORT}" new parts _
        (lacking parts (rw (name_ok, machine_ok) refl))

  slurmd_filled :
      (new : String)
      → replace_first place_holder_slurmd_port new
          (filled_in name machine machine ctl place_holder_slurmd_port)
        ≡ filled_in name machine machine ctl new
  unfolding lacks all_lack
  slurmd_filled new =
      let parts =
        (template_head ∷ "\n" ∷ "ClusterName=" ∷ name ∷ " " ∷ "\n" ∷ "ControlMachine=" ∷ machine
          ∷ " " ∷ "\n" ∷ "ControlAddr=" ∷ machine ∷ " " ∷ "\n" ∷ template_paths ∷ "\n"
          ∷ "SlurmctldPort=" ∷ ctl ∷ " " ∷ "\n" ∷ "SlurmdPort=" ∷ []) in
      replace_first-chain (char_at "$" 0) "{slurmd_port}" new parts _
        (lacking parts (rw (name_ok, machine_ok, ctl_ok) refl))

-- Each place holder is replaced by its own value, when the names and the first port hold no dollar.
pub fill_template_lem :
    (name ctl d : String)
    → lacks 36 name ≡ true
    → lacks 36 (gen_general_name name slurm_controller (itoa 0)) ≡ true
    → lacks 36 ctl ≡ true
    → fill_template name ctl d
      ≡ filled_in name
          (gen_general_name name slurm_controller (itoa 0))
          (gen_general_name name slurm_controller (itoa 0))
          ctl
          d
unfolding fill_template
fill_template_lem name ctl d name_ok machine_ok ctl_ok =
    let machine = gen_general_name name slurm_controller (itoa 0) in
    rw
      (
        name_filled name machine ctl name_ok machine_ok ctl_ok name,
        machine_filled name machine ctl name_ok machine_ok ctl_ok machine,
        address_filled name machine ctl name_ok machine_ok ctl_ok machine,
        ctl_filled name machine ctl name_ok machine_ok ctl_ok ctl,
        slurmd_filled name machine ctl name_ok machine_ok ctl_ok d,
      )
      refl
