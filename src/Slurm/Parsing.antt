-- ===== src/Slurm/Parsing.antt =====
-- getSlurmPortsFromConf of pkg/controller/cluster_schema/slurm_schema/util.go: the ports are read back from
-- the text of slurm.conf.
use kubecluster.Prelude.{ℤ, pos, String, List, [], ◌∷◌, Option, none, some, if◌then◌else◌}
use kubecluster.Errors.{Error, Result, ok, err, ◌>>=◌}
use kubecluster.Strings.{atoi}
use kubecluster.Strings.Search.{strip_prefix, split_on, trim_space}
use kubecluster.Slurm.Ports.{both_set}

abbrev pub slurmctld_port_prefix : String
slurmctld_port_prefix = "SlurmctldPort="

abbrev pub slurmd_port_prefix : String
slurmd_port_prefix = "SlurmdPort="

-- What a line says of the ports that were read before: `none` for a line about something else.
abbrev pub read_line : Option String → Option String → ℤ × ℤ → Option (Result (ℤ × ℤ))
read_line (some v) w (ctl, d) = some (do port ← atoi (trim_space v); ok (port, d))
read_line none (some v) (ctl, d) = some (do port ← atoi (trim_space v); ok (ctl, port))
read_line none none ports = none

-- The loop ends as soon as both ports are known; `next` is its next round.
abbrev pub after_line : (ℤ × ℤ → Result (ℤ × ℤ)) → ℤ × ℤ → Option (Result (ℤ × ℤ)) → Result (ℤ × ℤ)
after_line next ports none = next ports
after_line next ports (some r) = do ports' ← r; if both_set ports' then ok ports' else next ports'

unfoldable pub ports_from_lines : List String → ℤ × ℤ → Result (ℤ × ℤ)
unfolding both_set strip_prefix trim_space
ports_from_lines [] ports = err (Error.other "failed to parse slurm relative ports")
ports_from_lines (line ∷ lines) ports =
    after_line (λ p. ports_from_lines lines p) ports
      (read_line (strip_prefix slurmctld_port_prefix line) (strip_prefix slurmd_port_prefix line)
        ports)

unfoldable pub get_slurm_ports_from_conf : String → Result (ℤ × ℤ)
unfolding ports_from_lines
get_slurm_ports_from_conf conf = ports_from_lines (split_on 10 conf) (pos 0, pos 0)
