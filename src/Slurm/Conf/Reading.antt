-- ===== src/Slurm/Conf/Reading.antt =====
-- What getSlurmPortsFromConf (pkg/controller/cluster_schema/slurm_schema/util.go) reads, line by line.
use Prim.Native.String.{char_at, ◌∷◌ as ◌◂◌, ◌++◌}
use text.Mathlib.TextLemmas.{append_assoc, cons-append, nil-append}
use mathlib.Core.List.{◌++◌ as ◌+++◌}
use kubecluster.Prelude.{
  ℕ, ◌^◌, ◌<◌, ◌≢◌, ℤ, pos, String, Bool, true, false, ◌&&◌, List, [], ◌∷◌, Option, none, some, ◌≡◌,
  refl, sym, ap, ◌∙◌, arith,
}
use kubecluster.Errors.{Result, ok}
use kubecluster.Strings.{itoa, atoi}
use kubecluster.Strings.RoundTrip.{atoi-itoa}
use kubecluster.Strings.Digits.{lacks-itoa, is_solid-itoa}
use kubecluster.Strings.Search.{strip_prefix, split_on, lacks, trim_space}
use kubecluster.Strings.Search.Replacing.{strip_prefix-append}
use kubecluster.Strings.Search.Splitting.{
  split_on-append, split_on-lacks, lacks-append, trim_space-append, differs, strip_prefix-differs,
}
use kubecluster.Slurm.Ports.{both_set}
use kubecluster.Slurm.Parsing.{
  slurmctld_port_prefix, slurmd_port_prefix, read_line, after_line, ports_from_lines,
}

-- The line is about something else.
unfoldable pub is_other : String → Bool
unfolding differs
is_other line = differs slurmctld_port_prefix line && differs slurmd_port_prefix line

abbrev is_none : Option String → Bool
is_none none = true
is_none (some after) = false

-- No line of the list says anything of the ports.
unfoldable pub all_other : List String → Bool
unfolding strip_prefix
all_other [] = true
all_other (line ∷ lines) =
    let rest = all_other lines in
    is_none (strip_prefix slurmctld_port_prefix line)
    && is_none (strip_prefix slurmd_port_prefix line)
    && rest

-- A line that begins with another key is passed over, whatever its value is.
ports_from_lines-other :
    (key value : String) (lines : List String) (ports : ℤ × ℤ)
    → is_other key ≡ true
    → ports_from_lines ((key ++ value) ∷ lines) ports ≡ ports_from_lines lines ports
unfolding ports_from_lines is_other
ports_from_lines-other key value lines ports h =
    rw
      (
        strip_prefix-differs slurmctld_port_prefix key value (ground (arith, h)),
        strip_prefix-differs slurmd_port_prefix key value (ground (arith, h)),
      )
      refl

pub split_newline :
    (p s : String) → split_on 10 (p ++ ("\n" ++ s)) ≡ split_on 10 p +++ split_on 10 s
split_newline p s =
    ap (λ t. split_on 10 (p ++ t))
      (cons-append (char_at "\n" 0) "" s ∙ ap (λ t. char_at "\n" 0 ◂ t) (nil-append s))
    ∙ split_on-append 10 p (char_at "\n" 0) s refl

-- One key with its value on a line of its own.
split_line :
    (key value s : String)
    → lacks 10 key ≡ true
    → lacks 10 value ≡ true
    → split_on 10 (key ++ (value ++ (" " ++ ("\n" ++ s)))) ≡ (key ++ (value ++ " ")) ∷ split_on 10 s
split_line key value s hk hv =
    ap (λ t. split_on 10 t)
      (ap (λ t. key ++ t) (sym (append_assoc value " " ("\n" ++ s)))
        ∙ sym (append_assoc key (value ++ " ") ("\n" ++ s)))
    ∙ split_newline (key ++ (value ++ " ")) s
    ∙ ap (λ lines. lines +++ split_on 10 s)
        (split_on-lacks 10 (key ++ (value ++ " ")) (
          lacks-append 10 key (value ++ " ") hk
            (lacks-append 10 value " " hv (unfold lacks in refl))))

after_other :
    (next : ℤ × ℤ → Result (ℤ × ℤ)) (v w : Option String) (ports : ℤ × ℤ)
    → is_none v ≡ true
    → is_none w ≡ true
    → after_line next ports (read_line v w ports) ≡ next ports
after_other next none none ports hv hw = refl
after_other next none (some w) ports hv hw = ground arith
after_other next (some v) w ports hv hw = ground arith

-- Lines that say nothing of the ports are passed over.
ports_from_lines-others :
    (lines more : List String) (ports : ℤ × ℤ)
    → all_other lines ≡ true
    → ports_from_lines (lines +++ more) ports ≡ ports_from_lines more ports
unfolding all_other ports_from_lines
ports_from_lines-others [] more ports h = refl
ports_from_lines-others (line ∷ lines) more ports h =
    after_other (λ p. ports_from_lines (lines +++ more) p) (strip_prefix slurmctld_port_prefix line)
      (strip_prefix slurmd_port_prefix line) ports (ground (arith, h)) (ground (arith, h))
    ∙ ports_from_lines-others lines more ports (ground (arith, h))

-- What is read from a text.
unfoldable pub reads : String → ℤ × ℤ → Result (ℤ × ℤ)
reads s ports = ports_from_lines (split_on 10 s) ports

pub reads_others :
    (p s : String) (ports : ℤ × ℤ)
    → all_other (split_on 10 p) ≡ true
    → reads (p ++ ("\n" ++ s)) ports ≡ reads s ports
unfolding reads
reads_others p s ports h =
    rw (split_newline p s) (ports_from_lines-others (split_on 10 p) (split_on 10 s) ports h)

pub reads_other :
    (key value s : String) (ports : ℤ × ℤ)
    → is_other key ≡ true
    → lacks 10 key ≡ true
    → lacks 10 value ≡ true
    → reads (key ++ (value ++ (" " ++ ("\n" ++ s)))) ports ≡ reads s ports
unfolding reads
reads_other key value s ports h hk hv =
    rw (split_line key value s hk hv)
      (ports_from_lines-other key (value ++ " ") (split_on 10 s) ports h)

read_number : (n : ℕ) → n < 2 ^ 63 → atoi (trim_space (itoa n ++ " ")) ≡ ok (pos n)
read_number n h = rw (trim_space-append (itoa n) (is_solid-itoa n)) (atoi-itoa n h)

pub reads_ctl :
    (n : ℕ) (s : String)
    → n < 2 ^ 63
    → reads (slurmctld_port_prefix ++ (itoa n ++ (" " ++ ("\n" ++ s)))) (pos 0, pos 0)
      ≡ reads s (pos n, pos 0)
unfolding reads ports_from_lines both_set
reads_ctl n s h =
    rw
      (
        split_line slurmctld_port_prefix (itoa n) s (unfold lacks in refl)
            (lacks-itoa 10 n (omega arith)),
        strip_prefix-append slurmctld_port_prefix (itoa n ++ " "),
        read_number n h,
      )
      refl

pub reads_slurmd :
    (n m : ℕ) (s : String)
    → m < 2 ^ 63
    → n ≢ 0
    → m ≢ 0
    → reads (slurmd_port_prefix ++ (itoa m ++ (" " ++ ("\n" ++ s)))) (pos n, pos 0)
      ≡ ok (pos n, pos m)
unfolding reads ports_from_lines both_set
reads_slurmd n m s h hn hm =
    rw
      (
        split_line slurmd_port_prefix (itoa m) s (unfold lacks in refl)
            (lacks-itoa 10 m (omega arith)),
        strip_prefix-differs slurmctld_port_prefix slurmd_port_prefix (itoa m ++ " ")
            (unfold differs in refl),
        strip_prefix-append slurmd_port_prefix (itoa m ++ " "),
        read_number m h,
      )
      (ground arith)
