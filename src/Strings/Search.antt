-- ===== src/Strings/Search.antt =====
-- Go's strings.Replace, Split, HasPrefix, TrimPrefix, TrimSpace, Join and Contains, over native texts.
pub mod Replacing
pub mod Splitting
use Prim.Native.Char.{Char, code}
use Prim.Native.String.{[] as ε, ◌∷◌ as ◌◂◌, ◌++◌}
use kubecluster.Prelude.{
  ℕ, String, Bool, true, false, ◌&&◌, ◌||◌, List, [], ◌∷◌, Option, none, some, leb, ◌==◌,
  if◌then◌else◌,
}

-- HasPrefix with TrimPrefix: what follows the prefix, if the text has it.
unfoldable pub strip_prefix : String → String → Option String
strip_prefix ε s = some s
strip_prefix (c ◂ prefix) ε = none
strip_prefix (c ◂ prefix) (d ◂ s) =
    let rest = strip_prefix prefix s in if code c == code d then rest else none

abbrev pub replaced : String → Char → String → Option String → String
replaced new c rest (some after) = new ++ after
replaced new c rest none = c ◂ rest

-- strings.Replace(s, old, new, 1), where `old` is not empty.
unfoldable pub replace_first : String → String → String → String
unfolding strip_prefix
replace_first old new ε = ε
replace_first old new (c ◂ s) =
    let rest = replace_first old new s in replaced new c rest (strip_prefix old (c ◂ s))

abbrev pub cons_head : Char → List String → List String
cons_head c [] = (c ◂ ε) ∷ []
cons_head c (first ∷ rest) = (c ◂ first) ∷ rest

-- strings.Split at the character of a code.
unfoldable pub split_on : ℕ → String → List String
split_on k ε = ε ∷ []
split_on k (c ◂ s) = let rest = split_on k s in if code c == k then ε ∷ rest else cons_head c rest

-- strings.Join
unfoldable pub join : String → List String → String
join separator [] = ""
join separator (s ∷ []) = s
join separator (s ∷ t ∷ rest) = s ++ separator ++ join separator (t ∷ rest)

-- unicode.IsSpace
unfoldable pub is_space : Char → Bool
is_space c =
    (leb 9 (code c) && leb (code c) 13)
    || code c == 32
    || code c == 133
    || code c == 160
    || code c == 5760
    || (leb 8192 (code c) && leb (code c) 8202)
    || code c == 8232
    || code c == 8233
    || code c == 8239
    || code c == 8287
    || code c == 12288

pub trim_left : String → String
unfolding is_space
trim_left ε = ε
trim_left (c ◂ s) = let rest = trim_left s in if is_space c then rest else c ◂ s

abbrev pub trim_step : Bool → Char → String → String
trim_step blank c ε = if blank then ε else c ◂ ε
trim_step blank c (d ◂ s) = c ◂ d ◂ s

pub trim_right : String → String
unfolding is_space
trim_right ε = ε
trim_right (c ◂ s) = trim_step (is_space c) c (trim_right s)

-- strings.TrimSpace
unfoldable pub trim_space : String → String
unfolding trim_left trim_right
trim_space s = trim_right (trim_left s)

abbrev is_found : Option String → Bool
is_found none = false
is_found (some after) = true

-- strings.Contains, where `wanted` is not empty.
unfoldable pub contains : String → String → Bool
unfolding strip_prefix
contains ε wanted = false
contains (c ◂ s) wanted =
    let rest = contains s wanted in is_found (strip_prefix wanted (c ◂ s)) || rest

-- No character of the text has this code.
unfoldable pub lacks : ℕ → String → Bool
lacks k ε = true
lacks k (c ◂ s) = let rest = lacks k s in if code c == k then false else rest
