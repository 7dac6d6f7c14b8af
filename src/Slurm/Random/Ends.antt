-- ===== src/Slurm/Random/Ends.antt =====
-- The making of a random text ends (RandStr of pkg/util/random.go).
use Prim.Native.String.{[] as ε, ◌∷◌ as ◌◂◌}
use kubecluster.Prelude.{ℕ, zero, suc, ◌+◌, String, Option, some, ◌≡◌, if◌then◌else◌}
use kubecluster.Slurm.Random.{Source, next_source, has_letter}

-- The number of bytes of a text of ASCII letters.
pub size : String → ℕ
size ε = 0
size (c ◂ s) = suc (size s)

module _ (int63 : ℕ → ℕ) where
  -- How many of the next `fuel` chunks of the source are the index of a letter.
  unfoldable pub letters_in : ℕ → Source → ℕ
  letters_in zero s = 0
  letters_in (suc fuel) s =
      (if has_letter int63 s then 1 else 0) + letters_in fuel (next_source int63 s)

  -- A text of so many bytes.
  pub record Filled (n : ℕ) (r : Option String) : Type 0 where
    pub text : String
    pub made : r ≡ some text
    pub sized : size text ≡ n
