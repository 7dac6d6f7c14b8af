-- ===== src/Slurm/Random.antt =====
-- Random texts: RandStr of pkg/util/random.go.
pub mod Ends
use Prim.Native.String.{◌∷◌ as ◌◂◌, char_at}
use kubecluster.Prelude.{
  ℕ, zero, suc, ◌+◌, ◌-◌, ◌/◌, ◌%◌, ◌==◌, ltb, String, Bool, Option, none, some, if◌then◌else◌,
}

abbrev pub letters : String
letters = "abcdefghijklmnopqrstuvwxyzABCDEFGHIJKLMNOPQRSTUVWXYZ"

-- 2 ^ letterIdBits, the chunks of 6 bits that a number of 63 bits has, and the number of letters.
abbrev letter_id_size : ℕ
letter_id_size = 64

abbrev letter_id_max : ℕ
letter_id_max = 10

abbrev letters_len : ℕ
letters_len = 52

-- `cache` and `remain` of the loop, with the number of calls of Int63 so far.
pub record Source : Type 0 where
  pub cache : ℕ
  pub remain : ℕ
  pub next : ℕ

-- `int63 k` is what the k-th call of Int63 gives.
module _ (int63 : ℕ → ℕ) where
  unfoldable pub take_number : Source → Source
  take_number s = record { cache = int63 s.next; remain = letter_id_max; next = s.next + 1 }

  unfoldable pub refill : Source → Source
  unfolding take_number
  refill s = if s.remain == 0 then take_number s else s

  -- `int(cache & letterIdMask)`
  unfoldable pub next_index : Source → ℕ
  unfolding refill
  next_index s = (refill s).cache % letter_id_size

  -- `cache >>= letterIdBits` and `remain--`
  unfoldable pub next_source : Source → Source
  unfolding refill
  next_source s =
      let r = refill s in
      record { cache = r.cache / letter_id_size; remain = r.remain - 1; next = r.next }

  unfoldable pub has_letter : Source → Bool
  unfolding next_index
  has_letter s = ltb (next_index s) letters_len

  pub put_letter : Source → String → String
  unfolding next_index has_letter
  put_letter s done = if has_letter s then char_at letters (next_index s) ◂ done else done

  -- The loop with `n` bytes to fill before the bytes `done`. The code has no bound on the rounds; none
  -- stands for a loop that still runs after `fuel` rounds.
  pub fill_letters : ℕ → ℕ → Source → String → Option String
  unfolding next_source has_letter put_letter
  fill_letters fuel zero s done = some done
  fill_letters zero (suc n) s done = none
  fill_letters (suc fuel) (suc n) s done =
      fill_letters fuel (if has_letter s then n else suc n) (next_source s) (put_letter s done)

  pub rand_str : ℕ → ℕ → Option String
  unfolding fill_letters take_number
  rand_str fuel n =
      fill_letters fuel n (take_number (record { cache = 0; remain = 0; next = 0 })) ""
