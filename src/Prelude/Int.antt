-- ===== src/Prelude/Int.antt =====
-- Signed integers over the native numbers, under the library's names (its ℤ stands on the unary ℕ),
-- and the two widths of Go's integers with their wrap-around.
use Prim.Native.Nat.{ℕ, suc, ◌+◌, ◌-◌, ◌*◌, ◌/◌, ◌%◌, ◌^◌, ◌≤◌, ◌<◌}
use mathlib.Core.Path.{◌≡◌}
use mathlib.Core.Bool.{Bool}
use native.Mathlib.Omega.{arith}
use kubecluster.Prelude.Tests.{ltb, leb, ◌==◌, if◌then◌else◌}

-- `negsuc n` is -(n + 1).
pub data ℤ : Type 0 where
  pos : ℕ → ℤ
  negsuc : ℕ → ℤ

abbrev pub pos_part : ℤ → ℕ
pos_part (pos n) = n
pos_part (negsuc n) = 0

abbrev pub neg_part : ℤ → ℕ
neg_part (pos n) = 0
neg_part (negsuc n) = suc n

abbrev pub sub_ℕ : ℕ → ℕ → ℤ
sub_ℕ a b = if leb b a then pos (a - b) else negsuc (b - a - 1)

infixl 65 ◌+ℤ◌
infix 50 ◌≤ℤ◌
unfoldable pub ◌+ℤ◌ : ℤ → ℤ → ℤ
a +ℤ b = sub_ℕ (pos_part a + pos_part b) (neg_part a + neg_part b)

abbrev pub neg : ℤ → ℤ
neg a = sub_ℕ (neg_part a) (pos_part a)

abbrev pub ◌≤ℤ◌ : ℤ → ℤ → Type 0
a ≤ℤ b = pos_part a + neg_part b ≤ pos_part b + neg_part a

abbrev pub leb_ℤ : ℤ → ℤ → Bool
leb_ℤ a b = leb (pos_part a + neg_part b) (pos_part b + neg_part a)

abbrev pub ltb_ℤ : ℤ → ℤ → Bool
ltb_ℤ a b = ltb (pos_part a + neg_part b) (pos_part b + neg_part a)

abbrev pub eqb_ℤ : ℤ → ℤ → Bool
eqb_ℤ a b = (pos_part a + neg_part b) == (pos_part b + neg_part a)

-- One round of the wrap-around of a two's complement integer whose values lie in [-half, half):
-- exact for the sum of two values that lie there.
abbrev wrap : ℕ → ℤ → ℤ
unfolding ◌+ℤ◌
wrap half z =
    if leb_ℤ (pos half) z
    then z +ℤ neg (pos (2 * half))
    else if ltb_ℤ z (neg (pos half))
    then z +ℤ pos (2 * half)
    else z

-- Go's `a + b` at int32 and at int64.
unfoldable pub add32 : ℤ → ℤ → ℤ
unfolding ◌+ℤ◌
add32 a b = wrap (2 ^ 31) (a +ℤ b)

unfoldable pub add64 : ℤ → ℤ → ℤ
unfolding ◌+ℤ◌
add64 a b = wrap (2 ^ 63) (a +ℤ b)

-- The conversions `int32(z)` and `int64(z)`: the value modulo the width, with its sign.
abbrev signed : ℕ → ℕ → ℤ
signed half r = if ltb r half then pos r else negsuc (2 * half - r - 1)

abbrev modulo : ℕ → ℤ → ℕ
modulo m z = (pos_part z + (m - neg_part z % m)) % m

unfoldable pub to_int32 : ℤ → ℤ
to_int32 z = signed (2 ^ 31) (modulo (2 ^ 32) z)

unfoldable pub to_int64 : ℤ → ℤ
to_int64 z = signed (2 ^ 63) (modulo (2 ^ 64) z)

-- Go's `a * b` at int64.
unfoldable pub mul64 : ℤ → ℤ → ℤ
unfolding to_int64
mul64 a b = to_int64 (
    sub_ℕ (pos_part a * pos_part b + neg_part a * neg_part b)
      (pos_part a * neg_part b + neg_part a * pos_part b))

-- Go's `z / d` for a positive `d`, which cuts off towards zero.
unfoldable pub quot : ℤ → ℕ → ℤ
quot z d = sub_ℕ (pos_part z / d) (neg_part z / d)

-- The values of an int32 and of an int64.
pub record IsInt32 (z : ℤ) : Type 0 where
  pub below : pos_part z < 2 ^ 31
  pub above : neg_part z ≤ 2 ^ 31

pub record IsInt64 (z : ℤ) : Type 0 where
  pub below : pos_part z < 2 ^ 63
  pub above : neg_part z ≤ 2 ^ 63

-- A sum never leaves the type.
pub add64-IsInt64 : (a b : ℤ) → IsInt64 a → IsInt64 b → IsInt64 (add64 a b)
unfolding add64
add64-IsInt64 a b ha hb = ground arith

-- Counting up from a value that is no negative number, below the limit, is exact.
pub add32-pos : (a b : ℕ) → a + b < 2 ^ 31 → add32 (pos a) (pos b) ≡ pos (a + b)
unfolding add32
add32-pos a b h = ground arith

pub add64-pos : (a b : ℕ) → a + b < 2 ^ 63 → add64 (pos a) (pos b) ≡ pos (a + b)
unfolding add64
add64-pos a b h = ground arith
