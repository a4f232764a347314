-- ===== src/Base/Int.antt =====
-- Signed counters over the native numbers: what `+= 1`, `-= 1` and the difference of two counts do.
use Prim.Native.Nat.{ℕ, zero, suc, ◌+◌, ◌-◌}
use mathlib.Core.Bool.{Bool, true, false}
use dmanix.Base.Tests.{ltb, leb, if◌then◌else◌}

-- `negsuc n` is -(n + 1).
pub data ℤ : Type 0 where
  pos : ℕ → ℤ
  negsuc : ℕ → ℤ

abbrev pub pos_part : ℤ → ℕ
pos_part (pos n) = n
pos_part (negsuc n) = 0

abbrev pub neg_part : ℤ → ℕ
neg_part (pos n) = 0
neg_part (negsuc n) = suc n

-- a - b, as an integer.
abbrev pub sub_ℕ : ℕ → ℕ → ℤ
sub_ℕ a b = if leb b a then pos (a - b) else negsuc (b - a - 1)

infixl 65 ◌+ℤ◌
unfoldable pub ◌+ℤ◌ : ℤ → ℤ → ℤ
a +ℤ b = sub_ℕ (pos_part a + pos_part b) (neg_part a + neg_part b)

abbrev pub up : ℤ → ℤ
up (pos n) = pos (suc n)
up (negsuc zero) = pos 0
up (negsuc (suc n)) = negsuc n

abbrev pub down : ℤ → ℤ
down (pos zero) = negsuc 0
down (pos (suc n)) = pos n
down (negsuc n) = negsuc (suc n)

abbrev pub is_zero : ℤ → Bool
is_zero (pos zero) = true
is_zero (pos (suc n)) = false
is_zero (negsuc n) = false

-- a <= 0
abbrev pub at_most_zero : ℤ → Bool
at_most_zero (pos zero) = true
at_most_zero (pos (suc n)) = false
at_most_zero (negsuc n) = true

-- n < i and i <= n, for a number and an integer
abbrev pub ltb_int : ℕ → ℤ → Bool
ltb_int n (pos m) = ltb n m
ltb_int n (negsuc m) = false

abbrev pub int_leb : ℤ → ℕ → Bool
int_leb (pos m) n = leb m n
int_leb (negsuc m) n = true
