-- ===== src/Common/Bits.antt =====
-- Masks: tests and updates of the bits of a word.
use Prim.Native.Nat.{ℕ, zero, suc, ◌+◌, ◌-◌, ◌/◌, ◌%◌, bit_and}
use mathlib.Core.Bool.{Bool, not}
use android_device_samsung_z.Common.Tests.{◌==◌}

-- `word & mask` as a condition.
abbrev pub has : ℕ → ℕ → Bool
has word mask = not (bit_and word mask == 0)

-- `word & ~mask`: what is left when the bits in common are taken away.
abbrev pub clear : ℕ → ℕ → ℕ
clear word mask = word - bit_and word mask

-- The number of ones among the lowest `width` bits.
pub ones : ℕ → ℕ → ℕ
ones zero word = 0
ones (suc width) word = word % 2 + ones width (word / 2)

-- `popcount` of a 32-bit word.
unfoldable pub popcount : ℕ → ℕ
unfolding ones
popcount word = ones 32 word
