-- ===== src/Base/Int.antt =====
-- Integers over the native numbers: numbers in two's complement, and their order.
use Prim.Native.Nat.{ℕ, suc, ◌+◌, ◌-◌, ◌^◌}
use mathlib.Core.Bool.{Bool, false, true}
use vendor_specific_usbdrive.Base.Tests.{leb, ltb, if◌then◌else◌}

-- `negsuc n` is -(n + 1).
pub data ℤ : Type 0 where
  pos : ℕ → ℤ
  negsuc : ℕ → ℤ

abbrev pub pos_part : ℤ → ℕ
pos_part (pos n) = n
pos_part (negsuc _) = 0

abbrev pub neg_part : ℤ → ℕ
neg_part (pos _) = 0
neg_part (negsuc n) = suc n

abbrev pub leb_ℤ : ℤ → ℤ → Bool
leb_ℤ a b = leb (pos_part a + neg_part b) (pos_part b + neg_part a)

abbrev pub is_negative : ℤ → Bool
is_negative (pos _) = false
is_negative (negsuc _) = true

-- The number that `bits` bits stand for, with their sign; there is one bit at least.
abbrev pub twos_complement : (bits : ℕ) → ℕ → ℤ
twos_complement bits n = if ltb n (2 ^ (bits - 1)) then pos n else negsuc (2 ^ bits - 1 - n)
