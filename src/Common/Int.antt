-- ===== src/Common/Int.antt =====
-- Signed integers over the native numbers, and the conversions of C between them and words.
use Prim.Native.Nat.{ℕ, suc, ◌+◌, ◌-◌, ◌*◌, ◌/◌, ◌%◌, ◌^◌, ◌≤◌, ◌<◌}
use mathlib.Core.Path.{◌≡◌}
use mathlib.Core.Bool.{Bool}
use native.Mathlib.Omega.{arith}
use nic_ob_fw.Common.Tests.{ltb, leb, if◌then◌else◌}

-- `negsuc n` is -(n + 1).
pub data ℤ : Type 0 where
  pos : ℕ → ℤ
  negsuc : ℕ → ℤ

abbrev pub pos_part : ℤ → ℕ
pos_part (pos n) = n
pos_part (negsuc n) = 0

abbrev pub neg_part : ℤ → ℕ
neg_part (pos n) = 0
neg_part (negsuc n) = suc n

-- a - b, as an integer.
abbrev pub sub_ℕ : ℕ → ℕ → ℤ
sub_ℕ a b = if leb b a then pos (a - b) else negsuc (b - a - 1)

infixl 65 ◌+ℤ◌
infix 50 ◌≤ℤ◌
unfoldable pub ◌+ℤ◌ : ℤ → ℤ → ℤ
a +ℤ b = sub_ℕ (pos_part a + pos_part b) (neg_part a + neg_part b)

abbrev pub ◌≤ℤ◌ : ℤ → ℤ → Type 0
a ≤ℤ b = pos_part a + neg_part b ≤ pos_part b + neg_part a

-- `a <= b`.
abbrev pub leb_ℤ : ℤ → ℤ → Bool
leb_ℤ a b = leb (pos_part a + neg_part b) (pos_part b + neg_part a)

-- A product with, and a quotient by, an unsigned value. The quotient rounds towards zero.
unfoldable pub scale_up : ℤ → ℕ → ℤ
scale_up a k = sub_ℕ (pos_part a * k) (neg_part a * k)

unfoldable pub scale_down : ℤ → ℕ → ℤ
scale_down a k = sub_ℕ (pos_part a / k) (neg_part a / k)

-- The number that a 16-bit pattern stands for, and the pattern of a number.
unfoldable pub signed16 : ℕ → ℤ
signed16 w = if ltb w (2 ^ 15) then pos w else negsuc (2 ^ 16 - w - 1)

unfoldable pub bits16 : ℤ → ℕ
bits16 (pos n) = n % 2 ^ 16
bits16 (negsuc n) = 2 ^ 16 - 1 - n % 2 ^ 16

-- `(int16_t)a`.
unfoldable pub int16 : ℤ → ℤ
unfolding signed16 bits16
int16 a = signed16 (bits16 a)

-- The range of int16_t.
abbrev pub IsInt16 : ℤ → Type 0
IsInt16 a = (negsuc (2 ^ 15 - 1) ≤ℤ a) × (a ≤ℤ pos (2 ^ 15 - 1))

-- The cast changes no value that fits.
pub int16_fits : (a : ℤ) → IsInt16 a → int16 a ≡ a
unfolding int16
int16_fits (pos n) h = ground arith
int16_fits (negsuc n) h = ground arith

pub signed16-IsInt16 : (w : ℕ) → w < 2 ^ 16 → IsInt16 (signed16 w)
unfolding signed16
signed16-IsInt16 w h = ground arith

pub bits16-signed16 : (w : ℕ) → w < 2 ^ 16 → bits16 (signed16 w) ≡ w
unfolding bits16 signed16
bits16-signed16 w h = ground arith

pub bits16-fits : (a : ℤ) → bits16 a < 2 ^ 16
unfolding bits16
bits16-fits (pos n) = omega arith
bits16-fits (negsuc n) = omega arith

pub signed16-bits16 : (a : ℤ) → IsInt16 a → signed16 (bits16 a) ≡ a
unfolding int16
signed16-bits16 a h = int16_fits a h
