-- ===== src/Base/Int.antt =====
-- C's `int` results: error codes and byte counts, over the native numbers.
use Prim.Native.Nat.{ℕ, suc, ◌+◌, ◌-◌, ◌*◌, ◌/◌, ◌^◌, ◌≤◌, ◌<◌}
use mathlib.Core.Path.{◌≡◌}
use mathlib.Core.Bool.{Bool, true, false}
use native.Mathlib.Omega.{arith}
use usb_video_class.Base.Tests.{◌==◌, leb, if◌then◌else◌}

-- `negsuc n` is -(n + 1).
pub data ℤ : Type 0 where
  pos : ℕ → ℤ
  negsuc : ℕ → ℤ

infix 50 ◌==ℤ◌
abbrev pub ◌==ℤ◌ : ℤ → ℤ → Bool
pos a ==ℤ pos b = a == b
pos a ==ℤ negsuc b = false
negsuc a ==ℤ pos b = false
negsuc a ==ℤ negsuc b = a == b

-- `x <= 0`, `x < 0`
abbrev pub is_le_zero : ℤ → Bool
is_le_zero (pos a) = a == 0
is_le_zero (negsuc a) = true

abbrev pub is_negative : ℤ → Bool
is_negative (pos a) = false
is_negative (negsuc a) = true

abbrev pub pos_part : ℤ → ℕ
pos_part (pos n) = n
pos_part (negsuc n) = 0

abbrev pub neg_part : ℤ → ℕ
neg_part (pos n) = 0
neg_part (negsuc n) = suc n

-- a - b, as an integer.
abbrev pub sub_ℕ : ℕ → ℕ → ℤ
sub_ℕ a b = if leb b a then pos (a - b) else negsuc (b - a - 1)

infixl 65 ◌+ℤ◌ ◌-ℤ◌
infixl 70 ◌*ℤ◌
unfoldable pub ◌+ℤ◌ : ℤ → ℤ → ℤ
a +ℤ b = sub_ℕ (pos_part a + pos_part b) (neg_part a + neg_part b)

unfoldable pub ◌-ℤ◌ : ℤ → ℤ → ℤ
a -ℤ b = sub_ℕ (pos_part a + neg_part b) (neg_part a + pos_part b)

-- A constant times an integer.
unfoldable pub ◌*ℤ◌ : ℕ → ℤ → ℤ
k *ℤ a = sub_ℕ (k * pos_part a) (k * neg_part a)

-- `a >> 14`, an arithmetic shift: it rounds down.
unfoldable pub asr14 : ℤ → ℤ
asr14 (pos n) = pos (n / 2 ^ 14)
asr14 (negsuc n) = negsuc (n / 2 ^ 14)

pub sub_parts : (a b : ℕ) → pos_part (sub_ℕ a b) + b ≡ neg_part (sub_ℕ a b) + a
sub_parts a b = ground arith

pub +ℤ_parts :
    (a b : ℤ)
    → pos_part (a +ℤ b) + neg_part a + neg_part b ≡ neg_part (a +ℤ b) + pos_part a + pos_part b
unfolding ◌+ℤ◌
+ℤ_parts a b = ground arith

pub -ℤ_parts :
    (a b : ℤ)
    → pos_part (a -ℤ b) + neg_part a + pos_part b ≡ neg_part (a -ℤ b) + pos_part a + neg_part b
unfolding ◌-ℤ◌
-ℤ_parts a b = ground arith

pub *ℤ_parts :
    (k : ℕ) (a : ℤ) → pos_part (k *ℤ a) + k * neg_part a ≡ neg_part (k *ℤ a) + k * pos_part a
unfolding ◌*ℤ◌
*ℤ_parts k a = sub_parts (k * pos_part a) (k * neg_part a)

-- The shift is the quotient by 2 ^ 14, rounded down.
pub asr14_low :
    (a : ℤ) → 2 ^ 14 * pos_part (asr14 a) + neg_part a ≤ 2 ^ 14 * neg_part (asr14 a) + pos_part a
unfolding asr14
asr14_low (pos n) = omega arith
asr14_low (negsuc n) = omega arith

pub asr14_high :
    (a : ℤ)
    → 2 ^ 14 * neg_part (asr14 a) + pos_part a < 2 ^ 14 * pos_part (asr14 a) + neg_part a + 2 ^ 14
unfolding asr14
asr14_high (pos n) = omega arith
asr14_high (negsuc n) = omega arith
