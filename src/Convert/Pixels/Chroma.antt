-- ===== src/Convert/Pixels/Chroma.antt =====
-- How close the fixed-point arithmetic of src/frame.c comes to the coefficients of its
-- floating-point macro `YUYV2RGB_2`.
use usb_video_class.Base.{ℕ, ◌+◌, ◌*◌, ◌≤◌, ◌<◌, ◌≡◌, arith}
use usb_video_class.Base.Int.{
  ℤ, pos, negsuc, pos_part, neg_part, ◌-ℤ◌, ◌*ℤ◌, sub_parts, -ℤ_parts, *ℤ_parts, asr14_low,
  asr14_high,
}
use usb_video_class.Convert.Pixels.{sat, centred, red, green, blue}

-- 100000 a and b differ by at most `gap`.
abbrev pub Near : ℕ → ℤ → ℤ → Type 0
Near gap a b =
    (100000 * pos_part a + neg_part b ≤ 100000 * neg_part a + pos_part b + gap)
    × (100000 * neg_part a + pos_part b ≤ 100000 * pos_part a + neg_part b + gap)

centred_parts : (v : ℕ) → pos_part (centred v) + 128 ≡ neg_part (centred v) + v
unfolding centred
centred_parts v = sub_parts v 128

-- The linear facts about a shifted multiple of a chroma byte.
ruleset shifted = (arith, asr14_low, asr14_high, *ℤ_parts, -ℤ_parts, centred_parts)

-- For chroma bytes, the integers that the macros add to a luma byte differ by at most 1.13
-- from what the coefficients 1.402, -0.34414, -0.71414 and 1.772 of the floating-point macro give.
pub chroma-Near :
    (u v : ℕ)
    → u < 256
    → v < 256
    → Near 113000 (red v) (140200 *ℤ centred v)
      × Near 113000 (green u v) (pos 0 -ℤ 34414 *ℤ centred u -ℤ 71414 *ℤ centred v)
      × Near 113000 (blue u) (177200 *ℤ centred u)
unfolding red green blue
chroma-Near u v hu hv = (omega shifted, omega shifted, omega shifted)

pub sat-lt : (i : ℤ) → sat i < 256
unfolding sat
sat-lt (pos i) = ground arith
sat-lt (negsuc i) = omega arith
