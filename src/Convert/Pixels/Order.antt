-- ===== src/Convert/Pixels/Order.antt =====
-- How the four macros of src/frame.c for two pixels agree with each other.
use usb_video_class.Base.{ℕ, ◌<◌, ◌≡◌, refl, ap, List, [], ◌∷◌, ◌++◌, arith}
use usb_video_class.Base.Int.{pos, ◌+ℤ◌, ◌-ℤ◌, ◌*ℤ◌, asr14}
use usb_video_class.Convert.Pixels.{
  sat, centred, red, green, blue, iyuyv2rgb_2, iyuyv2bgr_2, iuyvy2rgb_2, each_4,
}

-- The bytes of a YUYV image in the order of UYVY.
abbrev pub swap_pairs : List ℕ → List ℕ
swap_pairs (a ∷ b ∷ bytes) = b ∷ a ∷ swap_pairs bytes
swap_pairs bytes = bytes

-- The colours of an RGB image in the order of BGR.
abbrev pub swap_colours : List ℕ → List ℕ
swap_colours (r ∷ g ∷ b ∷ bytes) = b ∷ g ∷ r ∷ swap_colours bytes
swap_colours bytes = bytes

red_grey : red 128 ≡ pos 0
unfolding red centred asr14 ◌*ℤ◌
red_grey = refl

green_grey : green 128 128 ≡ pos 0
unfolding green centred asr14 ◌*ℤ◌ ◌-ℤ◌
green_grey = refl

blue_grey : blue 128 ≡ pos 0
unfolding blue centred asr14 ◌*ℤ◌
blue_grey = refl

luma : (y : ℕ) → y < 256 → sat (pos y +ℤ pos 0) ≡ y
unfolding sat ◌+ℤ◌
luma y h = ground arith

-- Grey pixels, whose chroma bytes are 128, keep their luma in each colour.
pub grey : (y z : ℕ) → y < 256 → z < 256 → iyuyv2rgb_2 y 128 z 128 ≡ y ∷ y ∷ y ∷ z ∷ z ∷ z ∷ []
unfolding iyuyv2rgb_2
grey y z hy hz = rw (red_grey, green_grey, blue_grey, luma y hy, luma z hz) refl

pub rgb-swap : (bytes : List ℕ) → each_4 iuyvy2rgb_2 (swap_pairs bytes) ≡ each_4 iyuyv2rgb_2 bytes
unfolding each_4 iuyvy2rgb_2 iyuyv2rgb_2
rgb-swap (a ∷ b ∷ c ∷ d ∷ bytes) = ap (λ k. iyuyv2rgb_2 a b c d ++ k) (rgb-swap bytes)
rgb-swap (a ∷ b ∷ c ∷ []) = refl
rgb-swap (a ∷ b ∷ []) = refl
rgb-swap (a ∷ []) = refl
rgb-swap [] = refl

pub bgr-swap : (bytes : List ℕ) → each_4 iyuyv2bgr_2 bytes ≡ swap_colours (each_4 iyuyv2rgb_2 bytes)
unfolding each_4 iyuyv2bgr_2 iyuyv2rgb_2
bgr-swap (a ∷ b ∷ c ∷ d ∷ bytes) = ap (λ k. iyuyv2bgr_2 a b c d ++ k) (bgr-swap bytes)
bgr-swap (a ∷ b ∷ c ∷ []) = refl
bgr-swap (a ∷ b ∷ []) = refl
bgr-swap (a ∷ []) = refl
bgr-swap [] = refl
