-- ===== src/Examples/Frames.antt =====
-- A frame of eight pixels, and its conversions.
use usb_video_class.Base.{
  ℕ, ◌*◌, ◌≡◌, refl, ap, sym, ◌∙◌, inl, inr, Option, none, some, List, [], ◌∷◌, length, take,
  replicate, length-replicate, arith,
}
use mathlib.Core.Option.{some-injective}
use usb_video_class.Base.Int.{pos, ◌-ℤ◌, ◌*ℤ◌}
use usb_video_class.Desc.{FrameFormat}
use usb_video_class.Frame.{Frame}
use usb_video_class.Session.{blank_frame}
use usb_video_class.Convert.{ensure_frame_size, yuyv2rgb, uyvy2bgr, any2rgb, yuyv2y, yuyv2uv}
use usb_video_class.Convert.Pixels.{centred, red, green, blue, each_4, iyuyv2rgb_2, iuyvy2bgr_2}
use usb_video_class.Convert.Pixels.Chroma.{Near, chroma-Near}
use usb_video_class.Convert.Pixels.Order.{swap_pairs}
use usb_video_class.Convert.Sized.{Ensured, ensure_frame_size-Ensured}
use usb_video_class.Convert.Blocks.{evens, odds}
use usb_video_class.Convert.Converted.{Converted}
use usb_video_class.Convert.Exact.{yuyv_conversions, uyvy2bgr-Converted, any2rgb_same}

-- A `realloc` that never fails.
abbrev realloc : Option (List ℕ) → ℕ → Option (List ℕ)
realloc old n = some (replicate n 0)

realloc_sized :
    (old : Option (List ℕ)) (n : ℕ) (buf : List ℕ) → realloc old n ≡ some buf → length buf ≡ n
realloc_sized old n buf e =
    ap (λ (xs : List ℕ). length xs) (some-injective buf (replicate n 0) (sym e))
    ∙ length-replicate {A = ℕ} n 0

abbrev yuyv_bytes : List ℕ
yuyv_bytes =
    16 ∷ 90 ∷ 235 ∷ 240 ∷ 81 ∷ 90 ∷ 145 ∷ 54 ∷ 41 ∷ 240 ∷ 210 ∷ 16 ∷ 106 ∷ 202 ∷ 170 ∷ 166 ∷ []

abbrev yuyv_frame : Frame
yuyv_frame = record blank_frame {
  image = some yuyv_bytes;
  data_bytes = 16;
  width = 4;
  height = 2;
  frame_format = FrameFormat.yuyv;
}

abbrev uyvy_frame : Frame
uyvy_frame = record yuyv_frame {
  image = some (swap_pairs yuyv_bytes);
  frame_format = FrameFormat.uyvy;
}

ensure_frame_size-Ensured_example :
    Ensured 24 yuyv_frame.library_owns_data (ensure_frame_size realloc yuyv_frame 24)
ensure_frame_size-Ensured_example =
    ensure_frame_size-Ensured realloc realloc_sized yuyv_frame 24 (inr (omega arith))

yuyv_conversions_example :
    Converted yuyv_frame FrameFormat.rgb 3
      (each_4 iyuyv2rgb_2 (take (16 * 1) yuyv_bytes))
      (yuyv2rgb realloc yuyv_frame blank_frame)
    × Converted yuyv_frame FrameFormat.gray8 1
        (take 8 (evens yuyv_bytes))
        (yuyv2y realloc yuyv_frame blank_frame)
    × Converted yuyv_frame FrameFormat.gray8 1
        (take 8 (odds yuyv_bytes))
        (yuyv2uv realloc yuyv_frame blank_frame)
yuyv_conversions_example =
    yuyv_conversions realloc realloc_sized yuyv_frame blank_frame 1 refl (inl refl) refl
      (omega arith) (omega arith) (omega arith)

uyvy2bgr-Converted_example :
    Converted uyvy_frame FrameFormat.bgr 3
      (each_4 iuyvy2bgr_2 (take (16 * 1) (swap_pairs yuyv_bytes)))
      (uyvy2bgr realloc uyvy_frame blank_frame)
uyvy2bgr-Converted_example =
    uyvy2bgr-Converted realloc realloc_sized uyvy_frame blank_frame 1 refl (inl refl) refl
      (omega arith) (omega arith) (omega arith)

any2rgb_same_example :
    (image : List ℕ) × Converted yuyv_frame FrameFormat.rgb 3 image
      (any2rgb realloc none yuyv_frame blank_frame)
    × Converted uyvy_frame FrameFormat.rgb 3 image (any2rgb realloc none uyvy_frame blank_frame)
any2rgb_same_example =
    any2rgb_same realloc realloc_sized none yuyv_frame uyvy_frame blank_frame 1 refl refl
      (omega arith) refl (inl refl) refl (omega arith) (omega arith) (omega arith) (omega arith)

chroma-Near_example :
    Near 113000 (red 240) (140200 *ℤ centred 240)
    × Near 113000 (green 90 240) (pos 0 -ℤ 34414 *ℤ centred 90 -ℤ 71414 *ℤ centred 240)
    × Near 113000 (blue 90) (177200 *ℤ centred 90)
chroma-Near_example = chroma-Near 90 240 (omega arith) (omega arith)
