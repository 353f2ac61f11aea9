-- ===== src/Convert/Exact.antt =====
-- What the conversions of src/frame.c leave in the output frame.
use usb_video_class.Base.{
  ◌^◌, ℕ, ◌*◌, ◌≤◌, ◌<◌, ◌≡◌, refl, ap, sym, ◌∙◌, subst, true, Option, some, List, length, take,
  arith,
}
use usb_video_class.Base.Int.{ℤ}
use usb_video_class.Desc.{yuyv, uyvy, rgb, bgr, gray8}
use usb_video_class.Frame.{Frame}
use usb_video_class.Convert.Pixels.{each_4, iyuyv2rgb_2, iuyvy2rgb_2, iuyvy2bgr_2}
use usb_video_class.Convert.Pixels.Order.{swap_pairs, rgb-swap}
use usb_video_class.Convert.{
  luma_body, chroma_body, bytes_of, is_yuyv, fill, convert, yuyv2rgb, uyvy2bgr, any2rgb, any2rgb_of,
  uyvy2rgb, is_uyvy, yuyv2y, yuyv2uv,
}
use usb_video_class.Convert.Sized.{IsSized}
use usb_video_class.Convert.Blocks.{
  evens, odds, luma-IsBody, chroma-IsBody, chunks-luma, chunks-chroma,
}
use usb_video_class.Convert.Converted.{Converted, convert-Converted, eight-Converted}

module _ (realloc : Option (List ℕ) → ℕ → Option (List ℕ))
    (sized : (old : Option (List ℕ)) (n : ℕ) (buf : List ℕ)
      → realloc old n ≡ some buf
      → length buf ≡ n) where
  yuyv2rgb-Converted :
      (input out : Frame) (n : ℕ)
      → input.frame_format ≡ yuyv
      → IsSized out
      → out.library_owns_data ≡ true
      → input.width * input.height ≡ 8 * n
      → 24 * n < 2 ^ 32
      → 16 * n ≤ length (bytes_of input.image)
      → Converted input rgb 3
          (each_4 iyuyv2rgb_2 (take (16 * n) (bytes_of input.image)))
          (yuyv2rgb realloc input out)
  unfolding yuyv2rgb iyuyv2rgb_2
  yuyv2rgb-Converted input out n format =
      eight-Converted realloc sized iyuyv2rgb_2 input out (is_yuyv input.frame_format) rgb n
        (λ a b c d. refl) (ap is_yuyv format)

  -- For a UYVY frame of `8 * n` pixels with all their bytes, below 2 ^ 32 bytes of BGR, and an
  -- output frame that the library owns whose buffer, if there is one, has the bytes that the frame
  -- states, with a `realloc` that gives the bytes asked for or none, the conversion to BGR ends
  -- without an access outside a buffer. It reports that there is no memory, or the output has the
  -- input's header with the target's format and row length, and its bytes are those of the macro
  -- for each pair of pixels in order.
  pub uyvy2bgr-Converted :
      (input out : Frame) (n : ℕ)
      → input.frame_format ≡ uyvy
      → IsSized out
      → out.library_owns_data ≡ true
      → input.width * input.height ≡ 8 * n
      → 24 * n < 2 ^ 32
      → 16 * n ≤ length (bytes_of input.image)
      → Converted input bgr 3
          (each_4 iuyvy2bgr_2 (take (16 * n) (bytes_of input.image)))
          (uyvy2bgr realloc input out)
  unfolding uyvy2bgr iuyvy2bgr_2
  uyvy2bgr-Converted input out n format =
      eight-Converted realloc sized iuyvy2bgr_2 input out (is_uyvy input.frame_format) bgr n
        (λ a b c d. refl) (ap is_uyvy format)

  uyvy2rgb-Converted :
      (input out : Frame) (n : ℕ)
      → input.frame_format ≡ uyvy
      → IsSized out
      → out.library_owns_data ≡ true
      → input.width * input.height ≡ 8 * n
      → 24 * n < 2 ^ 32
      → 16 * n ≤ length (bytes_of input.image)
      → Converted input rgb 3
          (each_4 iuyvy2rgb_2 (take (16 * n) (bytes_of input.image)))
          (uyvy2rgb realloc input out)
  unfolding uyvy2rgb iuyvy2rgb_2
  uyvy2rgb-Converted input out n format =
      eight-Converted realloc sized iuyvy2rgb_2 input out (is_uyvy input.frame_format) rgb n
        (λ a b c d. refl) (ap is_uyvy format)

  -- For a YUYV frame and a UYVY frame of `8 * n` pixels each with all their bytes, the second with
  -- the bytes of the first in its own order, below 2 ^ 32 bytes of RGB, an output frame that the
  -- library owns whose buffer, if there is one, has the bytes that the frame states, and a
  -- `realloc` that gives the bytes asked for or none, `uvc_any2rgb` ends for both, and each time
  -- reports that there is no memory or makes the same image.
  pub any2rgb_same :
      (jpeg : Option (Frame → Frame → Option (ℤ × Frame))) (input other out : Frame) (n : ℕ)
      → input.frame_format ≡ yuyv
      → other.frame_format ≡ uyvy
      → other.width * other.height ≡ 8 * n
      → take (16 * n) (bytes_of other.image) ≡ swap_pairs (take (16 * n) (bytes_of input.image))
      → IsSized out
      → out.library_owns_data ≡ true
      → input.width * input.height ≡ 8 * n
      → 24 * n < 2 ^ 32
      → 16 * n ≤ length (bytes_of input.image)
      → 16 * n ≤ length (bytes_of other.image)
      → (image : List ℕ) × Converted input rgb 3 image (any2rgb realloc jpeg input out)
        × Converted other rgb 3 image (any2rgb realloc jpeg other out)
  unfolding any2rgb any2rgb_of uyvy2rgb iuyvy2rgb_2
  any2rgb_same jpeg input other out n f g size swapped s mine pixels small inside within = (
    each_4 iyuyv2rgb_2 (take (16 * n) (bytes_of input.image)),
    subst (Converted input rgb 3 (each_4 iyuyv2rgb_2 (take (16 * n) (bytes_of input.image))))
        (ap (λ k. any2rgb_of realloc k jpeg input out) (sym f))
        (yuyv2rgb-Converted input out n f s mine pixels small inside),
    subst
        (λ image.
          Converted other rgb 3 image (any2rgb_of realloc other.frame_format jpeg other out))
        (ap (each_4 iuyvy2rgb_2) swapped ∙ rgb-swap (take (16 * n) (bytes_of input.image)))
        (subst (Converted other rgb 3 (each_4 iuyvy2rgb_2 (take (16 * n) (bytes_of other.image))))
          (ap (λ k. any2rgb_of realloc k jpeg other out) (sym g))
          (uyvy2rgb-Converted other out n g s mine size small within)),
  )

  yuyv2y-Converted :
      (input out : Frame) (n : ℕ)
      → input.frame_format ≡ yuyv
      → IsSized out
      → out.library_owns_data ≡ true
      → input.width * input.height ≡ n
      → n < 2 ^ 32
      → n * 2 ≤ length (bytes_of input.image)
      → Converted input gray8 1 (take n (evens (bytes_of input.image))) (yuyv2y realloc input out)
  unfolding yuyv2y
  yuyv2y-Converted input out n format s mine pixels small inside =
      subst
        (λ image.
          Converted input gray8 1 image
            (convert realloc (is_yuyv input.frame_format) gray8 1 (fill luma_body) input out))
        (chunks-luma n (bytes_of input.image) inside)
        (convert-Converted realloc sized luma_body luma-IsBody input out
          (is_yuyv input.frame_format) gray8 1 n (ap is_yuyv format) s mine (omega (arith, pixels))
          inside)

  yuyv2uv-Converted :
      (input out : Frame) (n : ℕ)
      → input.frame_format ≡ yuyv
      → IsSized out
      → out.library_owns_data ≡ true
      → input.width * input.height ≡ n
      → n < 2 ^ 32
      → n * 2 ≤ length (bytes_of input.image)
      → Converted input gray8 1 (take n (odds (bytes_of input.image))) (yuyv2uv realloc input out)
  unfolding yuyv2uv
  yuyv2uv-Converted input out n format s mine pixels small inside =
      subst
        (λ image.
          Converted input gray8 1 image
            (convert realloc (is_yuyv input.frame_format) gray8 1 (fill chroma_body) input out))
        (chunks-chroma n (bytes_of input.image) inside)
        (convert-Converted realloc sized chroma_body chroma-IsBody input out
          (is_yuyv input.frame_format) gray8 1 n (ap is_yuyv format) s mine (omega (arith, pixels))
          inside)

  -- For a YUYV frame of `8 * n` pixels with all their bytes, below 2 ^ 32 bytes of RGB, and an
  -- output frame that the library owns whose buffer, if there is one, has the bytes that the frame
  -- states, with a `realloc` that gives the bytes asked for or none, the conversions to RGB, to grey
  -- and to the chroma bytes end without an access outside a buffer. Each reports that there is no
  -- memory, or the output has the input's header with the target's format and row length, and its
  -- bytes are those of the macro for each pair of pixels, the first of each pair, and the second of
  -- each pair, in order.
  pub yuyv_conversions :
      (input out : Frame) (n : ℕ)
      → input.frame_format ≡ yuyv
      → IsSized out
      → out.library_owns_data ≡ true
      → input.width * input.height ≡ 8 * n
      → 24 * n < 2 ^ 32
      → 16 * n ≤ length (bytes_of input.image)
      → Converted input rgb 3
          (each_4 iyuyv2rgb_2 (take (16 * n) (bytes_of input.image)))
          (yuyv2rgb realloc input out)
        × Converted input gray8 1
            (take (8 * n) (evens (bytes_of input.image)))
            (yuyv2y realloc input out)
        × Converted input gray8 1
            (take (8 * n) (odds (bytes_of input.image)))
            (yuyv2uv realloc input out)
  yuyv_conversions input out n format s mine pixels small inside = (
    yuyv2rgb-Converted input out n format s mine pixels small inside,
    yuyv2y-Converted input out (8 * n) format s mine pixels (omega (arith, small))
        (omega (arith, inside)),
    yuyv2uv-Converted input out (8 * n) format s mine pixels (omega (arith, small))
        (omega (arith, inside)),
  )
