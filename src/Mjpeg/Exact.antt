-- ===== src/Mjpeg/Exact.antt =====
-- What the conversions of src/frame-mjpeg.c leave in the output frame.
use usb_video_class.Base.{
  ℕ, ◌*◌, ◌^◌, ◌≤◌, ◌<◌, ◌≡◌, refl, ap, ◌∙◌, ◌⊎◌, inl, inr, true, Option, none, some, List, length,
  take, arith,
}
use usb_video_class.Base.Int.{ℤ, pos}
use usb_video_class.UvcError
use usb_video_class.Desc.{FrameFormat, mjpeg, rgb, gray8}
use usb_video_class.Frame.{Frame}
use usb_video_class.Convert.{bytes_of, need_bytes, set_header, convert}
use usb_video_class.Convert.Sized.{IsSized, convert-Ensured}
use usb_video_class.Convert.Converted.{Shows, owned_exact}
use usb_video_class.Mjpeg.{
  Jpeg, ColorSpace, jcs_rgb, jcs_grayscale, mjpeg_convert, mjpeg2rgb, mjpeg2gray, is_mjpeg,
  color_space,
}
use usb_video_class.Mjpeg.Lines.{ReadsRows}
use usb_video_class.Mjpeg.Decoded.{decode, Starts, Decoded, mjpeg_convert-Decoded}

-- No memory; or an error, and libjpeg makes no image of the input; or the image that it makes.
abbrev pub Converted : Frame → FrameFormat → ℕ → Option (List ℕ) → Option (ℤ × Frame) → Type 0
Converted input target channels decoded o =
    (ret : ℤ) × (out : Frame) × (o ≡ some (ret, out))
    × ((ret ≡ UvcError.no_mem)
        ⊎ ((ret ≡ UvcError.other) × (decoded ≡ none))
        ⊎ ((ret ≡ pos 0)
            × ((pixels : List ℕ) × (decoded ≡ some pixels)
                × Shows input target channels pixels out)))

module _ {J : Type 0} (jpeg : Jpeg J) (reads : ReadsRows jpeg)
    (realloc : Option (List ℕ) → ℕ → Option (List ℕ))
    (sized : (old : Option (List ℕ)) (n : ℕ) (buf : List ℕ)
      → realloc old n ≡ some buf
      → length buf ≡ n) where
  Decoded-Converted :
      (input out : Frame) (target : FrameFormat) (channels size : ℕ) (decoded : Option (List ℕ))
      (o : Option (ℤ × Frame))
      → out.data_bytes ≡ need_bytes input.width input.height channels
      → out.data_bytes ≡ size
      → Decoded jpeg decoded size (set_header target channels input out) o
      → Converted input target channels decoded o
  Decoded-Converted input out target channels size none o need same (out', run) =
      (UvcError.other, out', run, inr (inl (refl, refl)))
  Decoded-Converted input out target channels size (some pixels) o need same
        (image, run, long, shown) =
      (
        pos 0,
        record (set_header target channels input out) { image = some image },
        run,
        inr (
            inr (
              refl,
              (
                pixels,
                refl,
                record { pixels = ap (λ k. take k image) same ∙ shown; size = need; header = refl },
              ),
            )),
      )

  any-Converted :
      (color : ColorSpace) (target : FrameFormat) (channels : ℕ) (input out : Frame)
      → input.frame_format ≡ mjpeg
      → color_space target ≡ some color
      → input.data_bytes ≤ length (bytes_of input.image)
      → IsSized out
      → out.library_owns_data ≡ true
      → input.width * channels < 2 ^ 32
      → input.width * input.height * channels < 2 ^ 32
      → Starts jpeg color
          (take input.data_bytes (bytes_of input.image))
          input.height
          (input.width * channels)
      → Converted input target channels
          (decode jpeg color (take input.data_bytes (bytes_of input.image)))
          (convert realloc
            (is_mjpeg input.frame_format)
            target
            channels
            (mjpeg_convert jpeg)
            input
            out)
  any-Converted color target channels input out format chosen inside s mine narrow small starts =
      convert-Ensured realloc sized
        (Converted input target channels
          (decode jpeg color (take input.data_bytes (bytes_of input.image))))
        (mjpeg_convert jpeg) input out (is_mjpeg input.frame_format) target channels
        (ap is_mjpeg format) s (λ out'. (UvcError.no_mem, out', refl, inl refl))
        λ out' ready.
          let exact =
            owned_exact out'.data_bytes (need_bytes input.width input.height channels)
              out.library_owns_data mine ready.exact in
          let fills : out'.data_bytes ≡ input.height * (input.width * channels) =
            omega (arith, exact, small) in
          Decoded-Converted input out' target channels (input.height * (input.width * channels)) _ _
            exact fills
            (mjpeg_convert-Decoded jpeg reads color input.height (input.width * channels) input
              (set_header target channels input out') chosen inside starts (ground (arith, narrow))
              (omega (arith, fills, ready.room)))

  -- For an MJPEG frame with all the bytes that it states, whose image starts at row 0 and has the
  -- frame's height and width, whose rows and whose image take fewer than 2 ^ 32 bytes of RGB, and
  -- an output frame that the library owns whose buffer, if there is one, has the bytes that the
  -- frame states, with a `realloc` that gives the bytes asked for or none and a libjpeg that counts
  -- the rows it reads, one at a time, the conversion ends without an access outside a buffer. It
  -- reports that there is no memory; or another error, and libjpeg makes no image of the frame; or
  -- the output has the input's header with the target's format and row length, and its bytes are
  -- the image that libjpeg makes.
  pub mjpeg2rgb-Converted :
      (input out : Frame)
      → input.frame_format ≡ mjpeg
      → input.data_bytes ≤ length (bytes_of input.image)
      → IsSized out
      → out.library_owns_data ≡ true
      → input.width * 3 < 2 ^ 32
      → input.width * input.height * 3 < 2 ^ 32
      → Starts jpeg jcs_rgb
          (take input.data_bytes (bytes_of input.image))
          input.height
          (input.width * 3)
      → Converted input rgb 3
          (decode jpeg jcs_rgb (take input.data_bytes (bytes_of input.image)))
          (mjpeg2rgb jpeg realloc input out)
  unfolding mjpeg2rgb
  mjpeg2rgb-Converted input out format = any-Converted jcs_rgb rgb 3 input out format refl

  -- The same for grey, of one byte for a pixel.
  pub mjpeg2gray-Converted :
      (input out : Frame)
      → input.frame_format ≡ mjpeg
      → input.data_bytes ≤ length (bytes_of input.image)
      → IsSized out
      → out.library_owns_data ≡ true
      → input.width * 1 < 2 ^ 32
      → input.width * input.height * 1 < 2 ^ 32
      → Starts jpeg jcs_grayscale
          (take input.data_bytes (bytes_of input.image))
          input.height
          (input.width * 1)
      → Converted input gray8 1
          (decode jpeg jcs_grayscale (take input.data_bytes (bytes_of input.image)))
          (mjpeg2gray jpeg realloc input out)
  unfolding mjpeg2gray
  mjpeg2gray-Converted input out format = any-Converted jcs_grayscale gray8 1 input out format refl
