-- ===== src/Mjpeg/Decoded.antt =====
-- `uvc_mjpeg_convert` of src/frame-mjpeg.c beside the image that libjpeg makes.
use usb_video_class.Base.{
  ℕ, suc, ◌*◌, ◌≤◌, ◌≡◌, refl, ap, sym, ◌∙◌, subst, inl, inr, Option, none, some, List, length,
  take, arith, ◌>>=◌, ◌+◌, ◌++◌, slice-in_range, if◌then◌else◌, Bool-cases,
}
use usb_video_class.Base.Int.{ℤ, pos}
use usb_video_class.UvcError
use usb_video_class.Frame.{Frame}
use usb_video_class.Convert.{bytes_of}
use usb_video_class.Mjpeg.{
  Jpeg, ColorSpace, start, read_lines, finish_lines, decompress, start_or_fail, mjpeg_convert,
  color_space,
}
use usb_video_class.Mjpeg.Lines.{ReadsRows, rows, Wrote, read_lines-Wrote}

module _ {J : Type 0} (jpeg : Jpeg J) where
  -- The image that libjpeg makes of a frame's bytes: all its rows, one behind the other.
  unfoldable pub decode : ColorSpace → List ℕ → Option (List ℕ)
  decode color bytes = do
    j ← jpeg.read_header bytes
    j' ← start jpeg color j
    (pixels, j'') ← rows jpeg (jpeg.output_height j') j'
    if jpeg.finish_decompress j'' then some pixels else none

  -- libjpeg starts at row 0, with the frame's height and rows of the given size.
  abbrev pub Starts : ColorSpace → List ℕ → ℕ → ℕ → Type 0
  Starts color bytes height row =
      (j j' : J)
      → jpeg.read_header bytes ≡ some j
      → start jpeg color j ≡ some j'
      → (jpeg.output_scanline j' ≡ 0) × (jpeg.output_height j' ≡ height) × (jpeg.row_bytes j' ≡ row)

  -- A decoded image of the size of the frame in the output, or an error of libjpeg.
  abbrev pub Decoded : Option (List ℕ) → ℕ → Frame → Option (ℤ × Frame) → Type 0
  Decoded none size out o = (out' : Frame) × (o ≡ some (UvcError.other, out'))
  Decoded (some pixels) size out o =
      (image : List ℕ) × (o ≡ some (pos 0, record out { image = some image }))
      × (length pixels ≡ size)
      × (take size image ≡ pixels)

  decompress-Decoded :
      (reads : ReadsRows jpeg) (height row : ℕ) (out : Frame) (j : J)
      → (jpeg.output_scanline j ≡ 0) × (jpeg.output_height j ≡ height) × (jpeg.row_bytes j ≡ row)
      → out.step ≡ row
      → height * row ≤ length (bytes_of out.image)
      → Decoded
          (rows jpeg (jpeg.output_height j) j >>= λ (pixels, j'').
            if jpeg.finish_decompress j'' then some pixels else none)
          (height * row)
          out
          (decompress jpeg out j)
  unfolding decompress finish_lines
  decompress-Decoded reads height row out j (zero_line, high, wide) step room =
      split (rows jpeg (jpeg.output_height j) j)
        (read_lines jpeg (suc (jpeg.output_height j)) out.step j (bytes_of out.image) 0)
        (subst
          (λ (k : ℕ).
            Wrote jpeg (bytes_of out.image) (0 * k) (jpeg.output_height j * k)
              (rows jpeg (jpeg.output_height j) j)
              (read_lines jpeg (suc (jpeg.output_height j)) k j (bytes_of out.image) 0))
          (sym step)
          (read_lines-Wrote jpeg reads (jpeg.output_height j) (suc (jpeg.output_height j)) row 0 j
            (bytes_of out.image) (omega arith) (omega (arith, zero_line)) wide
            (subst (λ (k : ℕ). 0 * row + k * row ≤ length (bytes_of out.image)) (sym high)
              (omega (arith, room)))))
    where
      size : jpeg.output_height j * out.step ≡ height * row
      size = ap (λ (k : ℕ). k * out.step) high ∙ ap (λ (k : ℕ). height * k) step

      none_before : 0 * out.step ≡ 0
      none_before = omega arith

      whole : 0 * out.step + jpeg.output_height j * out.step ≡ height * row
      whole = omega (arith, size)

      split :
          (m : Option (List ℕ × J)) (o : Option (Option J × List ℕ))
          → Wrote jpeg (bytes_of out.image) (0 * out.step) (jpeg.output_height j * out.step) m o
          → Decoded
              (m >>= λ (pixels, j''). if jpeg.finish_decompress j'' then some pixels else none)
              (height * row)
              out
              (o >>= λ r. some (finish_lines jpeg out r))
      split none o (image, run) = (record out { image = some image }, rw run refl)
      split (some (pixels, j'')) o (image, run, long, same) =
          elim (Bool-cases (jpeg.finish_decompress j'')) [
            | inl good ↦
                rw (run, good)
                  (
                    image,
                    refl,
                    long ∙ size,
                    ap (λ k. take k image) (sym whole)
                        ∙ (same ∙ ap (λ k. take k (bytes_of out.image) ++ pixels) none_before),
                  )
            | inr bad ↦ rw (run, bad) (record out { image = some image }, refl)
          ]

  pub mjpeg_convert-Decoded :
      (reads : ReadsRows jpeg) (color : ColorSpace) (height row : ℕ) (input out : Frame)
      → color_space out.frame_format ≡ some color
      → input.data_bytes ≤ length (bytes_of input.image)
      → Starts color (take input.data_bytes (bytes_of input.image)) height row
      → out.step ≡ row
      → height * row ≤ length (bytes_of out.image)
      → Decoded
          (decode color (take input.data_bytes (bytes_of input.image)))
          (height * row)
          out
          (mjpeg_convert jpeg input out)
  unfolding mjpeg_convert decode start_or_fail
  mjpeg_convert-Decoded reads color height row input out chosen inside starts step room =
      rw (slice-in_range (bytes_of input.image) 0 input.data_bytes (omega (arith, inside)), chosen)
        (split (jpeg.read_header bytes) refl)
    where
      bytes : List ℕ
      bytes = take input.data_bytes (bytes_of input.image)

      rest : J → Option (List ℕ)
      rest j = rows jpeg (jpeg.output_height j) j >>= λ (pixels, j'').
          if jpeg.finish_decompress j'' then some pixels else none

      started :
          (j : J) (m : Option J)
          → jpeg.read_header bytes ≡ some j
          → start jpeg color j ≡ m
          → Decoded (m >>= rest) (height * row) out (start_or_fail jpeg out m)
      started j none read is = (out, refl)
      started j (some j') read is =
          decompress-Decoded reads height row out j' (starts j j' read is) step room

      split :
          (m : Option J)
          → jpeg.read_header bytes ≡ m
          → Decoded
              (m >>= λ j. start jpeg color j >>= rest)
              (height * row)
              out
              (start_or_fail jpeg out (m >>= start jpeg color))
      split none is = (out, refl)
      split (some j) is = started j (start jpeg color j) is refl
