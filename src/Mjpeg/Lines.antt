-- ===== src/Mjpeg/Lines.antt =====
-- The rows that the loop of `uvc_mjpeg_convert` of src/frame-mjpeg.c writes.
use usb_video_class.Base.{
  ℕ, zero, suc, ◌+◌, ◌*◌, ◌≤◌, ◌<◌, ◌≡◌, refl, sym, ap, ◌∙◌, true, false, Option, none, some, List,
  [], ◌++◌, length, take, ltb, ◌>>=◌, lt→ltb, if_false, write_at, write_at-in_range, written,
  length-written, take-written, length-append, arith,
}
use mathlib.Core.List.{append_assoc, append-nil}
use usb_video_class.Mjpeg.{Jpeg, Scanlines, read_lines}

-- libjpeg reads one row at a time, and counts it.
abbrev pub ReadsRows : {J : Type 0} → Jpeg J → Type 0
ReadsRows {J} jpeg =
    (j : J) (r : Scanlines J)
    → jpeg.output_scanline j < jpeg.output_height j
    → jpeg.read_scanlines j ≡ some r
    → (r.count ≡ 1)
      × (length r.bytes ≡ jpeg.row_bytes j)
      × (jpeg.output_scanline r.next ≡ suc (jpeg.output_scanline j))
      × (jpeg.output_height r.next ≡ jpeg.output_height j)
      × (jpeg.row_bytes r.next ≡ jpeg.row_bytes j)

module _ {J : Type 0} (jpeg : Jpeg J) where
  -- The next `n` rows, and the decompressor behind them.
  unfoldable pub rows : ℕ → J → Option (List ℕ × J)
  rows zero j = some ([], j)
  rows (suc n) j = do
    r ← jpeg.read_scanlines j
    (rest, j') ← rows n r.next
    some (r.bytes ++ rest, j')

  -- The loop fails, or leaves the rows behind the first `off` bytes.
  abbrev pub Wrote : List ℕ → ℕ → ℕ → Option (List ℕ × J) → Option (Option J × List ℕ) → Type 0
  Wrote image off size none o = (image' : List ℕ) × (o ≡ some (none, image'))
  Wrote image off size (some (pixels, j')) o =
      (image' : List ℕ) × (o ≡ some (some j', image'))
      × (length pixels ≡ size)
      × (take (off + size) image' ≡ take off image ++ pixels)

  Wrote-join :
      (image : List ℕ) (off next size step : ℕ) (bytes : List ℕ) (rest : Option (List ℕ × J))
      (o : Option (Option J × List ℕ))
      → next ≡ off + step
      → length bytes ≡ step
      → off + step ≤ length image
      → Wrote (written image off bytes) next size rest o
      → Wrote image off (step + size) (rest >>= λ (pixels, j'). some (bytes ++ pixels, j')) o
  Wrote-join image off next size step bytes none o at e fits (image', run) = (image', run)
  Wrote-join image off next size step bytes (some (pixels, j')) o at e fits
        (image', run, long, same) =
      (
        image',
        run,
        omega (arith, length-append bytes pixels, e, long),
        ap (λ k. take k image') (omega (arith, at))
            ∙ (same
                ∙ (ap (λ k. take k (written image off bytes) ++ pixels) (omega (arith, at, e))
                    ∙ (ap (λ xs. xs ++ pixels) (take-written image off bytes (omega (arith, e)))
                        ∙ append_assoc (take off image) bytes pixels))),
      )

  pub read_lines-Wrote :
      ReadsRows jpeg
      → (n fuel step k : ℕ) (j : J) (image : List ℕ) → n < fuel
      → jpeg.output_scanline j + n ≡ jpeg.output_height j
      → jpeg.row_bytes j ≡ step
      → k * step + n * step ≤ length image
      → Wrote image (k * step) (n * step) (rows n j) (read_lines jpeg fuel step j image k)
  unfolding read_lines rows
  read_lines-Wrote reads n zero step k j image h e w room = absurd (omega (arith, h))
  read_lines-Wrote reads zero (suc fuel) step k j image h e w room =
      let last : ltb (jpeg.output_scanline j) (jpeg.output_height j) ≡ false = ground (arith, e) in
      (
        image,
        if_false _ _ last,
        omega arith,
        ap (λ m. take m image) (omega arith) ∙ sym (append-nil (take (k * step) image)),
      )
  read_lines-Wrote reads (suc n) (suc fuel) step k j image h e w room =
      let below : ltb (jpeg.output_scanline j) (jpeg.output_height j) ≡ true =
        lt→ltb (jpeg.output_scanline j) (jpeg.output_height j) (omega (arith, e)) in
      let total : suc n * step ≡ step + n * step = omega arith in
      rw (total, below)
        (split (jpeg.read_scanlines j) refl λ j' image' e' w' room'.
          read_lines-Wrote reads n fuel step (k + 1) j' image' (omega (arith, h)) e' w' room')
    where
      split :
          (m : Option (Scanlines J))
          → jpeg.read_scanlines j ≡ m
          → ((j' : J) (image' : List ℕ)
              → jpeg.output_scanline j' + n ≡ jpeg.output_height j'
              → jpeg.row_bytes j' ≡ step
              → (k + 1) * step + n * step ≤ length image'
              → Wrote image'
                  ((k + 1) * step)
                  (n * step)
                  (rows n j')
                  (read_lines jpeg fuel step j' image' (k + 1)))
          → Wrote image
              (k * step)
              (step + n * step)
              (m >>= λ r. rows n r.next >>= λ (rest, j'). some (r.bytes ++ rest, j'))
              (elim m [
                | none ↦ some (none, image)
                | some r ↦ write_at image (k * step) r.bytes >>= λ image'.
                    read_lines jpeg fuel step r.next image' (k + r.count)
              ])
      split none is ih = (image, refl)
      split (some r) is ih =
          let (one, long, next, high, wide) = reads j r (omega (arith, e)) is in
          let fits : k * step + length r.bytes ≤ length image = omega (arith, long, w, room) in
          rw (write_at-in_range image (k * step) r.bytes fits, one)
            (Wrote-join image (k * step) ((k + 1) * step) (n * step) step r.bytes (rows n r.next) _
              (omega arith) (long ∙ w) (omega (arith, room))
              (ih r.next (written image (k * step) r.bytes) (omega (arith, e, next, high))
                (wide ∙ w) (omega (arith, room, length-written image (k * step) r.bytes fits))))
