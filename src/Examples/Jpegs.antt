-- ===== src/Examples/Jpegs.antt =====
-- A decompressor of a toy format, and a frame of two rows of one pixel.
use usb_video_class.Base.{
  ℕ, suc, ◌≡◌, refl, inl, true, Option, none, some, List, [], ◌∷◌, length, take, drop, replicate,
  leb, if◌then◌else◌, arith, if_cases, Always, fault, returns, from_Always, length-replicate,
  length-take,
}
use usb_video_class.Desc.{rgb, mjpeg}
use usb_video_class.Frame.{Frame}
use usb_video_class.Session.{blank_frame}
use usb_video_class.Mjpeg.{Jpeg, jcs_rgb, Scanlines, start, with_tables, mjpeg2rgb}
use usb_video_class.Mjpeg.Lines.{ReadsRows}
use usb_video_class.Mjpeg.Decoded.{decode, Starts}
use usb_video_class.Mjpeg.Exact.{Converted, mjpeg2rgb-Converted}

-- The rows read and those there are, the bytes of a row, and the bytes that follow.
record Raw : Type 0 where
  line : ℕ
  lines : ℕ
  row : ℕ
  rest : List ℕ

abbrev raw_header : List ℕ → Option Raw
raw_header (h ∷ w ∷ bytes) = some (record { line = 0; lines = h; row = w; rest = bytes })
raw_header bytes = none

raw_row : Raw → Option (Scanlines Raw)
raw_row j =
    if leb j.row (length j.rest)
    then some (record {
      count = 1;
      bytes = take j.row j.rest;
      next = record j { line = suc j.line; rest = drop j.row j.rest };
    })
    else none

abbrev raw : Jpeg Raw
raw = record {
  read_header = raw_header;
  has_huff_table = λ j. true;
  set_huff_tables = λ a b c d j. j;
  start_decompress = λ color j. some j;
  output_scanline = λ j. j.line;
  output_height = λ j. j.lines;
  row_bytes = λ j. j.row;
  read_scanlines = raw_row;
  finish_decompress = λ j. true;
}

raw-ReadsRows : ReadsRows raw
unfolding raw_row
raw-ReadsRows j r below =
    from_Always
      (if_cases
        (Always (λ (r : Scanlines Raw).
          (r.count ≡ 1)
          × (length r.bytes ≡ j.row)
          × (r.next.line ≡ suc j.line)
          × (r.next.lines ≡ j.lines)
          × (r.next.row ≡ j.row)))
        (leb j.row (length j.rest))
        (λ fits. returns (refl, ground (arith, fits, length-take j.row j.rest), refl, refl, refl))
        (λ _. fault))
      r

abbrev jpeg : Frame
jpeg = record blank_frame {
  image = some (2 ∷ 3 ∷ 9 ∷ 8 ∷ 7 ∷ 6 ∷ 5 ∷ 4 ∷ []);
  data_bytes = 8;
  width = 1;
  height = 2;
  frame_format = mjpeg;
}

jpeg-Starts : Starts raw jcs_rgb (2 ∷ 3 ∷ 9 ∷ 8 ∷ 7 ∷ 6 ∷ 5 ∷ 4 ∷ []) 2 3
unfolding start with_tables
jpeg-Starts j j' read begun =
    let (line, lines, row) =
      from_Always {P = λ (j : Raw). (j.line ≡ 0) × (j.lines ≡ 2) × (j.row ≡ 3)}
        (returns (refl, refl, refl)) j read in
    from_Always {P = λ (j : Raw). (j.line ≡ 0) × (j.lines ≡ 2) × (j.row ≡ 3)}
      (returns (line, lines, row)) j' begun

abbrev realloc : Option (List ℕ) → ℕ → Option (List ℕ)
realloc old n = some (replicate n 0)

realloc_sized :
    (old : Option (List ℕ)) (n : ℕ) (buf : List ℕ) → realloc old n ≡ some buf → length buf ≡ n
realloc_sized old n buf e =
    from_Always {P = λ (xs : List ℕ). length xs ≡ n} (returns (length-replicate n 0)) buf e

mjpeg2rgb-Converted_example :
    Converted jpeg rgb 3
      (decode raw jcs_rgb (2 ∷ 3 ∷ 9 ∷ 8 ∷ 7 ∷ 6 ∷ 5 ∷ 4 ∷ []))
      (mjpeg2rgb raw realloc jpeg blank_frame)
mjpeg2rgb-Converted_example =
    mjpeg2rgb-Converted raw raw-ReadsRows realloc realloc_sized jpeg blank_frame refl (omega arith)
      (inl refl) refl (omega arith) (omega arith) jpeg-Starts
