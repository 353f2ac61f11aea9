-- ===== src/Parse/Formats.antt =====
-- The parsers of src/device.c on a camera's blocks for its formats and frames.
use usb_video_class.Base.{
  ℕ, zero, suc, ◌+◌, ◌≤◌, ◌≡◌, refl, ap, ◌∙◌, some, List, [], ◌∷◌, ◌++◌, length, get_elem?, take,
  length-append, take-length, slice-in_range, arith, ◌>>=◌,
}
use mathlib.Core.List.{append_assoc}
use usb_video_class.Base.Bytes.{dw_bytes, sw_bytes, read_dw, read_sw}
use usb_video_class.Base.Int.{pos}
use usb_video_class.Desc.{StreamingInterface}
use usb_video_class.Parse.{read_dws}
use usb_video_class.Parse.Streaming.{
  parse_vs, parse_vs_block, parse_vs_frame_uncompressed, parse_vs_format_uncompressed, read_frame,
  read_format, read_intervals, append_frame, add_format,
}
use usb_video_class.Parse.Layout.{
  FrameSpec, FormatSpec, FrameFits, AllDw, none_left, dw, dw_list, frame_block, format_block,
  frame_desc, format_desc,
}

read_dws-dw_list :
    {ds : List ℕ} (rest : List ℕ) → AllDw ds → read_dws (length ds) (dw_list ds ++ rest) ≡ some ds
unfolding read_dws read_dw
read_dws-dw_list rest none_left = refl
read_dws-dw_list rest (dw {d} {ds} h hs) = rw (dw_bytes d h, read_dws-dw_list rest hs)

pub frame_block-parses :
    (f : FrameSpec) (n : ℕ) (rest : List ℕ) (s : StreamingInterface)
    → FrameFits f
    → parse_vs (frame_block f ++ rest) n s
      ≡ (do s' ← append_frame (frame_desc f) s; some (pos 0, s'))
unfolding parse_vs parse_vs_block parse_vs_frame_uncompressed read_frame read_intervals read_dw
    read_sw
frame_block-parses f n rest s h =
    rw
      (
        sw_bytes f.width h.width_fits,
        sw_bytes f.height h.height_fits,
        dw_bytes f.min_bit_rate h.min_bit_rate_fits,
        dw_bytes f.max_bit_rate h.max_bit_rate_fits,
        dw_bytes f.buffer_size h.buffer_size_fits,
        dw_bytes f.default_interval h.default_interval_fits,
        read_dws-dw_list rest h.intervals_fit,
      )
      refl

get_elem?-past {ℓ} :
    {A : Type ℓ} (xs ys : List A) (i k : ℕ)
    → i ≡ length xs + k
    → get_elem? (xs ++ ys) i ≡ get_elem? ys k
get_elem?-past [] ys i k e = ap (get_elem? ys) (omega arith)
get_elem?-past (x ∷ xs) ys zero k e = absurd (omega arith)
get_elem?-past (x ∷ xs) ys (suc i) k e = get_elem?-past xs ys i k (omega arith)

pub format_block-parses :
    (f : FormatSpec) (n : ℕ) (rest : List ℕ) (s : StreamingInterface)
    → length f.guid ≡ 16
    → parse_vs (format_block f ++ rest) n s ≡ some (pos 0, add_format s (format_desc f []))
unfolding parse_vs parse_vs_block parse_vs_format_uncompressed read_format
format_block-parses f n rest s g =
    rw
      (
        slice-in_range (format_block f ++ rest) 5 16 room,
        guid_read,
        past 16 0 (omega (arith, g)),
        past 17 1 (omega (arith, g)),
        past 18 2 (omega (arith, g)),
        past 19 3 (omega (arith, g)),
        past 20 4 (omega (arith, g)),
        past 21 5 (omega (arith, g)),
      )
      refl
  where
    fields : List ℕ
    fields =
        f.bits_per_pixel ∷ f.default_frame ∷ f.aspect_x ∷ f.aspect_y ∷ f.interlace ∷ f.copy_protect
        ∷ []

    assoc : (f.guid ++ fields) ++ rest ≡ f.guid ++ (fields ++ rest)
    assoc = append_assoc f.guid fields rest

    room : 5 + 16 ≤ length (format_block f ++ rest)
    room = omega (arith, ap length assoc, length-append f.guid (fields ++ rest), g)

    guid_read : take 16 ((f.guid ++ fields) ++ rest) ≡ f.guid
    guid_read = ap (take 16) assoc ∙ take-length 16 f.guid (fields ++ rest) (omega (arith, g))

    past :
        (i k : ℕ)
        → i ≡ length f.guid + k
        → get_elem? ((f.guid ++ fields) ++ rest) i ≡ get_elem? (fields ++ rest) k
    past i k e = ap (λ xs. get_elem? xs i) assoc ∙ get_elem?-past f.guid (fields ++ rest) i k e
