-- ===== src/Parse/Streaming/Frames.antt =====
-- The parsers of src/device.c for frames and still images, which change the last format.
use usb_video_class.Base.{
  ℕ, zero, suc, ◌+◌, ◌*◌, Option, none, some, List, [], ◌∷◌, get_elem?, drop, slice, ◌>>=◌,
}
use usb_video_class.Base.Bytes.{read_dw, read_sw}
use usb_video_class.Desc.{StillRes, StillDesc, FrameDesc, FormatDesc, StreamingInterface}
use usb_video_class.Parse.{read_dws, append_one}

-- `format_descs->prev`, the last format, changed; `none` is its `NULL` list head followed.
unfoldable pub change_last : (FormatDesc → FormatDesc) → List FormatDesc → Option (List FormatDesc)
change_last change [] = none
change_last change (f ∷ []) = some (change f ∷ [])
change_last change (f ∷ g ∷ fs) = do fs' ← change_last change (g ∷ fs); some (f ∷ fs')

abbrev pub add_frame : FrameDesc → FormatDesc → FormatDesc
add_frame frame format = record format { frame_descs = append_one format.frame_descs frame }

-- The intervals at offset 26: three words for a range, `n` words for a list.
unfoldable pub read_intervals : ℕ → List ℕ → FrameDesc → Option FrameDesc
read_intervals zero block frame = do
  min_interval ← read_dw block 26
  max_interval ← read_dw block 30
  step ← read_dw block 34
  some (record frame {
    dw_min_frame_interval = min_interval;
    dw_max_frame_interval = max_interval;
    dw_frame_interval_step = step;
  })
read_intervals (suc n) block frame = do
  intervals ← read_dws (suc n) (drop 26 block)
  some (record frame { intervals = some intervals })

-- The fields up to offset 16, which both kinds of frames share; the others as `calloc` left them.
unfoldable pub read_frame : List ℕ → Option FrameDesc
read_frame block = do
  subtype ← get_elem? block 2
  frame_index ← get_elem? block 3
  capabilities ← get_elem? block 4
  width ← read_sw block 5
  height ← read_sw block 7
  min_bit_rate ← read_dw block 9
  max_bit_rate ← read_dw block 13
  some (record {
    b_descriptor_subtype = subtype;
    b_frame_index = frame_index;
    bm_capabilities = capabilities;
    w_width = width;
    w_height = height;
    dw_min_bit_rate = min_bit_rate;
    dw_max_bit_rate = max_bit_rate;
    dw_max_video_frame_buffer_size = 0;
    dw_default_frame_interval = 0;
    dw_min_frame_interval = 0;
    dw_max_frame_interval = 0;
    dw_frame_interval_step = 0;
    b_frame_interval_type = 0;
    dw_bytes_per_line = 0;
    intervals = none;
  })

unfoldable pub append_frame : FrameDesc → StreamingInterface → Option StreamingInterface
append_frame frame s = do
  formats ← change_last (add_frame frame) s.format_descs
  some (record s { format_descs = formats })

unfoldable pub parse_vs_frame_uncompressed : List ℕ → StreamingInterface → Option StreamingInterface
parse_vs_frame_uncompressed block s = do
  frame ← read_frame block
  buffer_size ← read_dw block 17
  default_interval ← read_dw block 21
  interval_type ← get_elem? block 25
  full ← read_intervals interval_type block (record frame {
    dw_max_video_frame_buffer_size = buffer_size;
    dw_default_frame_interval = default_interval;
    b_frame_interval_type = interval_type;
  })
  append_frame full s

unfoldable pub parse_vs_frame_frame : List ℕ → StreamingInterface → Option StreamingInterface
parse_vs_frame_frame block s = do
  frame ← read_frame block
  default_interval ← read_dw block 17
  interval_type ← get_elem? block 21
  bytes_per_line ← read_dw block 22
  full ← read_intervals interval_type block (record frame {
    dw_default_frame_interval = default_interval;
    b_frame_interval_type = interval_type;
    dw_bytes_per_line = bytes_per_line;
  })
  append_frame full s

-- The image size patterns from `p` on; their indices run from 1.
unfoldable pub read_patterns : ℕ → ℕ → List ℕ → Option (List StillRes)
read_patterns zero i p = some []
read_patterns (suc n) i p = do
  width ← read_sw p 0
  height ← read_sw p 2
  more ← read_patterns n (suc i) (drop 4 p)
  some (record { b_resolution_index = i; w_width = width; w_height = height } ∷ more)

unfoldable pub parse_vs_still_image_frame : List ℕ → StreamingInterface → Option StreamingInterface
parse_vs_still_image_frame block s = do
  subtype ← get_elem? block 2
  endpoint ← get_elem? block 3
  patterns ← get_elem? block 4
  sizes ← read_patterns patterns 1 (drop 5 block)
  compressions ← get_elem? block (5 + 4 * patterns)
  compression ← slice block (6 + 4 * patterns) compressions
  let still : StillDesc = record {
    b_descriptor_subtype = subtype;
    b_end_point_address = endpoint;
    image_size_patterns = sizes;
    b_compression = compression;
  }
  formats ←
      change_last (λ f. record f { still_frame_desc = append_one f.still_frame_desc still })
        s.format_descs
  some (record s { format_descs = formats })
