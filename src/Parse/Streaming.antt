-- ===== src/Parse/Streaming.antt =====
-- `uvc_parse_vs` of src/device.c and the parsers that it calls. Each of these returns
-- `UVC_SUCCESS`, so its result is the interface alone. Parse/Streaming/Frames has
-- those of frames and still images.
pub mod Frames
use usb_video_class.Base.{
  ℕ, ◌+◌, ◌*◌, ◌/◌, ◌%◌, ◌^◌, Option, some, List, [], ◌∷◌, ◌==◌, if◌then◌else◌, get_elem?, slice,
  replicate, ◌>>=◌,
}
use usb_video_class.Base.Int.{ℤ, pos}
use usb_video_class.Desc.{FormatDesc, StreamingInterface}
use usb_video_class.Parse.{append_one}
unfoldable pub use usb_video_class.Parse.Streaming.Frames.{
  change_last, add_frame, read_intervals, read_frame, append_frame, parse_vs_frame_uncompressed,
  parse_vs_frame_frame, read_patterns, parse_vs_still_image_frame,
}

-- `block[6] & 0x8f`
abbrev pub endpoint_bits : ℕ → ℕ
endpoint_bits b = b / 2 ^ 7 % 2 * 2 ^ 7 + b % 2 ^ 4

unfoldable pub parse_vs_input_header : List ℕ → StreamingInterface → Option StreamingInterface
parse_vs_input_header block s = do
  endpoint ← get_elem? block 6
  terminal_link ← get_elem? block 8
  still_method ← get_elem? block 9
  some (record s {
    b_endpoint_address = endpoint_bits endpoint;
    b_terminal_link = terminal_link;
    b_still_capture_method = still_method;
  })

-- What `calloc` gives for a format.
abbrev pub blank_format : FormatDesc
blank_format = record {
  b_descriptor_subtype = 0;
  b_format_index = 0;
  b_num_frame_descriptors = 0;
  guid_format = replicate 16 0;
  b_bits_per_pixel = 0;
  b_default_frame_index = 0;
  b_aspect_ratio_x = 0;
  b_aspect_ratio_y = 0;
  bm_interlace_flags = 0;
  b_copy_protect = 0;
  b_variable_size = 0;
  frame_descs = [];
  still_frame_desc = [];
}

abbrev pub add_format : StreamingInterface → FormatDesc → StreamingInterface
add_format s format = record s { format_descs = append_one s.format_descs format }

-- The fields at the offsets 21 to 26, which the uncompressed and the frame-based format share.
unfoldable pub read_format : List ℕ → FormatDesc → Option FormatDesc
read_format block format = do
  subtype ← get_elem? block 2
  format_index ← get_elem? block 3
  guid ← slice block 5 16
  bits_per_pixel ← get_elem? block 21
  default_frame ← get_elem? block 22
  aspect_x ← get_elem? block 23
  aspect_y ← get_elem? block 24
  interlace ← get_elem? block 25
  copy_protect ← get_elem? block 26
  some (record format {
    b_descriptor_subtype = subtype;
    b_format_index = format_index;
    guid_format = guid;
    b_bits_per_pixel = bits_per_pixel;
    b_default_frame_index = default_frame;
    b_aspect_ratio_x = aspect_x;
    b_aspect_ratio_y = aspect_y;
    bm_interlace_flags = interlace;
    b_copy_protect = copy_protect;
  })

unfoldable pub parse_vs_format_uncompressed :
    List ℕ → StreamingInterface → Option StreamingInterface
parse_vs_format_uncompressed block s = do
  format ← read_format block blank_format
  some (add_format s format)

unfoldable pub parse_vs_frame_format : List ℕ → StreamingInterface → Option StreamingInterface
parse_vs_frame_format block s = do
  frames ← get_elem? block 4
  format ← read_format block (record blank_format { b_num_frame_descriptors = frames })
  variable_size ← get_elem? block 27
  some (add_format s (record format { b_variable_size = variable_size }))

-- `bmFlags` shares its byte with `bBitsPerPixel`, which is set to 0 after it.
unfoldable pub parse_vs_format_mjpeg : List ℕ → StreamingInterface → Option StreamingInterface
parse_vs_format_mjpeg block s = do
  subtype ← get_elem? block 2
  format_index ← get_elem? block 3
  flags ← get_elem? block 5
  default_frame ← get_elem? block 6
  aspect_x ← get_elem? block 7
  aspect_y ← get_elem? block 8
  interlace ← get_elem? block 9
  copy_protect ← get_elem? block 10
  some (
      add_format s (record blank_format {
        b_descriptor_subtype = subtype;
        b_format_index = format_index;
        guid_format = b'M' ∷ b'J' ∷ b'P' ∷ b'G' ∷ replicate 12 0;
        b_bits_per_pixel = 0;
        b_default_frame_index = default_frame;
        b_aspect_ratio_x = aspect_x;
        b_aspect_ratio_y = aspect_y;
        bm_interlace_flags = interlace;
        b_copy_protect = copy_protect;
      }))

-- The switch of `uvc_parse_vs`; subtypes without a parser are passed over.
unfoldable pub parse_vs_block : ℕ → List ℕ → StreamingInterface → Option StreamingInterface
parse_vs_block subtype block s =
    if subtype == 0x01
    then parse_vs_input_header block s
    else (if subtype == 0x03
        then parse_vs_still_image_frame block s
        else (if subtype == 0x04
            then parse_vs_format_uncompressed block s
            else (if subtype == 0x06
                then parse_vs_format_mjpeg block s
                else (if subtype == 0x05
                    then parse_vs_frame_uncompressed block s
                    else (if subtype == 0x07
                        then parse_vs_frame_uncompressed block s
                        else (if subtype == 0x10
                            then parse_vs_frame_format block s
                            else (if subtype == 0x11
                                then parse_vs_frame_frame block s
                                else some s)))))))

unfoldable pub parse_vs : List ℕ → ℕ → StreamingInterface → Option (ℤ × StreamingInterface)
unfolding parse_vs_block
parse_vs block block_size s = do
  subtype ← get_elem? block 2
  s' ← parse_vs_block subtype block s
  some (pos 0, s')
