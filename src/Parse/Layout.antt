-- ===== src/Parse/Layout.antt =====
-- The blocks of the USB Video Class specification for uncompressed formats and their frames, as a
-- camera lays them out, and the descriptors that they stand for.
use usb_video_class.Base.{ℕ, ◌+◌, ◌*◌, ◌^◌, ◌<◌, ◌≤◌, ◌≡◌, List, [], ◌∷◌, ◌++◌, length, some, map}
use usb_video_class.Base.Bytes.{int_to_dw, short_to_sw}
use usb_video_class.Desc.{FrameDesc, FormatDesc, StreamingInterface}
use usb_video_class.Parse.Streaming.{blank_format}

-- A frame size with its frame intervals, the first and the others.
pub record FrameSpec : Type 0 where
  pub index : ℕ
  pub capabilities : ℕ
  pub width : ℕ
  pub height : ℕ
  pub min_bit_rate : ℕ
  pub max_bit_rate : ℕ
  pub buffer_size : ℕ
  pub default_interval : ℕ
  pub first_interval : ℕ
  pub more_intervals : List ℕ

pub record FormatSpec : Type 0 where
  pub format_index : ℕ
  pub guid : List ℕ
  pub bits_per_pixel : ℕ
  pub default_frame : ℕ
  pub aspect_x : ℕ
  pub aspect_y : ℕ
  pub interlace : ℕ
  pub copy_protect : ℕ
  pub frames : List FrameSpec

abbrev pub dw_list : List ℕ → List ℕ
dw_list [] = []
dw_list (d ∷ ds) = int_to_dw d ++ dw_list ds

abbrev pub interval_list : FrameSpec → List ℕ
interval_list f = f.first_interval ∷ f.more_intervals

-- The block of a frame, 26 bytes and 4 for each interval.
abbrev pub frame_block : FrameSpec → List ℕ
frame_block f =
    (26 + 4 * length (interval_list f)) ∷ 36 ∷ 0x05 ∷ f.index ∷ f.capabilities ∷ []
    ++ (short_to_sw f.width ++ short_to_sw f.height)
    ++ (int_to_dw f.min_bit_rate ++ int_to_dw f.max_bit_rate)
    ++ (int_to_dw f.buffer_size ++ int_to_dw f.default_interval)
    ++ length (interval_list f) ∷ dw_list (interval_list f)

-- The block of a format, 27 bytes; the number of its frames stands at offset 4.
abbrev pub format_block : FormatSpec → List ℕ
format_block f =
    27 ∷ 36 ∷ 0x04 ∷ f.format_index ∷ length f.frames ∷ []
    ++ f.guid
    ++ f.bits_per_pixel ∷ f.default_frame ∷ f.aspect_x ∷ f.aspect_y ∷ f.interlace ∷ f.copy_protect
      ∷ []

abbrev pub frame_desc : FrameSpec → FrameDesc
frame_desc f = record {
  b_descriptor_subtype = 0x05;
  b_frame_index = f.index;
  bm_capabilities = f.capabilities;
  w_width = f.width;
  w_height = f.height;
  dw_min_bit_rate = f.min_bit_rate;
  dw_max_bit_rate = f.max_bit_rate;
  dw_max_video_frame_buffer_size = f.buffer_size;
  dw_default_frame_interval = f.default_interval;
  dw_min_frame_interval = 0;
  dw_max_frame_interval = 0;
  dw_frame_interval_step = 0;
  b_frame_interval_type = length (interval_list f);
  dw_bytes_per_line = 0;
  intervals = some (interval_list f);
}

abbrev pub format_desc : FormatSpec → List FrameDesc → FormatDesc
format_desc f frames = record blank_format {
  b_descriptor_subtype = 0x04;
  b_format_index = f.format_index;
  guid_format = f.guid;
  b_bits_per_pixel = f.bits_per_pixel;
  b_default_frame_index = f.default_frame;
  b_aspect_ratio_x = f.aspect_x;
  b_aspect_ratio_y = f.aspect_y;
  bm_interlace_flags = f.interlace;
  b_copy_protect = f.copy_protect;
  frame_descs = frames;
}

-- The values fit the fields of the block, and the intervals its length byte.
pub data AllDw : List ℕ → Type 0 where
  none_left : AllDw []
  dw : {d : ℕ} {ds : List ℕ} → d < 2 ^ 32 → AllDw ds → AllDw (d ∷ ds)

pub record FrameFits (f : FrameSpec) : Type 0 where
  pub width_fits : f.width < 2 ^ 16
  pub height_fits : f.height < 2 ^ 16
  pub min_bit_rate_fits : f.min_bit_rate < 2 ^ 32
  pub max_bit_rate_fits : f.max_bit_rate < 2 ^ 32
  pub buffer_size_fits : f.buffer_size < 2 ^ 32
  pub default_interval_fits : f.default_interval < 2 ^ 32
  pub intervals_fit : AllDw (interval_list f)
  pub block_fits : length (interval_list f) ≤ 57

-- A streaming interface: the fields of its input header and its formats.
pub record CameraSpec : Type 0 where
  pub total_length : ℕ
  pub endpoint_number : ℕ
  pub info_bits : ℕ
  pub terminal_link : ℕ
  pub still_method : ℕ
  pub header_tail : List ℕ
  pub formats : List FormatSpec

-- The input header, with an IN endpoint.
abbrev pub header_block : CameraSpec → List ℕ
header_block c =
    (10 + length c.header_tail) ∷ 36 ∷ 0x01 ∷ length c.formats ∷ []
    ++ short_to_sw c.total_length
    ++ (2 ^ 7 + c.endpoint_number) ∷ c.info_bits ∷ c.terminal_link ∷ c.still_method ∷ c.header_tail

abbrev pub format_blocks : List FormatSpec → List (List ℕ)
format_blocks [] = []
format_blocks (f ∷ fs) = format_block f ∷ (map frame_block f.frames ++ format_blocks fs)

-- The blocks of the interface in order.
abbrev pub camera_blocks : CameraSpec → List (List ℕ)
camera_blocks c = header_block c ∷ format_blocks c.formats

abbrev pub format_descs_of : List FormatSpec → List FormatDesc
format_descs_of [] = []
format_descs_of (f ∷ fs) = format_desc f (map frame_desc f.frames) ∷ format_descs_of fs

-- The interface that the blocks stand for.
abbrev pub camera_desc : ℕ → CameraSpec → StreamingInterface
camera_desc number c = record {
  b_interface_number = number;
  format_descs = format_descs_of c.formats;
  b_endpoint_address = 2 ^ 7 + c.endpoint_number;
  b_terminal_link = c.terminal_link;
  b_still_capture_method = c.still_method;
}

pub data AllFrames : List FrameSpec → Type 0 where
  none_left : AllFrames []
  frame : {f : FrameSpec} {fs : List FrameSpec} → FrameFits f → AllFrames fs → AllFrames (f ∷ fs)

pub data AllFormats : List FormatSpec → Type 0 where
  none_left : AllFormats []
  format :
      {f : FormatSpec} {fs : List FormatSpec}
      → length f.guid ≡ 16
      → AllFrames f.frames
      → AllFormats fs
      → AllFormats (f ∷ fs)
