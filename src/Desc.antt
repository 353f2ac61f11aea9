-- ===== src/Desc.antt =====
-- The descriptor structures of include/libuvc/libuvc.h and libuvc_internal.h. A `DL` list is a
-- `List` in its order; the `parent` pointers are left out, and a lookup returns the parent instead.
pub mod Lookup
use usb_video_class.Base.{ℕ, List, Option}

pub data FrameFormat : Type 0 where
  any uncompressed compressed yuyv uyvy rgb bgr mjpeg h264 : FrameFormat
  gray8 gray16 by8 ba81 sgrbg8 sgbrg8 srggb8 sbggr8 nv12 p010 : FrameFormat

pub record StillRes : Type 0 where
  pub b_resolution_index : ℕ
  pub w_width : ℕ
  pub w_height : ℕ

pub record StillDesc : Type 0 where
  pub b_descriptor_subtype : ℕ
  pub b_end_point_address : ℕ
  pub image_size_patterns : List StillRes
  pub b_compression : List ℕ

-- `intervals` is the zero-terminated array without its terminator, `none` for `NULL`.
pub record FrameDesc : Type 0 where
  pub b_descriptor_subtype : ℕ
  pub b_frame_index : ℕ
  pub bm_capabilities : ℕ
  pub w_width : ℕ
  pub w_height : ℕ
  pub dw_min_bit_rate : ℕ
  pub dw_max_bit_rate : ℕ
  pub dw_max_video_frame_buffer_size : ℕ
  pub dw_default_frame_interval : ℕ
  pub dw_min_frame_interval : ℕ
  pub dw_max_frame_interval : ℕ
  pub dw_frame_interval_step : ℕ
  pub b_frame_interval_type : ℕ
  pub dw_bytes_per_line : ℕ
  pub intervals : Option (List ℕ)

pub record FormatDesc : Type 0 where
  pub b_descriptor_subtype : ℕ
  pub b_format_index : ℕ
  pub b_num_frame_descriptors : ℕ
  pub guid_format : List ℕ
  pub b_bits_per_pixel : ℕ
  pub b_default_frame_index : ℕ
  pub b_aspect_ratio_x : ℕ
  pub b_aspect_ratio_y : ℕ
  pub bm_interlace_flags : ℕ
  pub b_copy_protect : ℕ
  pub b_variable_size : ℕ
  pub frame_descs : List FrameDesc
  pub still_frame_desc : List StillDesc

pub record StreamingInterface : Type 0 where
  pub b_interface_number : ℕ
  pub format_descs : List FormatDesc
  pub b_endpoint_address : ℕ
  pub b_terminal_link : ℕ
  pub b_still_capture_method : ℕ

pub record InputTerminal : Type 0 where
  pub b_terminal_id : ℕ
  pub w_terminal_type : ℕ
  pub w_objective_focal_length_min : ℕ
  pub w_objective_focal_length_max : ℕ
  pub w_ocular_focal_length : ℕ
  pub bm_controls : ℕ

pub record ProcessingUnit : Type 0 where
  pub b_unit_id : ℕ
  pub b_source_id : ℕ
  pub bm_controls : ℕ

pub record SelectorUnit : Type 0 where
  pub b_unit_id : ℕ

pub record ExtensionUnit : Type 0 where
  pub b_unit_id : ℕ
  pub guid_extension_code : List ℕ
  pub bm_controls : ℕ

pub record ControlInterface : Type 0 where
  pub input_term_descs : List InputTerminal
  pub selector_unit_descs : List SelectorUnit
  pub processing_unit_descs : List ProcessingUnit
  pub extension_unit_descs : List ExtensionUnit
  pub bcd_uvc : ℕ
  pub dw_clock_frequency : ℕ
  pub b_endpoint_address : ℕ
  pub b_interface_number : ℕ

pub record DeviceInfo : Type 0 where
  pub ctrl_if : ControlInterface
  pub stream_ifs : List StreamingInterface
