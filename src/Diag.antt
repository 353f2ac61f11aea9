-- ===== src/Diag.antt =====
-- The diagnostics of src/diag.c. What is printed is a list of lines, one for each call of `printf`
-- or for calls that follow one another, with its arguments; how `printf` writes a number is left
-- out. `none` is a division by zero or a read outside an array.
pub mod Exact
use usb_video_class.Base.{
  ℕ, suc, ◌+◌, ◌/◌, Bool, true, false, ◌||◌, Option, none, some, List, [], ◌∷◌, ◌++◌, ◌==◌,
  if◌then◌else◌, ◌>>=◌,
}
use usb_video_class.Base.Int.{ℤ, ◌==ℤ◌}
use usb_video_class.UvcError
use usb_video_class.Desc.{
  StillRes, StillDesc, FrameDesc, FormatDesc, StreamingInterface, DeviceInfo,
}
use usb_video_class.Ctrl.{StreamCtrl}
use usb_video_class.Discover.{UsbDevice}
use Prim.Native.String.{String}

-- `uvc_error_msgs`
abbrev pub error_msgs : List (ℤ × String)
error_msgs =
    (UvcError.success, "Success")
    ∷ (UvcError.io, "I/O error")
    ∷ (UvcError.invalid_param, "Invalid parameter")
    ∷ (UvcError.access, "Access denied")
    ∷ (UvcError.no_device, "No such device")
    ∷ (UvcError.not_found, "Not found")
    ∷ (UvcError.busy, "Busy")
    ∷ (UvcError.timeout, "Timeout")
    ∷ (UvcError.overflow, "Overflow")
    ∷ (UvcError.pipe, "Pipe")
    ∷ (UvcError.interrupted, "Interrupted")
    ∷ (UvcError.no_mem, "Out of memory")
    ∷ (UvcError.not_supported, "Not supported")
    ∷ (UvcError.invalid_device, "Invalid device")
    ∷ (UvcError.invalid_mode, "Invalid mode")
    ∷ (UvcError.callback_exists, "Callback exists")
    ∷ []

unfoldable pub find_msg : List (ℤ × String) → ℤ → String
find_msg [] err = "Unknown error"
find_msg ((code, msg) ∷ msgs) err = if code ==ℤ err then msg else find_msg msgs err

-- `uvc_strerror`
abbrev pub strerror : ℤ → String
strerror = find_msg error_msgs

-- What is printed.
pub data Line : Type 0 where
  text : String → Line
  error_line : String → ℤ → Line
  field : String → ℕ → Line
  device_configuration : ℕ → ℕ → Option (List ℕ) → Line
  status : Bool → Line
  video_control : ℕ → Line
  video_streaming : ℕ → ℕ → Line
  format : (name : String) (index bits : ℕ) (guid fourcc : List ℕ) → Line
  format_fields : (default_frame aspect_x aspect_y interlace copy_protect : ℕ) → Line
  unknown_format : ℕ → Line
  frame :
      (index capabilities width height min_bit_rate max_bit_rate max_size default_rate : ℕ) → Line
  interval : ℕ → ℕ → Line
  interval_range : (min min_rate max max_rate : ℕ) → Line
  interval_step : ℕ → ℕ → Line
  still_frame : ℕ → Line
  still_size : ℕ → ℕ → ℕ → Line

-- `uvc_perror`; a message that is there and not empty comes first.
unfoldable pub perror : ℤ → Option String → List Line
perror err (some (String.◌∷◌ c s)) =
    text (String.◌∷◌ c s) ∷ text ": " ∷ error_line (strerror err) err ∷ []
perror err msg = error_line (strerror err) err ∷ []

-- `uvc_print_stream_ctrl`
abbrev pub print_stream_ctrl : StreamCtrl → List Line
print_stream_ctrl c =
    field "bmHint" c.bm_hint
    ∷ field "bFormatIndex" c.b_format_index
    ∷ field "bFrameIndex" c.b_frame_index
    ∷ field "dwFrameInterval" c.dw_frame_interval
    ∷ field "wKeyFrameRate" c.w_key_frame_rate
    ∷ field "wPFrameRate" c.w_p_frame_rate
    ∷ field "wCompQuality" c.w_comp_quality
    ∷ field "wCompWindowSize" c.w_comp_window_size
    ∷ field "wDelay" c.w_delay
    ∷ field "dwMaxVideoFrameSize" c.dw_max_video_frame_size
    ∷ field "dwMaxPayloadTransferSize" c.dw_max_payload_transfer_size
    ∷ field "bInterfaceNumber" c.b_interface_number
    ∷ []

abbrev pub name_for_format_subtype : ℕ → String
name_for_format_subtype subtype =
    if subtype == 0x04
    then "UncompressedFormat"
    else (if subtype == 0x06
        then "MJPEGFormat"
        else (if subtype == 0x10 then "FrameFormat" else "Unknown"))

-- `10000000 / interval`
unfoldable pub rate_of : ℕ → Option ℕ
rate_of d = if d == 0 then none else some (10000000 / d)

-- The array of intervals ends with a 0, behind the last or as one of them.
unfoldable pub print_intervals : ℕ → List ℕ → List Line
print_intervals i [] = []
print_intervals i (d ∷ ds) =
    if d == 0 then [] else interval i (10000000 / d) ∷ print_intervals (suc i) ds

unfoldable pub print_step : ℕ → List Line
print_step step = if step == 0 then [] else interval_step step (10000000 / step) ∷ []

unfoldable pub print_frame_intervals : FrameDesc → Option (List ℕ) → Option (List Line)
print_frame_intervals f (some ds) = some (print_intervals 0 ds)
print_frame_intervals f none = do
  min_rate ← rate_of f.dw_min_frame_interval
  max_rate ← rate_of f.dw_max_frame_interval
  some (
      interval_range f.dw_min_frame_interval min_rate f.dw_max_frame_interval max_rate
      ∷ print_step f.dw_frame_interval_step)

unfoldable pub print_frame : FrameDesc → Option (List Line)
print_frame f = do
  rate ← rate_of f.dw_default_frame_interval
  lines ← print_frame_intervals f f.intervals
  some (
      frame f.b_frame_index f.bm_capabilities f.w_width f.w_height f.dw_min_bit_rate
        f.dw_max_bit_rate f.dw_max_video_frame_buffer_size rate
      ∷ lines)

-- The lines of each item, up to the first that cannot be printed.
unfoldable pub print_each {ℓ} :
    {A : Type ℓ} → (A → Option (List Line)) → List A → Option (List Line)
print_each print [] = some []
print_each print (x ∷ xs) = do lines ← print x; more ← print_each print xs; some (lines ++ more)

unfoldable pub print_sizes : List StillRes → List Line
print_sizes [] = []
print_sizes (r ∷ rs) = still_size r.b_resolution_index r.w_width r.w_height ∷ print_sizes rs

unfoldable pub print_stills : List StillDesc → List Line
print_stills [] = []
print_stills (d ∷ ds) =
    (still_frame d.b_end_point_address ∷ print_sizes d.image_size_patterns) ++ print_stills ds

-- `fourccFormat` as a text: the bytes of the GUID up to the first 0.
unfoldable pub text_of : List ℕ → Option (List ℕ)
text_of [] = none
text_of (b ∷ bs) = if b == 0 then some [] else (do rest ← text_of bs; some (b ∷ rest))

abbrev pub is_known : ℕ → Bool
is_known subtype = (subtype == 0x04) || ((subtype == 0x06) || (subtype == 0x10))

-- A format; `stills` says whether its still images are printed too.
unfoldable pub print_format : Bool → FormatDesc → Option (List Line)
print_format stills f =
    if is_known f.b_descriptor_subtype
    then (do
      fourcc ← text_of f.guid_format
      frames ← print_each print_frame f.frame_descs
      some (
          format (name_for_format_subtype f.b_descriptor_subtype) f.b_format_index
            f.b_bits_per_pixel f.guid_format fourcc
          ∷ format_fields f.b_default_frame_index f.b_aspect_ratio_x f.b_aspect_ratio_y
              f.bm_interlace_flags f.b_copy_protect
          ∷ (frames ++ (if stills then print_stills f.still_frame_desc else []))))
    else some (unknown_format f.b_descriptor_subtype ∷ [])

unfoldable pub print_interfaces : ℕ → List StreamingInterface → Option (List Line)
print_interfaces i [] = some []
print_interfaces i (s ∷ ss) = do
  formats ← print_each (print_format true) s.format_descs
  more ← print_interfaces (suc i) ss
  some ((video_streaming (suc i) s.b_endpoint_address ∷ formats) ++ more)

-- `uvc_get_device_descriptor`: the identifiers, and the serial number where the device could be
-- opened and has one; the names of the maker and of the product are left out.
unfoldable pub get_device_descriptor : UsbDevice → Option (ℕ × ℕ × Option (List ℕ))
get_device_descriptor d = do (vid, pid) ← d.ids; some (vid, pid, if d.opens then d.serial else none)

-- `uvc_print_diag`; the source does not look whether it has a descriptor, and follows a pointer
-- that is not set if it has none. `streaming` says that the handle has a stream.
unfoldable pub print_diag : UsbDevice → Bool → DeviceInfo → Option (List Line)
print_diag dev streaming info =
    if info.ctrl_if.bcd_uvc == 0
    then some (text "uvc_print_diag: Device not configured!" ∷ [])
    else (do
      (vid, pid, serial) ← get_device_descriptor dev
      interfaces ← print_interfaces 0 info.stream_ifs
      some (
          device_configuration vid pid serial
          ∷ status streaming
          ∷ video_control info.ctrl_if.bcd_uvc
          ∷ (interfaces ++ text "END DEVICE CONFIGURATION" ∷ [])))

-- `uvc_print_frameformats`
unfoldable pub print_frameformats : DeviceInfo → Option (List Line)
print_frameformats info =
    if info.ctrl_if.bcd_uvc == 0
    then some (text "uvc_print_frameformats: Device not configured!" ∷ [])
    else print_each (λ (s : StreamingInterface). print_each (print_format false) s.format_descs)
        info.stream_ifs
