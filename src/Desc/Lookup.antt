-- ===== src/Desc/Lookup.antt =====
-- The searches of src/stream.c through the descriptors.
use usb_video_class.Base.{ℕ, Option, none, some, List, [], ◌∷◌, ◌==◌, if◌then◌else◌, ◌>>=◌}
use usb_video_class.Desc.{FrameDesc, FormatDesc, StreamingInterface}

-- The inner `DL_FOREACH` of `_uvc_find_frame_desc_stream_if`.
unfoldable pub find_frame : ℕ → List FrameDesc → Option FrameDesc
find_frame frame_id [] = none
find_frame frame_id (f ∷ fs) =
    if f.b_frame_index == frame_id then some f else find_frame frame_id fs

abbrev pub or_else {ℓ} : {A : Type ℓ} → Option A → Option A → Option A
or_else none o = o
or_else (some a) o = some a

-- `_uvc_find_frame_desc_stream_if`, with the format that the frame's `parent` points to.
unfoldable pub find_frame_desc_stream_if : List FormatDesc → ℕ → ℕ → Option (FormatDesc × FrameDesc)
find_frame_desc_stream_if [] format_id frame_id = none
find_frame_desc_stream_if (format ∷ formats) format_id frame_id =
    or_else
      (if format.b_format_index == format_id
        then (do frame ← find_frame frame_id format.frame_descs; some (format, frame))
        else none)
      (find_frame_desc_stream_if formats format_id frame_id)

-- `uvc_find_frame_desc`
unfoldable pub find_frame_desc : List StreamingInterface → ℕ → ℕ → Option (FormatDesc × FrameDesc)
find_frame_desc [] format_id frame_id = none
find_frame_desc (stream_if ∷ ifs) format_id frame_id =
    or_else (find_frame_desc_stream_if stream_if.format_descs format_id frame_id)
      (find_frame_desc ifs format_id frame_id)

-- `_uvc_get_stream_if`
unfoldable pub get_stream_if : List StreamingInterface → ℕ → Option StreamingInterface
get_stream_if [] idx = none
get_stream_if (stream_if ∷ ifs) idx =
    if stream_if.b_interface_number == idx then some stream_if else get_stream_if ifs idx
