-- ===== src/Frame.antt =====
-- `struct uvc_frame` of include/libuvc/libuvc.h.
use usb_video_class.Base.{ℕ, Bool, List, Option}
use usb_video_class.Base.Int.{ℤ}
use usb_video_class.Desc.{FrameFormat}

-- `image` is the `data` buffer and `metadata` the metadata buffer, `none` for `NULL`; a buffer is
-- as long as its allocation. Times are left as numbers.
pub record Frame : Type 0 where
  pub image : Option (List ℕ)
  pub data_bytes : ℕ
  pub width : ℕ
  pub height : ℕ
  pub frame_format : FrameFormat
  pub step : ℕ
  pub sequence : ℕ
  pub capture_time : ℕ
  pub capture_time_finished : ℕ
  pub source : ℕ
  pub library_owns_data : Bool
  pub metadata : Option (List ℕ)
  pub metadata_bytes : ℕ
  pub error_code : ℤ
