-- ===== src/Device.antt =====
-- `struct uvc_device_handle` of include/libuvc/libuvc_internal.h, as far as the streams use it.
pub mod Claim
use usb_video_class.Base.{ℕ, Bool, ◌==◌, if◌then◌else◌}
use usb_video_class.Desc.{DeviceInfo}

-- `claimed` is the mask of claimed interfaces, by its bits.
pub record Device : Type 0 where
  pub info : DeviceInfo
  pub claimed : ℕ → Bool

-- The mask with one bit written.
abbrev pub set_bit : ℕ → Bool → (ℕ → Bool) → ℕ → Bool
set_bit idx b mask j = if idx == j then b else mask j
