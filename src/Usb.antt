-- ===== src/Usb.antt =====
-- libusb as the library calls it: each call maps the state of the device and of the system to a
-- result and a new state. What libusb does is a parameter.
use usb_video_class.Base.{ℕ, List, length, ◌≡◌}
use usb_video_class.Base.Int.{ℤ}

-- The arguments of `libusb_control_transfer` but for the buffer.
pub record Setup : Type 0 where
  pub request_type : ℕ
  pub request : ℕ
  pub value : ℕ
  pub index : ℕ
  pub len : ℕ

-- The result of a control transfer: bytes or an error, and the buffer as it is left.
pub record Reply (S : Type 0) : Type 0 where
  pub result : ℤ
  pub buffer : List ℕ
  pub after : S

pub record Usb (S : Type 0) : Type 0 where
  pub control_transfer : Setup → List ℕ → S → Reply S
  pub detach_kernel_driver : ℕ → S → ℤ × S
  pub attach_kernel_driver : ℕ → S → ℤ × S
  pub claim_interface : ℕ → S → ℤ × S
  pub release_interface : ℕ → S → ℤ × S
  pub set_interface_alt_setting : ℕ → ℕ → S → ℤ × S

-- A control transfer does not change the size of the buffer that it is handed.
abbrev pub KeepsSize : {S : Type 0} → Usb S → Type 0
KeepsSize {S} u =
    (setup : Setup) (buf : List ℕ) (s : S)
    → length (u.control_transfer setup buf s).buffer ≡ length buf

-- `enum uvc_req_code`
abbrev pub set_cur : ℕ
set_cur = 0x01

abbrev pub get_cur : ℕ
get_cur = 0x81

abbrev pub get_max : ℕ
get_max = 0x83

abbrev pub get_len : ℕ
get_len = 0x85
