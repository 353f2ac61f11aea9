-- ===== src/Parse.antt =====
-- The scan over the class descriptors of an interface, which src/device.c has twice, and what its
-- parsers share. A parser is handed the bytes from its block to the end of the descriptors.
pub mod Streaming
pub mod Control
pub mod Layout
pub mod Blocks
pub mod Formats
pub mod Camera
pub mod Sized
pub mod Total
use usb_video_class.Base.{
  ℕ, zero, suc, ◌+◌, ◌-◌, ◌*◌, ◌%◌, ◌^◌, Option, none, some, List, [], ◌∷◌, ◌++◌, ltb, ◌==◌,
  if◌then◌else◌, length, get_elem?, drop, ◌>>=◌,
}
use usb_video_class.Base.Bytes.{u64_mod, read_dw}
use usb_video_class.Base.Int.{ℤ, pos, ◌==ℤ◌}

-- The part of `libusb_interface_descriptor` that is read: that of an interface's first setting,
-- with the addresses of its endpoints, and its class descriptors in `extra`.
pub record Interface : Type 0 where
  pub b_interface_number : ℕ
  pub b_interface_class : ℕ
  pub b_interface_sub_class : ℕ
  pub endpoint_addresses : List ℕ
  pub extra : List ℕ

-- The loop of `uvc_scan_control` and of `uvc_scan_streaming`. `buffer_left` is a `size_t`. The
-- result is `none` where the source reads outside the descriptors or goes on for ever.
unfoldable pub scan {ℓ} :
    {A : Type ℓ} → (List ℕ → ℕ → A → Option (ℤ × A)) → ℕ → List ℕ → ℕ → A → Option (ℤ × A)
scan parse zero buffer buffer_left a = none
scan parse (suc fuel) buffer buffer_left a = if ltb buffer_left 3 then some (pos 0, a) else (do
  block_size ← get_elem? buffer 0
  (ret, a') ← parse buffer block_size a
  let rest =
      scan parse fuel (drop block_size buffer) ((buffer_left + u64_mod - block_size) % u64_mod) a'
  if ret ==ℤ pos 0 then rest else some (ret, a'))

-- Each round drops a byte at least, or it is the last that can be told from an endless scan.
abbrev pub scan_all {ℓ} :
    {A : Type ℓ} → (List ℕ → ℕ → A → Option (ℤ × A)) → List ℕ → A → Option (ℤ × A)
scan_all parse extra a = scan parse (suc (length extra)) extra (length extra) a

-- `for (i = 0; i < n; ++i) { out[i] = DW_TO_INT(p); p += 4; }`
unfoldable pub read_dws : ℕ → List ℕ → Option (List ℕ)
read_dws zero p = some []
read_dws (suc n) p = do d ← read_dw p 0; ds ← read_dws n (drop 4 p); some (d ∷ ds)

-- The `n` bytes behind offset `base`, from the last one down, as `bmControls`, a `uint64_t`.
unfoldable pub read_controls : ℕ → List ℕ → ℕ → ℕ → Option ℕ
read_controls zero block base acc = some acc
read_controls (suc n) block base acc = do
  b ← get_elem? block (base + suc n)
  read_controls n block base ((b + acc * 2 ^ 8) % u64_mod)

-- `DL_APPEND`
abbrev pub append_one {ℓ} : {A : Type ℓ} → List A → A → List A
append_one xs x = xs ++ x ∷ []
