-- ===== src/Format.antt =====
-- The format table of src/stream.c and its two searches.
pub mod Table
use usb_video_class.Base.{
  ℕ, zero, suc, Bool, true, false, ◌&&◌, ◌||◌, not, List, [], ◌∷◌, ◌==◌, if◌then◌else◌, replicate,
}
use usb_video_class.Desc.{
  FrameFormat, any, uncompressed, compressed, yuyv, uyvy, rgb, bgr, mjpeg, h264, gray8, gray16, by8,
  ba81, sgrbg8, sgbrg8, srggb8, sbggr8, nv12, p010,
}

-- `struct format_table_entry`; `children_count` is the length of `children`.
pub record FormatEntry : Type 0 where
  pub format : FrameFormat
  pub abstract_fmt : Bool
  pub guid : List ℕ
  pub children : List FrameFormat

-- The end that most GUIDs share, and that of the two BGR formats.
abbrev fourcc_tail : List ℕ
fourcc_tail = 0x00 ∷ 0x00 ∷ 0x10 ∷ 0x00 ∷ 0x80 ∷ 0x00 ∷ 0x00 ∷ 0xaa ∷ 0x00 ∷ 0x38 ∷ 0x9b ∷ 0x71 ∷ []

abbrev rgb_tail : List ℕ
rgb_tail =
    0xeb ∷ 0x36 ∷ 0xe4 ∷ 0x4f ∷ 0x52 ∷ 0xce ∷ 0x11 ∷ 0x9f ∷ 0x53 ∷ 0x00 ∷ 0x20 ∷ 0xaf ∷ 0x0b ∷ 0xa7
    ∷ 0x70 ∷ []

abbrev pub fourcc : ℕ → ℕ → ℕ → ℕ → List ℕ
fourcc a b c d = a ∷ b ∷ c ∷ d ∷ fourcc_tail

-- `ABS_FMT` and `FMT`: both store 0 for `abstract_fmt`, and an abstract format has a zero GUID.
abbrev abs_fmt : FrameFormat → List FrameFormat → FormatEntry
abs_fmt f children = record {
  format = f;
  abstract_fmt = false;
  guid = replicate 16 0;
  children = children;
}

abbrev fmt : FrameFormat → List ℕ → FormatEntry
fmt f guid = record { format = f; abstract_fmt = false; guid = guid; children = [] }

-- `_get_format_entry`; every value of the enumeration has an entry.
unfoldable pub get_format_entry : FrameFormat → FormatEntry
get_format_entry any = abs_fmt any (uncompressed ∷ compressed ∷ [])
get_format_entry uncompressed =
    abs_fmt uncompressed (yuyv ∷ uyvy ∷ gray8 ∷ gray16 ∷ nv12 ∷ p010 ∷ bgr ∷ rgb ∷ [])
get_format_entry yuyv = fmt yuyv (fourcc b'Y' b'U' b'Y' b'2')
get_format_entry uyvy = fmt uyvy (fourcc b'U' b'Y' b'V' b'Y')
get_format_entry gray8 = fmt gray8 (fourcc b'Y' b'8' b'0' b'0')
get_format_entry gray16 = fmt gray16 (fourcc b'Y' b'1' b'6' b' ')
get_format_entry nv12 = fmt nv12 (fourcc b'N' b'V' b'1' b'2')
get_format_entry p010 = fmt p010 (fourcc b'P' b'0' b'1' b'0')
get_format_entry bgr = fmt bgr (0x7d ∷ rgb_tail)
get_format_entry rgb = fmt rgb (0x7e ∷ rgb_tail)
get_format_entry by8 = fmt by8 (fourcc b'B' b'Y' b'8' b' ')
get_format_entry ba81 = fmt ba81 (fourcc b'B' b'A' b'8' b'1')
get_format_entry sgrbg8 = fmt sgrbg8 (fourcc b'G' b'R' b'B' b'G')
get_format_entry sgbrg8 = fmt sgbrg8 (fourcc b'G' b'B' b'R' b'G')
get_format_entry srggb8 = fmt srggb8 (fourcc b'R' b'G' b'G' b'B')
get_format_entry sbggr8 = fmt sbggr8 (fourcc b'B' b'G' b'G' b'R')
get_format_entry compressed = abs_fmt compressed (mjpeg ∷ h264 ∷ [])
get_format_entry mjpeg = fmt mjpeg (b'M' ∷ b'J' ∷ b'P' ∷ b'G' ∷ replicate 12 0)
get_format_entry h264 = fmt h264 (fourcc b'H' b'2' b'6' b'4')

-- `!memcmp(a, b, 16)` of two GUIDs.
unfoldable pub same_guid : List ℕ → List ℕ → Bool
same_guid [] [] = true
same_guid [] (y ∷ ys) = false
same_guid (x ∷ xs) [] = false
same_guid (x ∷ xs) (y ∷ ys) = (x == y) && same_guid xs ys

abbrev pub any_of {ℓ} : {A : Type ℓ} → (A → Bool) → List A → Bool
any_of p [] = false
any_of p (x ∷ xs) = p x || any_of p xs

-- `_uvc_frame_format_matches_guid`; the fuel bounds the depth of the recursion on children.
unfoldable pub matches_guid : ℕ → FrameFormat → List ℕ → Bool
matches_guid zero f guid = false
matches_guid (suc fuel) f guid =
    let e = get_format_entry f in
    (not e.abstract_fmt && same_guid guid e.guid)
    || any_of (λ child. matches_guid fuel child guid) e.children

-- The values of the enumeration in order.
abbrev pub formats : List FrameFormat
formats =
    any ∷ uncompressed ∷ compressed ∷ yuyv ∷ uyvy ∷ rgb ∷ bgr ∷ mjpeg ∷ h264 ∷ gray8 ∷ gray16 ∷ by8
    ∷ ba81 ∷ sgrbg8 ∷ sgbrg8 ∷ srggb8 ∷ sbggr8 ∷ nv12 ∷ p010 ∷ []

-- The loop of `uvc_frame_format_for_guid`; `UVC_FRAME_FORMAT_UNKNOWN` and `_ANY` are one value.
unfoldable pub first_format : List FrameFormat → List ℕ → FrameFormat
first_format [] guid = any
first_format (f ∷ fs) guid =
    let e = get_format_entry f in
    if not e.abstract_fmt && same_guid e.guid guid then e.format else first_format fs guid

unfoldable pub frame_format_for_guid : List ℕ → FrameFormat
frame_format_for_guid guid = first_format formats guid
