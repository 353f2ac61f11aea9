-- ===== src/Parse/Total.antt =====
-- The scan of streaming descriptors, `uvc_scan_streaming` of src/device.c, on every layout that is
-- well formed: it ends, and reads nothing outside the descriptors.
use usb_video_class.Base.{
  ℕ, zero, suc, ◌+◌, ◌-◌, ◌*◌, ◌%◌, ◌≤◌, ◌<◌, ◌≡◌, ◌∙◌, refl, Bool, true, false, some, List, ◌==◌,
  ltb, length, length-drop, get_elem?, drop, arith, Bool-cases, inl, inr, ◌≢◌,
}
use usb_video_class.Base.Bytes.{u64_mod}
use usb_video_class.Base.Int.{pos}
use usb_video_class.Desc.{StreamingInterface, DeviceInfo}
use usb_video_class.Parse.{Interface, scan, append_one}
use usb_video_class.Parse.Streaming.{parse_vs, parse_vs_block}
use usb_video_class.Parse.Control.{scan_streaming, blank_stream_if}
use usb_video_class.Parse.Sized.{
  HasFormat, interval_bytes, input_header-Ends, format_uncompressed-Ends, frame_format-Ends,
  format_mjpeg-Ends, frame_uncompressed-Ends, frame_frame-Ends, still_image-Ends,
}

-- A block of `n` bytes at the start of `bytes`, of a kind that may follow: long enough for its
-- fields, with a format before it if it belongs to one. The second flag says whether there is a
-- format after it.
pub data Block (bytes : List ℕ) (n : ℕ) : Bool → Bool → Type 0 where
  input_header : {has : Bool} → get_elem? bytes 2 ≡ some 0x01 → 10 ≤ n → Block bytes n has has
  still_image :
      {p c : ℕ}
      → get_elem? bytes 2 ≡ some 0x03
      → get_elem? bytes 4 ≡ some p
      → get_elem? bytes (5 + 4 * p) ≡ some c
      → 6 + 4 * p + c ≤ n
      → Block bytes n true true
  uncompressed_format :
      {has : Bool} → get_elem? bytes 2 ≡ some 0x04 → 27 ≤ n → Block bytes n has true
  mjpeg_format : {has : Bool} → get_elem? bytes 2 ≡ some 0x06 → 11 ≤ n → Block bytes n has true
  uncompressed_frame :
      {i : ℕ}
      → get_elem? bytes 2 ≡ some 0x05
      → get_elem? bytes 25 ≡ some i
      → 26 + interval_bytes i ≤ n
      → Block bytes n true true
  mjpeg_frame :
      {i : ℕ}
      → get_elem? bytes 2 ≡ some 0x07
      → get_elem? bytes 25 ≡ some i
      → 26 + interval_bytes i ≤ n
      → Block bytes n true true
  frame_based_format :
      {has : Bool} → get_elem? bytes 2 ≡ some 0x10 → 28 ≤ n → Block bytes n has true
  frame_based_frame :
      {i : ℕ}
      → get_elem? bytes 2 ≡ some 0x11
      → get_elem? bytes 21 ≡ some i
      → 26 + interval_bytes i ≤ n
      → Block bytes n true true
  another :
      {has : Bool} (subtype : ℕ)
      → get_elem? bytes 2 ≡ some subtype
      → subtype ≢ 0x01
      → subtype ≢ 0x03
      → subtype ≢ 0x04
      → subtype ≢ 0x05
      → subtype ≢ 0x06
      → subtype ≢ 0x07
      → subtype ≢ 0x10
      → subtype ≢ 0x11
      → Block bytes n has has

differs : (a b : ℕ) → a ≢ b → (a == b) ≡ false
differs a b h = ground arith

parse_vs-Ends :
    {before after : Bool} (bytes : List ℕ) (n : ℕ) (s : StreamingInterface)
    → Block bytes n before after
    → n ≤ length bytes
    → HasFormat before s
    → (s' : StreamingInterface) × (parse_vs bytes n s ≡ some (pos 0, s')) × HasFormat after s'
unfolding parse_vs parse_vs_block
parse_vs-Ends {before} bytes n s (input_header kind long) room h =
    let (s', run, h') = input_header-Ends bytes before s (omega (arith, long, room)) h in
    (s', rw (kind, run) refl, h')
parse_vs-Ends bytes n s (still_image {p} {c} kind patterns compressions long) room h =
    let (s', run, h') =
      still_image-Ends bytes p c s patterns compressions (omega (arith, long, room)) h in
    (s', rw (kind, run) refl, h')
parse_vs-Ends bytes n s (uncompressed_format kind long) room h =
    let (s', run, h') = format_uncompressed-Ends bytes s (omega (arith, long, room)) in
    (s', rw (kind, run) refl, h')
parse_vs-Ends bytes n s (mjpeg_format kind long) room h =
    let (s', run, h') = format_mjpeg-Ends bytes s (omega (arith, long, room)) in
    (s', rw (kind, run) refl, h')
parse_vs-Ends bytes n s (uncompressed_frame {i} kind count long) room h =
    let (s', run, h') = frame_uncompressed-Ends bytes i s count (omega (arith, long, room)) h in
    (s', rw (kind, run) refl, h')
parse_vs-Ends bytes n s (mjpeg_frame {i} kind count long) room h =
    let (s', run, h') = frame_uncompressed-Ends bytes i s count (omega (arith, long, room)) h in
    (s', rw (kind, run) refl, h')
parse_vs-Ends bytes n s (frame_based_format kind long) room h =
    let (s', run, h') = frame_format-Ends bytes s (omega (arith, long, room)) in
    (s', rw (kind, run) refl, h')
parse_vs-Ends bytes n s (frame_based_frame {i} kind count long) room h =
    let (s', run, h') = frame_frame-Ends bytes i s count (omega (arith, long, room)) h in
    (s', rw (kind, run) refl, h')
parse_vs-Ends bytes n s (another subtype kind a b c d e f g i) room h = (
  s,
  rw
      (
        kind,
        differs subtype 0x01 a,
        differs subtype 0x03 b,
        differs subtype 0x04 c,
        differs subtype 0x05 d,
        differs subtype 0x06 e,
        differs subtype 0x07 f,
        differs subtype 0x10 g,
        differs subtype 0x11 i,
      )
      refl,
  h,
)

-- Class descriptors that are cut into such blocks by their length bytes, none of which is 0 or
-- reaches past the end; up to two bytes may be left over.
pub data Layout : Bool → List ℕ → Type 0 where
  remainder : {has : Bool} {bytes : List ℕ} → length bytes < 3 → Layout has bytes
  block :
      {has after : Bool} {bytes : List ℕ} {n : ℕ}
      → get_elem? bytes 0 ≡ some n
      → 0 < n
      → n ≤ length bytes
      → Block bytes n has after
      → Layout after (drop n bytes)
      → Layout has bytes

scan_block :
    (fuel n : ℕ) (bytes : List ℕ) (s s' : StreamingInterface)
    → ltb (length bytes) 3 ≡ false
    → get_elem? bytes 0 ≡ some n
    → parse_vs bytes n s ≡ some (pos 0, s')
    → (length bytes + u64_mod - n) % u64_mod ≡ length (drop n bytes)
    → scan parse_vs (suc fuel) bytes (length bytes) s
      ≡ scan parse_vs fuel (drop n bytes) (length (drop n bytes)) s'
unfolding scan
scan_block fuel n bytes s s' long head run left = rw (long, head, run, left) refl

scan-Ends :
    (fuel : ℕ) {has : Bool} (bytes : List ℕ) (s : StreamingInterface)
    → Layout has bytes
    → length bytes < u64_mod
    → length bytes < fuel
    → HasFormat has s
    → (s' : StreamingInterface) × (scan parse_vs fuel bytes (length bytes) s ≡ some (pos 0, s'))
unfolding scan
scan-Ends zero bytes s l small h has = absurd (omega (arith, h))
scan-Ends (suc fuel) bytes s (remainder few) small h has =
    let last : ltb (length bytes) 3 ≡ true = ground (arith, few) in (s, rw last refl)
scan-Ends (suc fuel) bytes s (block {n} head some_bytes fits b rest) small h has =
    elim (Bool-cases (ltb (length bytes) 3)) [
      | inl few ↦ (s, rw few refl)
      | inr long ↦
          let (s₁, run₁, has₁) = parse_vs-Ends bytes n s b fits has in
          let left : (length bytes + u64_mod - n) % u64_mod ≡ length (drop n bytes) =
            omega (arith, length-drop n bytes, fits, small) in
          let (s₂, run₂) =
            scan-Ends fuel (drop n bytes) s₁ rest (omega (arith, length-drop n bytes, small))
              (omega (arith, length-drop n bytes, some_bytes, h)) has₁ in
          (s₂, scan_block fuel n bytes s s₁ long head run₁ left ∙ run₂)
    ]

-- The scan of a streaming interface whose class descriptors (fewer than 2 ^ 64 bytes) are cut
-- into blocks by length bytes that are not 0 and do not reach past the end, each block long
-- enough for the fields of its kind, and each frame and still image behind a format, ends without
-- a read outside the descriptors, succeeds, and appends one streaming interface.
pub scan_streaming-Ends :
    (config : List Interface) (info : DeviceInfo) (idx : ℕ) (i : Interface)
    → get_elem? config idx ≡ some i
    → Layout false i.extra
    → length i.extra < u64_mod
    → (s : StreamingInterface) × (scan_streaming config info idx
        ≡ some (pos 0, record info { stream_ifs = append_one info.stream_ifs s }))
unfolding scan_streaming
scan_streaming-Ends config info idx i found layout small =
    let (s, run) =
      scan-Ends (suc (length i.extra)) i.extra (blank_stream_if i.b_interface_number) layout small
        (omega arith) tt in
    (s, rw (found, run) refl)
