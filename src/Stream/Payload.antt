-- ===== src/Stream/Payload.antt =====
-- `_uvc_process_payload` of src/stream.c. Messages and the log file payloads.txt are left out.
pub mod Header
pub mod Packets
pub mod Refine
pub mod Rests
use usb_video_class.Base.{
  ℕ, ◌+◌, ◌-◌, ◌/◌, ◌%◌, ◌^◌, Bool, ◌&&◌, ◌||◌, not, Option, some, List, ◌>>=◌, ltb, ◌==◌,
  if◌then◌else◌, get_elem?, slice, write_at,
}
use usb_video_class.Base.Bytes.{u64_mod, read_dw, sign_extend}
use usb_video_class.Base.Int.{ℤ}
use usb_video_class.PayloadError
use usb_video_class.Stream.{Stream, max_size, swap_buffers}

-- The bits of `bmbfh`.
abbrev pub bit : ℕ → ℕ → Bool
bit k b = b / 2 ^ k % 2 == 1

abbrev pub bfh_fid : ℕ → ℕ
bfh_fid b = b % 2

abbrev pub bfh_eof : ℕ → Bool
bfh_eof = bit 1

abbrev pub bfh_pts : ℕ → Bool
bfh_pts = bit 2

abbrev pub bfh_scr : ℕ → Bool
bfh_scr = bit 3

abbrev pub bfh_res : ℕ → Bool
bfh_res = bit 4

abbrev pub bfh_err : ℕ → Bool
bfh_err = bit 6

abbrev pub set_error : ℤ → Stream → Stream
set_error e s = record s { frame = record (s.frame) { error_code = e } }

-- The four length checks: each flag combination has one header length. The source goes on after
-- the mark. A C `if` chain; the tests exclude one another.
pub header_length_ok : ℕ → ℕ → Bool
header_length_ok b hle =
    if bfh_pts b
    then (if bfh_scr b then hle == 12 else hle == 6)
    else (if bfh_scr b then hle == 8 else hle == 2)

pub check_header_length : Stream → Stream
unfolding header_length_ok
check_header_length s =
    if header_length_ok s.bfh s.hle then s else set_error PayloadError.invalid_header_length s

-- The reserved bit is an error in any packet but the last of a frame.
pub check_reserved : Stream → Stream
check_reserved s =
    if not (bfh_eof s.bfh) && bfh_res s.bfh then set_error PayloadError.reserved_bit_set s else s

-- A flipped frame ID with image data at hand publishes that data first.
pub check_fid : (ℕ → ℕ) → Stream → Stream
check_fid clock s =
    let s' : Stream =
      if not (s.fid == bfh_fid s.bfh) && not (s.got_bytes == 0) then swap_buffers clock s else s in
    record s' { fid = bfh_fid s.bfh }

-- The time stamp at offset 2, and the source clock behind it.
pub read_pts : List ℕ → Stream → Option Stream
read_pts payload s =
    if bfh_pts s.bfh then (do pts ← read_dw payload 2; some (record s { pts = pts })) else some s

pub read_scr : List ℕ → Stream → Option Stream
read_scr payload s =
    if bfh_scr s.bfh
    then (do
      scr ← read_dw payload (if bfh_pts s.bfh then 6 else 2)
      some (record s { last_scr = sign_extend scr }))
    else some s

-- The bytes that still fit: the subtraction is a `size_t`'s.
pub fitting : Stream → ℕ → ℕ
fitting s data_len =
    if ltb (max_size s) ((s.got_bytes + data_len) % u64_mod)
    then (max_size s + u64_mod - s.got_bytes) % u64_mod
    else data_len

pub check_overflow : Stream → ℕ → Stream
check_overflow s data_len =
    if ltb (max_size s) ((s.got_bytes + data_len) % u64_mod)
    then set_error PayloadError.overflow s
    else s

-- The end-of-frame bit, or a full buffer, publishes the image.
pub check_eof : (ℕ → ℕ) → Stream → Stream
check_eof clock s = if bfh_eof s.bfh || (s.got_bytes == max_size s) then swap_buffers clock s else s

-- The image data behind the header goes to the working buffer, and a complete frame is published.
pub store_data : (ℕ → ℕ) → List ℕ → ℕ → Stream → Option Stream
unfolding fitting check_overflow check_eof
store_data clock payload data_len s = do
  chunk ← slice payload s.hle (fitting s data_len)
  outbuf ← write_at s.outbuf s.got_bytes chunk
  let got_bytes = (s.got_bytes + fitting s data_len) % u64_mod
  some (
      check_eof clock
        (record (check_overflow s data_len) { outbuf = outbuf; got_bytes = got_bytes }))

pub process_data : (ℕ → ℕ) → List ℕ → ℕ → Stream → Option Stream
process_data clock payload data_len s =
    if data_len == 0 then some s else store_data clock payload data_len s

-- A packet with a header of two bytes or more, `bfh` read.
pub process_header : (ℕ → ℕ) → List ℕ → ℕ → Stream → Option Stream
process_header clock payload data_len s =
    let checked = check_reserved (check_header_length s) in
    if bfh_err s.bfh then some (set_error PayloadError.error_bit_set checked) else (do
      s₁ ← read_pts payload (check_fid clock checked)
      s₂ ← read_scr payload s₁
      process_data clock payload data_len s₂)

-- The packet once `hle` is read.
pub process_packet : (ℕ → ℕ) → List ℕ → ℕ → Stream → Option Stream
process_packet clock payload payload_len s =
    if ltb payload_len s.hle
    then some s
    else (if ltb s.hle 2
        then process_data clock payload (payload_len - s.hle) (record s { bfh = 0 })
        else (if ltb 14 s.hle then some (set_error PayloadError.big_header_length s) else (do
          bfh ← get_elem? payload 1
          process_header clock payload (payload_len - s.hle) (record s { bfh = bfh }))))

-- `_uvc_process_payload`. `payload` holds the bytes from the pointer to the end of the transfer
-- buffer, and `payload_len` the length of the packet; `none` is an access outside a buffer.
pub process_payload : (ℕ → ℕ) → Stream → List ℕ → ℕ → Option Stream
unfolding process_packet
process_payload clock s payload payload_len = if payload_len == 0 then some s else (do
  hle ← get_elem? payload 0
  process_packet clock payload payload_len (record s { hle = hle }))
