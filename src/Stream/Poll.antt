-- ===== src/Stream/Poll.antt =====
-- Reading frames: `_uvc_populate_frame` and `uvc_stream_get_frame` of src/stream.c.
pub mod Latest
pub mod User
use usb_video_class.Base.{
  ℕ, zero, suc, ◌+◌, ◌*◌, ◌/◌, ◌%◌, Bool, true, false, not, Option, none, some, List, [], ltb, ◌==◌,
  if◌then◌else◌, replicate, slice, write_at, ◌>>=◌,
}
use usb_video_class.Base.Int.{ℤ, pos, negsuc}
use usb_video_class.Base.Bytes.{u32_mod}
use usb_video_class.UvcError
use usb_video_class.Desc.{FrameFormat, bgr, yuyv, nv12, p010, DeviceInfo}
use usb_video_class.Desc.Lookup.{find_frame_desc}
use usb_video_class.Frame.{Frame}
use usb_video_class.Stream.{Stream}

-- The bytes of a row, 0 where the source does not say.
abbrev pub step_of : FrameFormat → ℕ → ℕ
step_of bgr width = width * 3 % u32_mod
step_of yuyv width = width * 2 % u32_mod
step_of nv12 width = width
step_of p010 width = width * 2 % u32_mod
step_of f width = 0

-- The buffer that `realloc` gives, or the old one; `NULL` has no bytes. What `realloc` leaves in
-- the buffer is overwritten at once.
abbrev pub buffer_for : ℕ → ℕ → Option (List ℕ) → List ℕ
buffer_for old_bytes new_bytes none = if ltb old_bytes new_bytes then replicate new_bytes 0 else []
buffer_for old_bytes new_bytes (some buf) =
    if ltb old_bytes new_bytes then replicate new_bytes 0 else buf

-- `memcpy (frame->data, strmh->holdbuf, hold_bytes)` into that buffer.
unfoldable pub copy_into : List ℕ → List ℕ → ℕ → Option (List ℕ)
copy_into buf src n = do bytes ← slice src 0 n; write_at buf 0 bytes

unfoldable pub copy_metadata : Stream → Frame → Option Frame
copy_metadata s frame = if s.meta_hold_bytes == 0 then some frame else (do
  metadata ←
      copy_into (buffer_for frame.metadata_bytes s.meta_hold_bytes frame.metadata) s.meta_holdbuf
        s.meta_hold_bytes
  some (record frame { metadata = some metadata; metadata_bytes = s.meta_hold_bytes }))

-- `_uvc_populate_frame`; without a frame descriptor a `NULL` pointer is followed, `none`.
unfoldable pub populate_frame : DeviceInfo → Stream → Option Stream
populate_frame info s = do
  (_, desc) ← find_frame_desc info.stream_ifs s.cur_ctrl.b_format_index s.cur_ctrl.b_frame_index
  image ←
      copy_into (buffer_for s.frame.data_bytes s.hold_bytes s.frame.image) s.holdbuf s.hold_bytes
  frame ← copy_metadata s (record (s.frame) {
    frame_format = s.frame_format;
    width = desc.w_width;
    height = desc.w_height;
    step = step_of s.frame_format desc.w_width;
    sequence = s.hold_seq;
    capture_time_finished = s.capture_time_finished;
    image = some image;
    data_bytes = s.hold_bytes;
  })
  some (record s { frame = frame })

-- A `struct timespec`, and the time `timeout_us` microseconds after it.
pub record Timespec : Type 0 where
  pub tv_sec : ℕ
  pub tv_nsec : ℕ

abbrev pub deadline : ℕ → Timespec → Timespec
deadline timeout_us now =
    let nsec = now.tv_nsec + timeout_us % 1000000 * 1000 in
    record {
      tv_sec = now.tv_sec + timeout_us / 1000000 + nsec / 1000000000;
      tv_nsec = nsec % 1000000000;
    }

-- The result, whether `*frame` is set, and the handle, whose frame it points to.
abbrev pub Polled : Type 0
Polled = ℤ × Bool × Stream

-- A new image is handed out once.
unfoldable pub take_latest : DeviceInfo → Stream → Option Polled
take_latest info s =
    if ltb s.last_polled_seq s.hold_seq
    then (do
      s' ← populate_frame info s
      some (pos 0, true, record s' { last_polled_seq = s'.hold_seq }))
    else some (pos 0, false, s)

-- How `pthread_cond_timedwait` ends: 0, `ETIMEDOUT`, or another error.
pub data WaitResult : Type 0 where
  woken expired failed : WaitResult

-- What follows a timed wait; the handle is as the other threads left it.
unfoldable pub after_wait : DeviceInfo → WaitResult × Stream → Option Polled
after_wait info (woken, s) = take_latest info s
after_wait info (expired, s) = some (UvcError.timeout, false, s)
after_wait info (failed, s) = some (UvcError.other, false, s)

module _ (wait : Stream → Stream) (timed_wait : Option Timespec → Stream → WaitResult × Stream)
    (now : Timespec) where
  -- `uvc_stream_get_frame`: 0 waits for good, -1 not at all, and another negative number with a
  -- deadline that has passed, `none`.
  unfoldable pub get_frame : DeviceInfo → Stream → ℤ → Option Polled
  get_frame info s timeout_us =
      if not s.running
      then some (UvcError.invalid_param, false, s)
      else (if s.user_cb
          then some (UvcError.callback_exists, false, s)
          else (if ltb s.last_polled_seq s.hold_seq then take_latest info s else elim timeout_us [
            | pos zero ↦ take_latest info (wait s)
            | pos (suc n) ↦ after_wait info (timed_wait (some (deadline (suc n) now)) s)
            | negsuc zero ↦ some (pos 0, false, s)
            | negsuc (suc n) ↦ after_wait info (timed_wait none s)
          ]))
