-- ===== src/Stream.antt =====
-- `struct uvc_stream_handle` of include/libuvc/libuvc_internal.h, and `_uvc_swap_buffers` of
-- src/stream.c.
pub mod Assembly
pub mod Callback
pub mod Payload
pub mod Poll
use usb_video_class.Base.{ℕ, ◌+◌, ◌%◌, Bool, List, ◌∷◌, Option, take}
use usb_video_class.Base.Bytes.{u32_mod}
use usb_video_class.Ctrl.{StreamCtrl}
use usb_video_class.Desc.{StreamingInterface, FrameFormat}
use usb_video_class.Frame.{Frame}

-- The handle. A buffer is as long as its allocation. `bfh` is the union's byte, whose bits
-- `bmbfh` names; `user_cb` says whether a callback is set. `published` is a trace and no field of
-- the source: the images that `_uvc_swap_buffers` has announced on `cb_cond`, newest first.
pub record Stream : Type 0 where
  pub stream_if : StreamingInterface
  pub running : Bool
  pub cur_ctrl : StreamCtrl
  pub hle : ℕ
  pub bfh : ℕ
  pub fid : ℕ
  pub seq : ℕ
  pub hold_seq : ℕ
  pub pts : ℕ
  pub hold_pts : ℕ
  pub last_scr : ℕ
  pub hold_last_scr : ℕ
  pub got_bytes : ℕ
  pub hold_bytes : ℕ
  pub outbuf : List ℕ
  pub holdbuf : List ℕ
  pub last_polled_seq : ℕ
  pub user_cb : Bool
  pub transfers : List (Option ℕ)
  pub frame : Frame
  pub frame_format : FrameFormat
  pub capture_time_finished : ℕ
  pub meta_outbuf : List ℕ
  pub meta_holdbuf : List ℕ
  pub meta_got_bytes : ℕ
  pub meta_hold_bytes : ℕ
  pub published : List (List ℕ)

-- `cur_ctrl.dwMaxVideoFrameSize`
abbrev pub max_size : Stream → ℕ
max_size s = s.cur_ctrl.dw_max_video_frame_size

-- `_uvc_swap_buffers`; `clock` gives the reading of the monotonic clock at each sequence number.
-- `hold_last_scr` has 32 bits of the 64 of `last_scr`.
unfoldable pub swap_buffers : (ℕ → ℕ) → Stream → Stream
swap_buffers clock s = record s {
  capture_time_finished = clock s.seq;
  holdbuf = s.outbuf;
  hold_bytes = s.got_bytes;
  outbuf = s.holdbuf;
  hold_last_scr = s.last_scr % u32_mod;
  hold_pts = s.pts;
  hold_seq = s.seq;
  meta_holdbuf = s.meta_outbuf;
  meta_outbuf = s.meta_holdbuf;
  meta_hold_bytes = s.meta_got_bytes;
  published = take s.got_bytes s.outbuf ∷ s.published;
  seq = (s.seq + 1) % u32_mod;
  got_bytes = 0;
  meta_got_bytes = 0;
  last_scr = 0;
  pts = 0;
}
