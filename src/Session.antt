-- ===== src/Session.antt =====
-- Opening streams: `uvc_stream_ctrl` and `uvc_stream_open_ctrl` of src/stream.c. The bytes that
-- `malloc` gives are a parameter; it and `calloc` do not fail.
pub mod Open
pub mod Close
pub mod Relay
pub mod Streaming
use usb_video_class.Base.{
  ℕ, true, false, not, Option, none, some, List, [], ◌∷◌, ◌++◌, ◌==◌, if◌then◌else◌, replicate,
  ◌>>=◌,
}
use usb_video_class.Base.Int.{ℤ, pos}
use usb_video_class.UvcError
use usb_video_class.Desc.{FrameFormat, StreamingInterface}
use usb_video_class.Desc.Lookup.{get_stream_if}
use usb_video_class.Device.{Device}
use usb_video_class.Device.Claim.{claim_if, is_success}
use usb_video_class.Usb.{Usb, set_cur}
use usb_video_class.Ctrl.{StreamCtrl}
use usb_video_class.Ctrl.Query.{query_stream_ctrl}
use usb_video_class.Frame.{Frame}
use usb_video_class.Stream.{Stream}

-- `LIBUVC_NUM_TRANSFER_BUFS` and `LIBUVC_XFER_META_BUF_SIZE`.
abbrev pub num_transfer_bufs : ℕ
num_transfer_bufs = 100

abbrev pub meta_buf_size : ℕ
meta_buf_size = 4096

-- The device handle with its list of open streams.
pub record Session : Type 0 where
  pub device : Device
  pub streams : List Stream

-- What `calloc` gives for a control block and for a frame that the library owns.
abbrev pub blank_ctrl : StreamCtrl
blank_ctrl = record {
  bm_hint = 0;
  b_format_index = 0;
  b_frame_index = 0;
  dw_frame_interval = 0;
  w_key_frame_rate = 0;
  w_p_frame_rate = 0;
  w_comp_quality = 0;
  w_comp_window_size = 0;
  w_delay = 0;
  dw_max_video_frame_size = 0;
  dw_max_payload_transfer_size = 0;
  dw_clock_frequency = 0;
  bm_framing_info = 0;
  b_preferred_version = 0;
  b_min_version = 0;
  b_max_version = 0;
  b_interface_number = 0;
}

abbrev pub blank_frame : Frame
blank_frame = record {
  image = none;
  data_bytes = 0;
  width = 0;
  height = 0;
  frame_format = FrameFormat.any;
  step = 0;
  sequence = 0;
  capture_time = 0;
  capture_time_finished = 0;
  source = 0;
  library_owns_data = true;
  metadata = none;
  metadata_bytes = 0;
  error_code = pos 0;
}

abbrev pub blank_stream : StreamingInterface → Stream
blank_stream stream_if = record {
  stream_if = stream_if;
  running = false;
  cur_ctrl = blank_ctrl;
  hle = 0;
  bfh = 0;
  fid = 0;
  seq = 0;
  hold_seq = 0;
  pts = 0;
  hold_pts = 0;
  last_scr = 0;
  hold_last_scr = 0;
  got_bytes = 0;
  hold_bytes = 0;
  outbuf = [];
  holdbuf = [];
  last_polled_seq = 0;
  user_cb = false;
  transfers = replicate num_transfer_bufs none;
  frame = blank_frame;
  frame_format = FrameFormat.any;
  capture_time_finished = 0;
  meta_outbuf = [];
  meta_holdbuf = [];
  meta_got_bytes = 0;
  meta_hold_bytes = 0;
  published = [];
}

-- `_uvc_get_stream_by_interface`
unfoldable pub get_stream_by_interface : List Stream → ℕ → Option Stream
get_stream_by_interface [] idx = none
get_stream_by_interface (s ∷ ss) idx =
    if s.stream_if.b_interface_number == idx then some s else get_stream_by_interface ss idx

module _ {S : Type 0} (usb : Usb S) (malloc : ℕ → List ℕ) where
  unfoldable pub stream_ctrl :
      Device → Stream → StreamCtrl → S → Option (ℤ × Stream × StreamCtrl × S)
  stream_ctrl d s c w =
      if not (s.stream_if.b_interface_number == c.b_interface_number)
      then some (UvcError.invalid_param, s, c, w)
      else (if s.running then some (UvcError.busy, s, c, w) else (do
        (ret, c', w') ← query_stream_ctrl usb d c false set_cur w
        some (
            if is_success ret
            then (pos 0, record s { cur_ctrl = c' }, c', w')
            else (ret, s, c', w'))))

  -- The buffers, for the frame size of the control block.
  abbrev pub add_buffers : Stream → StreamCtrl → Stream
  add_buffers s c = record s {
    running = false;
    outbuf = malloc c.dw_max_video_frame_size;
    holdbuf = malloc c.dw_max_video_frame_size;
    meta_outbuf = malloc meta_buf_size;
    meta_holdbuf = malloc meta_buf_size;
  }

  -- `uvc_stream_open_ctrl` once the interface is claimed.
  unfoldable pub open_claimed :
      Session → Device → StreamingInterface → StreamCtrl → S → Option (ℤ × Session × S)
  open_claimed y d stream_if c w = do
    (ret, s, c', w') ← stream_ctrl d (blank_stream stream_if) c w
    some (
        if is_success ret
        then (pos 0, record { device = d; streams = y.streams ++ add_buffers s c' ∷ [] }, w')
        else (ret, record y { device = d }, w'))

  -- Given an open stream on the interface, and the interface, if there are any. A claim is not
  -- given back on a later failure.
  unfoldable pub open_found :
      Option Stream
      → Option StreamingInterface
      → Session
      → StreamCtrl
      → S
      → Option (ℤ × Session × S)
  open_found (some s) stream_if y c w = some (UvcError.busy, y, w)
  open_found none none y c w = some (UvcError.invalid_param, y, w)
  open_found none (some stream_if) y c w = do
    (ret, d, w') ← claim_if usb y.device stream_if.b_interface_number w
    if is_success ret
        then open_claimed y d stream_if c w'
        else some (ret, record y { device = d }, w')

  unfoldable pub open_ctrl : Session → StreamCtrl → S → Option (ℤ × Session × S)
  open_ctrl y c w =
      open_found (get_stream_by_interface y.streams c.b_interface_number)
        (get_stream_if y.device.info.stream_ifs c.b_interface_number) y c w
