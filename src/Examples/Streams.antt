-- ===== src/Examples/Streams.antt =====
-- A handle with buffers of four bytes, and what its callback does with a few packets.
use usb_video_class.Base.{
  ℕ, ◌+◌, ◌≤◌, ◌≡◌, refl, true, false, inl, some, List, [], ◌∷◌, none, arith, replicate, take,
}
use usb_video_class.Base.Int.{pos, negsuc}
use usb_video_class.Ctrl.{StreamCtrl}
use usb_video_class.Desc.{StreamingInterface, FrameFormat}
use usb_video_class.Frame.{Frame}
use usb_video_class.Stream.{Stream}
use usb_video_class.Stream.Assembly.{view}
use usb_video_class.Stream.Payload.{process_payload}
use usb_video_class.Stream.Payload.Refine.{IsValid, Returns}
use usb_video_class.Stream.Payload.Packets.{packet, absorb, FieldsFit, process_payload-Returns}
use usb_video_class.Stream.Callback.{
  process_packets, Transfer, TransferStatus, stream_callback, delete_transfer, mark_deleted, holds,
}
use usb_video_class.Stream.Callback.Kept.{TransferFits}
use usb_video_class.Stream.Callback.Ownership.{
  System, Reach, IsOwned, deliver, begin_stop, is_drained, count,
}
use usb_video_class.Stream.Callback.Safety.{deliver-IsOwned, Reach-freed_once, Reach-drained}
use usb_video_class.Stream.Callback.Transmission.{transmit, process_packets-transmit}

abbrev pub ctrl : StreamCtrl
ctrl = record {
  bm_hint = 1;
  b_format_index = 1;
  b_frame_index = 2;
  dw_frame_interval = 333333;
  w_key_frame_rate = 0;
  w_p_frame_rate = 0;
  w_comp_quality = 0;
  w_comp_window_size = 0;
  w_delay = 32;
  dw_max_video_frame_size = 4;
  dw_max_payload_transfer_size = 3072;
  dw_clock_frequency = 0;
  bm_framing_info = 0;
  b_preferred_version = 0;
  b_min_version = 0;
  b_max_version = 0;
  b_interface_number = 1;
}

abbrev stream_if : StreamingInterface
stream_if = record {
  b_interface_number = 1;
  format_descs = [];
  b_endpoint_address = 0x81;
  b_terminal_link = 3;
  b_still_capture_method = 0;
}

abbrev frame : Frame
frame = record {
  image = none;
  data_bytes = 0;
  width = 0;
  height = 0;
  frame_format = FrameFormat.any;
  step = 0;
  sequence = 0;
  capture_time = 0;
  capture_time_finished = 0;
  source = 0;
  library_owns_data = true;
  metadata = none;
  metadata_bytes = 0;
  error_code = pos 0;
}

abbrev pub idle : Stream
idle = record {
  stream_if = stream_if;
  running = true;
  cur_ctrl = ctrl;
  hle = 0;
  bfh = 0;
  fid = 0;
  seq = 1;
  hold_seq = 0;
  pts = 0;
  hold_pts = 0;
  last_scr = 0;
  hold_last_scr = 0;
  got_bytes = 0;
  hold_bytes = 0;
  outbuf = replicate 4 0;
  holdbuf = replicate 4 0;
  last_polled_seq = 0;
  user_cb = false;
  transfers = [];
  frame = frame;
  frame_format = FrameFormat.yuyv;
  capture_time_finished = 0;
  meta_outbuf = [];
  meta_holdbuf = [];
  meta_got_bytes = 0;
  meta_hold_bytes = 0;
  published = [];
}

pub idle-IsValid : IsValid idle
idle-IsValid = record {
  small = omega arith;
  within = omega arith;
  partial = inl refl;
  out_room = omega arith;
  hold_room = omega arith;
  held = omega arith;
}

-- A packet of two bytes of an image, with a time stamp.
abbrev stamped : List ℕ
stamped = 6 ∷ 5 ∷ 9 ∷ 0 ∷ 0 ∷ 0 ∷ 17 ∷ 18 ∷ []

stamped-FieldsFit : FieldsFit stamped
stamped-FieldsFit b e = ground arith

process_payload-Returns_example :
    Returns (absorb (packet stamped 8) (view idle)) (process_payload (λ seq. seq) idle stamped 8)
process_payload-Returns_example =
    process_payload-Returns (λ seq. seq) idle stamped 8 idle-IsValid (omega arith) (omega arith)
      stamped-FieldsFit

process_packets-transmit_example :
    (s' : Stream) × (process_packets
        (λ seq. seq)
        idle
        (transmit true ((1 ∷ 2 ∷ []) ∷ (3 ∷ []) ∷ []))
      ≡ some s')
    × IsValid s'
    × (s'.published ≡ (1 ∷ 2 ∷ 3 ∷ []) ∷ [])
    × (take s'.hold_bytes s'.holdbuf ≡ 1 ∷ 2 ∷ 3 ∷ [])
    × (s'.got_bytes ≡ 0)
process_packets-transmit_example =
    process_packets-transmit (λ seq. seq) true (1 ∷ 2 ∷ []) ((3 ∷ []) ∷ []) idle idle-IsValid refl
      (omega arith, (omega arith, tt)) (omega arith) (omega arith)

-- The same handle with one transfer, which libusb holds.
abbrev pub busy : System
busy = record {
  stream = record idle { transfers = none ∷ some 7 ∷ [] };
  flight = 7 ∷ [];
  freed = [];
}

pub busy-IsOwned : IsOwned busy
busy-IsOwned = record {
  valid = record {
    small = omega arith;
    within = omega arith;
    partial = inl refl;
    out_room = omega arith;
    hold_room = omega arith;
    held = omega arith;
  };
  held = λ i. refl;
  once = λ i. ground arith;
}

abbrev returned : TransferStatus → Transfer
returned st = record { id = 7; status = st; iso_packets = []; buffer = stamped; actual_length = 8 }

returned-TransferFits : (st : TransferStatus) → TransferFits (returned st)
returned-TransferFits st = ((omega arith, omega arith, stamped-FieldsFit), tt)

deliver-IsOwned_example :
    (z : System) × (deliver (λ seq. seq) (λ id. negsuc 3) busy (returned TransferStatus.completed)
      ≡ some z)
    × IsOwned z
deliver-IsOwned_example =
    deliver-IsOwned (λ seq. seq) (λ id. negsuc 3) busy (returned TransferStatus.completed)
      busy-IsOwned (omega arith) (returned-TransferFits TransferStatus.completed)

-- A stop, and the cancelled transfer that it brings back.
abbrev stopped : System
stopped = record {
  stream = record idle { transfers = none ∷ none ∷ []; running = false };
  flight = [];
  freed = 7 ∷ [];
}

busy-stopped : Reach busy stopped
unfolding begin_stop stream_callback delete_transfer mark_deleted holds
busy-stopped =
    Reach.delivers (λ seq. seq) (λ id. pos 0) (returned TransferStatus.cancelled)
      (Reach.stops Reach.here) (omega arith) (returned-TransferFits TransferStatus.cancelled) refl

stopped_is_drained : is_drained stopped.stream.transfers ≡ true
unfolding is_drained
stopped_is_drained = refl

Reach-freed_once_example : count 7 stopped.flight + count 7 stopped.freed ≤ 1
Reach-freed_once_example = Reach-freed_once busy stopped 7 busy-IsOwned busy-stopped

Reach-drained_example : stopped.flight ≡ []
Reach-drained_example = Reach-drained busy stopped busy-IsOwned busy-stopped stopped_is_drained
