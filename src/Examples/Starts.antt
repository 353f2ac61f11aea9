-- ===== src/Examples/Starts.antt =====
-- The stream of the camera, started and stopped.
use usb_video_class.Base.{
  ℕ, ◌+◌, ◌≤◌, ◌≡◌, refl, false, none, some, List, [], ◌∷◌, length, ◌==◌, if◌then◌else◌, arith, inl,
}
use usb_video_class.Base.Int.{ℤ, pos, negsuc}
use usb_video_class.Stream.Callback.Ownership.{System, IsOwned, count}
use usb_video_class.Stream.Callback.Drain.{Drains, stop-Drains}
use usb_video_class.Start.{
  AltSetting, Plan, endpoint_bytes, choose_alt, plan_packets, submit_all, stream_start, start_frame,
  start_format, plan_transfers, plan_iso, plan_alt, launch, begin,
}
use usb_video_class.Start.Choice.{Fits, plan_packets_bounds}
use usb_video_class.Start.Owned.{Starts, stream_start-IsOwned}
use usb_video_class.Examples.Streams.{idle, busy}
use usb_video_class.Parse.Layout.{camera_desc}
use usb_video_class.Desc.Lookup.{find_frame, find_frame_desc_stream_if}
use usb_video_class.Format.{frame_format_for_guid, first_format, get_format_entry, same_guid}
use usb_video_class.Examples.Controls.{camera}
use usb_video_class.Examples.Descriptors

-- The first setting has no bandwidth; the second has three packets of 1024 bytes.
abbrev pub settings : List AltSetting
settings =
    record { b_interface_number = 1; b_alternate_setting = 0; endpoints = [] }
    ∷ record {
      b_interface_number = 1;
      b_alternate_setting = 1;
      endpoints =
          record { b_endpoint_address = 0x81; w_max_packet_size = 0x1400; companion = none } ∷ [];
    }
    ∷ []

plan_packets_bounds_example : (p : Plan) × (plan_packets 614400 3072 ≡ some p) × Fits 614400 3072 p
plan_packets_bounds_example = plan_packets_bounds 614400 3072 (omega arith) (omega arith)

-- The handle after a stop: transfer 7 was freed.
abbrev rested : System
rested = record {
  stream = record idle {
    stream_if = camera_desc 1 Descriptors.camera;
    transfers = none ∷ none ∷ [];
    running = false;
  };
  flight = [];
  freed = 7 ∷ [];
}

rested-IsOwned : IsOwned rested
rested-IsOwned = record {
  valid = record {
    small = omega arith;
    within = omega arith;
    partial = inl refl;
    out_room = omega arith;
    hold_room = omega arith;
    held = omega arith;
  };
  held = λ i. refl;
  once = λ i. ground arith;
}

-- The third transfer is refused.
abbrev pub bus : ℕ → ℤ
bus id = if id == 10 then negsuc 10 else pos 0

new_ids : (i : ℕ) → count i (8 ∷ 9 ∷ 10 ∷ []) + count i rested.freed ≤ 1
new_ids i = ground arith

stream_start-IsOwned_example :
    Starts camera
      (begin rested).stream
      false
      (submit_all bus (8 ∷ 9 ∷ 10 ∷ [])).0
      (stream_start camera bus (8 ∷ 9 ∷ 10 ∷ []) false ([] ∷ settings ∷ []) rested [])
stream_start-IsOwned_example =
    stream_start-IsOwned camera bus (8 ∷ 9 ∷ 10 ∷ []) false ([] ∷ settings ∷ []) settings rested []
      rested-IsOwned refl refl new_ids refl (omega arith)

-- The start succeeds with the first two.
rested_starts :
    stream_start camera bus (8 ∷ 9 ∷ 10 ∷ []) false ([] ∷ settings ∷ []) rested []
    ≡ some (pos 0, launch bus (8 ∷ 9 ∷ 10 ∷ []) false (begin rested), [])
unfolding stream_start start_frame start_format plan_transfers plan_iso plan_alt choose_alt
    endpoint_bytes plan_packets launch submit_all find_frame find_frame_desc_stream_if
    frame_format_for_guid first_format get_format_entry same_guid
rested_starts = refl

abbrev stopping : System
stopping = record busy { stream = record (busy.stream) { running = false } }

stopping-IsOwned : IsOwned stopping
stopping-IsOwned = record {
  valid = record {
    small = omega arith;
    within = omega arith;
    partial = inl refl;
    out_room = omega arith;
    hold_room = omega arith;
    held = omega arith;
  };
  held = λ i. refl;
  once = λ i. ground arith;
}

stop-Drains_example : Drains (length stopping.flight) stopping
stop-Drains_example = stop-Drains stopping stopping-IsOwned refl
