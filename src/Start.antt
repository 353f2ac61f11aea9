-- ===== src/Start.antt =====
-- `uvc_stream_start` of src/stream.c: the choice of an alternate setting, the transfers and their
-- submission. The alternate settings are libusb's, and so are its answers; the transfers that it
-- allocates are numbered, with a new number for each. The user thread is left out.
pub mod Choice
pub mod Owned
pub mod Submitted
use usb_video_class.Base.{
  ℕ, ◌+◌, ◌-◌, ◌*◌, ◌/◌, ◌%◌, ◌^◌, Bool, true, false, Option, none, some, List, [], ◌∷◌, ◌++◌, map,
  ltb, leb, ◌==◌, if◌then◌else◌, length, get_elem?, replicate, ◌>>=◌,
}
use usb_video_class.Base.Int.{ℤ, pos}
use usb_video_class.UvcError
use usb_video_class.Desc.{FrameFormat, any, FormatDesc, FrameDesc}
use usb_video_class.Desc.Lookup.{find_frame_desc_stream_if}
use usb_video_class.Device.Claim.{is_success}
use usb_video_class.Format.{frame_format_for_guid}
use usb_video_class.Stream.{Stream, max_size}
use usb_video_class.Stream.Callback.Ownership.{System}
use usb_video_class.Usb.{Usb}

-- `libusb_endpoint_descriptor`, with `wBytesPerInterval` of its SuperSpeed companion, if it has one.
pub record Endpoint : Type 0 where
  pub b_endpoint_address : ℕ
  pub w_max_packet_size : ℕ
  pub companion : Option ℕ

-- An alternate setting of an interface.
pub record AltSetting : Type 0 where
  pub b_interface_number : ℕ
  pub b_alternate_setting : ℕ
  pub endpoints : List Endpoint

-- wMaxPacketSize: [unused:2 (multiplier-1):3 size:11]
abbrev pub packet_bytes : ℕ → ℕ
packet_bytes w = w % 2 ^ 11 * (w / 2 ^ 11 % 4 + 1)

-- The inner loop: the first endpoint with a companion or with the address of the streaming header.
unfoldable pub endpoint_bytes : ℕ → List Endpoint → ℕ
endpoint_bytes addr [] = 0
endpoint_bytes addr (e ∷ es) = elim e.companion [
  | some bytes ↦ bytes
  | none ↦
      if e.b_endpoint_address == addr
      then packet_bytes e.w_max_packet_size
      else endpoint_bytes addr es
]

-- The outer loop: the first setting whose packets are at least `wanted` bytes, with their size.
unfoldable pub choose_alt : ℕ → ℕ → List AltSetting → Option (AltSetting × ℕ)
choose_alt addr wanted [] = none
choose_alt addr wanted (alt ∷ alts) =
    if leb wanted (endpoint_bytes addr alt.endpoints)
    then some (alt, endpoint_bytes addr alt.endpoints)
    else choose_alt addr wanted alts

-- The transfers to set up: how many packets each has (0 for bulk), and its bytes.
pub record Plan : Type 0 where
  pub packets_per_transfer : ℕ
  pub total_transfer_size : ℕ

-- At most one frame long, rounded up, and at most 32 packets; `none` divides by zero.
unfoldable pub plan_packets : ℕ → ℕ → Option Plan
plan_packets frame_size bytes =
    if bytes == 0
    then none
    else (let packets = (frame_size + bytes - 1) / bytes in
        let capped = if ltb 32 packets then 32 else packets in
        some (record { packets_per_transfer = capped; total_transfer_size = capped * bytes }))

-- The transfers that libusb accepts, up to the first that it refuses, and the rest.
unfoldable pub submit_all : (ℕ → ℤ) → List ℕ → List ℕ × List ℕ
submit_all submit [] = ([], [])
submit_all submit (id ∷ ids) =
    let (held, rest) = submit_all submit ids in
    if is_success (submit id) then (id ∷ held, rest) else ([], id ∷ ids)

-- The transfers are set up and submitted; those from the first refused on are freed again. The
-- result is `UVC_SUCCESS` in any case.
unfoldable pub launch : (ℕ → ℤ) → List ℕ → Bool → System → System
launch submit ids cb y =
    let (held, rest) = submit_all submit ids in
    record {
      stream = record (y.stream) {
        transfers = map some held ++ replicate (length rest) none;
        user_cb = cb;
      };
      flight = held;
      freed = rest ++ y.freed;
    }

abbrev pub is_unknown : FrameFormat → Bool
is_unknown any = true
is_unknown f = false

abbrev pub begin : System → System
begin y = record y {
  stream = record (y.stream) { running = true; seq = 1; fid = 0; pts = 0; last_scr = 0 };
}

module _ {S : Type 0} (usb : Usb S) where
  abbrev no_plan : Plan
  no_plan = record { packets_per_transfer = 0; total_transfer_size = 0 }

  -- With the setting that was chosen: the result, the plan where that is a success, and the device.
  unfoldable pub plan_alt : Stream → Option (AltSetting × ℕ) → S → Option (ℤ × Plan × S)
  plan_alt s none w = some (UvcError.invalid_mode, no_plan, w)
  plan_alt s (some (alt, bytes)) w = do
    plan ← plan_packets (max_size s) bytes
    let (ret, w') = usb.set_interface_alt_setting alt.b_interface_number alt.b_alternate_setting w
    some (ret, plan, w')

  unfoldable pub plan_iso : Stream → List AltSetting → S → Option (ℤ × Plan × S)
  plan_iso s alts w =
      plan_alt s
        (choose_alt s.stream_if.b_endpoint_address s.cur_ctrl.dw_max_payload_transfer_size alts) w

  -- An interface is isochronous when it has several settings.
  unfoldable pub plan_transfers : Stream → List AltSetting → S → Option (ℤ × Plan × S)
  plan_transfers s alts w =
      if ltb 1 (length alts)
      then plan_iso s alts w
      else some (
        pos 0,
        record {
          packets_per_transfer = 0;
          total_transfer_size = s.cur_ctrl.dw_max_payload_transfer_size;
        },
        w,
      )

  abbrev pub fail : ℤ → System → S → ℤ × System × S
  fail ret y w = (ret, record y { stream = record (y.stream) { running = false } }, w)

  -- Once the format is known.
  unfoldable pub start_format :
      (ℕ → ℤ) → List ℕ → Bool → List (List AltSetting) → System → S → Option (ℤ × System × S)
  start_format submit ids cb interfaces y w = do
    alts ← get_elem? interfaces y.stream.stream_if.b_interface_number
    (ret, plan, w') ← plan_transfers y.stream alts w
    some (if is_success ret then (pos 0, launch submit ids cb y, w') else fail ret y w')

  -- With the frame descriptor that was looked up.
  unfoldable pub start_frame :
      (ℕ → ℤ)
      → List ℕ
      → Bool
      → List (List AltSetting)
      → Option (FormatDesc × FrameDesc)
      → System
      → S
      → Option (ℤ × System × S)
  start_frame submit ids cb interfaces none y w = some (fail UvcError.invalid_param y w)
  start_frame submit ids cb interfaces (some (format, frame)) y w =
      let f = frame_format_for_guid format.guid_format in
      let y' = record y { stream = record (y.stream) { frame_format = f } } in
      if is_unknown f
      then some (fail UvcError.not_supported y' w)
      else start_format submit ids cb interfaces y' w

  -- `uvc_stream_start`. `ids` are the transfers that libusb allocates for the slots; `none` is an
  -- access outside the configuration or a division by zero.
  unfoldable pub stream_start :
      (ℕ → ℤ) → List ℕ → Bool → List (List AltSetting) → System → S → Option (ℤ × System × S)
  stream_start submit ids cb interfaces y w =
      if y.stream.running
      then some (UvcError.busy, y, w)
      else start_frame submit ids cb interfaces
          (find_frame_desc_stream_if y.stream.stream_if.format_descs
            y.stream.cur_ctrl.b_format_index y.stream.cur_ctrl.b_frame_index)
          (begin y) w
