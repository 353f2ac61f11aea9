-- ===== src/Ctrl/Query.antt =====
-- `uvc_query_stream_ctrl` and `uvc_query_still_ctrl` of src/stream.c.
use usb_video_class.Base.{
  ℕ, ◌*◌, ◌^◌, Bool, Option, some, none, List, [], ◌∷◌, ◌++◌, ◌==◌, leb, if◌then◌else◌, ◌>>=◌,
  replicate, get_elem?,
}
use usb_video_class.Base.Int.{ℤ, pos, is_le_zero}
use usb_video_class.Base.Bytes.{short_to_sw, int_to_dw, read_sw, read_dw}
use usb_video_class.Desc.{DeviceInfo}
use usb_video_class.Desc.Lookup.{find_frame_desc}
use usb_video_class.Device.{Device}
use usb_video_class.Usb.{Setup, Reply, Usb, set_cur}
use usb_video_class.Ctrl.{StreamCtrl, StillCtrl}

-- The length of the block: 34 bytes from UVC 1.1 on, else 26.
abbrev pub ctrl_len : ℕ → ℕ
ctrl_len bcd_uvc = if leb 0x0110 bcd_uvc then 34 else 26

-- The last eight bytes, which stay zero before UVC 1.1.
abbrev pub encode_tail : ℕ → StreamCtrl → List ℕ
encode_tail len c =
    if len == 34
    then int_to_dw c.dw_clock_frequency
      ++ c.bm_framing_info ∷ c.b_preferred_version ∷ c.b_min_version ∷ c.b_max_version ∷ []
    else replicate 8 0

-- `buf` as it is prepared for `UVC_SET_CUR`.
unfoldable pub encode_ctrl : ℕ → StreamCtrl → List ℕ
encode_ctrl len c =
    short_to_sw c.bm_hint
    ++ c.b_format_index ∷ c.b_frame_index ∷ []
    ++ int_to_dw c.dw_frame_interval
    ++ short_to_sw c.w_key_frame_rate
    ++ short_to_sw c.w_p_frame_rate
    ++ short_to_sw c.w_comp_quality
    ++ short_to_sw c.w_comp_window_size
    ++ short_to_sw c.w_delay
    ++ int_to_dw c.dw_max_video_frame_size
    ++ int_to_dw c.dw_max_payload_transfer_size
    ++ encode_tail len c

-- The fields of the second part of the block, or those of an older device.
unfoldable pub decode_tail : ℕ → ℕ → List ℕ → StreamCtrl → Option StreamCtrl
decode_tail len clock_frequency buf c =
    if len == 34
    then (do
      clock ← read_dw buf 26
      framing ← get_elem? buf 30
      preferred ← get_elem? buf 31
      min_version ← get_elem? buf 32
      max_version ← get_elem? buf 33
      some (record c {
        dw_clock_frequency = clock;
        bm_framing_info = framing;
        b_preferred_version = preferred;
        b_min_version = min_version;
        b_max_version = max_version;
      }))
    else some (record c { dw_clock_frequency = clock_frequency })

unfoldable pub decode_ctrl : ℕ → ℕ → List ℕ → StreamCtrl → Option StreamCtrl
decode_ctrl len clock_frequency buf c = do
  hint ← read_sw buf 0
  format_index ← get_elem? buf 2
  frame_index ← get_elem? buf 3
  frame_interval ← read_dw buf 4
  key_frame_rate ← read_sw buf 8
  p_frame_rate ← read_sw buf 10
  comp_quality ← read_sw buf 12
  comp_window_size ← read_sw buf 14
  delay ← read_sw buf 16
  max_video_frame_size ← read_dw buf 18
  max_payload_transfer_size ← read_dw buf 22
  decode_tail len clock_frequency buf (record c {
    bm_hint = hint;
    b_format_index = format_index;
    b_frame_index = frame_index;
    dw_frame_interval = frame_interval;
    w_key_frame_rate = key_frame_rate;
    w_p_frame_rate = p_frame_rate;
    w_comp_quality = comp_quality;
    w_comp_window_size = comp_window_size;
    w_delay = delay;
    dw_max_video_frame_size = max_video_frame_size;
    dw_max_payload_transfer_size = max_payload_transfer_size;
  })

-- For cameras that leave the frame size zero, it is taken from the frame descriptor.
unfoldable pub fix_frame_size : DeviceInfo → StreamCtrl → StreamCtrl
fix_frame_size info c =
    if c.dw_max_video_frame_size == 0
    then elim (find_frame_desc info.stream_ifs c.b_format_index c.b_frame_index) [
      | none ↦ c
      | some (_, frame) ↦ record c {
        dw_max_video_frame_size = frame.dw_max_video_frame_buffer_size;
      }
    ]
    else c

-- The set-up of a stream control request; `probe` chooses `UVC_VS_PROBE_CONTROL`.
abbrev pub stream_setup : DeviceInfo → StreamCtrl → Bool → ℕ → Setup
stream_setup info c probe req = record {
  request_type = if req == set_cur then 0x21 else 0xa1;
  request = req;
  value = if probe then 0x01 * 2 ^ 8 else 0x02 * 2 ^ 8;
  index = c.b_interface_number;
  len = ctrl_len info.ctrl_if.bcd_uvc;
}

-- `buf` at the transfer.
abbrev pub stream_buffer : ℕ → StreamCtrl → ℕ → List ℕ
stream_buffer len c req = if req == set_cur then encode_ctrl len c else replicate 34 0

-- What is made of the transfer's result.
unfoldable pub finish_stream_query :
    {S : Type 0} → Device → StreamCtrl → ℕ → Reply S → Option (ℤ × StreamCtrl × S)
finish_stream_query d c req r =
    if is_le_zero r.result
    then some (r.result, c, r.after)
    else (if req == set_cur then some (pos 0, c, r.after) else (do
      c' ←
          decode_ctrl (ctrl_len d.info.ctrl_if.bcd_uvc) d.info.ctrl_if.dw_clock_frequency r.buffer c
      some (pos 0, fix_frame_size d.info c', r.after)))

module _ {S : Type 0} (usb : Usb S) where
  -- The transfer of the query.
  abbrev pub stream_reply : Device → StreamCtrl → Bool → ℕ → S → Reply S
  stream_reply d c probe req w =
      usb.control_transfer (stream_setup d.info c probe req)
        (stream_buffer (ctrl_len d.info.ctrl_if.bcd_uvc) c req) w

  -- The result, the control block and the device. `none` is a read outside `buf`.
  unfoldable pub query_stream_ctrl :
      Device → StreamCtrl → Bool → ℕ → S → Option (ℤ × StreamCtrl × S)
  unfolding finish_stream_query
  query_stream_ctrl d c probe req w = finish_stream_query d c req (stream_reply d c probe req w)

-- The still control block, in the 11 bytes that it has in every version.
unfoldable pub encode_still : StillCtrl → List ℕ
encode_still c =
    c.b_format_index ∷ c.b_frame_index ∷ c.b_compression_index ∷ []
    ++ (int_to_dw c.dw_max_video_frame_size ++ int_to_dw c.dw_max_payload_transfer_size)

unfoldable pub decode_still : List ℕ → StillCtrl → Option StillCtrl
decode_still buf c = do
  format_index ← get_elem? buf 0
  frame_index ← get_elem? buf 1
  compression_index ← get_elem? buf 2
  max_video_frame_size ← read_dw buf 3
  max_payload_transfer_size ← read_dw buf 7
  some (record c {
    b_format_index = format_index;
    b_frame_index = frame_index;
    b_compression_index = compression_index;
    dw_max_video_frame_size = max_video_frame_size;
    dw_max_payload_transfer_size = max_payload_transfer_size;
  })

abbrev pub still_setup : StillCtrl → Bool → ℕ → Setup
still_setup c probe req = record {
  request_type = if req == set_cur then 0x21 else 0xa1;
  request = req;
  value = if probe then 0x03 * 2 ^ 8 else 0x04 * 2 ^ 8;
  index = c.b_interface_number;
  len = 11;
}

module _ {S : Type 0} (usb : Usb S) where
  unfoldable pub query_still_ctrl : StillCtrl → Bool → ℕ → S → Option (ℤ × StillCtrl × S)
  query_still_ctrl c probe req w =
      let buf : List ℕ = if req == set_cur then encode_still c else replicate 11 0 in
      let r = usb.control_transfer (still_setup c probe req) buf w in
      if is_le_zero r.result
      then some (r.result, c, r.after)
      else (if req == set_cur
          then some (pos 0, c, r.after)
          else (do c' ← decode_still r.buffer c; some (pos 0, c', r.after)))
