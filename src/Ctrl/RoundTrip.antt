-- ===== src/Ctrl/RoundTrip.antt =====
-- The control block's way through the buffer of `uvc_query_stream_ctrl` in src/stream.c, and back.
use usb_video_class.Base.{ℕ, ◌^◌, ◌<◌, ◌≡◌, refl, some}
use usb_video_class.Base.Bytes.{dw_bytes, sw_bytes, read_dw, read_sw}
use usb_video_class.Ctrl.{StreamCtrl}
use usb_video_class.Ctrl.Query.{encode_ctrl, decode_ctrl, decode_tail}

-- The fields have the widths of their C types.
pub record InRange (c : StreamCtrl) : Type 0 where
  pub hint : c.bm_hint < 2 ^ 16
  pub interval : c.dw_frame_interval < 2 ^ 32
  pub key_frame_rate : c.w_key_frame_rate < 2 ^ 16
  pub p_frame_rate : c.w_p_frame_rate < 2 ^ 16
  pub comp_quality : c.w_comp_quality < 2 ^ 16
  pub comp_window_size : c.w_comp_window_size < 2 ^ 16
  pub delay : c.w_delay < 2 ^ 16
  pub max_video_frame_size : c.dw_max_video_frame_size < 2 ^ 32
  pub max_payload_transfer_size : c.dw_max_payload_transfer_size < 2 ^ 32
  pub clock_frequency : c.dw_clock_frequency < 2 ^ 32

-- Decoding the 34 bytes that a control block with fields of their width is encoded to gives the
-- block back, whatever the block that is decoded into held before, up to the interface number,
-- which does not travel.
pub decode_ctrl-encode_ctrl :
    (clock_frequency : ℕ) (c old : StreamCtrl)
    → InRange c
    → decode_ctrl 34 clock_frequency (encode_ctrl 34 c) old
      ≡ some (record c { b_interface_number = old.b_interface_number })
unfolding decode_ctrl decode_tail encode_ctrl read_dw read_sw
decode_ctrl-encode_ctrl clock_frequency c old r =
    rw
      (
        sw_bytes c.bm_hint r.hint,
        dw_bytes c.dw_frame_interval r.interval,
        sw_bytes c.w_key_frame_rate r.key_frame_rate,
        sw_bytes c.w_p_frame_rate r.p_frame_rate,
        sw_bytes c.w_comp_quality r.comp_quality,
        sw_bytes c.w_comp_window_size r.comp_window_size,
        sw_bytes c.w_delay r.delay,
        dw_bytes c.dw_max_video_frame_size r.max_video_frame_size,
        dw_bytes c.dw_max_payload_transfer_size r.max_payload_transfer_size,
        dw_bytes c.dw_clock_frequency r.clock_frequency,
      )
      refl
