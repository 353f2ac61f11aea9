-- ===== src/Ctrl.antt =====
-- The control blocks of include/libuvc/libuvc.h.
pub mod Query
pub mod RoundTrip
pub mod Total
pub mod Kept
pub mod Negotiate
use usb_video_class.Base.{ℕ}

pub record StreamCtrl : Type 0 where
  pub bm_hint : ℕ
  pub b_format_index : ℕ
  pub b_frame_index : ℕ
  pub dw_frame_interval : ℕ
  pub w_key_frame_rate : ℕ
  pub w_p_frame_rate : ℕ
  pub w_comp_quality : ℕ
  pub w_comp_window_size : ℕ
  pub w_delay : ℕ
  pub dw_max_video_frame_size : ℕ
  pub dw_max_payload_transfer_size : ℕ
  pub dw_clock_frequency : ℕ
  pub bm_framing_info : ℕ
  pub b_preferred_version : ℕ
  pub b_min_version : ℕ
  pub b_max_version : ℕ
  pub b_interface_number : ℕ

pub record StillCtrl : Type 0 where
  pub b_format_index : ℕ
  pub b_frame_index : ℕ
  pub b_compression_index : ℕ
  pub dw_max_video_frame_size : ℕ
  pub dw_max_payload_transfer_size : ℕ
  pub b_interface_number : ℕ
