-- ===== src/Ctrl/Negotiate.antt =====
-- `uvc_probe_stream_ctrl` and `uvc_probe_still_ctrl` of src/stream.c.
use usb_video_class.Base.{
  ℕ, ◌≤◌, ◌≡◌, ◌↔◌, Bool, true, false, ◌&&◌, Option, some, List, ◌==◌, leb, if◌then◌else◌, not,
  ◌>>=◌, arith, ◌∙◌,
}
use usb_video_class.Base.Int.{ℤ, pos, is_le_zero}
use usb_video_class.UvcError
use usb_video_class.Device.{Device}
use usb_video_class.Device.Claim.{is_success}
use usb_video_class.Usb.{Setup, Usb, KeepsSize, set_cur, get_cur}
use usb_video_class.Ctrl.{StreamCtrl, StillCtrl}
use usb_video_class.Ctrl.Total.{query_stream_ctrl-Reports, Reports-silent}
use usb_video_class.Ctrl.Query.{query_stream_ctrl, query_still_ctrl, stream_reply}

-- `_uvc_stream_params_negotiated`
unfoldable pub params_negotiated : StreamCtrl → StreamCtrl → Bool
params_negotiated required actual =
    required.b_format_index == actual.b_format_index
    && (required.b_frame_index == actual.b_frame_index
        && leb actual.dw_max_payload_transfer_size required.dw_max_payload_transfer_size)

module _ {S : Type 0} (usb : Usb S) where
  -- The results of the two queries are not looked at.
  unfoldable pub probe_stream_ctrl : Device → StreamCtrl → S → Option (ℤ × StreamCtrl × S)
  probe_stream_ctrl d c w = do
    (_, c₁, w₁) ← query_stream_ctrl usb d c true set_cur w
    (_, c₂, w₂) ← query_stream_ctrl usb d c₁ true get_cur w₁
    some ((if params_negotiated c c₂ then pos 0 else UvcError.invalid_mode), c₂, w₂)

  unfoldable pub probe_still_ctrl : StillCtrl → S → Option (ℤ × StillCtrl × S)
  probe_still_ctrl c w = do
    (r₁, c₁, w₁) ← query_still_ctrl usb c true set_cur w
    if not (is_success r₁) then some (r₁, c₁, w₁) else (do
      (r₂, c₂, w₂) ← query_still_ctrl usb c₁ true get_cur w₁
      if not (is_success r₂) then some (r₂, c₂, w₂) else query_still_ctrl usb c₂ false set_cur w₂)

module _ {S : Type 0} (usb : Usb S) (keeps : KeepsSize usb) where
  -- For every device whose transfers keep the size of their buffer, the negotiation ends and
  -- reports success exactly when the resulting block has the format and frame asked for and no
  -- larger payload transfers.
  pub probe_stream_ctrl_exact :
      (d : Device) (c : StreamCtrl) (w : S)
      → (o : ℤ × StreamCtrl × S) × (probe_stream_ctrl usb d c w ≡ some o)
        × ((o.0 ≡ pos 0) ↔ (
            (c.b_format_index ≡ o.1.b_format_index)
            × (c.b_frame_index ≡ o.1.b_frame_index)
            × (o.1.dw_max_payload_transfer_size ≤ c.dw_max_payload_transfer_size)))
  unfolding probe_stream_ctrl params_negotiated
  probe_stream_ctrl_exact d c w =
      let (o₁, run₁, _) = query_stream_ctrl-Reports usb d c true set_cur w keeps in
      let (o₂, run₂, _) = query_stream_ctrl-Reports usb d o₁.1 true get_cur o₁.2 keeps in
      (
        ((if params_negotiated c o₂.1 then pos 0 else UvcError.invalid_mode), o₂.1, o₂.2),
        rw (run₁, run₂),
        ((λ e. ground arith), λ e. ground arith),
      )

  -- A device whose control transfers keep the size of their buffer and carry no bytes passes the
  -- negotiation with the block unchanged.
  pub probe_stream_ctrl_silent :
      (d : Device) (c : StreamCtrl) (w : S)
      → ((setup : Setup) (buf : List ℕ) (v : S)
          → is_le_zero (usb.control_transfer setup buf v).result ≡ true)
      → (w' : S) × (probe_stream_ctrl usb d c w ≡ some (pos 0, c, w'))
  unfolding probe_stream_ctrl params_negotiated
  probe_stream_ctrl_silent d c w silent =
      let (o₁, run₁, rep₁) = query_stream_ctrl-Reports usb d c true set_cur w keeps in
      let (o₂, run₂, rep₂) = query_stream_ctrl-Reports usb d o₁.1 true get_cur o₁.2 keeps in
      let same : o₂.1 ≡ c =
        Reports-silent o₁.1 get_cur (stream_reply usb d o₁.1 true get_cur o₁.2) o₂ rep₂
          (silent _ _ _)
        ∙ Reports-silent c set_cur (stream_reply usb d c true set_cur w) o₁ rep₁ (silent _ _ _) in
      let agreed : params_negotiated c c ≡ true = ground arith in
      (o₂.2, rw (run₁, run₂, same, agreed))
