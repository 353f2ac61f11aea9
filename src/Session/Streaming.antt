-- ===== src/Session/Streaming.antt =====
-- `uvc_start_streaming` of src/stream.c: a stream is opened and started, and closed again when the
-- start fails.
pub mod Rollback
use usb_video_class.Base.{
  ℕ, ◌≡◌, ap, ◌∙◌, Bool, Option, some, List, [], ◌∷◌, ◌==◌, if◌then◌else◌, ◌>>=◌, arith,
}
use usb_video_class.Base.Int.{ℤ, pos}
use usb_video_class.Ctrl.{StreamCtrl}
use usb_video_class.Device.Claim.{is_success}
use usb_video_class.Usb.{Usb}
use usb_video_class.Stream.{Stream}
use usb_video_class.Stream.Payload.Refine.{IsValid}
use usb_video_class.Stream.Callback.Ownership.{System, IsOwned, slots}
use usb_video_class.Session.{Session, num_transfer_bufs, get_stream_by_interface, open_ctrl}
use usb_video_class.Session.Open.{IsNew}
use usb_video_class.Session.Close.{stream_close}
use usb_video_class.Start.{AltSetting, stream_start}
use usb_video_class.Start.Submitted.{slots_empty}

-- A new stream has no transfers.
abbrev pub opened : Stream → System
opened s = record { stream = s; flight = []; freed = [] }

pub opened-IsOwned : (s : Stream) → IsNew s → IsValid s → IsOwned (opened s)
opened-IsOwned s new v = record {
  valid = v;
  held = none_held;
  once = λ i. omega (arith, none_held i);
}
  where
    none_held : (i : ℕ) → slots i s.transfers ≡ 0
    none_held i = ap (slots i) new.slots ∙ slots_empty i num_transfer_bufs

-- A handle changed in place; the streams of a device have different interfaces.
unfoldable pub replace_stream : Stream → List Stream → List Stream
replace_stream s [] = []
replace_stream s (t ∷ ts) =
    if t.stream_if.b_interface_number == s.stream_if.b_interface_number
    then s ∷ ts
    else t ∷ replace_stream s ts

module _ {S : Type 0} (usb : Usb S) (submit : ℕ → ℤ) (ids : List ℕ) (cb : Bool)
    (interfaces : List (List AltSetting)) where
  -- Once the stream is open. With the result come the transfers that libusb holds.
  unfoldable pub start_opened : Session → Stream → S → Option (ℤ × Session × List ℕ × S)
  start_opened y s w = do
    (ret, z, w') ← stream_start usb submit ids cb interfaces (opened s) w
    let y' : Session = record y { streams = replace_stream z.stream y.streams }
    if is_success ret
        then some (pos 0, y', z.flight, w')
        else (do (y'', w'') ← stream_close usb y' z.stream w'; some (ret, y'', z.flight, w''))

  -- `uvc_start_streaming`
  unfoldable pub start_streaming :
      (ℕ → List ℕ) → Session → StreamCtrl → S → Option (ℤ × Session × List ℕ × S)
  start_streaming malloc y c w = do
    (ret, y', w') ← open_ctrl usb malloc y c w
    if is_success ret
        then (do s ← get_stream_by_interface y'.streams c.b_interface_number; start_opened y' s w')
        else some (ret, y', [], w')

  -- `uvc_start_iso_streaming`
  abbrev start_iso_streaming :
      (ℕ → List ℕ) → Session → StreamCtrl → S → Option (ℤ × Session × List ℕ × S)
  start_iso_streaming = start_streaming
