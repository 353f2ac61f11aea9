-- ===== src/Stream/Callback.antt =====
-- `_uvc_stream_callback` of src/stream.c: what libusb calls when a transfer is done. libusb's
-- answers to `libusb_submit_transfer` are a parameter.
pub mod Transmission
pub mod Ownership
pub mod Kept
pub mod Safety
pub mod Drain
pub mod Delivered
pub mod Relay
use usb_video_class.Base.{
  ℕ, Bool, Option, none, some, List, [], ◌∷◌, ◌==◌, if◌then◌else◌, ◌>>=◌, true, false,
}
use usb_video_class.Base.Int.{ℤ, is_negative}
use usb_video_class.Stream.{Stream}
use usb_video_class.Stream.Payload.{process_payload}

-- `enum libusb_transfer_status`, as the source tells them apart.
pub data TransferStatus : Type 0 where
  completed cancelled error no_device timed_out stall overflow : TransferStatus

-- An isochronous packet: `bytes` runs from its start to the end of the transfer's buffer.
pub record IsoPacket : Type 0 where
  pub status : ℕ
  pub bytes : List ℕ
  pub actual_length : ℕ

-- A finished transfer; `id` is its address. `iso_packets` is empty for a bulk transfer.
pub record Transfer : Type 0 where
  pub id : ℕ
  pub status : TransferStatus
  pub iso_packets : List IsoPacket
  pub buffer : List ℕ
  pub actual_length : ℕ

-- What the callback does to the outside, in order.
pub data Effect : Type 0 where
  submits frees : ℕ → Effect
  broadcasts : Effect

-- The packets of an isochronous transfer; bad ones are skipped.
pub process_packets : (ℕ → ℕ) → Stream → List IsoPacket → Option Stream
process_packets clock s [] = some s
process_packets clock s (pkt ∷ pkts) = do
  s' ← if pkt.status == 0 then process_payload clock s pkt.bytes pkt.actual_length else some s
  process_packets clock s' pkts

-- `strmh->transfers[i] = NULL` at the first slot that holds the transfer.
unfoldable pub mark_deleted : ℕ → List (Option ℕ) → List (Option ℕ)
mark_deleted id [] = []
mark_deleted id (none ∷ ts) = none ∷ mark_deleted id ts
mark_deleted id (some t ∷ ts) = if t == id then none ∷ ts else some t ∷ mark_deleted id ts

unfoldable pub holds : ℕ → List (Option ℕ) → Bool
holds id [] = false
holds id (none ∷ ts) = holds id ts
holds id (some t ∷ ts) = if t == id then true else holds id ts

-- Frees the transfer if the table holds it, and wakes `uvc_stream_stop`.
unfoldable pub delete_transfer : ℕ → Stream → Stream × List Effect
delete_transfer id s = (
  record s { transfers = mark_deleted id s.transfers },
  (if holds id s.transfers then frees id ∷ broadcasts ∷ [] else broadcasts ∷ []),
)

unfoldable pub resubmit : (ℕ → ℤ) → ℕ → Stream → Stream × List Effect
resubmit submit id s =
    if s.running
    then (if is_negative (submit id)
        then (let (s', fx) = delete_transfer id s in (s', submits id ∷ fx))
        else (s, submits id ∷ []))
    else delete_transfer id s

unfoldable pub process_transfer : (ℕ → ℕ) → Stream → Transfer → Option Stream
process_transfer clock s t = elim t.iso_packets [
  | [] ↦ process_payload clock s t.buffer t.actual_length
  | pkt ∷ pkts ↦ process_packets clock s (pkt ∷ pkts)
]

unfoldable pub stream_callback :
    (ℕ → ℕ) → (ℕ → ℤ) → Stream → Transfer → Option (Stream × List Effect)
stream_callback clock submit s t = elim t.status [
  | completed ↦ do s' ← process_transfer clock s t; some (resubmit submit t.id s')
  | cancelled ↦ some (delete_transfer t.id s)
  | error ↦ some (delete_transfer t.id s)
  | no_device ↦ some (delete_transfer t.id s)
  | timed_out ↦ some (resubmit submit t.id s)
  | stall ↦ some (resubmit submit t.id s)
  | overflow ↦ some (resubmit submit t.id s)
]
