-- ===== src/Stream/Callback/Kept.antt =====
-- The packets of a finished transfer, and what `_uvc_stream_callback` of src/stream.c relies on while
-- it processes them.
use usb_video_class.Base.{
  ℕ, ◌≤◌, ◌<◌, ◌^◌, ◌≡◌, refl, ap, ◌∙◌, inl, inr, Bool, false, ◌||◌, ◌&&◌, not, Option, some, List,
  [], ◌∷◌, ◌++◌, ◌==◌, length, take, Bool-cases,
}
use usb_video_class.Stream.{Stream}
use usb_video_class.Stream.Assembly.{Assembly, view, turn, finish, extend}
use usb_video_class.Stream.Payload.{process_payload}
use usb_video_class.Stream.Payload.Refine.{IsValid}
use usb_video_class.Stream.Payload.Packets.{
  Packet, ignored, headerless, carries, packet, absorb, FieldsFit, process_payload-Returns,
}
use usb_video_class.Stream.Callback.{IsoPacket, Transfer, process_packets, process_transfer}

abbrev pub Kept : Assembly → Assembly → Type 0
Kept a b = (b.transfers ≡ a.transfers) × (b.running ≡ a.running)

finish-Kept : (eof : Bool) (a : Assembly) → Kept a (finish eof a)
finish-Kept eof a = elim (Bool-cases (eof || (length a.acc == a.limit))) [
  | inl e ↦ rw e (refl, refl)
  | inr e ↦ rw e (refl, refl)
]

turn-Kept : (fid : ℕ) (a : Assembly) → Kept a (turn fid a)
turn-Kept fid a = elim (Bool-cases (not (a.fid == fid) && not (length a.acc == 0))) [
  | inl e ↦ rw e (refl, refl)
  | inr e ↦ rw e (refl, refl)
]

extend-Kept : (eof : Bool) (bs : List ℕ) (a : Assembly) → Kept a (extend eof bs a)
extend-Kept eof [] a = (refl, refl)
extend-Kept eof (b ∷ bs) a = finish-Kept eof (record a { acc = take a.limit (a.acc ++ b ∷ bs) })

absorb-Kept : (p : Packet) (a : Assembly) → Kept a (absorb p a)
absorb-Kept ignored a = (refl, refl)
absorb-Kept (headerless bs) a = extend-Kept false bs a
absorb-Kept (carries fid eof bs) a = (
  (extend-Kept eof bs (turn fid a)).0 ∙ (turn-Kept fid a).0,
  (extend-Kept eof bs (turn fid a)).1 ∙ (turn-Kept fid a).1,
)

-- A packet whose bytes and announced fields lie in the transfer's buffer.
abbrev pub Fits : List ℕ → ℕ → Type 0
Fits bytes n = (n ≤ length bytes) × (n < 2 ^ 32) × FieldsFit bytes

abbrev pub AllFit : List IsoPacket → Type 0
AllFit [] = Unit {0}
AllFit (p ∷ ps) = Fits p.bytes p.actual_length × AllFit ps

abbrev pub TransferFits : Transfer → Type 0
TransferFits t = Fits t.buffer t.actual_length × AllFit t.iso_packets

-- The run returns a valid handle with the same table and flag.
abbrev pub Keeps : Stream → Option Stream → Type 0
Keeps s o = (s' : Stream) × (o ≡ some s') × IsValid s' × Kept (view s) (view s')

process_payload-Keeps :
    (clock : ℕ → ℕ) (s : Stream) (bytes : List ℕ) (n : ℕ)
    → IsValid s
    → Fits bytes n
    → Keeps s (process_payload clock s bytes n)
process_payload-Keeps clock s bytes n v (fits, small, room) =
    let (s', run, v', seen) = process_payload-Returns clock s bytes n v fits small room in
    let kept = absorb-Kept (packet bytes n) (view s) in
    (
      s',
      run,
      v',
      (
        ap (λ (a : Assembly). a.transfers) seen ∙ kept.0,
        ap (λ (a : Assembly). a.running) seen ∙ kept.1,
      ),
    )

process_packets-Keeps :
    (clock : ℕ → ℕ) (s : Stream) (pkts : List IsoPacket)
    → IsValid s
    → AllFit pkts
    → Keeps s (process_packets clock s pkts)
unfolding process_packets
process_packets-Keeps clock s [] v fit = (s, refl, v, (refl, refl))
process_packets-Keeps clock s (p ∷ ps) v (fit, fits) = elim (Bool-cases (p.status == 0)) [
  | inl good ↦
      let (s₁, run₁, v₁, kept₁) = process_payload-Keeps clock s p.bytes p.actual_length v fit in
      let (s₂, run₂, v₂, kept₂) = process_packets-Keeps clock s₁ ps v₁ fits in
      (s₂, rw (good, run₁, run₂) refl, v₂, (kept₂.0 ∙ kept₁.0, kept₂.1 ∙ kept₁.1))
  | inr bad ↦
      let (s', run, v', kept) = process_packets-Keeps clock s ps v fits in
      (s', rw bad run, v', kept)
]

pub process_transfer-Keeps :
    (clock : ℕ → ℕ) (s : Stream) (t : Transfer)
    → IsValid s
    → TransferFits t
    → Keeps s (process_transfer clock s t)
unfolding process_transfer
process_transfer-Keeps clock s t v (fit, fits) = split t.iso_packets fits
  where
    split :
        (pkts : List IsoPacket)
        → AllFit pkts
        → Keeps s (process_transfer clock s (record t { iso_packets = pkts }))
    split [] fits = process_payload-Keeps clock s t.buffer t.actual_length v fit
    split (p ∷ ps) fits = process_packets-Keeps clock s (p ∷ ps) v fits
