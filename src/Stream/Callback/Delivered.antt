-- ===== src/Stream/Callback/Delivered.antt =====
-- A transfer with an image, and what `_uvc_stream_callback` of src/stream.c leaves for the reader.
use usb_video_class.Base.{
  concat, ℕ, suc, ◌+◌, ◌^◌, ◌≤◌, ◌<◌, ◌≡◌, refl, ap, ◌∙◌, Bool, true, false, Option, some, List, [],
  ◌∷◌, ◌==◌, length, take, if◌then◌else◌, if_cases, arith, Always, returns, from_Always,
}
use usb_video_class.Base.Int.{ℤ, is_negative}
use usb_video_class.Desc.{DeviceInfo, FormatDesc, FrameDesc}
use usb_video_class.Desc.Lookup.{find_frame_desc}
use usb_video_class.Stream.{Stream, max_size}
use usb_video_class.Stream.Payload.{process_payload}
use usb_video_class.Stream.Payload.Refine.{IsValid}
use usb_video_class.Stream.Payload.Rests.{Rests, rests, then-Rests, process_payload-Rests}
use usb_video_class.Stream.Callback.{
  IsoPacket, Transfer, completed, Effect, process_packets, process_transfer, resubmit,
  delete_transfer, stream_callback,
}
use usb_video_class.Stream.Callback.Transmission.{transmit, AllSome, process_packets-transmit}
use usb_video_class.Stream.Poll.Latest.{HasRoom}

process_packets-Rests :
    (clock : ℕ → ℕ) (s : Stream) (pkts : List IsoPacket)
    → Always (Rests s) (process_packets clock s pkts)
unfolding process_packets
process_packets-Rests clock s [] = returns (rests s)
process_packets-Rests clock s (p ∷ ps) =
    then-Rests s (if p.status == 0 then process_payload clock s p.bytes p.actual_length else some s)
      _
      (if_cases (Always (Rests s)) (p.status == 0)
        (λ _. process_payload-Rests clock s p.bytes p.actual_length) (λ _. returns (rests s)))
      λ t. process_packets-Rests clock t ps

-- A handle that is ready for an image and its reader: valid, running without a callback, with a
-- frame descriptor and a frame buffer as long as it says, without image data at hand or metadata,
-- and with a sequence number that the reader has not seen.
pub record IsReady (info : DeviceInfo) (desc : FrameDesc) (s : Stream) : Type 0 where
  pub valid : IsValid s
  pub running : s.running ≡ true
  pub no_callback : s.user_cb ≡ false
  pub described :
      (format : FormatDesc) × (find_frame_desc info.stream_ifs s.cur_ctrl.b_format_index
          s.cur_ctrl.b_frame_index
        ≡ some (format, desc))
  pub room : HasRoom s.frame.data_bytes s.frame.image
  pub empty : s.got_bytes ≡ 0
  pub no_metadata : (s.meta_got_bytes ≡ 0) × (s.meta_hold_bytes ≡ 0)
  pub unseen : s.last_polled_seq < s.seq

-- An image in non-empty pieces, and one that fits.
abbrev pub Pieces : Type 0
Pieces = List ℕ × List (List ℕ)

abbrev pub image : Pieces → List ℕ
image (c, cs) = concat (c ∷ cs)

abbrev pub Fits : ℕ → Pieces → Type 0
Fits limit (c, cs) =
    AllSome (c ∷ cs) × (length (concat (c ∷ cs)) ≤ limit) × (length (concat (c ∷ cs)) + 2 < 2 ^ 32)

abbrev pub AllFit : ℕ → List (ℕ × Bool × Pieces) → Type 0
AllFit limit [] = Unit
AllFit limit ((id, fid, p) ∷ sent) = Fits limit p × AllFit limit sent

-- The finished transfer that carries it.
abbrev pub carrier : ℕ → Bool → Pieces → Transfer
carrier id fid (c, cs) = record {
  id = id;
  status = completed;
  iso_packets = transmit fid (c ∷ cs);
  buffer = [];
  actual_length = 0;
}

-- The handle after the callback: the image waits for the reader, and the next number is not seen.
pub record IsDelivered (info : DeviceInfo) (desc : FrameDesc) (s : Stream) (bytes : List ℕ)
    (t : Stream) : Type 0 where
  pub valid : IsValid t
  pub running : t.running ≡ true
  pub no_callback : t.user_cb ≡ false
  pub same_ctrl : t.cur_ctrl ≡ s.cur_ctrl
  pub room : HasRoom t.frame.data_bytes t.frame.image
  pub empty : t.got_bytes ≡ 0
  pub no_metadata : (t.meta_got_bytes ≡ 0) × (t.meta_hold_bytes ≡ 0)
  pub unread : t.last_polled_seq < t.hold_seq
  pub numbered : (t.hold_seq ≡ s.seq) × (t.seq ≡ suc s.seq)
  pub held : take t.hold_bytes t.holdbuf ≡ bytes

set_transfers-IsDelivered :
    (info : DeviceInfo) (desc : FrameDesc) (s : Stream) (bytes : List ℕ) (t : Stream)
    (ts : List (Option ℕ))
    → IsDelivered info desc s bytes t
    → IsDelivered info desc s bytes (record t { transfers = ts })
set_transfers-IsDelivered info desc s bytes t ts d = record {
  valid = record {
    small = d.valid.small;
    within = d.valid.within;
    partial = d.valid.partial;
    out_room = d.valid.out_room;
    hold_room = d.valid.hold_room;
    held = d.valid.held;
  };
  running = d.running;
  no_callback = d.no_callback;
  same_ctrl = d.same_ctrl;
  room = d.room;
  empty = d.empty;
  no_metadata = d.no_metadata;
  unread = d.unread;
  numbered = d.numbered;
  held = d.held;
}

module _ (info : DeviceInfo) (desc : FrameDesc) (clock : ℕ → ℕ) (submit : ℕ → ℤ) where
  resubmit-IsDelivered :
      (id : ℕ) (s : Stream) (bytes : List ℕ) (t : Stream)
      → IsDelivered info desc s bytes t
      → IsDelivered info desc s bytes (resubmit submit id t).0
  unfolding resubmit delete_transfer
  resubmit-IsDelivered id s bytes t d =
      if_cases (λ (r : Stream × List Effect). IsDelivered info desc s bytes r.0) t.running
        (λ on.
          if_cases (λ (r : Stream × List Effect). IsDelivered info desc s bytes r.0)
            (is_negative (submit id)) (λ refused. set_transfers-IsDelivered info desc s bytes t _ d)
            (λ _. d))
        (λ off. set_transfers-IsDelivered info desc s bytes t _ d)

  packets-IsDelivered :
      (fid : Bool) (c : List ℕ) (cs : List (List ℕ)) (s : Stream)
      → IsReady info desc s
      → Fits (max_size s) (c, cs)
      → suc s.seq < 2 ^ 32
      → (t : Stream) × (process_packets clock s (transmit fid (c ∷ cs)) ≡ some t)
        × IsDelivered info desc s (concat (c ∷ cs)) t
  packets-IsDelivered fid c cs s r (some_bytes, fits, small) low =
      let (t, run, v, published, held, empty) =
        process_packets-transmit clock fid c cs s r.valid r.empty some_bytes fits small in
      let ((on, cb, ctrl, polled, image, bytes, meta), (_, _, next)) =
        from_Always (process_packets-Rests clock s (transmit fid (c ∷ cs))) t run in
      let (numbered, following) = next (ap length published) in
      (
        t,
        run,
        record {
          valid = v;
          running = on ∙ r.running;
          no_callback = cb ∙ r.no_callback;
          same_ctrl = ctrl;
          room = rw (image, bytes) r.room;
          empty = empty;
          no_metadata = meta r.no_metadata.0 r.no_metadata.1;
          unread = omega (arith, polled, numbered, r.unseen);
          numbered = (numbered, omega (arith, following, low));
          held = held;
        },
      )

  pub carrier-IsDelivered :
      (id : ℕ) (fid : Bool) (p : Pieces) (s : Stream)
      → IsReady info desc s
      → Fits (max_size s) p
      → suc s.seq < 2 ^ 32
      → (o : Stream × List Effect) × (stream_callback clock submit s (carrier id fid p) ≡ some o)
        × IsDelivered info desc s (image p) o.0
  unfolding stream_callback process_transfer
  carrier-IsDelivered id fid (c, []) s r fits low =
      let (t, run, d) = packets-IsDelivered fid c [] s r fits low in
      (resubmit submit id t, rw run refl, resubmit-IsDelivered id s (image (c, [])) t d)
  carrier-IsDelivered id fid (c, b ∷ cs) s r fits low =
      let (t, run, d) = packets-IsDelivered fid c (b ∷ cs) s r fits low in
      (resubmit submit id t, rw run refl, resubmit-IsDelivered id s (image (c, b ∷ cs)) t d)
