-- ===== src/Stream/Callback/Relay.antt =====
-- From the transfers that libusb finishes, `_uvc_stream_callback` of src/stream.c, to the reader of
-- `uvc_stream_get_frame`: a run in which a camera sends images and the user reads.
use usb_video_class.Base.{
  ℕ, suc, ◌+◌, ◌^◌, ◌<◌, ◌≡◌, refl, sym, ap, ◌∙◌, subst, Bool, true, Option, none, some, List, [],
  ◌∷◌, ◌>>=◌, length, take, map, if◌then◌else◌, arith,
}
use usb_video_class.Base.Int.{ℤ, pos}
use usb_video_class.Ctrl.{StreamCtrl}
use usb_video_class.Desc.{DeviceInfo, FrameDesc}
use usb_video_class.Desc.Lookup.{find_frame_desc}
use usb_video_class.Stream.{Stream, max_size}
use usb_video_class.Stream.Callback.{Transfer, stream_callback}
use usb_video_class.Stream.Poll.{Timespec, WaitResult, get_frame}
use usb_video_class.Stream.Poll.Latest.{get_frame-Leaves}
use usb_video_class.Stream.Callback.Delivered.{
  IsReady, Pieces, image, AllFit, carrier, IsDelivered, carrier-IsDelivered,
}

-- The bytes that the reader finds in the frame.
abbrev pub shown : Stream → List ℕ
shown s = take s.frame.data_bytes (elim s.frame.image [ none ↦ [] | some bytes ↦ bytes ])

module _ (info : DeviceInfo) (clock : ℕ → ℕ) (submit : ℕ → ℤ) (wait : Stream → Stream)
    (timed_wait : Option Timespec → Stream → WaitResult × Stream) (now : Timespec)
    (timeout_us : ℤ) where
  -- For each transfer the callback, and then a read: its result, and the bytes if it gives a frame.
  unfoldable pub relay : List Transfer → Stream → Option (List (ℤ × Option (List ℕ)) × Stream)
  relay [] s = some ([], s)
  relay (t ∷ ts) s = do
    (s₁, _) ← stream_callback clock submit s t
    (ret, got, s₂) ← get_frame wait timed_wait now info s₁ timeout_us
    (reads, s₃) ← relay ts s₂
    some ((ret, (if got then some (shown s₂) else none)) ∷ reads, s₃)

module _ (info : DeviceInfo) (desc : FrameDesc) (clock : ℕ → ℕ) (submit : ℕ → ℤ)
    (wait : Stream → Stream) (timed_wait : Option Timespec → Stream → WaitResult × Stream)
    (now : Timespec) (timeout_us : ℤ) where
  read-IsReady :
      (s : Stream) (bytes : List ℕ) (t : Stream)
      → IsReady info desc s
      → IsDelivered info desc s bytes t
      → (u : Stream) × (get_frame wait timed_wait now info t timeout_us ≡ some (pos 0, true, u))
        × (shown u ≡ bytes)
        × (max_size u ≡ max_size s)
        × (u.seq ≡ suc s.seq)
        × IsReady info desc u
  read-IsReady s bytes t r d =
      let (format, found) = r.described in
      let found' : find_frame_desc info.stream_ifs t.cur_ctrl.b_format_index
            t.cur_ctrl.b_frame_index
          ≡ some (format, desc) =
        rw d.same_ctrl found in
      let (
        u,
        run,
        (copy, is_copy, same, bytes_same, _, _, polled),
        (on, cb, ctrl, seq, hold_seq, empty, meta_got, meta_hold, v, room),
      ) =
        get_frame-Leaves wait timed_wait now info t timeout_us format desc d.valid d.room
          d.no_metadata.1 found' d.running d.no_callback d.unread in
      (
        u,
        run,
        rw (is_copy, bytes_same) (same ∙ d.held),
        ap (λ (c : StreamCtrl). c.dw_max_video_frame_size) (ctrl ∙ d.same_ctrl),
        seq ∙ d.numbered.1,
        record {
          valid = v;
          running = on ∙ d.running;
          no_callback = cb ∙ d.no_callback;
          described = (
            format,
            subst
                (λ (c : StreamCtrl).
                  find_frame_desc info.stream_ifs c.b_format_index c.b_frame_index
                  ≡ some (format, desc))
                (sym (ctrl ∙ d.same_ctrl)) found,
          );
          room = room;
          empty = empty ∙ d.empty;
          no_metadata = (meta_got ∙ d.no_metadata.0, meta_hold ∙ d.no_metadata.1);
          unseen = omega (arith, polled, seq, d.numbered.0, d.numbered.1);
        },
      )

  -- A camera sends images one after the other, each in a finished isochronous transfer of its own,
  -- cut into non-empty pieces that together fit the negotiated size and have at most 2 ^ 32 - 3
  -- bytes, and the user reads after each transfer. From a valid running handle without a callback,
  -- image data at hand or metadata, with a frame descriptor and a frame buffer as long as it says,
  -- whose next sequence number the reader has not seen, and where that number and the count of the
  -- images together stay below 2 ^ 32, the callbacks and the reads all end without an access
  -- outside a buffer, every read succeeds, and the reads give exactly the images, in order;
  -- whatever the frame ID bits, the timeout, the clock and libusb's answers to the new submissions
  -- are. The handle is then ready for more.
  pub relay-images :
      (sent : List (ℕ × Bool × Pieces)) (s : Stream)
      → IsReady info desc s
      → AllFit (max_size s) sent
      → s.seq + length sent < 2 ^ 32
      → (t : Stream) × (relay info clock submit wait timed_wait now timeout_us
            (map (λ (id, fid, p). carrier id fid p) sent)
            s
          ≡ some (map (λ (id, fid, p). (pos 0, some (image p))) sent, t))
        × IsReady info desc t
  unfolding relay
  relay-images [] s r fits low = (s, refl, r)
  relay-images ((id, fid, p) ∷ sent) s r (fit, fits) low =
      let ((s₁, fx), run₁, d) =
        carrier-IsDelivered info desc clock submit id fid p s r fit (omega arith) in
      let (s₂, run₂, seen, same_size, next, r₂) = read-IsReady s (image p) s₁ r d in
      let (s₃, run₃, r₃) =
        relay-images sent s₂ r₂ (subst (λ n. AllFit n sent) (sym same_size) fits)
          (omega (arith, next)) in
      (s₃, rw (run₁, run₂, run₃, seen) refl, r₃)
