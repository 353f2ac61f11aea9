-- ===== src/Session/Relay.antt =====
-- A whole run of src/stream.c: a stream is opened and started, a camera sends images, and the user
-- reads them.
use usb_video_class.Base.{
  ℕ, suc, ◌^◌, ◌≤◌, ◌<◌, ◌≡◌, refl, sym, ap, ◌∙◌, subst, ◌⊎◌, inl, inr, Bool, true, false, Option,
  some, List, [], ◌∷◌, ◌++◌, length, map, get_elem?, arith,
}
use usb_video_class.Base.Int.{ℤ, pos}
use usb_video_class.Ctrl.{StreamCtrl}
use usb_video_class.Desc.{DeviceInfo, FormatDesc, FrameDesc}
use usb_video_class.Desc.Lookup.{find_frame_desc}
use usb_video_class.Device.Claim.{is_success}
use usb_video_class.Usb.{Usb, KeepsSize}
use usb_video_class.Stream.{Stream, max_size}
use usb_video_class.Stream.Payload.Refine.{IsValid}
use usb_video_class.Stream.Poll.{Timespec, WaitResult}
use usb_video_class.Stream.Callback.Delivered.{IsReady, Pieces, image, AllFit, carrier}
use usb_video_class.Stream.Callback.Ownership.{System, count}
use usb_video_class.Stream.Callback.Relay.{relay, relay-images}
use usb_video_class.Session.{Session, open_ctrl}
use usb_video_class.Session.Open.{IsNew, open_ctrl-Opens}
use usb_video_class.Session.Streaming.{opened, opened-IsOwned}
use usb_video_class.Start.{AltSetting, begin, stream_start}
use usb_video_class.Start.Owned.{Continues, stream_start-IsOwned}

started-IsReady :
    {S : Type 0} (usb : Usb S) (info : DeviceInfo) (format : FormatDesc) (desc : FrameDesc)
    (s t : Stream)
    → IsNew s
    → find_frame_desc info.stream_ifs s.cur_ctrl.b_format_index s.cur_ctrl.b_frame_index
      ≡ some (format, desc)
    → IsValid t
    → t.running ≡ true
    → Continues usb (begin (opened s)).stream false t
    → IsReady info desc t × (max_size t ≡ max_size s) × (t.seq ≡ 1)
started-IsReady usb info format desc s t new described v on (f, ts, e) =
    let started = record ((begin (opened s)).stream) {
      frame_format = f;
      transfers = ts;
      user_cb = false;
    } in
    (
      record {
        valid = v;
        running = on;
        no_callback = ap (λ (s : Stream). s.user_cb) e;
        described = (
          format,
          ap
                (λ (s : Stream).
                  find_frame_desc info.stream_ifs s.cur_ctrl.b_format_index
                    s.cur_ctrl.b_frame_index)
                e
              ∙ described,
        );
        room = rw (e, new.no_frame.0, new.no_frame.1) refl;
        empty = ap (λ (s : Stream). s.got_bytes) e ∙ new.empty;
        no_metadata = (
          ap (λ (s : Stream). s.meta_got_bytes) e ∙ new.no_metadata.0,
          ap (λ (s : Stream). s.meta_hold_bytes) e ∙ new.no_metadata.1,
        );
        unseen = rw (e, new.unread) (omega arith);
      },
      ap max_size e,
      ap (λ (s : Stream). s.seq) e,
    )

module _ {S : Type 0} (usb : Usb S) (submit : ℕ → ℤ) (ids : List ℕ)
    (interfaces : List (List AltSetting)) (clock : ℕ → ℕ) (wait : Stream → Stream)
    (timed_wait : Option Timespec → Stream → WaitResult × Stream) (now : Timespec)
    (timeout_us : ℤ) where
  -- The reads that follow a start, and the images.
  abbrev pub Relays : DeviceInfo → List (ℕ × Bool × Pieces) → Stream → Type 0
  Relays info sent s =
      (t : Stream) × (relay info clock submit wait timed_wait now timeout_us
          (map (λ (id, fid, p). carrier id fid p) sent) s
        ≡ some (map (λ (id, fid, p). (pos 0, some (image p))) sent, t))

  -- What the start of a new stream leads to.
  abbrev pub Plays : DeviceInfo → List (ℕ × Bool × Pieces) → Stream → S → Type 0
  Plays info sent s w =
      (p : ℤ × System × S) × (stream_start usb submit ids false interfaces (opened s) w ≡ some p)
      × ((is_success p.0 ≡ false) ⊎ ((p.0 ≡ pos 0) × Relays info sent p.1.stream))

  started-Plays :
      (info : DeviceInfo) (format : FormatDesc) (desc : FrameDesc) (alts : List AltSetting)
      (sent : List (ℕ × Bool × Pieces)) (s : Stream) (w : S)
      → IsNew s
      → IsValid s
      → find_frame_desc info.stream_ifs s.cur_ctrl.b_format_index s.cur_ctrl.b_frame_index
        ≡ some (format, desc)
      → ((i : ℕ) → count i ids ≤ 1)
      → get_elem? interfaces s.stream_if.b_interface_number ≡ some alts
      → 0 < s.cur_ctrl.dw_max_payload_transfer_size
      → AllFit (max_size s) sent
      → suc (length sent) < 2 ^ 32
      → Plays info sent s w
  started-Plays info format desc alts sent s w new v described once known wanted fits low =
      let (ret, z, w', run, owned, after) =
        stream_start-IsOwned usb submit ids false interfaces alts (opened s) w
          (opened-IsOwned s new v) new.off refl (λ i. omega (arith, once i)) known wanted in
      (
        (ret, z, w'),
        run,
        elim after [
          | inr (failed, _, _, _) ↦ inl failed
          | inl (good, on, _, continues) ↦
              let (ready, same_size, first) =
                started-IsReady usb info format desc s z.stream new described owned.valid on
                  continues in
              let (t, run', _) =
                relay-images info desc clock submit wait timed_wait now timeout_us sent z.stream
                  ready (subst (λ n. AllFit n sent) (sym same_size) fits)
                  (omega (arith, first, low)) in
              inr (good, (t, run'))
        ],
      )

  module _ (malloc : ℕ → List ℕ) (keeps : KeepsSize usb)
      (sized : (n : ℕ) → length (malloc n) ≡ n) where
    -- A user opens a stream on an interface below 32 that the configuration has, with a control
    -- block whose frame size is below 2 ^ 32, whose payload size is not 0 and whose frame the
    -- descriptors have; starts it without a callback, with transfers that differ from each other;
    -- and reads after each image that the camera sends in a finished isochronous transfer of its
    -- own, cut into non-empty pieces that together fit the frame size and have at most 2 ^ 32 - 3
    -- bytes, fewer than 2 ^ 32 - 1 images in all. Whatever libusb answers, as long as transfers
    -- keep the size of their buffer, and with a `malloc` that gives the bytes asked for, the
    -- opening ends: it fails, or there is a new stream behind the open ones. Its start ends: it
    -- fails, or the callbacks and reads all end without an access outside a buffer, every read
    -- succeeds, and the reads give exactly the images, in order.
    pub opened-relays :
        (y : Session) (c : StreamCtrl) (w : S) (format : FormatDesc) (desc : FrameDesc)
        (alts : List AltSetting) (sent : List (ℕ × Bool × Pieces))
        → c.dw_max_video_frame_size < 2 ^ 32
        → c.b_interface_number < 32
        → 0 < c.dw_max_payload_transfer_size
        → find_frame_desc y.device.info.stream_ifs c.b_format_index c.b_frame_index
          ≡ some (format, desc)
        → get_elem? interfaces c.b_interface_number ≡ some alts
        → ((i : ℕ) → count i ids ≤ 1)
        → AllFit c.dw_max_video_frame_size sent
        → suc (length sent) < 2 ^ 32
        → (o : ℤ × Session × S) × (open_ctrl usb malloc y c w ≡ some o)
          × ((is_success o.0 ≡ false)
              ⊎ ((o.0 ≡ pos 0)
                  × (s : Stream) × (o.1.streams ≡ y.streams ++ s ∷ [])
                  × Plays o.1.device.info sent s o.2))
    opened-relays y c w format desc alts sent small low wanted described known once fits few =
        let (o, run, (info, opens)) = open_ctrl-Opens usb malloc keeps sized y c w small low in
        (
          o,
          run,
          elim opens [
            | inr (failed, _) ↦ inl failed
            | inl (good, s, appended, new, v, ctrl, number) ↦ inr (
              good,
              s,
              appended,
              started-Plays o.1.device.info format desc alts sent s o.2 new v
                  (rw (info, ctrl) described) once (rw number known) (rw ctrl wanted) (rw ctrl fits)
                  few,
            )
          ],
        )
