-- ===== src/Session/Open.antt =====
-- What `uvc_stream_open_ctrl` of src/stream.c leaves behind.
use usb_video_class.Base.{
  ℕ, ◌<◌, ◌^◌, ◌≡◌, refl, ap, sym, ◌∙◌, ◌⊎◌, inl, inr, true, false, Option, none, some, List, [],
  ◌∷◌, ◌++◌, ◌==◌, replicate, length, arith, Bool-cases, ==_iff, if_true, if_false,
}
use mathlib.Core.Option.{some-injective}
use usb_video_class.Base.Int.{ℤ, pos}
use usb_video_class.UvcError
use usb_video_class.Desc.{StreamingInterface}
use usb_video_class.Desc.Lookup.{get_stream_if}
use usb_video_class.Device.{Device}
use usb_video_class.Device.Claim.{is_success, claim_if_exact}
use usb_video_class.Usb.{Usb, KeepsSize, set_cur}
use usb_video_class.Ctrl.{StreamCtrl}
use usb_video_class.Ctrl.Query.{stream_reply}
use usb_video_class.Ctrl.Total.{Reports, query_stream_ctrl-Reports}
use usb_video_class.Stream.{Stream}
use usb_video_class.Stream.Payload.Refine.{IsValid}
use usb_video_class.Session.{
  Session, num_transfer_bufs, blank_stream, get_stream_by_interface, stream_ctrl, add_buffers,
  open_claimed, open_found, open_ctrl,
}

get_stream_if-number :
    (ifs : List StreamingInterface) (idx : ℕ) (i : StreamingInterface)
    → get_stream_if ifs idx ≡ some i
    → i.b_interface_number ≡ idx
unfolding get_stream_if
get_stream_if-number [] idx i e = cc
get_stream_if-number (j ∷ ifs) idx i e = elim (Bool-cases (j.b_interface_number == idx)) [
  | inl hit ↦
      ap (λ (k : StreamingInterface). k.b_interface_number)
        (some-injective i j (sym e ∙ if_true _ _ hit))
      ∙ (==_iff j.b_interface_number idx).0 hit
  | inr miss ↦ get_stream_if-number ifs idx i (sym (if_false _ _ miss) ∙ e)
]

-- A stream that was not started: without transfers, image data, metadata and a frame, and no
-- image was read from it.
pub record IsNew (s : Stream) : Type 0 where
  pub off : s.running ≡ false
  pub slots : s.transfers ≡ replicate num_transfer_bufs none
  pub empty : s.got_bytes ≡ 0
  pub no_metadata : (s.meta_got_bytes ≡ 0) × (s.meta_hold_bytes ≡ 0)
  pub no_frame : (s.frame.image ≡ none) × (s.frame.data_bytes ≡ 0)
  pub unread : s.last_polled_seq ≡ 0

-- A new stream, ready for the decoder, at the end of the list; or a failure, which leaves the
-- list alone.
abbrev pub Opens : {S : Type 0} → Session → StreamCtrl → ℤ × Session × S → Type 0
Opens y c (ret, y', w) =
    (y'.device.info ≡ y.device.info)
    × (((ret ≡ pos 0)
          × (s : Stream) × (y'.streams ≡ y.streams ++ s ∷ [])
          × IsNew s
          × IsValid s
          × (s.cur_ctrl ≡ c)
          × (s.stream_if.b_interface_number ≡ c.b_interface_number))
        ⊎ ((is_success ret ≡ false) × (y'.streams ≡ y.streams)))

module _ {S : Type 0} (usb : Usb S) (malloc : ℕ → List ℕ) (keeps : KeepsSize usb)
    (sized : (n : ℕ) → length (malloc n) ≡ n) where
  set_keeps :
      (d : Device) (c : StreamCtrl) (w : S) (o : ℤ × StreamCtrl × S)
      → Reports c set_cur (stream_reply usb d c false set_cur w) o
      → o.1 ≡ c
  set_keeps d c w o (inl quiet) = quiet.2
  set_keeps d c w o (inr bytes) = elim bytes.2 [ inl wrong ↦ cc | inr same ↦ same ]

  abbrev new : StreamingInterface → StreamCtrl → Stream
  new i c = add_buffers usb malloc (record (blank_stream i) { cur_ctrl = c }) c

  new-IsValid :
      (i : StreamingInterface) (c : StreamCtrl)
      → c.dw_max_video_frame_size < 2 ^ 32
      → IsValid (new i c)
  new-IsValid i c small = record {
    small = small;
    within = omega arith;
    partial = inl refl;
    out_room = omega (arith, sized c.dw_max_video_frame_size);
    hold_room = omega (arith, sized c.dw_max_video_frame_size);
    held = omega arith;
  }

  new-IsNew : (i : StreamingInterface) (c : StreamCtrl) → IsNew (new i c)
  new-IsNew i c = record {
    off = refl;
    slots = refl;
    empty = refl;
    no_metadata = (refl, refl);
    no_frame = (refl, refl);
    unread = refl;
  }

  open_claimed-Opens :
      (y : Session) (d : Device) (i : StreamingInterface) (c : StreamCtrl) (w : S)
      → c.dw_max_video_frame_size < 2 ^ 32
      → i.b_interface_number ≡ c.b_interface_number
      → d.info ≡ y.device.info
      → (o : ℤ × Session × S) × (open_claimed usb malloc y d i c w ≡ some o) × Opens y c o
  unfolding open_claimed stream_ctrl
  open_claimed-Opens y d i c w small same info =
      let (o, run, rep) = query_stream_ctrl-Reports usb d c false set_cur w keeps in
      let unchanged = set_keeps d c w o rep in
      let matching : (i.b_interface_number == c.b_interface_number) ≡ true =
        (==_iff i.b_interface_number c.b_interface_number).1 same in
      elim (Bool-cases (is_success o.0)) [
        | inl good ↦ (
          (pos 0, record { device = d; streams = y.streams ++ new i o.1 ∷ [] }, o.2),
          rw (matching, run, good) refl,
          (
            info,
            inl (
              refl,
              new i o.1,
              refl,
              new-IsNew i o.1,
              new-IsValid i o.1 (rw unchanged small),
              unchanged,
              same,
            ),
          ),
        )
        | inr bad ↦ (
          (o.0, record y { device = d }, o.2),
          rw (matching, run, bad, bad) refl,
          (info, inr (bad, refl)),
        )
      ]

  -- For every device whose transfers keep the size of their buffer, with a `malloc` that gives the
  -- bytes asked for, a frame size below 2 ^ 32 and an interface below 32, the opening of a stream
  -- ends and leaves the device's descriptors alone. Either it succeeds and appends a new stream on
  -- that interface, without transfers, image data or a frame, that runs the control block asked
  -- for and is valid for the decoder; or it fails, and the open streams are as before.
  pub open_ctrl-Opens :
      (y : Session) (c : StreamCtrl) (w : S)
      → c.dw_max_video_frame_size < 2 ^ 32
      → c.b_interface_number < 32
      → (o : ℤ × Session × S) × (open_ctrl usb malloc y c w ≡ some o) × Opens y c o
  unfolding open_ctrl open_found
  open_ctrl-Opens y c w small low =
      split (get_stream_by_interface y.streams c.b_interface_number)
        (get_stream_if y.device.info.stream_ifs c.b_interface_number) refl
    where
      split :
          (found : Option Stream) (i : Option StreamingInterface)
          → get_stream_if y.device.info.stream_ifs c.b_interface_number ≡ i
          → (o : ℤ × Session × S) × (open_found usb malloc found i y c w ≡ some o) × Opens y c o
      split (some s) i e = ((UvcError.busy, y, w), refl, (refl, inr (refl, refl)))
      split none none e = ((UvcError.invalid_param, y, w), refl, (refl, inr (refl, refl)))
      split none (some i) e =
          let same = get_stream_if-number y.device.info.stream_ifs c.b_interface_number i e in
          let (r, run, _, kept) =
            claim_if_exact usb y.device i.b_interface_number w (omega (arith, same, low)) in
          elim (Bool-cases (is_success r.0)) [
            | inl good ↦
                let (o, run', opens) = open_claimed-Opens y r.1 i c r.2 small same kept.0 in
                (o, rw (run, good) run', opens)
            | inr bad ↦ (
              (r.0, record y { device = r.1 }, r.2),
              rw (run, bad) refl,
              (kept.0, inr (bad, refl)),
            )
          ]
