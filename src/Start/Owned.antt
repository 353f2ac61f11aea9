-- ===== src/Start/Owned.antt =====
-- What `uvc_stream_start` of src/stream.c leaves behind: who holds the transfers that it submits.
use usb_video_class.Base.{
  subst, ℕ, ◌+◌, ◌≤◌, ◌<◌, ◌≡◌, refl, sym, inl, inr, ◌⊎◌, Bool, true, false, Option, none, some,
  List, [], length, if_false, if_cases, arith, get_elem?, ltb,
}
use usb_video_class.Base.Int.{ℤ, pos}
use usb_video_class.UvcError
use usb_video_class.Usb.{Usb}
use usb_video_class.Desc.{FormatDesc, FrameDesc, FrameFormat}
use usb_video_class.Desc.Lookup.{find_frame_desc_stream_if}
use usb_video_class.Device.Claim.{is_success}
use usb_video_class.Format.{frame_format_for_guid}
use usb_video_class.Stream.{Stream, max_size}
use usb_video_class.Stream.Callback.Ownership.{System, count, IsOwned}
use usb_video_class.Start.{
  fail, AltSetting, choose_alt, Plan, plan_packets, plan_alt, plan_iso, plan_transfers, submit_all,
  launch, is_unknown, start_format, begin, start_frame, stream_start,
}
use usb_video_class.Start.Choice.{choose_alt_exact, nonzero}
use usb_video_class.Start.Submitted.{
  count-append, slots_filled, submit_all-count, reset-IsValid, reset-IsOwned,
}

plan_packets_total :
    (frame_size bytes : ℕ) → 0 < bytes → (p : Plan) × (plan_packets frame_size bytes ≡ some p)
unfolding plan_packets
plan_packets_total frame_size bytes h = (_, if_false _ _ (nonzero bytes h))

module _ {S : Type 0} (usb : Usb S) where
  plan_alt_total :
      (s : Stream) (addr wanted : ℕ) (alts : List AltSetting) (w : S)
      → 0 < wanted
      → (r : ℤ × Plan × S) × (plan_alt usb s (choose_alt addr wanted alts) w ≡ some r)
  unfolding plan_alt
  plan_alt_total s addr wanted alts w h = elim (choose_alt_exact addr wanted alts) [
    | inl (unfit, _) ↦ rw unfit (_, refl)
    | inr (alt, bytes, found, first) ↦
        let (p, e) = plan_packets_total (max_size s) bytes (omega (arith, first.enough)) in
        rw (found, e) (_, refl)
  ]

  -- The wanted size is positive, so no chosen endpoint divides by zero.
  plan_transfers_total :
      (s : Stream) (alts : List AltSetting) (w : S)
      → 0 < s.cur_ctrl.dw_max_payload_transfer_size
      → (r : ℤ × Plan × S) × (plan_transfers usb s alts w ≡ some r)
  unfolding plan_transfers plan_iso
  plan_transfers_total s alts w h =
      if_cases (λ o. (r : ℤ × Plan × S) × (o ≡ some r)) (ltb 1 (length alts))
        (λ several.
          plan_alt_total s s.stream_if.b_endpoint_address s.cur_ctrl.dw_max_payload_transfer_size
            alts w h)
        (λ one. (_, refl))

  -- The handle with another format, table of transfers and callback.
  abbrev pub Continues : Stream → Bool → Stream → Type 0
  Continues s cb t =
      (f : FrameFormat) × (ts : List (Option ℕ)) × (t
        ≡ record s { frame_format = f; transfers = ts; user_cb = cb })

  -- What a start leaves: a running handle with the transfers that libusb accepted, which is
  -- otherwise as `s`, or an error and a handle that does not run.
  abbrev pub Starts : Stream → Bool → List ℕ → Option (ℤ × System × S) → Type 0
  Starts s cb accepted o =
      (ret : ℤ) × (z : System) × (w' : S) × (o ≡ some (ret, z, w'))
      × IsOwned z
      × (((ret ≡ pos 0)
            × (z.stream.running ≡ true)
            × (z.flight ≡ accepted)
            × Continues s cb z.stream)
          ⊎ ((is_success ret ≡ false)
              × (z.stream.running ≡ false)
              × (z.flight ≡ [])
              × (z.stream.stream_if ≡ s.stream_if)))

  fail-Starts :
      (s : Stream) (cb : Bool) (accepted : List ℕ) (ret : ℤ) (y : System) (w : S)
      → IsOwned y
      → is_success ret ≡ false
      → y.flight ≡ []
      → y.stream.stream_if ≡ s.stream_if
      → Starts s cb accepted (some (fail usb ret y w))
  fail-Starts s cb accepted ret y w o e idle same = (
    ret,
    record y { stream = record (y.stream) { running = false } },
    w,
    refl,
    record {
      valid =
          reset-IsValid y.stream false y.stream.user_cb y.stream.seq y.stream.fid y.stream.pts
            y.stream.last_scr y.stream.frame_format y.stream.transfers o.valid;
      held = o.held;
      once = o.once;
    },
    inr (e, refl, idle, same),
  )

  module _ (submit : ℕ → ℤ) (ids : List ℕ) (cb : Bool) where
    launch-IsOwned :
        (y : System)
        → IsOwned y
        → ((i : ℕ) → count i ids + count i y.freed ≤ 1)
        → IsOwned (launch submit ids cb y)
    unfolding launch
    launch-IsOwned y o fresh = record {
      valid =
          reset-IsValid y.stream y.stream.running cb y.stream.seq y.stream.fid y.stream.pts
            y.stream.last_scr y.stream.frame_format _ o.valid;
      held = λ i. slots_filled i (length rest) held;
      once = λ i. omega (
        arith,
        slots_filled i (length rest) held,
        count-append i rest y.freed,
        submit_all-count submit ids i,
        fresh i,
      );
    }
      where
        held : List ℕ
        held = (submit_all submit ids).0

        rest : List ℕ
        rest = (submit_all submit ids).1

    start_format-Starts :
        (interfaces : List (List AltSetting)) (alts : List AltSetting) (y : System) (w : S)
        → IsOwned y
        → y.stream.running ≡ true
        → y.flight ≡ []
        → ((i : ℕ) → count i ids + count i y.freed ≤ 1)
        → get_elem? interfaces y.stream.stream_if.b_interface_number ≡ some alts
        → 0 < y.stream.cur_ctrl.dw_max_payload_transfer_size
        → Starts y.stream cb
            (submit_all submit ids).0
            (start_format usb submit ids cb interfaces y w)
    unfolding start_format launch
    start_format-Starts interfaces alts y w o on idle fresh found h =
        let ((ret, plan, w'), e) = plan_transfers_total y.stream alts w h in
        rw (found, e)
          (if_cases (λ r. Starts y.stream cb (submit_all submit ids).0 (some r)) (is_success ret)
            (λ good. (
              pos 0,
              launch submit ids cb y,
              w',
              refl,
              launch-IsOwned y o fresh,
              inl (refl, on, refl, (y.stream.frame_format, _, refl)),
            ))
            (λ bad. fail-Starts y.stream cb (submit_all submit ids).0 ret y w' o bad idle refl))

    start_frame-Starts :
        (interfaces : List (List AltSetting)) (alts : List AltSetting)
        (found : Option (FormatDesc × FrameDesc)) (y : System) (w : S)
        → IsOwned y
        → y.stream.running ≡ true
        → y.flight ≡ []
        → ((i : ℕ) → count i ids + count i y.freed ≤ 1)
        → get_elem? interfaces y.stream.stream_if.b_interface_number ≡ some alts
        → 0 < y.stream.cur_ctrl.dw_max_payload_transfer_size
        → Starts y.stream cb
            (submit_all submit ids).0
            (start_frame usb submit ids cb interfaces found y w)
    unfolding start_frame
    start_frame-Starts interfaces alts none y w o on idle fresh known h =
        fail-Starts y.stream cb (submit_all submit ids).0 UvcError.invalid_param y w o refl idle
          refl
    start_frame-Starts interfaces alts (some (format, frame)) y w o on idle fresh known h =
        let f = frame_format_for_guid format.guid_format in
        let y' = record y { stream = record (y.stream) { frame_format = f } } in
        let o' : IsOwned y' =
          reset-IsOwned y y.stream.running y.stream.seq y.stream.fid y.stream.pts y.stream.last_scr
            f o in
        if_cases (Starts y.stream cb (submit_all submit ids).0) (is_unknown f)
          (λ unknown.
            fail-Starts y.stream cb (submit_all submit ids).0 UvcError.not_supported y' w o' refl
              idle refl)
          (λ ok. start_format-Starts interfaces alts y' w o' on idle fresh known h)

    -- Where the table, libusb and the freed transfers agree and the handle is valid, libusb holds
    -- no transfer, the new transfers differ from each other and from all that were freed, the
    -- interface's number is in the configuration and the negotiated payload size is not zero, a
    -- start of a handle that does not run ends without a division by zero and keeps that agreement.
    -- It succeeds, and the handle runs, from sequence number 1, with its buffers, their counts and
    -- the control block as before, and libusb holds the transfers that it accepted before the first
    -- that it refused; or it fails, and the handle does not run and libusb holds none.
    pub stream_start-IsOwned :
        (interfaces : List (List AltSetting)) (alts : List AltSetting) (y : System) (w : S)
        → IsOwned y
        → y.stream.running ≡ false
        → y.flight ≡ []
        → ((i : ℕ) → count i ids + count i y.freed ≤ 1)
        → get_elem? interfaces y.stream.stream_if.b_interface_number ≡ some alts
        → 0 < y.stream.cur_ctrl.dw_max_payload_transfer_size
        → Starts
            (begin y).stream
            cb
            (submit_all submit ids).0
            (stream_start usb submit ids cb interfaces y w)
    unfolding stream_start
    stream_start-IsOwned interfaces alts y w o off idle fresh known h =
        subst (Starts (begin y).stream cb (submit_all submit ids).0) (sym (if_false _ _ off)) (
          start_frame-Starts interfaces alts
            (find_frame_desc_stream_if y.stream.stream_if.format_descs
              y.stream.cur_ctrl.b_format_index y.stream.cur_ctrl.b_frame_index)
            (begin y) w (reset-IsOwned y true 1 0 0 0 y.stream.frame_format o) refl idle fresh known
            h)
