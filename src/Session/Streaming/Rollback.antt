-- ===== src/Session/Streaming/Rollback.antt =====
-- What `uvc_start_streaming` of src/stream.c leaves of the open streams.
use usb_video_class.Base.{
  ℕ, ◌^◌, ◌≤◌, ◌<◌, ◌≡◌, refl, sym, ap, ◌∙◌, subst, ◌⊎◌, inl, inr, Bool, true, false, none, some,
  List, [], ◌∷◌, ◌++◌, ◌==◌, ==_iff, Bool-cases, if_true, if_false, length, get_elem?, arith,
}
use usb_video_class.Base.Int.{ℤ, pos}
use usb_video_class.Ctrl.{StreamCtrl}
use usb_video_class.Device.Claim.{is_success, release_if-Runs}
use usb_video_class.Usb.{Usb, KeepsSize}
use usb_video_class.Stream.{Stream}
use usb_video_class.Stream.Payload.Refine.{IsValid}
use usb_video_class.Stream.Callback.Ownership.{System, IsOwned, count}
use usb_video_class.Session.{Session, get_stream_by_interface}
use usb_video_class.Session.Open.{IsNew, open_ctrl-Opens}
use usb_video_class.Session.Close.{remove_stream, remove_stream_last, stream_close, opens_free}
use usb_video_class.Start.{AltSetting, submit_all}
use usb_video_class.Start.Owned.{stream_start-IsOwned}
use usb_video_class.Session.Streaming.{
  opened, opened-IsOwned, replace_stream, start_opened, start_streaming,
}

get_appended :
    (idx : ℕ) (ss : List Stream) (s : Stream)
    → get_stream_by_interface ss idx ≡ none
    → s.stream_if.b_interface_number ≡ idx
    → get_stream_by_interface (ss ++ s ∷ []) idx ≡ some s
unfolding get_stream_by_interface
get_appended idx [] s free e = if_true _ _ ((==_iff s.stream_if.b_interface_number idx).1 e)
get_appended idx (t ∷ ss) s free e = elim (Bool-cases (t.stream_if.b_interface_number == idx)) [
  | inl hit ↦ let there : some t ≡ none = sym (if_true _ _ hit) ∙ free in cc
  | inr miss ↦ if_false _ _ miss ∙ get_appended idx ss s (sym (if_false _ _ miss) ∙ free) e
]

replace_appended :
    (ss : List Stream) (s s' : Stream)
    → get_stream_by_interface ss s'.stream_if.b_interface_number ≡ none
    → s.stream_if.b_interface_number ≡ s'.stream_if.b_interface_number
    → replace_stream s' (ss ++ s ∷ []) ≡ ss ++ s' ∷ []
unfolding get_stream_by_interface replace_stream
replace_appended [] s s' free e =
    if_true _ _ ((==_iff s.stream_if.b_interface_number s'.stream_if.b_interface_number).1 e)
replace_appended (t ∷ ss) s s' free e =
    elim (Bool-cases (t.stream_if.b_interface_number == s'.stream_if.b_interface_number)) [
      | inl hit ↦ let there : some t ≡ none = sym (if_true _ _ hit) ∙ free in cc
      | inr miss ↦
          if_false _ _ miss
          ∙ ap (◌∷◌ t) (replace_appended ss s s' (sym (if_false _ _ miss) ∙ free) e)
    ]

module _ {S : Type 0} (usb : Usb S) (submit : ℕ → ℤ) (ids : List ℕ) (cb : Bool) where
  -- A stream behind the others that runs the control block, with its transfers; or the streams as
  -- they were.
  abbrev pub Streams : List Stream → StreamCtrl → ℤ × Session × List ℕ × S → Type 0
  Streams ss c (ret, y, flight, w) =
      ((ret ≡ pos 0)
        × (z : System) × IsOwned z
        × (y.streams ≡ ss ++ z.stream ∷ [])
        × (flight ≡ z.flight)
        × (z.flight ≡ (submit_all submit ids).0)
        × (z.stream.running ≡ true)
        × (z.stream.user_cb ≡ cb)
        × (z.stream.cur_ctrl ≡ c))
      ⊎ ((is_success ret ≡ false) × (flight ≡ []) × (y.streams ≡ ss))

  module _ (interfaces : List (List AltSetting)) (alts : List AltSetting)
      (once : (i : ℕ) → count i ids ≤ 1) where
    start_opened-Streams :
        (ss : List Stream) (y : Session) (c : StreamCtrl) (s : Stream) (w : S)
        → y.streams ≡ ss ++ s ∷ []
        → get_stream_by_interface ss s.stream_if.b_interface_number ≡ none
        → s.stream_if.b_interface_number < 32
        → IsNew s
        → IsValid s
        → s.cur_ctrl ≡ c
        → get_elem? interfaces s.stream_if.b_interface_number ≡ some alts
        → 0 < s.cur_ctrl.dw_max_payload_transfer_size
        → (o : ℤ × Session × List ℕ × S) × (start_opened usb submit ids cb interfaces y s w
            ≡ some o)
          × Streams ss c o
    unfolding start_opened stream_close
    start_opened-Streams ss y c s w appended free low new v ctrl known wanted =
        let (ret, z, w', run, owned, after) =
          stream_start-IsOwned usb submit ids cb interfaces alts (opened s) w
            (opened-IsOwned s new v) new.off refl (λ i. omega (arith, once i)) known wanted in
        elim after [
          | inl (good, on, held, (f, ts, e)) ↦
              let same : s.stream_if.b_interface_number ≡ z.stream.stream_if.b_interface_number =
                ap (λ (t : Stream). t.stream_if.b_interface_number) (sym e) in
              (
                (pos 0, record y { streams = replace_stream z.stream y.streams }, z.flight, w'),
                rw (run, good) refl,
                inl (
                  refl,
                  z,
                  owned,
                  ap (replace_stream z.stream) appended
                      ∙ replace_appended ss s z.stream
                          (subst (λ k. get_stream_by_interface ss k ≡ none) same free) same,
                  refl,
                  held,
                  on,
                  ap (λ (t : Stream). t.user_cb) e,
                  ap (λ (t : Stream). t.cur_ctrl) e ∙ ctrl,
                ),
              )
          | inr (bad, _, idle, kept) ↦
              let same : s.stream_if.b_interface_number ≡ z.stream.stream_if.b_interface_number =
                ap (λ i. i.b_interface_number) (sym kept) in
              let free' = subst (λ k. get_stream_by_interface ss k ≡ none) same free in
              let (r, released) =
                release_if-Runs usb y.device z.stream.stream_if.b_interface_number w'
                  (omega (arith, same, low)) in
              (
                (
                  ret,
                  record {
                    device = r.1;
                    streams =
                        remove_stream z.stream.stream_if.b_interface_number
                          (replace_stream z.stream y.streams);
                  },
                  z.flight,
                  r.2,
                ),
                rw (run, bad, released) refl,
                inr (
                  bad,
                  idle,
                  ap
                        (λ ts.
                          remove_stream z.stream.stream_if.b_interface_number
                            (replace_stream z.stream ts))
                        appended
                      ∙ ap (remove_stream z.stream.stream_if.b_interface_number)
                          (replace_appended ss s z.stream free' same)
                      ∙ remove_stream_last z.stream.stream_if.b_interface_number ss z.stream free'
                          refl,
                ),
              )
        ]

    -- For every device whose transfers keep the size of their buffer, with a `malloc` that gives the
    -- bytes asked for and transfers that differ from each other, and for a control block with a
    -- frame size below 2 ^ 32, a payload size that is not 0 and an interface below 32 that the
    -- configuration has, `uvc_start_streaming` ends. Either it succeeds, and a running stream with
    -- the control block and the callback asked for stands behind those that were open, whose slots
    -- are the transfers that libusb holds, those that it accepted before the first that it refused;
    -- or it fails, libusb holds no transfer, and the open streams are as before.
    pub start_streaming-Streams :
        (malloc : ℕ → List ℕ) (y : Session) (c : StreamCtrl) (w : S)
        → KeepsSize usb
        → ((n : ℕ) → length (malloc n) ≡ n)
        → c.dw_max_video_frame_size < 2 ^ 32
        → c.b_interface_number < 32
        → get_elem? interfaces c.b_interface_number ≡ some alts
        → 0 < c.dw_max_payload_transfer_size
        → (o : ℤ × Session × List ℕ × S) × (start_streaming usb submit ids cb interfaces malloc y c
              w
            ≡ some o)
          × Streams y.streams c o
    unfolding start_streaming
    start_streaming-Streams malloc y c w keeps sized small low known wanted =
        let (o, run, (_, opens)) = open_ctrl-Opens usb malloc keeps sized y c w small low in
        elim opens [
          | inr (bad, same) ↦ ((o.0, o.1, [], o.2), rw (run, bad) refl, inr (bad, refl, same))
          | inl (good, s, appended, new, v, ctrl, number) ↦
              let free = opens_free usb malloc keeps sized y c w o run good in
              let found : get_stream_by_interface o.1.streams c.b_interface_number ≡ some s =
                ap (λ ss. get_stream_by_interface ss c.b_interface_number) appended
                ∙ get_appended c.b_interface_number y.streams s free number in
              let ok : is_success o.0 ≡ true = ap is_success good in
              let (p, run', streams) =
                start_opened-Streams y.streams o.1 c s o.2 appended (rw number free) (rw number low)
                  new v ctrl (rw number known) (rw ctrl wanted) in
              (p, rw (run, ok, found) run', streams)
        ]
