-- ===== src/Session/Close.antt =====
-- `uvc_stream_close` of src/stream.c, once its transfers are drained.
use usb_video_class.Base.{
  ℕ, ◌<◌, ◌^◌, ◌≡◌, refl, ap, sym, ◌∙◌, ◌⊎◌, inl, inr, false, Option, none, some, List, [], ◌∷◌,
  ◌++◌, ◌==◌, length, arith, Bool-cases, ==_iff, if_true, if_false, if◌then◌else◌, ◌>>=◌, subst,
}
use mathlib.Core.Option.{some-injective}
use usb_video_class.UvcError
use usb_video_class.Desc.Lookup.{get_stream_if}
use usb_video_class.Base.Int.{ℤ, pos}
use usb_video_class.Device.Claim.{release_if, release_if-Runs, is_success}
use usb_video_class.Usb.{Usb, KeepsSize}
use usb_video_class.Ctrl.{StreamCtrl}
use usb_video_class.Stream.{Stream}
use usb_video_class.Session.{Session, get_stream_by_interface, open_found, open_ctrl}
use usb_video_class.Session.Open.{open_ctrl-Opens}

-- `DL_DELETE (devh->streams, strmh)`; the streams of a device have different interfaces.
unfoldable pub remove_stream : ℕ → List Stream → List Stream
remove_stream idx [] = []
remove_stream idx (s ∷ ss) =
    if s.stream_if.b_interface_number == idx then ss else s ∷ remove_stream idx ss

-- `uvc_stream_close`; the result of the release is not looked at.
unfoldable pub stream_close : {S : Type 0} → Usb S → Session → Stream → S → Option (Session × S)
stream_close usb y s w = do
  (_, d, w') ← release_if usb y.device s.stream_if.b_interface_number w
  some (record { device = d; streams = remove_stream s.stream_if.b_interface_number y.streams }, w')

pub remove_stream_last :
    (idx : ℕ) (ss : List Stream) (s : Stream)
    → get_stream_by_interface ss idx ≡ none
    → s.stream_if.b_interface_number ≡ idx
    → remove_stream idx (ss ++ s ∷ []) ≡ ss
unfolding remove_stream get_stream_by_interface
remove_stream_last idx [] s free e = if_true _ _ ((==_iff s.stream_if.b_interface_number idx).1 e)
remove_stream_last idx (t ∷ ss) s free e =
    elim (Bool-cases (t.stream_if.b_interface_number == idx)) [
      | inl hit ↦ let there : some t ≡ none = sym (if_true _ _ hit) ∙ free in cc
      | inr miss ↦
          if_false _ _ miss
          ∙ ap (◌∷◌ t) (remove_stream_last idx ss s (sym (if_false _ _ miss) ∙ free) e)
    ]

-- What an opened stream and its close leave: the streams as they were.
abbrev pub Reverts : {S : Type 0} → Usb S → Session → ℤ × Session × S → Type 0
Reverts {S} usb y (ret, y', w') =
    ((is_success ret ≡ false) × (y'.streams ≡ y.streams))
    ⊎ ((s : Stream) × (r : Session × S) × (ret ≡ pos 0)
        × (y'.streams ≡ y.streams ++ s ∷ [])
        × (stream_close usb y' s w' ≡ some r)
        × (r.0.streams ≡ y.streams))

module _ {S : Type 0} (usb : Usb S) (malloc : ℕ → List ℕ) (keeps : KeepsSize usb)
    (sized : (n : ℕ) → length (malloc n) ≡ n) where
  -- A stream on the interface makes the call fail.
  pub opens_free :
      (y : Session) (c : StreamCtrl) (w : S) (o : ℤ × Session × S)
      → open_ctrl usb malloc y c w ≡ some o
      → o.0 ≡ pos 0
      → get_stream_by_interface y.streams c.b_interface_number ≡ none
  unfolding open_ctrl open_found
  opens_free y c w o run good = split (get_stream_by_interface y.streams c.b_interface_number) run
    where
      split :
          (found : Option Stream)
          → open_found usb malloc found
              (get_stream_if y.device.info.stream_ifs c.b_interface_number)
              y
              c
              w
            ≡ some o
          → found ≡ none
      split none run = refl
      split (some s) run =
          let busy : UvcError.busy ≡ pos 0 =
            ap (λ (r : ℤ × Session × S). r.0) (some-injective _ o run) ∙ good in
          cc

  -- For every device whose transfers keep the size of their buffer, with a `malloc` that gives the
  -- bytes asked for, a frame size below 2 ^ 32 and an interface below 32, the opening of a stream
  -- ends. Either it fails and the open streams are as before, or it succeeds and appends
  -- a stream, and the close of that stream ends and leaves the open streams as they were before the opening.
  pub open_ctrl-stream_close :
      (y : Session) (c : StreamCtrl) (w : S)
      → c.dw_max_video_frame_size < 2 ^ 32
      → c.b_interface_number < 32
      → (o : ℤ × Session × S) × (open_ctrl usb malloc y c w ≡ some o) × Reverts usb y o
  unfolding stream_close
  open_ctrl-stream_close y c w small low =
      let (o, run, opens) = open_ctrl-Opens usb malloc keeps sized y c w small low in
      elim opens.1 [
        | inr failed ↦ (o, run, inl failed)
        | inl (good, s, appended, _, _, _, number) ↦
            let (r, released) =
              release_if-Runs usb o.1.device s.stream_if.b_interface_number o.2
                (omega (arith, number)) in
            (
              o,
              run,
              inr (
                s,
                (
                  record {
                    device = r.1;
                    streams = remove_stream s.stream_if.b_interface_number o.1.streams;
                  },
                  r.2,
                ),
                good,
                appended,
                rw released refl,
                ap (remove_stream s.stream_if.b_interface_number) appended
                    ∙ remove_stream_last s.stream_if.b_interface_number y.streams s
                        (subst (λ k. get_stream_by_interface y.streams k ≡ none) (sym number)
                          (opens_free y c w o run good))
                        refl,
              ),
            )
      ]
