-- ===== src/Stream/Callback/Drain.antt =====
-- The wait of `uvc_stream_stop` in src/stream.c: what the callbacks that it waits for do to the
-- table, after the handle has stopped.
use mathlib.Core.Option.{some-injective}
use usb_video_class.Base.{
  subst, ℕ, ◌+◌, ◌≤◌, ◌≡◌, refl, ap, sym, ◌∙◌, inl, inr, true, false, Option, none, some, List, [],
  ◌∷◌, arith, length, suc, zero, if_cases, ◌==◌, Bool-cases,
}
use usb_video_class.Base.Int.{ℤ}
use usb_video_class.Stream.{Stream}
use usb_video_class.Stream.Callback.{
  Effect, Transfer, TransferStatus, completed, cancelled, error, no_device, timed_out, stall,
  overflow, delete_transfer, resubmit, process_transfer, stream_callback,
}
use usb_video_class.Stream.Callback.Kept.{TransferFits, process_transfer-Keeps}
use usb_video_class.Stream.Callback.Ownership.{
  System, count, slots, take_out, settle, deliver, is_drained, IsOwned, holds-slots, tally_self,
  tally_other,
}
use usb_video_class.Stream.Callback.Safety.{set_stream-IsOwned, delete_transfer-IsOwned}

-- The wait ends after a number of callbacks: no slot holds a transfer and libusb has none; or
-- libusb has some, and whichever it finishes next, with whatever status, if its data lie in its
-- buffers with the fields that they announce, the callback ends and one less is needed.
pub data Drains : ℕ → System → Type 0 where
  drained : {y : System} → y.flight ≡ [] → is_drained y.stream.transfers ≡ true → Drains 0 y
  waits :
      {n : ℕ} {y : System}
      → 1 ≤ length y.flight
      → ((clock : ℕ → ℕ) (submit : ℕ → ℤ) (t : Transfer)
          → 1 ≤ count t.id y.flight
          → TransferFits t
          → (z : System) × (deliver clock submit y t ≡ some z))
      → ((clock : ℕ → ℕ) (submit : ℕ → ℤ) (t : Transfer) (z : System)
          → 1 ≤ count t.id y.flight
          → TransferFits t
          → deliver clock submit y t ≡ some z
          → Drains n z)
      → Drains (suc n) y

length-take_out : (x : ℕ) (xs : List ℕ) → 1 ≤ count x xs → length (take_out x xs) + 1 ≡ length xs
length-take_out x [] h = absurd (omega arith)
length-take_out x (y ∷ ys) h = elim (Bool-cases (y == x)) [
  | inl e ↦ rw e (omega arith)
  | inr e ↦ rw e (omega (arith, length-take_out x ys (omega (arith, tally_other y x e))))
]

slots_none : (ts : List (Option ℕ)) → ((i : ℕ) → slots i ts ≡ 0) → is_drained ts ≡ true
unfolding is_drained
slots_none [] h = refl
slots_none (none ∷ ts) h = slots_none ts h
slots_none (some t ∷ ts) h = absurd (omega (arith, h t, tally_self t))

-- The handle does not run and libusb holds one transfer less.
abbrev Shrinks : System → System → Type 0
Shrinks y z = IsOwned z × (z.stream.running ≡ false) × (length z.flight + 1 ≡ length y.flight)

module _ (submit : ℕ → ℤ) (id : ℕ) (y : System) (o : IsOwned y) (off : y.stream.running ≡ false)
    (h : 1 ≤ count id y.flight) where
  delete_transfer-Shrinks : Shrinks y (settle submit id y (delete_transfer id y.stream))
  unfolding delete_transfer
  delete_transfer-Shrinks = (
    delete_transfer-IsOwned submit id y o h,
    rw (holds-slots id y.stream.transfers (omega (arith, h, o.held id))) off,
    rw (holds-slots id y.stream.transfers (omega (arith, h, o.held id)))
        (length-take_out id y.flight h),
  )

  resubmit-Shrinks : Shrinks y (settle submit id y (resubmit submit id y.stream))
  unfolding resubmit
  resubmit-Shrinks =
      if_cases (λ (r : Stream × List Effect). Shrinks y (settle submit id y r)) y.stream.running
        (λ on. cc) (λ stopped. delete_transfer-Shrinks)

deliver-Shrinks :
    (clock : ℕ → ℕ) (submit : ℕ → ℤ) (y : System) (t : Transfer)
    → IsOwned y
    → y.stream.running ≡ false
    → 1 ≤ count t.id y.flight
    → TransferFits t
    → (z : System) × (deliver clock submit y t ≡ some z) × Shrinks y z
unfolding stream_callback process_transfer
deliver-Shrinks clock submit y t o off h fits = split t.status
  where
    Result : TransferStatus → Type 0
    Result st =
        (z : System) × (deliver clock submit y (record t { status = st }) ≡ some z) × Shrinks y z

    retried :
        (z : System) × (some (settle submit t.id y (resubmit submit t.id y.stream)) ≡ some z)
        × Shrinks y z
    retried = (_, refl, resubmit-Shrinks submit t.id y o off h)

    dropped :
        (z : System) × (some (settle submit t.id y (delete_transfer t.id y.stream)) ≡ some z)
        × Shrinks y z
    dropped = (_, refl, delete_transfer-Shrinks submit t.id y o off h)

    split : (st : TransferStatus) → Result st
    split completed =
        let (s', run, v', kept) = process_transfer-Keeps clock y.stream t o.valid fits in
        (
          settle submit t.id y (resubmit submit t.id s'),
          rw run refl,
          resubmit-Shrinks submit t.id (record y { stream = s' })
              (set_stream-IsOwned y s' o v' kept.0) (kept.1 ∙ off) h,
        )
    split cancelled = dropped
    split error = dropped
    split no_device = dropped
    split timed_out = retried
    split stall = retried
    split overflow = retried

stopped-Drains :
    (n : ℕ) (y : System) → length y.flight ≡ n → IsOwned y → y.stream.running ≡ false → Drains n y
stopped-Drains zero y e o off =
    let idle = none_left y.flight e in
    drained idle (slots_none y.stream.transfers (λ i. o.held i ∙ ap (count i) idle))
  where
    none_left : (xs : List ℕ) → length xs ≡ 0 → xs ≡ []
    none_left [] e = refl
    none_left (x ∷ xs) e = absurd (omega arith)
stopped-Drains (suc n) y e o off =
    waits (omega arith)
      (λ clock submit t h fits.
        let (z, run, _) = deliver-Shrinks clock submit y t o off h fits in (z, run))
      (λ clock submit t z h fits run.
        let (z', run', (o', off', less)) = deliver-Shrinks clock submit y t o off h fits in
        subst (Drains n) (some-injective z' z (sym run' ∙ run))
          (stopped-Drains n z' (omega arith) o' off'))

-- Where the table, libusb and the freed transfers agree and the handle is valid and does not run,
-- the wait of a stop ends: in whatever order and with whatever status libusb finishes the transfers
-- that it holds, if their data and that of their packets, of fewer than 2 ^ 32 bytes, lie in their
-- buffers with the fields that they announce, each callback ends, and after exactly as many
-- callbacks as libusb held transfers it holds none and no slot has one.
pub stop-Drains : (y : System) → IsOwned y → y.stream.running ≡ false → Drains (length y.flight) y
stop-Drains y o off = stopped-Drains (length y.flight) y refl o off
