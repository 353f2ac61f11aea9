-- ===== src/Stream/Callback/Safety.antt =====
-- The steps of `_uvc_stream_callback` and `uvc_stream_stop` in src/stream.c, and who holds a
-- transfer after them.
use usb_video_class.Base.{
  if_cases, ℕ, ◌+◌, ◌≤◌, ◌≡◌, refl, ap, sym, ◌∙◌, subst, Bool, true, false, Option, some, List, [],
  ◌∷◌, arith, not,
}
use mathlib.Core.Option.{some-injective}
use usb_video_class.Base.Int.{ℤ, is_negative}
use usb_video_class.Stream.{Stream}
use usb_video_class.Stream.Payload.Refine.{IsValid}
use usb_video_class.Stream.Callback.{
  Effect, Transfer, TransferStatus, completed, cancelled, error, no_device, timed_out, stall,
  overflow, mark_deleted, holds, delete_transfer, resubmit, process_transfer, stream_callback,
}
use usb_video_class.Stream.Callback.Kept.{TransferFits, process_transfer-Keeps}
use usb_video_class.Stream.Callback.Ownership.{
  System, count, slots, take_out, settle, deliver, begin_stop, is_drained, Reach, here, delivers,
  stops, IsOwned, count-take_out, slots-mark_deleted, holds-slots, drained-slots, count_none,
}

same_buffers :
    (s : Stream) (ts : List (Option ℕ)) (b : Bool)
    → IsValid s
    → IsValid (record s { transfers = ts; running = b })
same_buffers s ts b v = record {
  small = v.small;
  within = v.within;
  partial = v.partial;
  out_room = v.out_room;
  hold_room = v.hold_room;
  held = v.held;
}

module _ (submit : ℕ → ℤ) (id : ℕ) (y : System) where
  -- The handle and libusb give the transfer up, and it is freed.
  abbrev Gone : System
  Gone = record {
    stream = record (y.stream) { transfers = mark_deleted id y.stream.transfers };
    flight = take_out id y.flight;
    freed = id ∷ y.freed;
  }

  -- libusb holds the transfer again.
  abbrev Again : System
  Again = record y { flight = id ∷ take_out id y.flight }

  Gone-IsOwned : IsOwned y → 1 ≤ count id y.flight → IsOwned Gone
  Gone-IsOwned o h = record {
    valid = same_buffers y.stream (mark_deleted id y.stream.transfers) y.stream.running o.valid;
    held = λ i. omega (
      arith,
      slots-mark_deleted id y.stream.transfers in_table i,
      count-take_out id y.flight h i,
      o.held i,
    );
    once = λ i. omega (arith, slots-mark_deleted id y.stream.transfers in_table i, o.once i);
  }
    where
      in_table : 1 ≤ slots id y.stream.transfers
      in_table = omega (arith, h, o.held id)

  Again-IsOwned : IsOwned y → 1 ≤ count id y.flight → IsOwned Again
  Again-IsOwned o h = record {
    valid = o.valid;
    held = λ i. omega (arith, count-take_out id y.flight h i, o.held i);
    once = o.once;
  }

  pub delete_transfer-IsOwned :
      IsOwned y → 1 ≤ count id y.flight → IsOwned (settle submit id y (delete_transfer id y.stream))
  unfolding delete_transfer
  delete_transfer-IsOwned o h =
      rw (holds-slots id y.stream.transfers (omega (arith, h, o.held id))) (Gone-IsOwned o h)

  pub resubmit-IsOwned :
      IsOwned y → 1 ≤ count id y.flight → IsOwned (settle submit id y (resubmit submit id y.stream))
  unfolding resubmit delete_transfer
  resubmit-IsOwned o h =
      if_cases After y.stream.running
        (λ on.
          if_cases After (is_negative (submit id))
            (λ refused. rw (found, refused) (Gone-IsOwned o h))
            (λ accepted. rw accepted (Again-IsOwned o h)))
        (λ off. rw found (Gone-IsOwned o h))
    where
      After : Stream × List Effect → Type 0
      After r = IsOwned (settle submit id y r)

      found : holds id y.stream.transfers ≡ true
      found = holds-slots id y.stream.transfers (omega (arith, h, o.held id))

pub set_stream-IsOwned :
    (y : System) (s : Stream)
    → IsOwned y
    → IsValid s
    → s.transfers ≡ y.stream.transfers
    → IsOwned (record y { stream = s })
set_stream-IsOwned y s o v e = record {
  valid = v;
  held = λ i. ap (slots i) e ∙ o.held i;
  once = λ i. omega (arith, ap (slots i) e, o.once i);
}

-- Where the table, libusb and the freed transfers agree and the handle is valid, the callback on a
-- transfer that libusb holds, whose data and that of its packets, of fewer than 2 ^ 32 bytes, lie
-- in its buffers with the fields that they announce, ends without an access outside a buffer and
-- keeps that agreement, whatever the transfer's status and libusb's answer to a new submission.
pub deliver-IsOwned :
    (clock : ℕ → ℕ) (submit : ℕ → ℤ) (y : System) (t : Transfer)
    → IsOwned y
    → 1 ≤ count t.id y.flight
    → TransferFits t
    → (z : System) × (deliver clock submit y t ≡ some z) × IsOwned z
unfolding stream_callback process_transfer resubmit
deliver-IsOwned clock submit y t o h fits = split t.status
  where
    Result : TransferStatus → Type 0
    Result st =
        (z : System) × (deliver clock submit y (record t { status = st }) ≡ some z) × IsOwned z

    retried :
        (z : System) × (some (settle submit t.id y (resubmit submit t.id y.stream)) ≡ some z)
        × IsOwned z
    retried = (
      settle submit t.id y (resubmit submit t.id y.stream),
      refl,
      resubmit-IsOwned submit t.id y o h,
    )

    dropped :
        (z : System) × (some (settle submit t.id y (delete_transfer t.id y.stream)) ≡ some z)
        × IsOwned z
    dropped = (
      settle submit t.id y (delete_transfer t.id y.stream),
      refl,
      delete_transfer-IsOwned submit t.id y o h,
    )

    split : (st : TransferStatus) → Result st
    split completed =
        let (s', run, v', kept) = process_transfer-Keeps clock y.stream t o.valid fits in
        (
          settle submit t.id y (resubmit submit t.id s'),
          rw run refl,
          resubmit-IsOwned submit t.id (record y { stream = s' })
              (set_stream-IsOwned y s' o v' kept.0) h,
        )
    split cancelled = dropped
    split error = dropped
    split no_device = dropped
    split timed_out = retried
    split stall = retried
    split overflow = retried

begin_stop-IsOwned : (y : System) → IsOwned y → IsOwned (begin_stop y).1
unfolding begin_stop
begin_stop-IsOwned y o =
    if_cases (λ (r : ℤ × System). IsOwned r.1) (not y.stream.running) (λ off. o)
      (λ on. record {
        valid = same_buffers y.stream y.stream.transfers false o.valid;
        held = o.held;
        once = o.once;
      })

Reach-IsOwned : {y z : System} → IsOwned y → Reach y z → IsOwned z
Reach-IsOwned o here = o
Reach-IsOwned o (delivers {z} clock submit t r h fits run) =
    let (z', run', o') = deliver-IsOwned clock submit z t (Reach-IsOwned o r) h fits in
    subst IsOwned (some-injective z' _ (sym run' ∙ run)) o'
Reach-IsOwned o (stops {z} r) = begin_stop-IsOwned z (Reach-IsOwned o r)

-- After any sequence of stops and of finished transfers whose data and that of their packets, of
-- fewer than 2 ^ 32 bytes, lie in their buffers with the fields that they announce, from a valid
-- handle with which the table, libusb and the freed transfers agree, no transfer has been freed
-- twice, and none that libusb still holds has been freed.
pub Reach-freed_once :
    (y z : System) (i : ℕ) → IsOwned y → Reach y z → count i z.flight + count i z.freed ≤ 1
Reach-freed_once y z i o r = let o' = Reach-IsOwned o r in omega (arith, o'.held i, o'.once i)

-- After any sequence of stops and of finished transfers whose data and that of their packets, of
-- fewer than 2 ^ 32 bytes, lie in their buffers with the fields that they announce, from a valid
-- handle with which the table, libusb and the freed transfers agree, when the table is empty, which
-- ends the wait of a stop, libusb holds no transfer: no callback can follow.
pub Reach-drained :
    (y z : System) → IsOwned y → Reach y z → is_drained z.stream.transfers ≡ true → z.flight ≡ []
Reach-drained y z o r e =
    let o' = Reach-IsOwned o r in
    count_none z.flight (λ i. sym (o'.held i) ∙ drained-slots z.stream.transfers e i)
