-- ===== src/Start/Submitted.antt =====
-- The transfers that `uvc_stream_start` of src/stream.c submits, counted, and the fields of the
-- handle that it resets.
use usb_video_class.Base.{
  ℕ, zero, suc, ◌+◌, ◌≡◌, refl, ap, Bool, Option, none, some, List, [], ◌∷◌, ◌++◌, map, replicate,
  if_cases, arith,
}
use usb_video_class.Base.Int.{ℤ}
use usb_video_class.Desc.{FrameFormat}
use usb_video_class.Device.Claim.{is_success}
use usb_video_class.Stream.{Stream}
use usb_video_class.Stream.Payload.Refine.{IsValid}
use usb_video_class.Stream.Callback.Ownership.{System, tally, count, slots, IsOwned}
use usb_video_class.Start.{submit_all}

pub count-append : (i : ℕ) (xs ys : List ℕ) → count i (xs ++ ys) ≡ count i xs + count i ys
count-append i [] ys = omega arith
count-append i (x ∷ xs) ys = omega (arith, count-append i xs ys)

pub slots_empty : (i n : ℕ) → slots i (replicate n none) ≡ 0
slots_empty i zero = refl
slots_empty i (suc n) = slots_empty i n

pub slots_filled :
    (i n : ℕ) (held : List ℕ) → slots i (map some held ++ replicate n none) ≡ count i held
slots_filled i n [] = slots_empty i n
slots_filled i n (x ∷ held) = ap (λ k. tally x i + k) (slots_filled i n held)

-- Each transfer is either submitted or left over, once.
pub submit_all-count :
    (submit : ℕ → ℤ) (ids : List ℕ) (i : ℕ)
    → count i (submit_all submit ids).0 + count i (submit_all submit ids).1 ≡ count i ids
unfolding submit_all
submit_all-count submit [] i = refl
submit_all-count submit (id ∷ ids) i =
    if_cases (λ (r : List ℕ × List ℕ). count i r.0 + count i r.1 ≡ count i (id ∷ ids))
      (is_success (submit id)) (λ accepted. omega (arith, submit_all-count submit ids i))
      (λ refused. omega arith)

pub reset-IsValid :
    (s : Stream) (r u : Bool) (n i p l : ℕ) (f : FrameFormat) (ts : List (Option ℕ))
    → IsValid s
    → IsValid (record s {
      running = r;
      seq = n;
      fid = i;
      pts = p;
      last_scr = l;
      frame_format = f;
      transfers = ts;
      user_cb = u;
    })
reset-IsValid s r u n i p l f ts v = record {
  small = v.small;
  within = v.within;
  partial = v.partial;
  out_room = v.out_room;
  hold_room = v.hold_room;
  held = v.held;
}

pub reset-IsOwned :
    (y : System) (r : Bool) (n i p l : ℕ) (f : FrameFormat)
    → IsOwned y
    → IsOwned (record y {
      stream = record (y.stream) {
        running = r;
        seq = n;
        fid = i;
        pts = p;
        last_scr = l;
        frame_format = f;
      };
    })
reset-IsOwned y r n i p l f o = record {
  valid = reset-IsValid y.stream r y.stream.user_cb n i p l f y.stream.transfers o.valid;
  held = o.held;
  once = o.once;
}
