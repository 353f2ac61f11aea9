-- ===== src/Stream/Payload/Refine.antt =====
-- `_uvc_process_payload` of src/stream.c beside the assembly of images: the data of a packet.
use usb_video_class.Base.{
  ℕ, zero, suc, ltb, take_within, ◌+◌, ◌-◌, ◌^◌, ◌≤◌, ◌<◌, ◌%◌, min, ◌≡◌, refl, ◌≢◌, ◌⊎◌, inl, inr,
  Bool, false, ◌||◌, Option, some, List, ◌++◌, ◌==◌, length, take, drop, arith, Bool-cases,
  slice-in_range, length-slice, write_at-in_range, written, length-written, take-written,
  length-take,
}
use usb_video_class.Base.Bytes.{u64_mod}
use usb_video_class.Base.Int.{ℤ}
use usb_video_class.PayloadError
use usb_video_class.Stream.{Stream, max_size, swap_buffers}
use usb_video_class.Stream.Assembly.{Assembly, view, announce, finish, extend, extend-some}
use usb_video_class.Stream.Payload.{
  fitting, check_overflow, check_eof, store_data, process_data, set_error, bfh_eof,
}

pub record IsValid (s : Stream) : Type 0 where
  pub small : max_size s < 2 ^ 32
  pub within : s.got_bytes ≤ max_size s
  pub partial : (s.got_bytes ≡ 0) ⊎ (s.got_bytes < max_size s)
  pub out_room : max_size s ≤ length s.outbuf
  pub hold_room : max_size s ≤ length s.holdbuf
  pub held : s.hold_bytes ≤ length s.holdbuf

-- The run touches only its buffers, keeps the handle valid, and its view is `a`.
abbrev pub Returns : Assembly → Option Stream → Type 0
Returns a o = (s' : Stream) × (o ≡ some s') × IsValid s' × (view s' ≡ a)

fitting-min :
    (s : Stream) (n : ℕ) → IsValid s → n < 2 ^ 32 → fitting s n ≡ min n (max_size s - s.got_bytes)
unfolding fitting
fitting-min s n v h = ground arith

pub swap_buffers-IsValid :
    (clock : ℕ → ℕ) (s : Stream)
    → max_size s < 2 ^ 32
    → s.got_bytes ≤ max_size s
    → max_size s ≤ length s.outbuf
    → max_size s ≤ length s.holdbuf
    → IsValid (swap_buffers clock s)
unfolding swap_buffers
swap_buffers-IsValid clock s small within out hold = record {
  small = small;
  within = omega arith;
  partial = inl refl;
  out_room = hold;
  hold_room = out;
  held = omega arith;
}

pub view-swap_buffers :
    (clock : ℕ → ℕ) (s : Stream) → view (swap_buffers clock s) ≡ announce (view s)
unfolding swap_buffers
view-swap_buffers clock s = refl

-- A handle that is valid but for a full working buffer.
record IsFilled (s : Stream) : Type 0 where
  small : max_size s < 2 ^ 32
  within : s.got_bytes ≤ max_size s
  out_room : max_size s ≤ length s.outbuf
  hold_room : max_size s ≤ length s.holdbuf
  held : s.hold_bytes ≤ length s.holdbuf

check_eof-Returns :
    (clock : ℕ → ℕ) (s : Stream)
    → IsFilled s
    → Returns (finish (bfh_eof s.bfh) (view s)) (some (check_eof clock s))
unfolding check_eof
check_eof-Returns clock s v = elim (Bool-cases done) [
  | inl e ↦ (
    swap_buffers clock s,
    rw e,
    swap_buffers-IsValid clock s v.small v.within v.out_room v.hold_room,
    rw (got, e) (view-swap_buffers clock s),
  )
  | inr e ↦ (
    s,
    rw e,
    record {
      small = v.small;
      within = v.within;
      partial = inr (ground arith);
      out_room = v.out_room;
      hold_room = v.hold_room;
      held = v.held;
    },
    rw (got, e),
  )
]
  where
    done : Bool
    done = bfh_eof s.bfh || (s.got_bytes == max_size s)

    got : length (take s.got_bytes s.outbuf) ≡ s.got_bytes
    got = omega (arith, length-take s.got_bytes s.outbuf, v.within, v.out_room)

pub set_error-IsValid : (e : ℤ) (s : Stream) → IsValid s → IsValid (set_error e s)
set_error-IsValid e s v = record {
  small = v.small;
  within = v.within;
  partial = v.partial;
  out_room = v.out_room;
  hold_room = v.hold_room;
  held = v.held;
}

check_overflow_cases {ℓ} :
    (P : Stream → Type ℓ) (s : Stream) (n : ℕ)
    → P s
    → P (set_error PayloadError.overflow s)
    → P (check_overflow s n)
unfolding check_overflow
check_overflow_cases P s n fits over =
    elim (Bool-cases (ltb (max_size s) ((s.got_bytes + n) % u64_mod))) [
      | inl e ↦ rw e over
      | inr e ↦ rw e fits
    ]

-- What is stored behind the image so far, and the view that gives.
store-Returns :
    (clock : ℕ → ℕ) (s : Stream) (chunk : List ℕ)
    → IsValid s
    → s.got_bytes + length chunk ≤ max_size s
    → Returns
        (finish (bfh_eof s.bfh) (record (view s) { acc = take s.got_bytes s.outbuf ++ chunk }))
        (some (
          check_eof clock (record s {
            outbuf = written s.outbuf s.got_bytes chunk;
            got_bytes = s.got_bytes + length chunk;
          })))
store-Returns clock s chunk v fits =
    rw (← take-written s.outbuf s.got_bytes chunk room) (check_eof-Returns clock s' v')
  where
    room : s.got_bytes + length chunk ≤ length s.outbuf
    room = omega (arith, v.out_room)

    s' : Stream
    s' = record s {
      outbuf = written s.outbuf s.got_bytes chunk;
      got_bytes = s.got_bytes + length chunk;
    }

    v' : IsFilled s'
    v' = record {
      small = v.small;
      within = fits;
      out_room = rw (length-written s.outbuf s.got_bytes chunk room) v.out_room;
      hold_room = v.hold_room;
      held = v.held;
    }

-- What fits of a packet's data is stored.
store_data-Returns :
    (clock : ℕ → ℕ) (payload : List ℕ) (n : ℕ) (s : Stream)
    → IsValid s
    → s.hle + n ≤ length payload
    → n < 2 ^ 32
    → n ≢ 0
    → Returns
        (extend (bfh_eof s.bfh) (take n (drop s.hle payload)) (view s))
        (store_data clock payload n s)
unfolding store_data
store_data-Returns clock payload n s v fits small ne =
    rw
      (
        extend-some (bfh_eof s.bfh) bs (view s) some_data,
        take_within (max_size s) n k (take s.got_bytes s.outbuf) (drop s.hle payload)
            (omega (arith, got, v.within)) (omega (arith, got)),
        fitting-min s n v small,
        slice-in_range payload s.hle k (omega arith),
        write_at-in_range s.outbuf s.got_bytes chunk (omega (arith, len, v.out_room, v.within)),
        total,
      )
      (check_overflow_cases
        (λ t.
          Returns
            (finish (bfh_eof s.bfh) (record (view s) { acc = take s.got_bytes s.outbuf ++ chunk }))
            (some (
              check_eof clock (record t {
                outbuf = written s.outbuf s.got_bytes chunk;
                got_bytes = s.got_bytes + length chunk;
              }))))
        s n (store-Returns clock s chunk v stored)
        (store-Returns clock (set_error PayloadError.overflow s) chunk (set_error-IsValid _ s v)
          stored))
  where
    bs : List ℕ
    bs = take n (drop s.hle payload)

    k : ℕ
    k = min n (max_size s - s.got_bytes)

    chunk : List ℕ
    chunk = take k (drop s.hle payload)

    some_data : length bs ≢ 0
    some_data = omega (arith, length-slice payload s.hle n fits)

    got : length (take s.got_bytes s.outbuf) ≡ s.got_bytes
    got = omega (arith, length-take s.got_bytes s.outbuf, v.within, v.out_room)

    len : length chunk ≡ k
    len = length-slice payload s.hle k (omega arith)

    stored : s.got_bytes + length chunk ≤ max_size s
    stored = omega (arith, len, v.within)

    total : (s.got_bytes + k) % u64_mod ≡ s.got_bytes + length chunk
    total = omega (arith, len, stored, v.small)

-- All data of a packet is in the packet, and what fits is stored.
pub process_data-Returns :
    (clock : ℕ → ℕ) (payload : List ℕ) (n : ℕ) (s : Stream)
    → IsValid s
    → s.hle + n ≤ length payload
    → n < 2 ^ 32
    → Returns
        (extend (bfh_eof s.bfh) (take n (drop s.hle payload)) (view s))
        (process_data clock payload n s)
unfolding process_data
process_data-Returns clock payload zero s v fits small = (s, refl, v, refl)
process_data-Returns clock payload (suc n) s v fits small =
    let nonzero : (suc n == 0) ≡ false = ground arith in
    rw nonzero (store_data-Returns clock payload (suc n) s v fits small (omega arith))
