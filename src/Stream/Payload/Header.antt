-- ===== src/Stream/Payload/Header.antt =====
-- `_uvc_process_payload` of src/stream.c beside the assembly of images: the header's checks and
-- fields.
use usb_video_class.Base.{
  ℕ, ◌≤◌, ◌≡◌, refl, inl, inr, Bool, true, ◌&&◌, not, some, List, ◌==◌, if◌then◌else◌, length, take,
  arith, Bool-cases, length-take,
}
use usb_video_class.Base.Int.{ℤ}
use usb_video_class.Base.Bytes.{read_dw-in_range, sign_extend}
use usb_video_class.PayloadError
use usb_video_class.Stream.{Stream, swap_buffers}
use usb_video_class.Stream.Assembly.{Assembly, view, announce, turn}
use usb_video_class.Stream.Payload.Refine.{IsValid, set_error-IsValid, swap_buffers-IsValid}
use usb_video_class.Stream.Payload.{
  bfh_fid, bfh_eof, bfh_pts, bfh_scr, bfh_res, set_error, header_length_ok, check_header_length,
  check_reserved, check_fid, read_pts, read_scr,
}

-- A valid handle in the middle of a packet, with the header's first two bytes and a view.
pub record At (hle b : ℕ) (a : Assembly) (s : Stream) : Type 0 where
  pub valid : IsValid s
  pub seen : view s ≡ a
  pub same_hle : s.hle ≡ hle
  pub same_bfh : s.bfh ≡ b

module _ {hle b : ℕ} {a : Assembly} (s : Stream) (at : At hle b a s) where
  pub set_error-At : (e : ℤ) → At hle b a (set_error e s)
  set_error-At e = record {
    valid = set_error-IsValid e s at.valid;
    seen = at.seen;
    same_hle = at.same_hle;
    same_bfh = at.same_bfh;
  }

  pub check_header_length-At : At hle b a (check_header_length s)
  unfolding check_header_length
  check_header_length-At = elim (Bool-cases (header_length_ok s.bfh s.hle)) [
    | inl e ↦ rw e at
    | inr e ↦ rw e (set_error-At PayloadError.invalid_header_length)
  ]

  pub check_reserved-At : At hle b a (check_reserved s)
  unfolding check_reserved
  check_reserved-At = elim (Bool-cases (not (bfh_eof s.bfh) && bfh_res s.bfh)) [
    | inl e ↦ rw e (set_error-At PayloadError.reserved_bit_set)
    | inr e ↦ rw e at
  ]

  set_fid : (f : ℕ) → At hle b (record a { fid = f }) (record s { fid = f })
  set_fid f = record {
    valid = record {
      small = at.valid.small;
      within = at.valid.within;
      partial = at.valid.partial;
      out_room = at.valid.out_room;
      hold_room = at.valid.hold_room;
      held = at.valid.held;
    };
    seen = cc (at.seen);
    same_hle = at.same_hle;
    same_bfh = at.same_bfh;
  }

  swap_buffers-At : (clock : ℕ → ℕ) → At hle b (announce a) (swap_buffers clock s)
  unfolding swap_buffers
  swap_buffers-At clock = record {
    valid =
        swap_buffers-IsValid clock s at.valid.small at.valid.within at.valid.out_room
          at.valid.hold_room;
    seen = rw (← at.seen);
    same_hle = at.same_hle;
    same_bfh = at.same_bfh;
  }

pub At-self : (s : Stream) → IsValid s → At s.hle s.bfh (view s) s
At-self s v = record { valid = v; seen = refl; same_hle = refl; same_bfh = refl }

check_fid_self :
    (clock : ℕ → ℕ) (s : Stream)
    → IsValid s
    → At s.hle s.bfh (turn (bfh_fid s.bfh) (view s)) (check_fid clock s)
unfolding check_fid
check_fid_self clock s v = elim (Bool-cases flipped) [
  | inl e ↦
      rw (got, e)
        (set_fid (swap_buffers clock s) (swap_buffers-At s (At-self s v) clock) (bfh_fid s.bfh))
  | inr e ↦ rw (got, e) (set_fid s (At-self s v) (bfh_fid s.bfh))
]
  where
    flipped : Bool
    flipped = not (s.fid == bfh_fid s.bfh) && not (s.got_bytes == 0)

    got : length (take s.got_bytes s.outbuf) ≡ s.got_bytes
    got = omega (arith, length-take s.got_bytes s.outbuf, v.within, v.out_room)

pub check_fid-At :
    {hle b : ℕ} {a : Assembly} (clock : ℕ → ℕ) (s : Stream)
    → At hle b a s
    → At hle b (turn (bfh_fid b) a) (check_fid clock s)
check_fid-At clock s at =
    rw (← at.seen, ← at.same_bfh, ← at.same_hle) (check_fid_self clock s at.valid)

module _ {hle b : ℕ} {a : Assembly} (s : Stream) (at : At hle b a s) where
  set_time : (p r : ℕ) → At hle b a (record s { pts = p; last_scr = r })
  set_time p r = record {
    valid = record {
      small = at.valid.small;
      within = at.valid.within;
      partial = at.valid.partial;
      out_room = at.valid.out_room;
      hold_room = at.valid.hold_room;
      held = at.valid.held;
    };
    seen = at.seen;
    same_hle = at.same_hle;
    same_bfh = at.same_bfh;
  }

  pub read_pts-At :
      (payload : List ℕ)
      → (bfh_pts b ≡ true → 6 ≤ length payload)
      → (t : Stream) × (read_pts payload s ≡ some t) × At hle b a t
  unfolding read_pts
  read_pts-At payload room = elim (Bool-cases (bfh_pts b)) [
    | inl e ↦
        let (w, got) = read_dw-in_range payload 2 (room e) in
        (record s { pts = w }, rw (at.same_bfh, e, got), set_time w s.last_scr)
    | inr e ↦ (s, rw (at.same_bfh, e), at)
  ]

  pub read_scr-At :
      (payload : List ℕ)
      → (bfh_scr b ≡ true → (if bfh_pts b then 10 else 6) ≤ length payload)
      → (t : Stream) × (read_scr payload s ≡ some t) × At hle b a t
  unfolding read_scr
  read_scr-At payload room = elim (Bool-cases (bfh_scr b)) [
    | inl e ↦
        let (w, got) =
          read_dw-in_range payload (if bfh_pts b then 6 else 2) (ground (arith, room e)) in
        (
          record s { last_scr = sign_extend w },
          rw (at.same_bfh, e, got),
          set_time s.pts (sign_extend w),
        )
    | inr e ↦ (s, rw (at.same_bfh, e), at)
  ]
