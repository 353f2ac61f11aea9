-- ===== src/Stream/Payload/Packets.antt =====
-- `_uvc_process_payload` of src/stream.c beside the assembly of images: whole packets.
use usb_video_class.Base.{
  ℕ, zero, suc, ◌+◌, ◌-◌, ◌^◌, ◌≤◌, ◌<◌, ◌≡◌, refl, inl, inr, Bool, true, false, some, List, [],
  ◌∷◌, ◌==◌, ltb, if◌then◌else◌, length, get_elem?, take, drop, arith, Bool-cases, ◌>>=◌,
}
use usb_video_class.PayloadError
use usb_video_class.Stream.{Stream}
use usb_video_class.Stream.Assembly.{Assembly, view, extend, receive}
use usb_video_class.Stream.Payload.Refine.{IsValid, Returns, process_data-Returns}
use usb_video_class.Stream.Payload.Header.{
  At, set_error-At, check_header_length-At, check_reserved-At, check_fid-At, read_pts-At,
  read_scr-At,
}
use usb_video_class.Stream.Payload.{
  bfh_fid, bfh_eof, bfh_pts, bfh_scr, bfh_err, check_header_length, check_reserved, process_data,
  process_header, process_packet, process_payload,
}

-- What a packet stands for, read off its bytes.
pub data Packet : Type 0 where
  ignored : Packet
  headerless : List ℕ → Packet
  carries : ℕ → Bool → List ℕ → Packet

abbrev pub flagged : ℕ → List ℕ → List ℕ → Packet
flagged h [] bs = ignored
flagged h (b ∷ rest) bs = if bfh_err b then ignored else carries (bfh_fid b) (bfh_eof b) bs

abbrev pub packet : List ℕ → ℕ → Packet
packet payload zero = ignored
packet [] (suc n) = ignored
packet (h ∷ rest) (suc n) =
    let bs = take (suc n - h) (drop h (h ∷ rest)) in
    if ltb (suc n) h
    then ignored
    else (if ltb h 2 then headerless bs else (if ltb 14 h then ignored else flagged h rest bs))

abbrev pub absorb : Packet → Assembly → Assembly
absorb ignored a = a
absorb (headerless bs) a = extend false bs a
absorb (carries fid eof bs) a = receive fid eof bs a

-- Where the fields that the flags announce end.
abbrev pub fields_end : ℕ → ℕ
fields_end b = if bfh_scr b then (if bfh_pts b then 10 else 6) else (if bfh_pts b then 6 else 2)

abbrev pub FieldsFit : List ℕ → Type 0
FieldsFit payload = (b : ℕ) → get_elem? payload 1 ≡ some b → fields_end b ≤ length payload

module _ {hle b : ℕ} {a : Assembly} (clock : ℕ → ℕ) (payload : List ℕ) (n : ℕ) where
  process_data-At :
      (s : Stream)
      → At hle b a s
      → hle + n ≤ length payload
      → n < 2 ^ 32
      → Returns (extend (bfh_eof b) (take n (drop hle payload)) a) (process_data clock payload n s)
  process_data-At s at fits small =
      rw (← at.seen, ← at.same_bfh, ← at.same_hle)
        (process_data-Returns clock payload n s at.valid (rw at.same_hle fits) small)

  At-Returns : (s : Stream) → At hle b a s → Returns a (some s)
  At-Returns s at = (s, refl, at.valid, at.seen)

process_header-Returns :
    {hle b : ℕ} {a : Assembly} (clock : ℕ → ℕ) (payload : List ℕ) (n : ℕ) (s : Stream)
    → At hle b a s
    → hle + n ≤ length payload
    → n < 2 ^ 32
    → fields_end b ≤ length payload
    → Returns
        (if bfh_err b then a else receive (bfh_fid b) (bfh_eof b) (take n (drop hle payload)) a)
        (process_header clock payload n s)
unfolding process_header
process_header-Returns {hle} {b} {a} clock payload n s at fits small room =
    elim (Bool-cases (bfh_err b)) [
      | inl e ↦
          let err : bfh_err s.bfh ≡ true = rw at.same_bfh e in
          rw (err, e)
            (At-Returns clock payload n _ (set_error-At _ checked PayloadError.error_bit_set))
      | inr e ↦
          let fine : bfh_err s.bfh ≡ false = rw at.same_bfh e in
          let (s₁, run₁, at₁) =
            read_pts-At _ (check_fid-At clock _ checked) payload (ground (arith, room)) in
          let (s₂, run₂, at₂) = read_scr-At s₁ at₁ payload (ground (arith, room)) in
          rw (fine, e, run₁, run₂) (process_data-At clock payload n s₂ at₂ fits small)
    ]
  where
    checked : At hle b a (check_reserved (check_header_length s))
    checked = check_reserved-At _ (check_header_length-At s at)

set_packet : (s : Stream) (h b : ℕ) → IsValid s → At h b (view s) (record s { hle = h; bfh = b })
set_packet s h b v = record {
  valid = record {
    small = v.small;
    within = v.within;
    partial = v.partial;
    out_room = v.out_room;
    hold_room = v.hold_room;
    held = v.held;
  };
  seen = refl;
  same_hle = refl;
  same_bfh = refl;
}

flagged-Returns :
    (clock : ℕ → ℕ) (s : Stream) (h : ℕ) (rest : List ℕ) (n : ℕ)
    → IsValid s
    → h ≤ n
    → n ≤ length (h ∷ rest)
    → n < 2 ^ 32
    → FieldsFit (h ∷ rest)
    → ltb h 2 ≡ false
    → Returns (absorb (flagged h rest (take (n - h) (drop h (h ∷ rest)))) (view s)) (do
      bfh ← get_elem? (h ∷ rest) 1
      process_header clock (h ∷ rest) (n - h) (record s { hle = h; bfh = bfh }))
flagged-Returns clock s h [] n v le fits small room two = absurd (ground arith)
flagged-Returns clock s h (b ∷ rest) n v le fits small room two =
    let run =
      process_header-Returns clock (h ∷ b ∷ rest) (n - h) _ (set_packet s h b v) (omega arith)
        (omega arith) (room b refl) in
    elim (Bool-cases (bfh_err b)) [ inl e ↦ rw e (rw e at run) | inr e ↦ rw e (rw e at run) ]

-- For every valid handle and packet of fewer than 2 ^ 32 bytes that lies in the transfer buffer
-- with the fields that its flags announce, the payload decoder ends without an access outside a
-- buffer, keeps the handle valid, and its images are those of the list-level assembly of the
-- packet.
pub process_payload-Returns :
    (clock : ℕ → ℕ) (s : Stream) (payload : List ℕ) (n : ℕ)
    → IsValid s
    → n ≤ length payload
    → n < 2 ^ 32
    → FieldsFit payload
    → Returns (absorb (packet payload n) (view s)) (process_payload clock s payload n)
unfolding process_payload process_packet
process_payload-Returns clock s payload zero v fits small room = (s, refl, v, refl)
process_payload-Returns clock s [] (suc n) v fits small room = absurd (omega arith)
process_payload-Returns clock s (h ∷ rest) (suc n) v fits small room =
    let nonzero : (suc n == 0) ≡ false = ground arith in
    rw nonzero (elim (Bool-cases (ltb (suc n) h)) [
      | inl long ↦ rw long (At-Returns clock (h ∷ rest) n _ (set_packet s h s.bfh v))
      | inr short ↦ rw short (elim (Bool-cases (ltb h 2)) [
        | inl tiny ↦ rw tiny (
            process_data-At clock (h ∷ rest) (suc n - h) _ (set_packet s h 0 v) (ground arith)
              (omega arith))
        | inr two ↦ rw two (elim (Bool-cases (ltb 14 h)) [
          | inl big ↦ rw big (
              At-Returns clock (h ∷ rest) n _
                (set_error-At _ (set_packet s h s.bfh v) PayloadError.big_header_length))
          | inr good ↦
              rw good (flagged-Returns clock s h rest (suc n) v (ground arith) fits small room two)
        ])
      ])
    ])
