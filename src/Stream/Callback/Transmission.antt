-- ===== src/Stream/Callback/Transmission.antt =====
-- A camera that cuts an image into packets, for the packet loop of `_uvc_stream_callback` in
-- src/stream.c.
use usb_video_class.Base.{
  concat, ℕ, suc, ◌+◌, ◌-◌, ◌^◌, ◌≤◌, ◌<◌, ◌≡◌, refl, ◌≢◌, ◌⊎◌, inl, inr, Bool, true, false, some,
  List, [], ◌∷◌, ◌++◌, ◌==◌, ltb, length, arith, take_all, length-append, length-take, take,
}
use mathlib.Core.Path.{subst, ◌∙◌, ap}
use mathlib.Core.List.{append_assoc, append-nil}
use usb_video_class.Stream.{Stream, max_size}
use usb_video_class.Stream.Assembly.{Assembly, view, extend-some, receive, turn}
use usb_video_class.Stream.Payload.{process_payload}
use usb_video_class.Stream.Payload.Refine.{IsValid, Returns}
use usb_video_class.Stream.Payload.Packets.{
  carries, packet, absorb, FieldsFit, process_payload-Returns,
}
use usb_video_class.Stream.Callback.{IsoPacket, process_packets}

-- The flag byte of a header without time stamps.
abbrev pub flags : Bool → Bool → ℕ
flags false false = 0
flags false true = 2
flags true false = 1
flags true true = 3

abbrev fid_bit : Bool → ℕ
fid_bit false = 0
fid_bit true = 1

-- A packet with a two-byte header.
abbrev pub iso_packet : Bool → Bool → List ℕ → IsoPacket
iso_packet fid eof bs = record {
  status = 0;
  bytes = 2 ∷ flags fid eof ∷ bs;
  actual_length = length (2 ∷ flags fid eof ∷ bs);
}

-- The packets of an image in pieces; the last one has the end-of-frame bit.
abbrev pub transmit : Bool → List (List ℕ) → List IsoPacket
transmit fid [] = []
transmit fid (c ∷ []) = iso_packet fid true c ∷ []
transmit fid (c ∷ d ∷ cs) = iso_packet fid false c ∷ transmit fid (d ∷ cs)

abbrev pub AllSome : List (List ℕ) → Type 0
AllSome [] = Unit {0}
AllSome (c ∷ cs) = (length c ≢ 0) × AllSome cs

packet-iso_packet :
    (fid eof : Bool) (bs : List ℕ)
    → packet (iso_packet fid eof bs).bytes (iso_packet fid eof bs).actual_length
      ≡ carries (fid_bit fid) eof bs
packet-iso_packet fid eof bs = split fid eof
  where
    long : ltb (suc (suc (length bs))) 2 ≡ false
    long = ground arith

    all : take (suc (suc (length bs)) - 2) bs ≡ bs
    all = take_all (suc (suc (length bs)) - 2) bs (omega arith)

    split :
        (f e : Bool)
        → packet (iso_packet f e bs).bytes (iso_packet f e bs).actual_length
          ≡ carries (fid_bit f) e bs
    split false false = rw (long, all)
    split false true = rw (long, all)
    split true false = rw (long, all)
    split true true = rw (long, all)

flags-FieldsFit : (fid eof : Bool) (bs : List ℕ) → FieldsFit (2 ∷ flags fid eof ∷ bs)
flags-FieldsFit false false bs b e = ground arith
flags-FieldsFit false true bs b e = ground arith
flags-FieldsFit true false bs b e = ground arith
flags-FieldsFit true true bs b e = ground arith

-- No image is in the making, or one of this frame ID.
abbrev IsReady : ℕ → Assembly → Type 0
IsReady fid a = (a.fid ≡ fid) ⊎ (length a.acc ≡ 0)

turn-IsReady : (fid : ℕ) (a : Assembly) → IsReady fid a → turn fid a ≡ record a { fid = fid }
turn-IsReady fid a h = ground arith

receive_more :
    (fid : ℕ) (c : List ℕ) (a : Assembly)
    → IsReady fid a
    → length c ≢ 0
    → length a.acc + length c < a.limit
    → receive fid false c a ≡ record a { fid = fid; acc = a.acc ++ c }
receive_more fid c a r ne fits =
    rw (turn-IsReady fid a r, extend-some false c (record a { fid = fid }) ne, all, short)
  where
    all : take a.limit (a.acc ++ c) ≡ a.acc ++ c
    all = take_all a.limit (a.acc ++ c) (omega (arith, length-append a.acc c))

    short : (length (a.acc ++ c) == a.limit) ≡ false
    short = ground (arith, length-append a.acc c)

receive_last :
    (fid : ℕ) (c : List ℕ) (a : Assembly)
    → IsReady fid a
    → length c ≢ 0
    → length a.acc + length c ≤ a.limit
    → receive fid true c a
      ≡ record a { fid = fid; acc = []; frames = (a.acc ++ c) ∷ a.frames; held = a.acc ++ c }
receive_last fid c a r ne fits =
    rw (turn-IsReady fid a r, extend-some true c (record a { fid = fid }) ne, all)
  where
    all : take a.limit (a.acc ++ c) ≡ a.acc ++ c
    all = take_all a.limit (a.acc ++ c) (omega (arith, length-append a.acc c))

module _ (clock : ℕ → ℕ) (fid : Bool) where
  iso_packet-Returns :
      (eof : Bool) (c : List ℕ) (a : Assembly) (s : Stream)
      → IsValid s
      → view s ≡ a
      → length c + 2 < 2 ^ 32
      → Returns (receive (fid_bit fid) eof c a) (
          process_payload clock s (iso_packet fid eof c).bytes (iso_packet fid eof c).actual_length)
  iso_packet-Returns eof c a s v e small =
      subst
        (λ p. Returns p (
          process_payload clock s (iso_packet fid eof c).bytes
            (iso_packet fid eof c).actual_length))
        (ap (λ p. absorb p (view s)) (packet-iso_packet fid eof c)
          ∙ ap (receive (fid_bit fid) eof c) e)
        (process_payload-Returns clock s (iso_packet fid eof c).bytes
          (iso_packet fid eof c).actual_length v (omega arith) (omega arith)
          (flags-FieldsFit fid eof c))

  abbrev announced : Assembly → List ℕ → Assembly
  announced a image = record a {
    fid = fid_bit fid;
    acc = [];
    frames = (a.acc ++ image) ∷ a.frames;
    held = a.acc ++ image;
  }

  process_packets-announced :
      (c : List ℕ) (cs : List (List ℕ)) (a : Assembly) (s : Stream)
      → IsValid s
      → view s ≡ a
      → AllSome (c ∷ cs)
      → IsReady (fid_bit fid) a
      → length a.acc + length (concat (c ∷ cs)) ≤ a.limit
      → length (concat (c ∷ cs)) + 2 < 2 ^ 32
      → Returns (announced a (concat (c ∷ cs))) (process_packets clock s (transmit fid (c ∷ cs)))
  unfolding process_packets
  process_packets-announced c [] a s v e ne r fits small =
      let (s', run, v', seen) =
        iso_packet-Returns true c a s v e (omega (arith, length-append c [])) in
      (
        s',
        rw run,
        v',
        rw append-nil
            (seen ∙ receive_last (fid_bit fid) c a r ne.0 (omega (arith, length-append c []))),
      )
  process_packets-announced c (d ∷ cs) a s v e ne r fits small =
      let total = length-append c (concat (d ∷ cs)) in
      let (s₁, run₁, v₁, seen₁) = iso_packet-Returns false c a s v e (omega (arith, total)) in
      let e₁ =
        seen₁
        ∙ receive_more (fid_bit fid) c a r ne.0
            (omega (arith, total, length-append d (concat cs), ne.1.0)) in
      let (s₂, run₂, v₂, seen₂) =
        process_packets-announced d cs (record a { fid = fid_bit fid; acc = a.acc ++ c }) s₁ v₁ e₁
          ne.1 (inl refl) (omega (arith, length-append a.acc c, total)) (omega (arith, total)) in
      (s₂, rw (run₁, run₂), v₂, seen₂ ∙ (rw append_assoc))

  -- An image that the camera sends in non-empty pieces, with a frame ID bit and the end-of-frame
  -- bit on the last piece, to a handle without image data at hand: if it fits the negotiated
  -- size (and is shorter than 2 ^ 32 - 2 bytes), the packet loop of a valid handle announces exactly that image, leaves it in the buffer that
  -- readers use, and keeps nothing of it in the working buffer.
  pub process_packets-transmit :
      (c : List ℕ) (cs : List (List ℕ)) (s : Stream)
      → IsValid s
      → s.got_bytes ≡ 0
      → AllSome (c ∷ cs)
      → length (concat (c ∷ cs)) ≤ max_size s
      → length (concat (c ∷ cs)) + 2 < 2 ^ 32
      → (s' : Stream) × (process_packets clock s (transmit fid (c ∷ cs)) ≡ some s')
        × IsValid s'
        × (s'.published ≡ concat (c ∷ cs) ∷ s.published)
        × (take s'.hold_bytes s'.holdbuf ≡ concat (c ∷ cs))
        × (s'.got_bytes ≡ 0)
  process_packets-transmit c cs s v none_yet ne fits small =
      let (s', run, v', seen) =
        process_packets-announced c cs (view s) s v refl ne (inr empty) (omega (arith, empty))
          small in
      (
        s',
        run,
        v',
        ap (λ (a : Assembly). a.frames) seen
            ∙ ap (λ xs. (xs ++ concat (c ∷ cs)) ∷ s.published) nothing,
        ap (λ (a : Assembly). a.held) seen ∙ ap (λ xs. xs ++ concat (c ∷ cs)) nothing,
        omega (
          arith,
          ap (λ (a : Assembly). length a.acc) seen,
          length-take s'.got_bytes s'.outbuf,
          v'.within,
          v'.out_room,
        ),
      )
    where
      nothing : take s.got_bytes s.outbuf ≡ []
      nothing = ap (λ k. take k s.outbuf) none_yet

      empty : length (take s.got_bytes s.outbuf) ≡ 0
      empty = ap length nothing
