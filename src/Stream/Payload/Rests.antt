-- ===== src/Stream/Payload/Rests.antt =====
-- What `_uvc_process_payload` of src/stream.c leaves alone in the handle: the parts that belong to
-- the reader, and the sequence numbers but for the announced images.
use usb_video_class.Base.{
  ℕ, suc, ◌+◌, ◌-◌, ◌%◌, ◌≤◌, ◌≡◌, refl, ap, ◌∙◌, not, ◌&&◌, ◌||◌, Option, none, some, List, ◌==◌,
  ltb, length, if◌then◌else◌, if_cases, Bool-cases, ==_iff, inl, inr, arith, Always, fault, returns,
  >>=-Always, ◌>>=◌, get_elem?, slice, write_at,
}
use usb_video_class.Base.Bytes.{u32_mod, u64_mod, read_dw}
use usb_video_class.PayloadError
use usb_video_class.Stream.{Stream, max_size, swap_buffers}
use usb_video_class.Stream.Payload.{
  bfh_fid, bfh_eof, bfh_pts, bfh_scr, bfh_err, bfh_res, check_header_length, check_reserved,
  check_fid, read_pts, read_scr, fitting, check_overflow, check_eof, store_data, process_data,
  process_header, process_packet, process_payload, set_error, header_length_ok,
}

abbrev pub SameReader : Stream → Stream → Type 0
SameReader s s' =
    (s'.running ≡ s.running)
    × (s'.user_cb ≡ s.user_cb)
    × (s'.cur_ctrl ≡ s.cur_ctrl)
    × (s'.last_polled_seq ≡ s.last_polled_seq)
    × (s'.frame.image ≡ s.frame.image)
    × (s'.frame.data_bytes ≡ s.frame.data_bytes)
    × (s.meta_got_bytes ≡ 0
        → s.meta_hold_bytes ≡ 0
        → (s'.meta_got_bytes ≡ 0) × (s'.meta_hold_bytes ≡ 0))

-- Without a new image the numbers stay; after one, it has the number that was next.
abbrev pub Counts : Stream → Stream → Type 0
Counts s s' =
    (length s.published ≤ length s'.published)
    × (length s'.published ≡ length s.published → (s'.seq ≡ s.seq) × (s'.hold_seq ≡ s.hold_seq))
    × (length s'.published ≡ suc (length s.published)
        → (s'.hold_seq ≡ s.seq) × (s'.seq ≡ (s.seq + 1) % u32_mod))

abbrev pub Rests : Stream → Stream → Type 0
Rests s s' = SameReader s s' × Counts s s'

pub rests : (s : Stream) → Rests s s
rests s = (
  (refl, refl, refl, refl, refl, refl, λ m h. (m, h)),
  (omega arith, (λ e. (refl, refl)), λ e. absurd (omega (arith, e))),
)

Counts-trans : (s t u : Stream) → Counts s t → Counts t u → Counts s u
Counts-trans s t u (g, same, next) (g', same', next') = (
  omega arith,
  (λ e.
      let (a, b) = same (omega (arith, e)) in
      let (a', b') = same' (omega (arith, e)) in (a' ∙ a, b' ∙ b)),
  λ e. elim (Bool-cases (length t.published == length s.published)) [
    | inl quiet ↦
        let k = (==_iff (length t.published) (length s.published)).0 quiet in
        let (a, b) = same k in
        let (a', b') = next' (omega (arith, e, k)) in (a' ∙ a, b' ∙ ap (λ n. (n + 1) % u32_mod) a)
    | inr new ↦
        let (a, b) = next (ground (arith, e, new, g, g')) in
        let (a', b') = same' (ground (arith, e, new, g, g')) in (b' ∙ a, a' ∙ b)
  ],
)

pub Rests-trans : (s t u : Stream) → Rests s t → Rests t u → Rests s u
Rests-trans s t u ((a, b, c, d, e, f, g), n) ((a', b', c', d', e', f', g'), n') = (
  (a' ∙ a, b' ∙ b, c' ∙ c, d' ∙ d, e' ∙ e, f' ∙ f, λ m h. let (m', h') = g m h in g' m' h'),
  Counts-trans s t u n n',
)

onward : (s t : Stream) {o : Option Stream} → Rests s t → Always (Rests t) o → Always (Rests s) o
onward s t r fault = fault
onward s t r (returns {a} q) = returns (Rests-trans s t a r q)

pub then-Rests :
    (s : Stream) (m : Option Stream) (f : Stream → Option Stream)
    → Always (Rests s) m
    → ((t : Stream) → Always (Rests t) (f t))
    → Always (Rests s) (m >>= f)
then-Rests s none f r k = fault
then-Rests s (some t) f (returns r) k = onward s t r (k t)

module _ (clock : ℕ → ℕ) where
  swap_buffers-Rests : (s : Stream) → Rests s (swap_buffers clock s)
  unfolding swap_buffers
  swap_buffers-Rests s = (
    (refl, refl, refl, refl, refl, refl, λ m h. (refl, m)),
    (omega arith, (λ e. absurd (omega (arith, e))), λ e. (refl, refl)),
  )

  check_fid-Rests : (s : Stream) → Rests s (check_fid clock s)
  unfolding check_fid
  check_fid-Rests s = elim (Bool-cases (not (s.fid == bfh_fid s.bfh) && not (s.got_bytes == 0))) [
    | inl e ↦ rw e (swap_buffers-Rests s)
    | inr e ↦ rw e (rests s)
  ]

  checked-Rests : (s : Stream) → Rests s (check_reserved (check_header_length s))
  unfolding check_reserved check_header_length
  checked-Rests s = elim (Bool-cases (header_length_ok s.bfh s.hle)) [
    | inl e ↦ elim (Bool-cases (not (bfh_eof s.bfh) && bfh_res s.bfh)) [
      | inl e' ↦ rw (e, e') (rests s)
      | inr e' ↦ rw (e, e') (rests s)
    ]
    | inr e ↦ elim (Bool-cases (not (bfh_eof s.bfh) && bfh_res s.bfh)) [
      | inl e' ↦ rw (e, e') (rests s)
      | inr e' ↦ rw (e, e') (rests s)
    ]
  ]

  check_eof-Rests : (s : Stream) → Rests s (check_eof clock s)
  unfolding check_eof
  check_eof-Rests s =
      if_cases (Rests s) (bfh_eof s.bfh || (s.got_bytes == max_size s)) (λ _. swap_buffers-Rests s)
        (λ _. rests s)

  store_data-Rests :
      (payload : List ℕ) (n : ℕ) (s : Stream) → Always (Rests s) (store_data clock payload n s)
  unfolding store_data check_overflow
  store_data-Rests payload n s = >>=-Always (slice payload s.hle (fitting s n)) _ λ chunk.
      >>=-Always (write_at s.outbuf s.got_bytes chunk) _ λ outbuf. returns (
        if_cases
          (λ t. Rests s (
            check_eof clock
              (record t { outbuf = outbuf; got_bytes = (s.got_bytes + fitting s n) % u64_mod })))
          (ltb (max_size s) ((s.got_bytes + n) % u64_mod))
          (λ _. check_eof-Rests (record (set_error PayloadError.overflow s) {
            outbuf = outbuf;
            got_bytes = (s.got_bytes + fitting s n) % u64_mod;
          }))
          (λ _.
            check_eof-Rests
              (record s { outbuf = outbuf; got_bytes = (s.got_bytes + fitting s n) % u64_mod })))

  process_data-Rests :
      (payload : List ℕ) (n : ℕ) (s : Stream) → Always (Rests s) (process_data clock payload n s)
  unfolding process_data
  process_data-Rests payload n s =
      if_cases (Always (Rests s)) (n == 0) (λ _. returns (rests s))
        (λ _. store_data-Rests payload n s)

  read_pts-Rests : (payload : List ℕ) (s : Stream) → Always (Rests s) (read_pts payload s)
  unfolding read_pts
  read_pts-Rests payload s =
      if_cases (Always (Rests s)) (bfh_pts s.bfh)
        (λ _. >>=-Always (read_dw payload 2) _ λ pts. returns (rests s)) (λ _. returns (rests s))

  read_scr-Rests : (payload : List ℕ) (s : Stream) → Always (Rests s) (read_scr payload s)
  unfolding read_scr
  read_scr-Rests payload s =
      if_cases (Always (Rests s)) (bfh_scr s.bfh)
        (λ _.
          >>=-Always (read_dw payload (if bfh_pts s.bfh then 6 else 2)) _ λ scr. returns (rests s))
        (λ _. returns (rests s))

  process_header-Rests :
      (payload : List ℕ) (n : ℕ) (s : Stream) → Always (Rests s) (process_header clock payload n s)
  unfolding process_header
  process_header-Rests payload n s =
      let checked : Stream = check_reserved (check_header_length s) in
      let turned : Rests s (check_fid clock checked) =
        Rests-trans s checked (check_fid clock checked) (checked-Rests s)
          (check_fid-Rests checked) in
      if_cases (Always (Rests s)) (bfh_err s.bfh) (λ _. returns (checked-Rests s))
        (λ _.
          then-Rests s (read_pts payload (check_fid clock checked)) _
            (onward s (check_fid clock checked) turned
              (read_pts-Rests payload (check_fid clock checked)))
            λ s₁.
              then-Rests s₁ (read_scr payload s₁) _ (read_scr-Rests payload s₁)
                λ s₂. process_data-Rests payload n s₂)

  pub process_payload-Rests :
      (s : Stream) (payload : List ℕ) (n : ℕ) → Always (Rests s) (process_payload clock s payload n)
  unfolding process_payload process_packet
  process_payload-Rests s payload n =
      if_cases (Always (Rests s)) (n == 0) (λ _. returns (rests s))
        (λ _. >>=-Always (get_elem? payload 0) _ λ hle.
          if_cases (Always (Rests s)) (ltb n hle) (λ _. returns (rests s))
            (λ _.
              if_cases (Always (Rests s)) (ltb hle 2)
                (λ _. process_data-Rests payload (n - hle) (record s { hle = hle; bfh = 0 }))
                (λ _.
                  if_cases (Always (Rests s)) (ltb 14 hle) (λ _. returns (rests s))
                    (λ _. >>=-Always (get_elem? payload 1) _ λ bfh.
                      process_header-Rests payload (n - hle) (record s { hle = hle; bfh = bfh })))))
