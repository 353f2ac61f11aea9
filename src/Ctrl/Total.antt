-- ===== src/Ctrl/Total.antt =====
-- The ends of `uvc_query_stream_ctrl` of src/stream.c, and what it leaves in the control block.
use usb_video_class.Base.{
  ℕ, ◌≡◌, refl, ◌⊎◌, inl, inr, Bool, true, false, some, List, ◌==◌, length, get_elem?-lt, Runs,
  >>=-Runs, arith, Bool-cases, ◌∙◌,
}
use usb_video_class.Base.Int.{ℤ, pos, is_le_zero}
use usb_video_class.Base.Bytes.{read_dw-in_range, read_sw-in_range}
use usb_video_class.Device.{Device}
use usb_video_class.Usb.{Usb, Reply, KeepsSize, set_cur}
use usb_video_class.Ctrl.{StreamCtrl}
use usb_video_class.Ctrl.Query.{
  encode_ctrl, decode_ctrl, decode_tail, fix_frame_size, query_stream_ctrl, stream_buffer,
  finish_stream_query, stream_reply, ctrl_len,
}

module _ (len f : ℕ) (buf : List ℕ) (h : length buf ≡ 34) where
  decode_tail-Runs : (c : StreamCtrl) → Runs (decode_tail len f buf c)
  unfolding decode_tail
  decode_tail-Runs c = elim (Bool-cases (len == 34)) [
    | inl e ↦ rw e (
        >>=-Runs _ _ (read_dw-in_range buf 26 (omega arith)) λ _.
          >>=-Runs _ _ (get_elem?-lt buf 30 (omega arith)) λ _.
            >>=-Runs _ _ (get_elem?-lt buf 31 (omega arith)) λ _.
              >>=-Runs _ _ (get_elem?-lt buf 32 (omega arith))
                λ _. >>=-Runs _ _ (get_elem?-lt buf 33 (omega arith)) λ _. (_, refl))
    | inr e ↦ rw e (_, refl)
  ]

  decode_ctrl-Runs : (c : StreamCtrl) → Runs (decode_ctrl len f buf c)
  unfolding decode_ctrl
  decode_ctrl-Runs c = >>=-Runs _ _ (read_sw-in_range buf 0 (omega arith)) λ _.
      >>=-Runs _ _ (get_elem?-lt buf 2 (omega arith)) λ _.
        >>=-Runs _ _ (get_elem?-lt buf 3 (omega arith)) λ _.
          >>=-Runs _ _ (read_dw-in_range buf 4 (omega arith)) λ _.
            >>=-Runs _ _ (read_sw-in_range buf 8 (omega arith)) λ _.
              >>=-Runs _ _ (read_sw-in_range buf 10 (omega arith)) λ _.
                >>=-Runs _ _ (read_sw-in_range buf 12 (omega arith)) λ _.
                  >>=-Runs _ _ (read_sw-in_range buf 14 (omega arith)) λ _.
                    >>=-Runs _ _ (read_sw-in_range buf 16 (omega arith)) λ _.
                      >>=-Runs _ _ (read_dw-in_range buf 18 (omega arith)) λ _.
                        >>=-Runs _ _ (read_dw-in_range buf 22 (omega arith)) λ _. decode_tail-Runs _

length-encode_ctrl : (len : ℕ) (c : StreamCtrl) → length (encode_ctrl len c) ≡ 34
unfolding encode_ctrl
length-encode_ctrl len c = elim (Bool-cases (len == 34)) [ inl e ↦ rw e | inr e ↦ rw e ]

length-stream_buffer : (len : ℕ) (c : StreamCtrl) (req : ℕ) → length (stream_buffer len c req) ≡ 34
length-stream_buffer len c req = elim (Bool-cases (req == set_cur)) [
  | inl e ↦ rw e (length-encode_ctrl len c)
  | inr e ↦ rw e
]

-- A transfer without bytes is reported as it is, with the control block left alone; any other is
-- a success, and a SET leaves the control block alone.
abbrev pub Reports : {S : Type 0} → StreamCtrl → ℕ → Reply S → ℤ × StreamCtrl × S → Type 0
Reports c req r (ret, c', w) =
    ((is_le_zero r.result ≡ true) × (ret ≡ r.result) × (c' ≡ c))
    ⊎ ((is_le_zero r.result ≡ false) × (ret ≡ pos 0) × (((req == set_cur) ≡ false) ⊎ (c' ≡ c)))

pub Reports-silent :
    {S : Type 0} (c : StreamCtrl) (req : ℕ) (r : Reply S) (o : ℤ × StreamCtrl × S)
    → Reports c req r o
    → is_le_zero r.result ≡ true
    → o.1 ≡ c
Reports-silent c req r o rep e = elim rep [ inl quiet ↦ quiet.2 | inr bytes ↦ cc ]

finish_stream_query-Reports :
    {S : Type 0} (d : Device) (c : StreamCtrl) (req : ℕ) (r : Reply S)
    → length r.buffer ≡ 34
    → (o : ℤ × StreamCtrl × S) × (finish_stream_query d c req r ≡ some o) × Reports c req r o
unfolding finish_stream_query
finish_stream_query-Reports d c req r size = elim (Bool-cases (is_le_zero r.result)) [
  | inl e ↦ ((r.result, c, r.after), rw e, inl (e, refl, refl))
  | inr e ↦ elim (Bool-cases (req == set_cur)) [
    | inl set ↦ ((pos 0, c, r.after), rw (e, set), inr (e, refl, inr refl))
    | inr get ↦
        let (c', run) =
          decode_ctrl-Runs (ctrl_len d.info.ctrl_if.bcd_uvc) d.info.ctrl_if.dw_clock_frequency
            r.buffer size c in
        ((pos 0, fix_frame_size d.info c', r.after), rw (e, get, run), inr (e, refl, inl get))
  ]
]

module _ {S : Type 0} (usb : Usb S) where
  -- For every device whose transfers keep the size of their buffer, the stream control query ends
  -- without a read outside its buffer; a failed transfer's result is returned with the block left
  -- alone, any other is a success, and a SET leaves the block alone.
  pub query_stream_ctrl-Reports :
      (d : Device) (c : StreamCtrl) (probe : Bool) (req : ℕ) (w : S)
      → KeepsSize usb
      → (o : ℤ × StreamCtrl × S) × (query_stream_ctrl usb d c probe req w ≡ some o)
        × Reports c req (stream_reply usb d c probe req w) o
  unfolding query_stream_ctrl
  query_stream_ctrl-Reports d c probe req w keeps =
      finish_stream_query-Reports d c req (stream_reply usb d c probe req w)
        (keeps _ _ w ∙ length-stream_buffer _ c req)
