-- ===== src/Ctrl/Kept.antt =====
-- What `uvc_query_stream_ctrl` of src/stream.c leaves alone in the control block.
use usb_video_class.Base.{
  subst, ℕ, ◌≡◌, refl, ◌∙◌, Bool, Option, none, some, List, ◌==◌, ◌>>=◌, get_elem?, if_cases,
  Always, fault, returns, >>=-Always,
}
use usb_video_class.Base.Int.{ℤ, is_le_zero}
use usb_video_class.Base.Bytes.{read_dw, read_sw}
use usb_video_class.Desc.{DeviceInfo, FormatDesc, FrameDesc}
use usb_video_class.Desc.Lookup.{find_frame_desc}
use usb_video_class.Device.{Device}
use usb_video_class.Usb.{Usb, Reply, set_cur}
use usb_video_class.Ctrl.{StreamCtrl}
use usb_video_class.Ctrl.Query.{
  decode_ctrl, decode_tail, fix_frame_size, query_stream_ctrl, finish_stream_query, stream_reply,
  ctrl_len,
}

abbrev Same : StreamCtrl → StreamCtrl → Type 0
Same c c' = c'.b_interface_number ≡ c.b_interface_number

decode_tail-Same :
    (len f : ℕ) (buf : List ℕ) (c : StreamCtrl) → Always (Same c) (decode_tail len f buf c)
unfolding decode_tail
decode_tail-Same len f buf c =
    if_cases (Always (Same c)) (len == 34)
      (λ _. >>=-Always (read_dw buf 26) _ λ _. >>=-Always (get_elem? buf 30) _ λ _.
        >>=-Always (get_elem? buf 31) _ λ _.
          >>=-Always (get_elem? buf 32) _ λ _. >>=-Always (get_elem? buf 33) _ λ _. returns refl)
      (λ _. returns refl)

decode_ctrl-Same :
    (len f : ℕ) (buf : List ℕ) (c : StreamCtrl) → Always (Same c) (decode_ctrl len f buf c)
unfolding decode_ctrl
decode_ctrl-Same len f buf c = >>=-Always (read_sw buf 0) _ λ _. >>=-Always (get_elem? buf 2) _ λ _.
    >>=-Always (get_elem? buf 3) _ λ _. >>=-Always (read_dw buf 4) _ λ _.
      >>=-Always (read_sw buf 8) _ λ _. >>=-Always (read_sw buf 10) _ λ _.
        >>=-Always (read_sw buf 12) _ λ _. >>=-Always (read_sw buf 14) _ λ _.
          >>=-Always (read_sw buf 16) _ λ _.
            >>=-Always (read_dw buf 18) _
              λ _. >>=-Always (read_dw buf 22) _ λ _. decode_tail-Same len f buf _

fix_found-Same :
    (c : StreamCtrl) (found : Option (FormatDesc × FrameDesc))
    → Same c (elim found [
      | none ↦ c
      | some (_, frame) ↦ record c {
        dw_max_video_frame_size = frame.dw_max_video_frame_buffer_size;
      }
    ])
fix_found-Same c none = refl
fix_found-Same c (some (format, frame)) = refl

fix_frame_size-Same :
    (info : DeviceInfo) (c c' : StreamCtrl) → Same c c' → Same c (fix_frame_size info c')
unfolding fix_frame_size
fix_frame_size-Same info c c' same =
    if_cases (Same c) (c'.dw_max_video_frame_size == 0)
      (λ _.
        fix_found-Same c' (find_frame_desc info.stream_ifs c'.b_format_index c'.b_frame_index)
        ∙ same)
      (λ _. same)

then_Always :
    {A B : Type 0} {P : A → Type 0} {Q : B → Type 0} (m : Option A) (f : A → Option B)
    → Always P m
    → ((a : A) → P a → Always Q (f a))
    → Always Q (m >>= f)
then_Always none f fault k = fault
then_Always (some a) f (returns p) k = k a p

-- The query leaves the interface number alone.
pub query_stream_ctrl-number :
    {S : Type 0} (usb : Usb S) (d : Device) (c : StreamCtrl) (probe : Bool) (req : ℕ) (w : S)
    (o : ℤ × StreamCtrl × S)
    → query_stream_ctrl usb d c probe req w ≡ some o
    → o.1.b_interface_number ≡ c.b_interface_number
unfolding query_stream_ctrl finish_stream_query
query_stream_ctrl-number {S} usb d c probe req w o run = outcome (subst (Always Good) run always)
  where
    Good : ℤ × StreamCtrl × S → Type 0
    Good o = Same c o.1

    outcome : Always Good (some o) → Same c o.1
    outcome (returns p) = p

    r : Reply S
    r = stream_reply usb d c probe req w

    always : Always Good (query_stream_ctrl usb d c probe req w)
    always =
        if_cases (Always Good) (is_le_zero r.result) (λ _. returns refl)
          (λ _.
            if_cases (Always Good) (req == set_cur) (λ _. returns refl)
              (λ _.
                then_Always _ _
                  (decode_ctrl-Same (ctrl_len d.info.ctrl_if.bcd_uvc)
                    d.info.ctrl_if.dw_clock_frequency r.buffer c)
                  (λ c' same. returns (fix_frame_size-Same d.info c c' same))))
