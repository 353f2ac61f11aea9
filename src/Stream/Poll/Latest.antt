-- ===== src/Stream/Poll/Latest.antt =====
-- `uvc_stream_get_frame` of src/stream.c, for a reader that has an image to read.
use usb_video_class.Base.{
  ℕ, ◌+◌, ◌*◌, ◌≤◌, ◌<◌, ◌≡◌, refl, ap, ◌∙◌, true, false, Option, none, some, List, ltb, length,
  take, length-replicate, arith, lt→ltb, slice-in_range, length-slice, write_at-in_range, written,
  length-written, take-written, inl, inr, not, ◌==◌, ==_iff, if_true, if_false, Bool-cases,
}
use usb_video_class.Base.Int.{ℤ, pos}
use usb_video_class.Desc.{FormatDesc, FrameDesc, DeviceInfo}
use usb_video_class.Desc.Lookup.{find_frame_desc}
use usb_video_class.Stream.{Stream}
use usb_video_class.Stream.Payload.Refine.{IsValid}
use usb_video_class.Stream.Poll.{
  buffer_for, copy_into, copy_metadata, populate_frame, take_latest, get_frame, Timespec,
  WaitResult, step_of, deadline,
}

-- The user's buffer is as long as `data_bytes` says.
abbrev pub HasRoom : ℕ → Option (List ℕ) → Type 0
HasRoom n none = n ≡ 0
HasRoom n (some buf) = n ≤ length buf

length-buffer_for :
    (old n : ℕ) (buf : Option (List ℕ)) → HasRoom old buf → n ≤ length (buffer_for old n buf)
length-buffer_for old n none h = elim (Bool-cases (ltb old n)) [
  | inl e ↦ rw e (omega (arith, length-replicate {A = ℕ} n 0))
  | inr e ↦ rw e (ground arith)
]
length-buffer_for old n (some buf) h = elim (Bool-cases (ltb old n)) [
  | inl e ↦ rw e (omega (arith, length-replicate {A = ℕ} n 0))
  | inr e ↦ rw e (ground arith)
]

-- The first `n` bytes of the copy are those of the source.
copy_into-Copies :
    (buf src : List ℕ) (n : ℕ)
    → n ≤ length src
    → n ≤ length buf
    → (copy : List ℕ) × (copy_into buf src n ≡ some copy)
      × (take n copy ≡ take n src)
      × (length copy ≡ length buf)
unfolding copy_into
copy_into-Copies buf src n h room = (
  written buf 0 (take n src),
  rw (slice-in_range src 0 n (omega arith), write_at-in_range buf 0 (take n src) fits),
  ap (λ k. take k (written buf 0 (take n src))) (omega (arith, size))
      ∙ take-written buf 0 (take n src) fits,
  length-written buf 0 (take n src) fits,
)
  where
    size : length (take n src) ≡ n
    size = length-slice src 0 n (omega arith)

    fits : 0 + length (take n src) ≤ length buf
    fits = omega (arith, size)

-- The frame that a reader is handed: the image last announced, with its number of bytes and the
-- size of its descriptor, marked as read.
abbrev pub Hands : Stream → FrameDesc → Stream → Type 0
Hands s desc s' =
    (image : List ℕ) × (s'.frame.image ≡ some image)
    × (take s.hold_bytes image ≡ take s.hold_bytes s.holdbuf)
    × (s'.frame.data_bytes ≡ s.hold_bytes)
    × (s'.frame.width ≡ desc.w_width)
    × (s'.frame.height ≡ desc.w_height)
    × (s'.last_polled_seq ≡ s.hold_seq)

-- What a read leaves alone; the frame stays as long as it says.
abbrev pub Leaves : Stream → Stream → Type 0
Leaves s s' =
    (s'.running ≡ s.running)
    × (s'.user_cb ≡ s.user_cb)
    × (s'.cur_ctrl ≡ s.cur_ctrl)
    × (s'.seq ≡ s.seq)
    × (s'.hold_seq ≡ s.hold_seq)
    × (s'.got_bytes ≡ s.got_bytes)
    × (s'.meta_got_bytes ≡ s.meta_got_bytes)
    × (s'.meta_hold_bytes ≡ s.meta_hold_bytes)
    × IsValid s'
    × HasRoom s'.frame.data_bytes s'.frame.image

pub populate_frame-Hands :
    (info : DeviceInfo) (s : Stream) (format : FormatDesc) (desc : FrameDesc)
    → IsValid s
    → HasRoom s.frame.data_bytes s.frame.image
    → s.meta_hold_bytes ≡ 0
    → find_frame_desc info.stream_ifs s.cur_ctrl.b_format_index s.cur_ctrl.b_frame_index
      ≡ some (format, desc)
    → (s' : Stream) × (populate_frame info s ≡ some s')
      × Hands s desc (record s' { last_polled_seq = s'.hold_seq })
      × Leaves s (record s' { last_polled_seq = s'.hold_seq })
unfolding populate_frame copy_metadata
populate_frame-Hands info s format desc v room no_meta found =
    let old = buffer_for s.frame.data_bytes s.hold_bytes s.frame.image in
    let fits : s.hold_bytes ≤ length old =
      length-buffer_for s.frame.data_bytes s.hold_bytes s.frame.image room in
    let (image, run, same, long) = copy_into-Copies old s.holdbuf s.hold_bytes v.held fits in
    let no_meta_test : (s.meta_hold_bytes == 0) ≡ true = (==_iff s.meta_hold_bytes 0).1 no_meta in
    (
      record s {
        frame = record (s.frame) {
          frame_format = s.frame_format;
          width = desc.w_width;
          height = desc.w_height;
          step = step_of s.frame_format desc.w_width;
          sequence = s.hold_seq;
          capture_time_finished = s.capture_time_finished;
          image = some image;
          data_bytes = s.hold_bytes;
        };
      },
      rw (found, run, no_meta_test) refl,
      (image, refl, same, refl, refl, refl, refl),
      (
        refl,
        refl,
        refl,
        refl,
        refl,
        refl,
        refl,
        refl,
        record {
          small = v.small;
          within = v.within;
          partial = v.partial;
          out_room = v.out_room;
          hold_room = v.hold_room;
          held = v.held;
        },
        omega (arith, fits, long),
      ),
    )

module _ (wait : Stream → Stream) (timed_wait : Option Timespec → Stream → WaitResult × Stream)
    (now : Timespec) where
  pub get_frame-Leaves :
      (info : DeviceInfo) (s : Stream) (timeout_us : ℤ) (format : FormatDesc) (desc : FrameDesc)
      → IsValid s
      → HasRoom s.frame.data_bytes s.frame.image
      → s.meta_hold_bytes ≡ 0
      → find_frame_desc info.stream_ifs s.cur_ctrl.b_format_index s.cur_ctrl.b_frame_index
        ≡ some (format, desc)
      → s.running ≡ true
      → s.user_cb ≡ false
      → s.last_polled_seq < s.hold_seq
      → (s' : Stream) × (get_frame wait timed_wait now info s timeout_us ≡ some (pos 0, true, s'))
        × Hands s desc s'
        × Leaves s s'
  unfolding get_frame take_latest
  get_frame-Leaves info s timeout_us format desc v room no_meta found on no_cb unread =
      let new : ltb s.last_polled_seq s.hold_seq ≡ true =
        lt→ltb s.last_polled_seq s.hold_seq unread in
      let (s', run, hands, leaves) = populate_frame-Hands info s format desc v room no_meta found in
      (
        record s' { last_polled_seq = s'.hold_seq },
        if_false _ _ (ap not on)
            ∙ (if_false _ _ no_cb ∙ (if_true _ _ new ∙ (if_true _ _ new ∙ (rw run refl)))),
        hands,
        leaves,
      )

  -- Whatever the timeout, a reader of a valid running stream without a callback, with a frame
  -- descriptor, a frame buffer as long as it says and no metadata, that has not read the image last
  -- announced, is handed exactly that image, without an access outside a buffer.
  pub get_frame-Hands :
      (info : DeviceInfo) (s : Stream) (timeout_us : ℤ) (format : FormatDesc) (desc : FrameDesc)
      → IsValid s
      → HasRoom s.frame.data_bytes s.frame.image
      → s.meta_hold_bytes ≡ 0
      → find_frame_desc info.stream_ifs s.cur_ctrl.b_format_index s.cur_ctrl.b_frame_index
        ≡ some (format, desc)
      → s.running ≡ true
      → s.user_cb ≡ false
      → s.last_polled_seq < s.hold_seq
      → (s' : Stream) × (get_frame wait timed_wait now info s timeout_us ≡ some (pos 0, true, s'))
        × Hands s desc s'
  get_frame-Hands info s timeout_us format desc v room no_meta found on no_cb unread =
      let (s', run, hands, _) =
        get_frame-Leaves info s timeout_us format desc v room no_meta found on no_cb unread in
      (s', run, hands)

-- The deadline of a timed wait has fewer than 10 ^ 9 nanoseconds, as the wait asks for, and lies
-- exactly the timeout after the clock's reading.
deadline_exact :
    (timeout_us : ℕ) (now : Timespec)
    → ((deadline timeout_us now).tv_nsec < 1000000000)
      × ((deadline timeout_us now).tv_sec * 1000000000 + (deadline timeout_us now).tv_nsec
          ≡ now.tv_sec * 1000000000 + now.tv_nsec + timeout_us * 1000)
deadline_exact timeout_us now = (omega arith, omega arith)
