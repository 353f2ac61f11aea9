-- ===== src/Stream/Poll/User.antt =====
-- `_uvc_user_caller` of src/stream.c, the thread that hands images to the user's callback.
use usb_video_class.Base.{
  ℕ, ◌≡◌, refl, ap, ◌∙◌, Bool, true, false, not, ◌&&◌, Option, some, ◌==◌, ==_iff, if◌then◌else◌,
  if_true, if_false, ◌>>=◌,
}
use usb_video_class.Desc.{FormatDesc, FrameDesc, DeviceInfo}
use usb_video_class.Desc.Lookup.{find_frame_desc}
use usb_video_class.Stream.{Stream}
use usb_video_class.Stream.Payload.Refine.{IsValid}
use usb_video_class.Stream.Poll.{populate_frame}
use usb_video_class.Stream.Poll.Latest.{HasRoom, Hands, populate_frame-Hands}

-- What the thread does with the mutex in its hands: it sleeps on the condition, leaves its loop, or
-- calls the user with the handle's frame and the sequence number of the image.
pub data Round : Type 0 where
  sleeps leaves : Round
  calls : Stream → ℕ → Round

-- One pass, at the start of the loop or after it woke up; `last_seq` is the thread's variable.
unfoldable pub user_round : DeviceInfo → ℕ → Stream → Option Round
user_round info last_seq s =
    if s.running && last_seq == s.hold_seq
    then some sleeps
    else (if not s.running
        then some leaves
        else (do s' ← populate_frame info s; some (calls s' s'.hold_seq)))

stays :
    (info : DeviceInfo) (s : Stream) (n : ℕ)
    → s.running ≡ true
    → n ≡ s.hold_seq
    → user_round info n s ≡ some sleeps
unfolding user_round
stays info s n on e = if_true _ _ (both s.running (n == s.hold_seq) on ((==_iff n s.hold_seq).1 e))
  where
    both : (a b : Bool) → a ≡ true → b ≡ true → (a && b) ≡ true
    both a b e f = rw (e, f) refl

-- For a valid running stream with a frame descriptor, a frame buffer as long as it says and no
-- metadata, the thread calls the user with the image last announced if that has another number
-- than the last one that it has seen, without an access outside a buffer. On the handle that this
-- leaves, its next round sleeps if the handle runs, and leaves the loop if it does not.
pub user_round-Hands :
    (info : DeviceInfo) (last_seq : ℕ) (s : Stream) (format : FormatDesc) (desc : FrameDesc)
    → IsValid s
    → HasRoom s.frame.data_bytes s.frame.image
    → s.meta_hold_bytes ≡ 0
    → find_frame_desc info.stream_ifs s.cur_ctrl.b_format_index s.cur_ctrl.b_frame_index
      ≡ some (format, desc)
    → s.running ≡ true
    → (last_seq == s.hold_seq) ≡ false
    → ((s' : Stream) × (n : ℕ) × (user_round info last_seq s ≡ some (calls s' n))
        × Hands s desc (record s' { last_polled_seq = n })
        × (user_round info n (record s' { running = true }) ≡ some sleeps)
        × (user_round info n (record s' { running = false }) ≡ some leaves))
unfolding user_round
user_round-Hands info last_seq s format desc v room no_meta found on fresh =
    let (s', run, hands, _) = populate_frame-Hands info s format desc v room no_meta found in
    let awake : (s.running && last_seq == s.hold_seq) ≡ false = waking s.running _ fresh in
    (
      s',
      s'.hold_seq,
      if_false _ _ awake ∙ (if_false _ _ (ap not on) ∙ rw run refl),
      hands,
      stays info (record s' { running = true }) s'.hold_seq refl refl,
      refl,
    )
  where
    waking : (a b : Bool) → b ≡ false → (a && b) ≡ false
    waking true b e = e
    waking false b e = refl
