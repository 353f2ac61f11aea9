-- ===== src/Examples/Polling.antt =====
-- A handle with a fresh image, and a reader.
use usb_video_class.Base.{false, ℕ, ◌≡◌, refl, true, inl, some, [], ◌∷◌, map, arith}
use usb_video_class.Base.Int.{pos}
use usb_video_class.Desc.{DeviceInfo}
use usb_video_class.Desc.Lookup.{find_frame, find_frame_desc_stream_if, find_frame_desc}
use usb_video_class.Parse.Layout.{camera_desc, frame_desc, format_desc}
use usb_video_class.Stream.{Stream}
use usb_video_class.Stream.Payload.Refine.{IsValid}
use usb_video_class.Stream.Poll.{Timespec, WaitResult, get_frame}
use usb_video_class.Stream.Poll.Latest.{Hands, get_frame-Hands}
use usb_video_class.Stream.Poll.User.{Round, user_round, user_round-Hands}
use usb_video_class.Examples.Controls.{device}
use usb_video_class.Examples.Descriptors.{camera, yuyv_format, size}
use usb_video_class.Examples.Streams.{idle}

abbrev fresh : Stream
fresh = record idle { holdbuf = 1 ∷ 2 ∷ 3 ∷ 0 ∷ []; hold_bytes = 3; hold_seq = 1; seq = 2 }

fresh-IsValid : IsValid fresh
fresh-IsValid = record {
  small = omega arith;
  within = omega arith;
  partial = inl refl;
  out_room = omega arith;
  hold_room = omega arith;
  held = omega arith;
}

abbrev pub info : DeviceInfo
info = record (device.info) { stream_ifs = camera_desc 1 camera ∷ [] }

abbrev pub noon : Timespec
noon = record { tv_sec = 43200; tv_nsec = 999999999 }

pub size_found :
    find_frame_desc info.stream_ifs 1 2
    ≡ some
        (format_desc yuyv_format (map frame_desc yuyv_format.frames), frame_desc (size 2 320 240))
unfolding find_frame find_frame_desc_stream_if find_frame_desc
size_found = refl

get_frame-Hands_example :
    (s' : Stream) × (get_frame (λ s. s) (λ at s. (WaitResult.expired, s)) noon info fresh (pos 5)
      ≡ some (pos 0, true, s'))
    × Hands fresh (frame_desc (size 2 320 240)) s'
get_frame-Hands_example =
    get_frame-Hands (λ s. s) (λ at s. (WaitResult.expired, s)) noon info fresh (pos 5)
      (format_desc yuyv_format (map frame_desc yuyv_format.frames)) (frame_desc (size 2 320 240))
      fresh-IsValid refl refl size_found refl refl (omega arith)

user_round-Hands_example :
    (s' : Stream) × (n : ℕ) × (user_round info 0 fresh ≡ some (Round.calls s' n))
    × Hands fresh (frame_desc (size 2 320 240)) (record s' { last_polled_seq = n })
    × (user_round info n (record s' { running = true }) ≡ some Round.sleeps)
    × (user_round info n (record s' { running = false }) ≡ some Round.leaves)
user_round-Hands_example =
    user_round-Hands info 0 fresh (format_desc yuyv_format (map frame_desc yuyv_format.frames))
      (frame_desc (size 2 320 240)) fresh-IsValid refl refl size_found refl refl
