-- ===== src/Examples/Relays.antt =====
-- Two images of a small camera, sent and read.
use usb_video_class.Base.{
  ℕ, ◌≡◌, ◌⊎◌, ◌≤◌, length-replicate, refl, true, false, Bool, some, List, [], ◌∷◌, map, arith,
}
use usb_video_class.Base.Int.{ℤ, pos, negsuc}
use usb_video_class.Parse.Layout.{frame_desc, format_desc}
use usb_video_class.Stream.{Stream}
use usb_video_class.Stream.Poll.{WaitResult}
use usb_video_class.Stream.Callback.Delivered.{IsReady, Pieces, image, carrier}
use usb_video_class.Stream.Callback.Relay.{relay, relay-images}
use usb_video_class.Examples.Descriptors.{yuyv_format, size}
use usb_video_class.Examples.Polling.{info, noon, size_found}
use usb_video_class.Device.Claim.{is_success}
use usb_video_class.Stream.Callback.Ownership.{count}
use usb_video_class.Session.{Session, open_ctrl}
use usb_video_class.Session.Relay.{Plays, opened-relays}
use usb_video_class.Session.Streaming.{start_streaming}
use usb_video_class.Session.Streaming.Rollback.{Streams, start_streaming-Streams}
use usb_video_class.Examples.Controls.{camera, camera-KeepsSize}
use usb_video_class.Examples.Sessions.{session, zeros}
use usb_video_class.Examples.Starts.{settings, bus}
use usb_video_class.Examples.Streams.{idle, idle-IsValid, ctrl}

abbrev sent : List (ℕ × Bool × Pieces)
sent =
    (7, false, (1 ∷ 2 ∷ [], (3 ∷ []) ∷ [])) ∷ (8, true, (5 ∷ [], (6 ∷ 7 ∷ []) ∷ (8 ∷ []) ∷ [])) ∷ []

idle-IsReady : IsReady info (frame_desc (size 2 320 240)) idle
idle-IsReady = record {
  valid = idle-IsValid;
  running = refl;
  no_callback = refl;
  described = (format_desc yuyv_format (map frame_desc yuyv_format.frames), size_found);
  room = refl;
  empty = refl;
  no_metadata = (refl, refl);
  unseen = omega arith;
}

relay-images_example :
    (t : Stream) × (relay info
        (λ seq. seq)
        (λ id. negsuc 3)
        (λ s. s)
        (λ at s. (WaitResult.expired, s))
        noon
        (pos 0)
        (map (λ (id, fid, p). carrier id fid p) sent)
        idle
      ≡ some (map (λ (id, fid, p). (pos 0, some (image p))) sent, t))
    × IsReady info (frame_desc (size 2 320 240)) t
relay-images_example =
    relay-images info (frame_desc (size 2 320 240)) (λ seq. seq) (λ id. negsuc 3) (λ s. s)
      (λ at s. (WaitResult.expired, s)) noon (pos 0) sent idle idle-IsReady (omega arith)
      (omega arith)

abbrev new_ids : List ℕ
new_ids = 8 ∷ 9 ∷ 10 ∷ []

new_ids_once : (i : ℕ) → count i new_ids ≤ 1
new_ids_once i = ground arith

opened-relays_example :
    (o : ℤ × Session × List ℕ) × (open_ctrl camera zeros session ctrl [] ≡ some o)
    × ((is_success o.0 ≡ false)
        ⊎ ((o.0 ≡ pos 0)
            × (s : Stream) × (o.1.streams ≡ s ∷ [])
            × Plays camera bus new_ids
                ([] ∷ settings ∷ [])
                (λ seq. seq)
                (λ s. s)
                (λ at s. (WaitResult.expired, s))
                noon
                (pos 0)
                o.1.device.info
                sent
                s
                o.2))
opened-relays_example =
    opened-relays camera bus new_ids ([] ∷ settings ∷ []) (λ seq. seq) (λ s. s)
      (λ at s. (WaitResult.expired, s)) noon (pos 0) zeros camera-KeepsSize
      (λ n. length-replicate {A = ℕ} n 0) session ctrl []
      (format_desc yuyv_format (map frame_desc yuyv_format.frames)) (frame_desc (size 2 320 240))
      settings sent (omega arith) (omega arith) (omega arith) size_found refl new_ids_once
      (omega arith) (omega arith)

start_streaming-Streams_example :
    (o : ℤ × Session × List ℕ × List ℕ) × (start_streaming camera bus new_ids true
        ([] ∷ settings ∷ [])
        zeros
        session
        ctrl
        []
      ≡ some o)
    × Streams camera bus new_ids true [] ctrl o
start_streaming-Streams_example =
    start_streaming-Streams camera bus new_ids true ([] ∷ settings ∷ []) settings new_ids_once zeros
      session ctrl [] camera-KeepsSize (λ n. length-replicate {A = ℕ} n 0) (omega arith)
      (omega arith) refl (omega arith)
