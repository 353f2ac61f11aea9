-- ===== src/Examples/Diagnostics.antt =====
-- What is printed of a small camera.
use usb_video_class.Base.{◌≡◌, refl, ◌⊎◌, ◌↔◌, true, none, some, [], ◌∷◌, Runs}
use usb_video_class.Base.Int.{negsuc}
use usb_video_class.Search.First.{All}
use usb_video_class.Diag.{
  find_msg, perror, text, error_line, frame, interval, print_frame, print_frame_intervals, rate_of,
  print_intervals, print_diag, print_frameformats,
}
use usb_video_class.Diag.Exact.{InterfacePrints, prints_iff}
use usb_video_class.Parse.Layout.{frame_desc}
use usb_video_class.Examples.Descriptors.{size}
use usb_video_class.Examples.Discoveries.{camera_of}
use usb_video_class.Examples.Polling.{info}

frame_printed :
    print_frame (frame_desc (size 2 320 240))
    ≡ some (frame 2 0 320 240 1000 2000 614400 30 ∷ interval 0 30 ∷ interval 1 15 ∷ [])
unfolding print_frame print_frame_intervals rate_of print_intervals
frame_printed = refl

error_printed :
    perror (negsuc 50) (some "stream")
    ≡ text "stream" ∷ text ": " ∷ error_line "Invalid mode" (negsuc 50) ∷ []
unfolding perror find_msg
error_printed = refl

prints_iff_example :
    (Runs (print_diag (camera_of none) true info) ↔ (
      (info.ctrl_if.bcd_uvc ≡ 0)
      ⊎ (Runs (camera_of none).ids × All InterfacePrints info.stream_ifs)))
    × (Runs (print_frameformats info)
        ↔ ((info.ctrl_if.bcd_uvc ≡ 0) ⊎ All InterfacePrints info.stream_ifs))
prints_iff_example = prints_iff (camera_of none) true info
