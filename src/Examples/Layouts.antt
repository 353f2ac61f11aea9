-- ===== src/Examples/Layouts.antt =====
-- The descriptors of a camera with JPEG images, with a colour format block.
use usb_video_class.Base.{ℕ, ◌≡◌, refl, some, List, [], ◌∷◌, ◌++◌, replicate, arith, true, false}
use usb_video_class.Base.Int.{pos}
use usb_video_class.Desc.{StreamingInterface}
use usb_video_class.Parse.{Interface, append_one}
use usb_video_class.Parse.Control.{scan_streaming}
use usb_video_class.Parse.Total.{
  input_header, mjpeg_format, mjpeg_frame, another, Layout, remainder, block, scan_streaming-Ends,
}
use usb_video_class.Examples.Controls.{device}

abbrev bytes : List ℕ
bytes =
    (14 ∷ 36 ∷ 1 ∷ 1 ∷ 71 ∷ 0 ∷ 0x81 ∷ 0 ∷ 3 ∷ 0 ∷ 0 ∷ 0 ∷ 1 ∷ 0 ∷ [])
    ++ (11 ∷ 36 ∷ 6 ∷ 1 ∷ 1 ∷ 0 ∷ 1 ∷ 0 ∷ 0 ∷ 0 ∷ 0 ∷ [])
    ++ (30 ∷ 36 ∷ 7 ∷ 1 ∷ 0 ∷ 128 ∷ 2 ∷ 224 ∷ 1 ∷ replicate 16 0)
    ++ (1 ∷ 21 ∷ 22 ∷ 5 ∷ 0 ∷ [])
    ++ (6 ∷ 36 ∷ 13 ∷ 1 ∷ 1 ∷ 4 ∷ [])

abbrev interface : Interface
interface = record {
  b_interface_number = 1;
  b_interface_class = 14;
  b_interface_sub_class = 2;
  endpoint_addresses = [];
  extra = bytes;
}

bytes-Layout : Layout false bytes
bytes-Layout =
    block {after = false} {n = 14} refl (omega arith) (omega arith)
      (input_header refl (omega arith))
      (block {after = true} {n = 11} refl (omega arith) (omega arith)
        (mjpeg_format refl (omega arith))
        (block {after = true} {n = 30} refl (omega arith) (omega arith)
          (mjpeg_frame {i = 1} refl refl (omega arith))
          (block {after = true} {n = 6} refl (omega arith) (omega arith)
            (another 13 refl (ground arith) (ground arith) (ground arith) (ground arith)
              (ground arith) (ground arith) (ground arith) (ground arith))
            (remainder (omega arith)))))

scan_streaming-Ends_example :
    (s : StreamingInterface) × (scan_streaming (interface ∷ []) device.info 0
      ≡ some (pos 0, record (device.info) { stream_ifs = append_one device.info.stream_ifs s }))
scan_streaming-Ends_example =
    scan_streaming-Ends (interface ∷ []) device.info 0 interface refl bytes-Layout (omega arith)
