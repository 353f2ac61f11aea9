-- ===== src/Examples/Descriptors.antt =====
-- The descriptors of a camera with one format and two frame sizes.
use usb_video_class.Base.{concat, ℕ, ◌≡◌, refl, [], ◌∷◌, some, arith}
use usb_video_class.Base.Int.{pos}
use usb_video_class.Format.{fourcc}
use usb_video_class.Parse.{Interface}
use usb_video_class.Parse.Control.{scan_streaming}
use usb_video_class.Parse.Layout.{
  FrameSpec, FormatSpec, CameraSpec, FrameFits, AllDw, AllFrames, AllFormats, camera_blocks,
  camera_desc,
}
use usb_video_class.Parse.Camera.{scan_streaming-camera_blocks}
use usb_video_class.Examples.Controls.{device}

abbrev pub size : ℕ → ℕ → ℕ → FrameSpec
size i w h = record {
  index = i;
  capabilities = 0;
  width = w;
  height = h;
  min_bit_rate = 1000;
  max_bit_rate = 2000;
  buffer_size = 614400;
  default_interval = 333333;
  first_interval = 333333;
  more_intervals = 666666 ∷ [];
}

abbrev pub yuyv_format : FormatSpec
yuyv_format = record {
  format_index = 1;
  guid = fourcc b'Y' b'U' b'Y' b'2';
  bits_per_pixel = 16;
  default_frame = 1;
  aspect_x = 0;
  aspect_y = 0;
  interlace = 0;
  copy_protect = 0;
  frames = size 1 640 480 ∷ size 2 320 240 ∷ [];
}

abbrev pub camera : CameraSpec
camera = record {
  total_length = 109;
  endpoint_number = 1;
  info_bits = 0;
  terminal_link = 3;
  still_method = 0;
  header_tail = 0 ∷ 0 ∷ 1 ∷ 0 ∷ [];
  formats = yuyv_format ∷ [];
}

abbrev interface : Interface
interface = record {
  b_interface_number = 1;
  b_interface_class = 14;
  b_interface_sub_class = 2;
  endpoint_addresses = [];
  extra = concat (camera_blocks camera);
}

vga-FrameFits : FrameFits (size 1 640 480)
vga-FrameFits = record {
  width_fits = omega arith;
  height_fits = omega arith;
  min_bit_rate_fits = omega arith;
  max_bit_rate_fits = omega arith;
  buffer_size_fits = omega arith;
  default_interval_fits = omega arith;
  intervals_fit = AllDw.dw (omega arith) (AllDw.dw (omega arith) AllDw.none_left);
  block_fits = omega arith;
}

qvga-FrameFits : FrameFits (size 2 320 240)
qvga-FrameFits = record {
  width_fits = omega arith;
  height_fits = omega arith;
  min_bit_rate_fits = omega arith;
  max_bit_rate_fits = omega arith;
  buffer_size_fits = omega arith;
  default_interval_fits = omega arith;
  intervals_fit = AllDw.dw (omega arith) (AllDw.dw (omega arith) AllDw.none_left);
  block_fits = omega arith;
}

camera-AllFormats : AllFormats camera.formats
camera-AllFormats =
    AllFormats.format refl
      (AllFrames.frame vga-FrameFits (AllFrames.frame qvga-FrameFits AllFrames.none_left))
      AllFormats.none_left

scan_streaming-camera_blocks_example :
    scan_streaming (interface ∷ []) device.info 0
    ≡ some (pos 0, record (device.info) { stream_ifs = camera_desc 1 camera ∷ [] })
scan_streaming-camera_blocks_example =
    scan_streaming-camera_blocks camera (interface ∷ []) device.info 0 interface refl refl
      (omega arith) camera-AllFormats (omega arith)
