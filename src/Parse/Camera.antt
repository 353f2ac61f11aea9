-- ===== src/Parse/Camera.antt =====
-- `uvc_scan_streaming` of src/device.c on the descriptors of a camera.
use usb_video_class.Base.{
  concat, ℕ, ◌+◌, ◌*◌, ◌^◌, ◌<◌, ◌≡◌, refl, ap, ◌∙◌, subst, sym, some, List, [], ◌∷◌, ◌++◌, length,
  get_elem?, length-append, arith, map,
}
use mathlib.Core.List.{append_assoc, append-nil}
use usb_video_class.Base.Bytes.{u64_mod}
use usb_video_class.Base.Int.{pos}
use usb_video_class.Desc.{FrameDesc, FormatDesc, StreamingInterface, DeviceInfo}
use usb_video_class.Parse.{Interface, append_one}
use usb_video_class.Parse.Blocks.{Parses, done, step, scan_all-Parses}
use usb_video_class.Parse.Control.{scan_streaming, blank_stream_if}
use usb_video_class.Parse.Streaming.{
  parse_vs, parse_vs_block, parse_vs_input_header, append_frame, add_frame, change_last,
  endpoint_bits,
}
use usb_video_class.Parse.Layout.{
  FrameSpec, FormatSpec, CameraSpec, AllFrames, AllFormats, frame, format, dw_list, interval_list,
  frame_block, format_block, header_block, format_blocks, camera_blocks, format_descs_of,
  camera_desc, frame_desc, format_desc,
}
use usb_video_class.Parse.Formats.{frame_block-parses, format_block-parses}

change_last-append :
    (change : FormatDesc → FormatDesc) (xs : List FormatDesc) (x : FormatDesc)
    → change_last change (append_one xs x) ≡ some (append_one xs (change x))
unfolding change_last
change_last-append change [] x = refl
change_last-append change (y ∷ []) x = refl
change_last-append change (y ∷ z ∷ xs) x = rw (change_last-append change (z ∷ xs) x) refl

length-dw_list : (ds : List ℕ) → length (dw_list ds) ≡ 4 * length ds
length-dw_list [] = refl
length-dw_list (d ∷ ds) = omega (arith, length-dw_list ds)

length-frame_block : (f : FrameSpec) → length (frame_block f) ≡ 26 + 4 * length (interval_list f)
length-frame_block f = omega (arith, length-dw_list (interval_list f))

length-format_block : (f : FormatSpec) → length f.guid ≡ 16 → length (format_block f) ≡ 27
length-format_block f g = omega (
  arith,
  g,
  length-append f.guid (
      f.bits_per_pixel ∷ f.default_frame ∷ f.aspect_x ∷ f.aspect_y ∷ f.interlace ∷ f.copy_protect
      ∷ []),
)

-- An interface whose last format has the frames `acc` so far.
abbrev Building :
    StreamingInterface → List FormatDesc → FormatSpec → List FrameDesc → StreamingInterface
Building s xs f acc = record s { format_descs = append_one xs (format_desc f acc) }

module _ (s : StreamingInterface) (xs : List FormatDesc) (f : FormatSpec) where
  append_frame-Building :
      (acc : List FrameDesc) (g : FrameDesc)
      → append_frame g (Building s xs f acc) ≡ some (Building s xs f (append_one acc g))
  unfolding append_frame
  append_frame-Building acc g = rw (change_last-append (add_frame g) xs (format_desc f acc)) refl

  frames-Parses :
      {bs : List (List ℕ)} {z : StreamingInterface} (gs : List FrameSpec) (acc : List FrameDesc)
      → AllFrames gs
      → Parses parse_vs bs (Building s xs f (acc ++ map frame_desc gs)) z
      → Parses parse_vs (map frame_block gs ++ bs) (Building s xs f acc) z
  frames-Parses {bs} {z} [] acc a p =
      subst (λ fs. Parses parse_vs bs (Building s xs f fs) z) (append-nil acc) p
  frames-Parses {bs} {z} (g ∷ gs) acc (frame fits a) p =
      step (omega (arith, length-frame_block g)) (λ rest. ap some (sym (length-frame_block g)))
        (λ rest.
          frame_block-parses g (length (frame_block g)) rest (Building s xs f acc) fits
          ∙ (rw (append_frame-Building acc (frame_desc g)) refl))
        (frames-Parses gs (append_one acc (frame_desc g)) a (
          subst (λ fs. Parses parse_vs bs (Building s xs f fs) z)
            (sym (append_assoc acc (frame_desc g ∷ []) (map frame_desc gs))) p))

module _ (s : StreamingInterface) where
  abbrev With : List FormatDesc → StreamingInterface
  With xs = record s { format_descs = xs }

  formats-Parses :
      (fs : List FormatSpec) (xs : List FormatDesc)
      → AllFormats fs
      → Parses parse_vs (format_blocks fs) (With xs) (With (xs ++ format_descs_of fs))
  formats-Parses [] xs a =
      subst (λ ys. Parses parse_vs [] (With xs) (With ys)) (sym (append-nil xs)) done
  formats-Parses (f ∷ fs) xs (format g a more) =
      step (omega (arith, length-format_block f g))
        (λ rest. ap some (sym (length-format_block f g)))
        (λ rest. format_block-parses f (length (format_block f)) rest (With xs) g)
        (frames-Parses s xs f f.frames [] a (
          subst
            (λ ys.
              Parses parse_vs (format_blocks fs) (Building s xs f (map frame_desc f.frames))
                (With ys))
            (append_assoc xs (format_desc f (map frame_desc f.frames) ∷ []) (format_descs_of fs))
            (formats-Parses fs (append_one xs (format_desc f (map frame_desc f.frames))) more)))

endpoint_bits_in : (n : ℕ) → n < 16 → endpoint_bits (2 ^ 7 + n) ≡ 2 ^ 7 + n
endpoint_bits_in n h = omega arith

header_block-parses :
    (c : CameraSpec) (number n : ℕ) (rest : List ℕ)
    → c.endpoint_number < 16
    → parse_vs (header_block c ++ rest) n (blank_stream_if number)
      ≡ some (pos 0, record (camera_desc number c) { format_descs = [] })
unfolding parse_vs parse_vs_block parse_vs_input_header
header_block-parses c number n rest h = rw (endpoint_bits_in c.endpoint_number h) refl

-- The scan of an interface whose class descriptors are the specification's blocks for an input
-- header and for uncompressed formats with their frames (values of the width of their fields, IN
-- endpoint below 16) succeeds and appends exactly the interface that they describe.
pub scan_streaming-camera_blocks :
    (c : CameraSpec) (config : List Interface) (info : DeviceInfo) (idx : ℕ) (i : Interface)
    → get_elem? config idx ≡ some i
    → i.extra ≡ concat (camera_blocks c)
    → c.endpoint_number < 16
    → AllFormats c.formats
    → length (concat (camera_blocks c)) < u64_mod
    → scan_streaming config info idx
      ≡ some (
        pos 0,
        record info {
          stream_ifs = append_one info.stream_ifs (camera_desc i.b_interface_number c);
        },
      )
unfolding scan_streaming
scan_streaming-camera_blocks c config info idx i found blocks ep fits small =
    rw (found, blocks, scan_all-Parses parse_vs parsed small) refl
  where
    parsed :
        Parses parse_vs
          (camera_blocks c)
          (blank_stream_if i.b_interface_number)
          (camera_desc i.b_interface_number c)
    parsed =
        step (omega arith) (λ rest. ap some (omega arith))
          (λ rest. header_block-parses c i.b_interface_number (length (header_block c)) rest ep)
          (formats-Parses (camera_desc i.b_interface_number c) c.formats [] fits)
