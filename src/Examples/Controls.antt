-- ===== src/Examples/Controls.antt =====
-- A camera that keeps the block that it was last sent, and a bus that carries no bytes.
use usb_video_class.Base.{
  ℕ, suc, ◌≡◌, refl, ◌↔◌, ◌≤◌, ◌≢◌, true, false, some, List, [], ◌∷◌, ◌==◌, if◌then◌else◌, arith,
  length, replicate, Bool-cases, inl, inr, ap,
}
use usb_video_class.Base.Int.{ℤ, pos, negsuc}
use usb_video_class.Desc.{FrameFormat}
use usb_video_class.Device.{Device}
use usb_video_class.Device.Claim.{claim_if, is_success, SameBut, claim_if_exact}
use usb_video_class.Usb.{Setup, Reply, Usb, KeepsSize, set_cur, get_cur}
use usb_video_class.Ctrl.{StreamCtrl}
use usb_video_class.Ctrl.Query.{encode_ctrl, decode_ctrl, query_stream_ctrl, stream_reply}
use usb_video_class.Ctrl.RoundTrip.{InRange, decode_ctrl-encode_ctrl}
use usb_video_class.Ctrl.Total.{Reports, query_stream_ctrl-Reports}
use usb_video_class.Ctrl.Negotiate.{
  probe_stream_ctrl, probe_stream_ctrl_exact, probe_stream_ctrl_silent,
}
use usb_video_class.Format.{frame_format_for_guid, matches_guid}
use usb_video_class.Format.Table.{IsConcrete, guid_of, Covers, searches_iff}
use usb_video_class.Examples.Streams.{ctrl}

abbrev pub fill : List ℕ → List ℕ → List ℕ
fill bs [] = []
fill [] (x ∷ xs) = x ∷ xs
fill (b ∷ bs) (x ∷ xs) = b ∷ fill bs xs

pub length-fill : (bs xs : List ℕ) → length (fill bs xs) ≡ length xs
length-fill bs [] = refl
length-fill [] (x ∷ xs) = refl
length-fill (b ∷ bs) (x ∷ xs) = ap suc (length-fill bs xs)

abbrev camera_reply : Setup → List ℕ → List ℕ → Reply (List ℕ)
camera_reply setup buf kept =
    if setup.request == set_cur
    then record { result = pos 34; buffer = buf; after = buf }
    else record { result = pos 34; buffer = fill kept buf; after = kept }

abbrev pub camera : Usb (List ℕ)
camera = record {
  control_transfer = camera_reply;
  detach_kernel_driver = λ idx w. (negsuc 4, w);
  attach_kernel_driver = λ idx w. (pos 0, w);
  claim_interface = λ idx w. (pos 0, w);
  release_interface = λ idx w. (pos 0, w);
  set_interface_alt_setting = λ idx alt w. (pos 0, w);
}

pub camera-KeepsSize : KeepsSize camera
camera-KeepsSize setup buf kept = elim (Bool-cases (setup.request == set_cur)) [
  | inl e ↦ rw e refl
  | inr e ↦ rw e (length-fill kept buf)
]

-- A bus on which no control transfer carries a byte.
abbrev dead : Usb ℕ
dead = record {
  control_transfer = λ setup buf w. record { result = pos 0; buffer = buf; after = suc w };
  detach_kernel_driver = λ idx w. (negsuc 3, w);
  attach_kernel_driver = λ idx w. (negsuc 3, w);
  claim_interface = λ idx w. (negsuc 3, w);
  release_interface = λ idx w. (negsuc 3, w);
  set_interface_alt_setting = λ idx alt w. (negsuc 3, w);
}

abbrev pub device : Device
device = record {
  info = record {
    ctrl_if = record {
      input_term_descs = [];
      selector_unit_descs = [];
      processing_unit_descs = [];
      extension_unit_descs = [];
      bcd_uvc = 0x0110;
      dw_clock_frequency = 0;
      b_endpoint_address = 0x83;
      b_interface_number = 0;
    };
    stream_ifs = [];
  };
  claimed = λ idx. false;
}

ctrl-InRange : InRange ctrl
ctrl-InRange = record {
  hint = omega arith;
  interval = omega arith;
  key_frame_rate = omega arith;
  p_frame_rate = omega arith;
  comp_quality = omega arith;
  comp_window_size = omega arith;
  delay = omega arith;
  max_video_frame_size = omega arith;
  max_payload_transfer_size = omega arith;
  clock_frequency = omega arith;
}

decode_ctrl-encode_ctrl_example :
    decode_ctrl 34 0 (encode_ctrl 34 ctrl) (record ctrl { w_delay = 7 }) ≡ some ctrl
decode_ctrl-encode_ctrl_example =
    decode_ctrl-encode_ctrl 0 ctrl (record ctrl { w_delay = 7 }) ctrl-InRange

query_stream_ctrl-Reports_example :
    (o : ℤ × StreamCtrl × List ℕ) × (query_stream_ctrl camera device ctrl true get_cur
        (replicate 34 1)
      ≡ some o)
    × Reports ctrl get_cur (stream_reply camera device ctrl true get_cur (replicate 34 1)) o
query_stream_ctrl-Reports_example =
    query_stream_ctrl-Reports camera device ctrl true get_cur (replicate 34 1) camera-KeepsSize

probe_stream_ctrl_exact_example :
    (o : ℤ × StreamCtrl × List ℕ) × (probe_stream_ctrl camera device ctrl [] ≡ some o)
    × ((o.0 ≡ pos 0) ↔ (
        (1 ≡ o.1.b_format_index)
        × (2 ≡ o.1.b_frame_index)
        × (o.1.dw_max_payload_transfer_size ≤ 3072)))
probe_stream_ctrl_exact_example = probe_stream_ctrl_exact camera camera-KeepsSize device ctrl []

probe_stream_ctrl_silent_example :
    (w' : ℕ) × (probe_stream_ctrl dead device ctrl 0 ≡ some (pos 0, ctrl, w'))
probe_stream_ctrl_silent_example =
    probe_stream_ctrl_silent dead (λ setup buf w. refl) device ctrl 0 (λ setup buf v. refl)

claim_if_exact_example :
    (r : ℤ × Device × List ℕ) × (claim_if camera device 1 [] ≡ some r)
    × (is_success r.0 ≡ r.1.claimed 1)
    × SameBut 1 device r.1
claim_if_exact_example = claim_if_exact camera device 1 [] (omega arith)

yuyv_is_not_any : FrameFormat.yuyv ≢ FrameFormat.any
yuyv_is_not_any e = cc

searches_iff_example :
    ((frame_format_for_guid (guid_of FrameFormat.yuyv) ≡ FrameFormat.yuyv)
      ↔ (IsConcrete FrameFormat.yuyv × (guid_of FrameFormat.yuyv ≡ guid_of FrameFormat.yuyv)))
    × ((matches_guid 3 FrameFormat.any (guid_of FrameFormat.yuyv) ≡ true)
        ↔ Covers (guid_of FrameFormat.yuyv) FrameFormat.any)
searches_iff_example =
    searches_iff 3 FrameFormat.yuyv FrameFormat.any (guid_of FrameFormat.yuyv) yuyv_is_not_any
      (omega arith)
