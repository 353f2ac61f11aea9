-- ===== src/Examples/Settings.antt =====
-- A camera that keeps the bytes that it was last sent, and two of its controls.
use usb_video_class.Base.{
  ℕ, zero, suc, ◌≡◌, ◌↔◌, refl, ap, some, List, [], ◌∷◌, ◌==◌, if◌then◌else◌, arith, length,
  replicate, length-replicate, Bool-cases, inl, inr,
}
use usb_video_class.Base.Int.{ℤ, pos, negsuc}
use usb_video_class.Desc.{ControlInterface}
use usb_video_class.Usb.{Setup, Reply, Usb, KeepsSize, set_cur, get_cur}
use usb_video_class.Controls.{
  camera_terminal, processing_unit, get_control, set_control, entity_id, get_camera_terminal,
  processing_unit_id,
}
use usb_video_class.Controls.Camera
use usb_video_class.Controls.Processing
use usb_video_class.Controls.Table.{controls_exact}
use usb_video_class.Controls.Access.{Gets, get_reply, get_control-Gets, get_control-set_control}
use usb_video_class.Examples.Controls.{fill, length-fill}

abbrev keeper_reply : Setup → List ℕ → List ℕ → Reply (List ℕ)
keeper_reply setup buf kept =
    if setup.request == set_cur
    then record { result = pos setup.len; buffer = buf; after = buf }
    else record { result = pos setup.len; buffer = fill kept buf; after = kept }

abbrev keeper : Usb (List ℕ)
keeper = record {
  control_transfer = keeper_reply;
  detach_kernel_driver = λ idx w. (negsuc 4, w);
  attach_kernel_driver = λ idx w. (pos 0, w);
  claim_interface = λ idx w. (pos 0, w);
  release_interface = λ idx w. (pos 0, w);
  set_interface_alt_setting = λ idx alt w. (pos 0, w);
}

keeper-KeepsSize : KeepsSize keeper
keeper-KeepsSize setup buf kept = elim (Bool-cases (setup.request == set_cur)) [
  | inl e ↦ rw e refl
  | inr e ↦ rw e (length-fill kept buf)
]

fill_all : (n : ℕ) (bs xs : List ℕ) → length bs ≡ n → length xs ≡ n → fill bs xs ≡ bs
fill_all n [] [] h k = refl
fill_all n [] (x ∷ xs) h k = absurd (omega arith)
fill_all n (b ∷ bs) [] h k = absurd (omega arith)
fill_all zero (b ∷ bs) (x ∷ xs) h k = absurd (omega arith)
fill_all (suc n) (b ∷ bs) (x ∷ xs) h k = ap (◌∷◌ b) (fill_all n bs xs (omega arith) (omega arith))

abbrev pub ctrl_if : ControlInterface
ctrl_if = record {
  input_term_descs =
      record {
        b_terminal_id = 1;
        w_terminal_type = 0x0201;
        w_objective_focal_length_min = 0;
        w_objective_focal_length_max = 0;
        w_ocular_focal_length = 0;
        bm_controls = 0;
      }
      ∷ [];
  selector_unit_descs = [];
  processing_unit_descs = record { b_unit_id = 2; b_source_id = 1; bm_controls = 0 } ∷ [];
  extension_unit_descs = [];
  bcd_uvc = 0x0110;
  dw_clock_frequency = 0;
  b_endpoint_address = 0x83;
  b_interface_number = 0;
}

abbrev stack : ℕ → List ℕ
stack n = replicate n 0

stack_sized : (n : ℕ) → length (stack n) ≡ n
stack_sized n = length-replicate {A = ℕ} n 0

camera_known : entity_id ctrl_if Camera.pantilt_abs.entity ≡ some 1
unfolding entity_id get_camera_terminal
camera_known = refl

unit_known : entity_id ctrl_if Processing.brightness.entity ≡ some 2
unfolding entity_id processing_unit_id
unit_known = refl

get_control-Gets_example :
    (o : ℤ × List ℕ × List ℕ) × (get_control keeper stack ctrl_if Processing.brightness get_cur
        (7 ∷ [])
        (5 ∷ 1 ∷ [])
      ≡ some o)
    × Gets Processing.brightness
        (7 ∷ [])
        (get_reply keeper stack ctrl_if Processing.brightness 2 get_cur (stack 2) (5 ∷ 1 ∷ []))
        o
get_control-Gets_example =
    get_control-Gets keeper stack ctrl_if Processing.brightness 2 get_cur (7 ∷ []) (5 ∷ 1 ∷ [])
      keeper-KeepsSize stack_sized unit_known

get_control-set_control_example :
    (v : List ℕ) × (v' : List ℕ) × (set_control keeper stack ctrl_if Camera.pantilt_abs
        (3600 ∷ 70000 ∷ [])
        []
      ≡ some (pos 0, v))
    × (get_control keeper stack ctrl_if Camera.pantilt_abs get_cur (0 ∷ 0 ∷ []) v
        ≡ some (pos 0, 3600 ∷ 70000 ∷ [], v'))
get_control-set_control_example =
    get_control-set_control keeper stack ctrl_if Camera.pantilt_abs 1 (3600 ∷ 70000 ∷ [])
      (0 ∷ 0 ∷ []) [] (omega arith, (omega arith, tt)) stack_sized camera_known (λ bytes v e. refl)
      (λ bytes junk v e k. (refl, fill_all 8 bytes junk e k))

controls_exact_example :
    (Processing.contrast.entity ≡ processing_unit)
    × (Processing.contrast.selector ≡ 3)
    × (((Processing.contrast.entity ≡ Camera.ae_priority.entity)
          × (Processing.contrast.selector ≡ Camera.ae_priority.selector))
        ↔ ((processing_unit ≡ camera_terminal) × ◌≡◌ {A = ℕ} 2 2))
controls_exact_example =
    controls_exact processing_unit camera_terminal 2 2 Processing.contrast Camera.ae_priority refl
      refl
