-- ===== src/Controls/Table.antt =====
-- All controls of src/ctrl-gen.c, beside the selectors of include/libuvc/libuvc.h.
use usb_video_class.Base.{
  ℕ, suc, ◌≡◌, refl, ap, sym, ◌∙◌, ◌↔◌, both_true, Bool, true, false, ◌&&◌, some, List, [], ◌∷◌,
  ◌==◌, ==_iff, get_elem?, ◌+◌, zero, arith,
}
use mathlib.Core.Option.{some-injective}
use usb_video_class.Controls.{Control, Entity, camera_terminal, processing_unit, selector_unit}
use usb_video_class.Controls.Camera
use usb_video_class.Controls.Processing

-- The controls of each unit, in the order in which `enum uvc_ct_ctrl_selector`,
-- `enum uvc_pu_ctrl_selector` and `enum uvc_su_ctrl_selector` have their names, from 0x01 on.
abbrev pub controls : Entity → List Control
controls camera_terminal =
    Camera.scanning_mode ∷ Camera.ae_mode ∷ Camera.ae_priority ∷ Camera.exposure_abs
    ∷ Camera.exposure_rel ∷ Camera.focus_abs ∷ Camera.focus_rel ∷ Camera.focus_auto
    ∷ Camera.iris_abs ∷ Camera.iris_rel ∷ Camera.zoom_abs ∷ Camera.zoom_rel ∷ Camera.pantilt_abs
    ∷ Camera.pantilt_rel ∷ Camera.roll_abs ∷ Camera.roll_rel ∷ Camera.privacy
    ∷ Camera.focus_simple_range ∷ Camera.digital_window ∷ Camera.digital_roi ∷ []
controls processing_unit =
    Processing.backlight_compensation ∷ Processing.brightness ∷ Processing.contrast
    ∷ Processing.gain ∷ Processing.power_line_frequency ∷ Processing.hue ∷ Processing.saturation
    ∷ Processing.sharpness ∷ Processing.gamma ∷ Processing.white_balance_temperature
    ∷ Processing.white_balance_temperature_auto ∷ Processing.white_balance_component
    ∷ Processing.white_balance_component_auto ∷ Processing.digital_multiplier
    ∷ Processing.digital_multiplier_limit ∷ Processing.hue_auto ∷ Processing.analog_video_standard
    ∷ Processing.analog_video_lock_status ∷ Processing.contrast_auto ∷ []
controls selector_unit = Processing.input_select ∷ []

is_on : Entity → Entity → Bool
is_on camera_terminal camera_terminal = true
is_on processing_unit processing_unit = true
is_on selector_unit selector_unit = true
is_on e f = false

is_on_iff : (e f : Entity) → is_on e f ≡ true → f ≡ e
unfolding is_on
is_on_iff camera_terminal camera_terminal h = refl
is_on_iff camera_terminal processing_unit h = cc
is_on_iff camera_terminal selector_unit h = cc
is_on_iff processing_unit camera_terminal h = cc
is_on_iff processing_unit processing_unit h = refl
is_on_iff processing_unit selector_unit h = cc
is_on_iff selector_unit camera_terminal h = cc
is_on_iff selector_unit processing_unit h = cc
is_on_iff selector_unit selector_unit h = refl

-- Controls on an entity with selectors that count up from `s`.
numbered : Entity → ℕ → List Control → Bool
numbered e s [] = true
numbered e s (c ∷ cs) = (is_on e c.entity && c.selector == s) && numbered e (suc s) cs

controls_numbered : (e : Entity) → numbered e 1 (controls e) ≡ true
unfolding numbered is_on
controls_numbered camera_terminal = refl
controls_numbered processing_unit = refl
controls_numbered selector_unit = refl

abbrev Addresses : Entity → ℕ → Control → Type 0
Addresses e s c = (c.entity ≡ e) × (c.selector ≡ s)

numbered_first :
    (e : Entity) (s : ℕ) (c : Control) (cs : List Control)
    → numbered e s (c ∷ cs) ≡ true
    → Addresses e s c × (numbered e (suc s) cs ≡ true)
unfolding numbered
numbered_first e s c cs h =
    let (first, rest) = both_true (is_on e c.entity && c.selector == s) (numbered e (suc s) cs) h in
    let (on, same) = both_true (is_on e c.entity) (c.selector == s) first in
    ((is_on_iff e c.entity on, (==_iff c.selector s).0 same), rest)

numbered-Addresses :
    (e : Entity) (s i : ℕ) (cs : List Control) (c : Control)
    → numbered e s cs ≡ true
    → get_elem? cs i ≡ some c
    → Addresses e (s + i) c
numbered-Addresses e s i [] c h at = cc
numbered-Addresses e s zero (d ∷ cs) c h at =
    let here : d ≡ c = some-injective d c at in
    let ((on, same), _) = numbered_first e s d cs h in
    (
      ap (λ (k : Control). k.entity) (sym here) ∙ on,
      omega (arith, ap (λ (k : Control). k.selector) here, same),
    )
numbered-Addresses e s (suc i) (d ∷ cs) c h at =
    let (_, rest) = numbered_first e s d cs h in
    let (on, next) = numbered-Addresses e (suc s) i cs c rest at in (on, omega (arith, next))

-- The functions that are named for a selector of the header address its unit with its value, the
-- place of its name in the enumeration; and of all these functions, two pairs address the same unit
-- with the same selector exactly if they are the same pair.
pub controls_exact :
    (e f : Entity) (i j : ℕ) (c d : Control)
    → get_elem? (controls e) i ≡ some c
    → get_elem? (controls f) j ≡ some d
    → (c.entity ≡ e)
      × (c.selector ≡ suc i)
      × (((c.entity ≡ d.entity) × (c.selector ≡ d.selector)) ↔ ((e ≡ f) × (i ≡ j)))
controls_exact e f i j c d at other =
    let (on, number) = numbered-Addresses e 1 i (controls e) c (controls_numbered e) at in
    let (on', number') = numbered-Addresses f 1 j (controls f) d (controls_numbered f) other in
    (
      on,
      omega (arith, number),
      (
        λ (unit, selector). (sym on ∙ (unit ∙ on'), omega (arith, number, number', selector)),
        λ (entity, place). (on ∙ (entity ∙ sym on'), omega (arith, number, number', place)),
      ),
    )
