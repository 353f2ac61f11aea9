-- ===== src/Search.antt =====
-- `uvc_get_stream_ctrl_format_size`, `uvc_get_still_ctrl_format_size` and `uvc_trigger_still` of
-- src/stream.c. Frame rates are not negative.
pub mod First
pub mod Rate
pub mod Exact
use usb_video_class.Base.{
  ℕ, ◌-◌, ◌*◌, ◌/◌, ◌%◌, ◌^◌, Bool, true, false, not, ◌&&◌, ◌||◌, Option, none, some, List, [], ◌∷◌,
  ◌==◌, leb, if◌then◌else◌, ◌>>=◌,
}
use usb_video_class.Base.Int.{ℤ, pos, is_le_zero}
use usb_video_class.UvcError
use usb_video_class.Desc.{
  FrameFormat, FrameDesc, FormatDesc, StreamingInterface, StillDesc, StillRes,
}
use usb_video_class.Desc.Lookup.{get_stream_if}
use usb_video_class.Device.{Device}
use usb_video_class.Device.Claim.{claim_if}
use usb_video_class.Format.{matches_guid}
use usb_video_class.Usb.{Setup, Usb, set_cur, get_max}
use usb_video_class.Ctrl.{StreamCtrl, StillCtrl}
use usb_video_class.Ctrl.Query.{query_stream_ctrl, query_still_ctrl}
use usb_video_class.Ctrl.Negotiate.{probe_stream_ctrl, probe_still_ctrl}
use usb_video_class.Session.{Session, get_stream_by_interface}
use usb_video_class.Stream.{Stream}

-- `DL_FOREACH` around a body that may leave the loop by `goto found`.
unfoldable pub first_of {ℓ κ} :
    {A : Type ℓ} {Y : Type κ} → (A → Y → Option (Bool × Y)) → List A → Y → Option (Bool × Y)
first_of body [] y = some (false, y)
first_of body (x ∷ xs) y = do
  (found, y') ← body x y
  if found then some (true, y') else first_of body xs y'

-- The loop over the listed intervals, which ends at an interval of 0, behind the last or as one of
-- them; a rate of 0 takes the first.
unfoldable pub listed_interval : ℕ → List ℕ → Option ℕ
listed_interval fps [] = none
listed_interval fps (i ∷ is) =
    let rest = listed_interval fps is in
    if i == 0 then none else (if 10000000 / i == fps || fps == 0 then some i else rest)

-- The interval for a rate in a range with a step; `none` divides by zero.
unfoldable pub stepped_interval : ℕ → FrameDesc → Option (Option ℕ)
stepped_interval fps frame =
    if fps == 0
    then none
    else (let i = 10000000 / fps in
        if not (leb frame.dw_min_frame_interval i && leb i frame.dw_max_frame_interval)
        then some none
        else (if i - frame.dw_min_frame_interval == 0
            then some (some i)
            else (if frame.dw_frame_interval_step == 0
                then none
                else some (
                    if (i - frame.dw_min_frame_interval) % frame.dw_frame_interval_step == 0
                    then some i
                    else none))))

unfoldable pub choose_interval_of : Option (List ℕ) → ℕ → FrameDesc → Option (Option ℕ)
choose_interval_of (some is) fps frame = some (listed_interval fps is)
choose_interval_of none fps frame = stepped_interval fps frame

unfoldable pub choose_interval : ℕ → FrameDesc → Option (Option ℕ)
choose_interval fps frame = choose_interval_of frame.intervals fps frame

abbrev pub has_size : ℕ → ℕ → FrameDesc → Bool
has_size width height frame = frame.w_width == width && frame.w_height == height

-- The control block once an interval is chosen, and whether the search is over.
unfoldable pub set_choice : FormatDesc → FrameDesc → Option ℕ → StreamCtrl → Bool × StreamCtrl
set_choice format frame none c = (false, c)
set_choice format frame (some i) c = (
  true,
  record c {
    bm_hint = 1;
    b_format_index = format.b_format_index;
    b_frame_index = frame.b_frame_index;
    dw_frame_interval = i;
  },
)

module _ {S : Type 0} (usb : Usb S) (cf : FrameFormat) (width height fps : ℕ) where
  -- One frame descriptor. The results of the claim and of the query are not looked at.
  unfoldable pub try_frame :
      StreamingInterface
      → FormatDesc
      → FrameDesc
      → Device × StreamCtrl × S
      → Option (Bool × (Device × StreamCtrl × S))
  try_frame stream_if format frame (d, c, w) =
      if not (has_size width height frame) then some (false, (d, c, w)) else (do
        (_, d', w₁) ← claim_if usb d stream_if.b_interface_number w
        (_, c', w₂) ←
            query_stream_ctrl usb d'
              (record c { b_interface_number = stream_if.b_interface_number }) true get_max w₁
        choice ← choose_interval fps frame
        let (found, c₂) = set_choice format frame choice c'
        some (found, (d', c₂, w₂)))

  unfoldable pub try_format :
      StreamingInterface
      → FormatDesc
      → Device × StreamCtrl × S
      → Option (Bool × (Device × StreamCtrl × S))
  try_format stream_if format y =
      if not (matches_guid 3 cf format.guid_format)
      then some (false, y)
      else first_of (try_frame stream_if format) format.frame_descs y

  unfoldable pub try_interface :
      StreamingInterface → Device × StreamCtrl × S → Option (Bool × (Device × StreamCtrl × S))
  try_interface stream_if y = first_of (try_format stream_if) stream_if.format_descs y

  -- `uvc_get_stream_ctrl_format_size`: the result, the device handle, the control block and the
  -- device.
  unfoldable pub get_stream_ctrl_format_size :
      Device → StreamCtrl → S → Option (ℤ × Device × StreamCtrl × S)
  get_stream_ctrl_format_size d c w = do
    (found, (d', c', w')) ← first_of try_interface d.info.stream_ifs (d, c, w)
    if found
        then (do (ret, c₂, w₂) ← probe_stream_ctrl usb d' c' w'; some (ret, d', c₂, w₂))
        else some (UvcError.invalid_mode, d', c', w')

-- The first size pattern of a still image with a width and a height.
unfoldable pub find_pattern : ℕ → ℕ → List StillRes → Option StillRes
find_pattern width height [] = none
find_pattern width height (p ∷ ps) =
    if p.w_width == width && p.w_height == height then some p else find_pattern width height ps

unfoldable pub find_still : ℕ → ℕ → List StillDesc → Option StillRes
find_still width height [] = none
find_still width height (s ∷ ss) = elim (find_pattern width height s.image_size_patterns) [
  | some p ↦ some p
  | none ↦ find_still width height ss
]

-- The control block with a pattern, if there is one.
unfoldable pub set_pattern : FormatDesc → ℕ → Option StillRes → StillCtrl → Bool × StillCtrl
set_pattern format number none c = (false, c)
set_pattern format number (some p) c = (
  true,
  record c {
    b_interface_number = number;
    b_format_index = format.b_format_index;
    b_frame_index = p.b_resolution_index;
    b_compression_index = 0;
  },
)

module _ {S : Type 0} (usb : Usb S) where
  unfoldable pub try_still :
      StreamCtrl → ℕ → ℕ → FormatDesc → StillCtrl × S → Option (Bool × (StillCtrl × S))
  try_still ctrl width height format (c, w) =
      if not (ctrl.b_format_index == format.b_format_index) then some (false, (c, w)) else (do
        (_, c', w') ← query_still_ctrl usb c true get_max w
        let (found, c₂) =
            set_pattern format ctrl.b_interface_number
              (find_still width height format.still_frame_desc) c'
        some (found, (c₂, w')))

  -- Given the interface, if there is one.
  unfoldable pub still_of :
      Option StreamingInterface → StreamCtrl → StillCtrl → ℕ → ℕ → S → Option (ℤ × StillCtrl × S)
  still_of none ctrl c width height w = some (UvcError.not_supported, c, w)
  still_of (some stream_if) ctrl c width height w =
      if not (stream_if.b_still_capture_method == 2)
      then some (UvcError.not_supported, c, w)
      else (do
        (found, (c', w')) ← first_of (try_still ctrl width height) stream_if.format_descs (c, w)
        if found then probe_still_ctrl usb c' w' else some (UvcError.invalid_mode, c', w'))

  -- `uvc_get_still_ctrl_format_size`
  unfoldable pub get_still_ctrl_format_size :
      Device → StreamCtrl → StillCtrl → ℕ → ℕ → S → Option (ℤ × StillCtrl × S)
  get_still_ctrl_format_size d ctrl c width height w =
      still_of (get_stream_if d.info.stream_ifs ctrl.b_interface_number) ctrl c width height w

  -- `uvc_trigger_still`, given the open stream and the interface of the control block's number.
  abbrev pub trigger_setup : ℕ → Setup
  trigger_setup number = record {
    request_type = 0x21;
    request = set_cur;
    value = 0x05 * 2 ^ 8;
    index = number;
    len = 1;
  }

  unfoldable pub trigger_of : Option Stream → Option StreamingInterface → StillCtrl → S → ℤ × S
  trigger_of (some s) (some stream_if) c w =
      if not s.running || not (stream_if.b_still_capture_method == 2)
      then (UvcError.not_supported, w)
      else (let r = usb.control_transfer (trigger_setup c.b_interface_number) (1 ∷ []) w in
          ((if is_le_zero r.result then r.result else pos 0), r.after))
  trigger_of s stream_if c w = (UvcError.not_supported, w)

  unfoldable pub trigger_still : Session → StillCtrl → S → ℤ × S
  trigger_still y c w =
      trigger_of (get_stream_by_interface y.streams c.b_interface_number)
        (get_stream_if y.device.info.stream_ifs c.b_interface_number) c w
