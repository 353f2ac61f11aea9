-- ===== src/Controls.antt =====
-- The controls of src/ctrl.c and src/ctrl-gen.c. The 80 functions of src/ctrl-gen.c read and write
-- 40 controls in the same way; a control is what they differ in: the unit that they address, the
-- selector, and the fields of the buffer. Signed values are bit patterns. What an array on the
-- stack holds before the transfer is a parameter.
pub mod Camera
pub mod Processing
pub mod Table
pub mod Codec
pub mod Access
use usb_video_class.Base.{
  ℕ, ◌+◌, ◌*◌, ◌^◌, ◌%◌, Option, none, some, List, [], ◌∷◌, ◌++◌, ◌==◌, if◌then◌else◌, ◌>>=◌, drop,
  get_elem?,
}
use usb_video_class.Base.Int.{ℤ, pos, ◌==ℤ◌, is_negative}
use usb_video_class.Base.Bytes.{u8_mod, short_to_sw, int_to_dw, read_sw, read_dw}
use usb_video_class.Desc.{ControlInterface, InputTerminal, ProcessingUnit, SelectorUnit}
use usb_video_class.Usb.{Setup, Reply, Usb, set_cur, get_len}

-- `data[n]`, `SW_TO_SHORT (data + n)` and `DW_TO_INT (data + n)`, and their inverses.
pub data Field : Type 0 where
  byte word dword : Field

pub data Entity : Type 0 where
  camera_terminal processing_unit selector_unit : Entity

pub record Control : Type 0 where
  pub entity : Entity
  pub selector : ℕ
  pub fields : List Field

-- `sizeof (data)`
abbrev pub size : List Field → ℕ
size [] = 0
size (byte ∷ fs) = 1 + size fs
size (word ∷ fs) = 2 + size fs
size (dword ∷ fs) = 4 + size fs

unfoldable pub encode : List Field → List ℕ → List ℕ
encode (byte ∷ fs) (v ∷ vs) = (v % u8_mod) ∷ encode fs vs
encode (word ∷ fs) (v ∷ vs) = short_to_sw v ++ encode fs vs
encode (dword ∷ fs) (v ∷ vs) = int_to_dw v ++ encode fs vs
encode fs vs = []

-- The fields of the bytes that are left.
unfoldable pub decode : List Field → List ℕ → Option (List ℕ)
decode [] bytes = some []
decode (byte ∷ fs) bytes = do v ← get_elem? bytes 0; vs ← decode fs (drop 1 bytes); some (v ∷ vs)
decode (word ∷ fs) bytes = do v ← read_sw bytes 0; vs ← decode fs (drop 2 bytes); some (v ∷ vs)
decode (dword ∷ fs) bytes = do v ← read_dw bytes 0; vs ← decode fs (drop 4 bytes); some (v ∷ vs)

-- `UVC_ITT_CAMERA`
abbrev itt_camera : ℕ
itt_camera = 0x0201

-- `uvc_get_camera_terminal`
unfoldable pub get_camera_terminal : List InputTerminal → Option InputTerminal
get_camera_terminal [] = none
get_camera_terminal (term ∷ terms) =
    if term.w_terminal_type == itt_camera then some term else get_camera_terminal terms

-- The first processing unit and the first selector unit, which are what
-- `uvc_get_processing_units` and `uvc_get_selector_units` point to.
unfoldable pub processing_unit_id : List ProcessingUnit → Option ℕ
processing_unit_id [] = none
processing_unit_id (unit ∷ units) = some unit.b_unit_id

unfoldable pub selector_unit_id : List SelectorUnit → Option ℕ
selector_unit_id [] = none
selector_unit_id (unit ∷ units) = some unit.b_unit_id

-- The number that a control's functions address; without such a unit they follow `NULL`.
unfoldable pub entity_id : ControlInterface → Entity → Option ℕ
entity_id ctrl_if camera_terminal = do
  term ← get_camera_terminal ctrl_if.input_term_descs
  some term.b_terminal_id
entity_id ctrl_if processing_unit = processing_unit_id ctrl_if.processing_unit_descs
entity_id ctrl_if selector_unit = selector_unit_id ctrl_if.selector_unit_descs

-- The set-up of a request to a unit, `unit << 8 | interface`.
abbrev pub unit_setup : ControlInterface → ℕ → ℕ → ℕ → ℕ → ℕ → Setup
unit_setup ctrl_if request_type req unit selector len = record {
  request_type = request_type;
  request = req;
  value = selector * 2 ^ 8;
  index = unit * 2 ^ 8 + ctrl_if.b_interface_number;
  len = len;
}

abbrev pub req_type_set : ℕ
req_type_set = 0x21

abbrev pub req_type_get : ℕ
req_type_get = 0xa1

-- The result and the values: those that were read, or those that the caller's variables had.
unfoldable pub finish_get : {S : Type 0} → Control → List ℕ → Reply S → Option (ℤ × List ℕ × S)
finish_get c old r =
    if r.result ==ℤ pos (size c.fields)
    then (do values ← decode c.fields r.buffer; some (pos 0, values, r.after))
    else some (r.result, old, r.after)

module _ {S : Type 0} (usb : Usb S) (uninit : ℕ → List ℕ) (ctrl_if : ControlInterface) where
  -- `uvc_get_` of a control.
  unfoldable pub get_control : Control → ℕ → List ℕ → S → Option (ℤ × List ℕ × S)
  get_control c req old w = do
    unit ← entity_id ctrl_if c.entity
    finish_get c old (
        usb.control_transfer (unit_setup ctrl_if req_type_get req unit c.selector (size c.fields))
          (uninit (size c.fields)) w)

  -- `uvc_set_` of a control.
  unfoldable pub set_control : Control → List ℕ → S → Option (ℤ × S)
  set_control c values w = do
    unit ← entity_id ctrl_if c.entity
    let r =
        usb.control_transfer
          (unit_setup ctrl_if req_type_set set_cur unit c.selector (size c.fields))
          (encode c.fields values) w
    some ((if r.result ==ℤ pos (size c.fields) then pos 0 else r.result), r.after)

  -- `uvc_get_ctrl_len`
  unfoldable pub get_ctrl_len : ℕ → ℕ → S → Option (ℤ × S)
  get_ctrl_len unit selector w =
      let r =
        usb.control_transfer (unit_setup ctrl_if req_type_get get_len unit selector 2) (uninit 2)
          w in
      if is_negative r.result
      then some (r.result, r.after)
      else (do len ← read_sw r.buffer 0; some (pos len, r.after))

  -- `uvc_get_ctrl` and `uvc_set_ctrl` hand the caller's buffer on.
  unfoldable pub get_ctrl : ℕ → ℕ → List ℕ → ℕ → ℕ → S → Reply S
  get_ctrl unit selector bytes len req w =
      usb.control_transfer (unit_setup ctrl_if req_type_get req unit selector len) bytes w

  unfoldable pub set_ctrl : ℕ → ℕ → List ℕ → ℕ → S → Reply S
  set_ctrl unit selector bytes len w =
      usb.control_transfer (unit_setup ctrl_if req_type_set set_cur unit selector len) bytes w

  -- The power mode, a control of the interface itself.
  abbrev pub power_setup : ℕ → ℕ → Setup
  power_setup request_type req = unit_setup ctrl_if request_type req 0 0x01 1

  unfoldable pub get_power_mode : ℕ → ℕ → S → Option (ℤ × ℕ × S)
  get_power_mode req old w =
      let r = usb.control_transfer (power_setup req_type_get req) (uninit 1) w in
      if r.result ==ℤ pos 1
      then (do mode ← get_elem? r.buffer 0; some (pos 0, mode, r.after))
      else some (r.result, old, r.after)

  unfoldable pub set_power_mode : ℕ → S → ℤ × S
  set_power_mode mode w =
      let r = usb.control_transfer (power_setup req_type_set set_cur) (mode % u8_mod ∷ []) w in
      ((if r.result ==ℤ pos 1 then pos 0 else r.result), r.after)
