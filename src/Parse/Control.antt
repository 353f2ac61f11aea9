-- ===== src/Parse/Control.antt =====
-- `uvc_scan_control`, `uvc_scan_streaming` and `uvc_parse_vc` of src/device.c, with the parsers of
-- the control blocks. The configuration is libusb's, a list of interfaces.
use usb_video_class.Base.{
  ℕ, zero, suc, ◌+◌, ◌-◌, Bool, true, false, ◌&&◌, ◌||◌, Option, none, some, List, [], ◌∷◌, ◌==◌,
  if◌then◌else◌, get_elem?, slice, not, ◌>>=◌,
}
use usb_video_class.Base.Bytes.{read_dw, read_sw}
use usb_video_class.Base.Int.{ℤ, pos, ◌==ℤ◌}
use usb_video_class.UvcError
use usb_video_class.Desc.{
  StreamingInterface, ControlInterface, DeviceInfo, InputTerminal, ProcessingUnit, SelectorUnit,
  ExtensionUnit,
}
use usb_video_class.Parse.{Interface, scan_all, read_controls, append_one}
use usb_video_class.Parse.Streaming.{parse_vs}

-- What `calloc` gives for a streaming interface, with its number.
abbrev pub blank_stream_if : ℕ → StreamingInterface
blank_stream_if number = record {
  b_interface_number = number;
  format_descs = [];
  b_endpoint_address = 0;
  b_terminal_link = 0;
  b_still_capture_method = 0;
}

-- The interface is appended before the scan and filled in place; it is last in the list.
unfoldable pub scan_streaming : List Interface → DeviceInfo → ℕ → Option (ℤ × DeviceInfo)
scan_streaming config info interface_idx = do
  if_desc ← get_elem? config interface_idx
  (ret, stream_if) ← scan_all parse_vs if_desc.extra (blank_stream_if if_desc.b_interface_number)
  some (ret, record info { stream_ifs = append_one info.stream_ifs stream_if })

abbrev set_ctrl : DeviceInfo → ControlInterface → DeviceInfo
set_ctrl info ctrl_if = record info { ctrl_if = ctrl_if }

-- The loop `for (i = 12; i < block_size; ++i)`, of `n` rounds from offset `i` on.
unfoldable pub scan_each : List Interface → ℕ → ℕ → List ℕ → DeviceInfo → Option (ℤ × DeviceInfo)
scan_each config zero i block info = some (pos 0, info)
scan_each config (suc n) i block info = do
  interface_idx ← get_elem? block i
  (ret, info') ← scan_streaming config info interface_idx
  elim (ret ==ℤ pos 0) [ true ↦ scan_each config n (suc i) block info' | false ↦ some (ret, info') ]

-- The clock frequency, for the versions 1.0 and 1.0a.
read_clock : ℕ → List ℕ → ControlInterface → Option ControlInterface
read_clock bcd_uvc block c =
    if bcd_uvc == 0x0110
    then some c
    else (do clock ← read_dw block 7; some (record c { dw_clock_frequency = clock }))

abbrev pub known_version : ℕ → Bool
known_version bcd_uvc = (bcd_uvc == 0x0100) || ((bcd_uvc == 0x010a) || (bcd_uvc == 0x0110))

pub parse_vc_header : List Interface → List ℕ → ℕ → DeviceInfo → Option (ℤ × DeviceInfo)
unfolding read_clock
parse_vc_header config block block_size info = do
  bcd_uvc ← read_sw block 3
  let versioned = record (info.ctrl_if) { bcd_uvc = bcd_uvc }
  if not (known_version bcd_uvc)
      then some (UvcError.not_supported, set_ctrl info versioned)
      else (do
        clocked ← read_clock bcd_uvc block versioned
        scan_each config (block_size - 12) 12 block (set_ctrl info clocked))

-- `UVC_ITT_CAMERA` terminals only.
pub parse_vc_input_terminal : List ℕ → DeviceInfo → Option DeviceInfo
parse_vc_input_terminal block info = do
  terminal_type ← read_sw block 4
  if not (terminal_type == 0x0201) then some info else (do
    terminal_id ← get_elem? block 3
    focal_min ← read_sw block 8
    focal_max ← read_sw block 10
    ocular ← read_sw block 12
    size ← get_elem? block 14
    controls ← read_controls size block 14 0
    let term : InputTerminal = record {
      b_terminal_id = terminal_id;
      w_terminal_type = terminal_type;
      w_objective_focal_length_min = focal_min;
      w_objective_focal_length_max = focal_max;
      w_ocular_focal_length = ocular;
      bm_controls = controls;
    }
    let c = info.ctrl_if
    some (set_ctrl info (record c { input_term_descs = append_one c.input_term_descs term })))

pub parse_vc_processing_unit : List ℕ → DeviceInfo → Option DeviceInfo
parse_vc_processing_unit block info = do
  unit_id ← get_elem? block 3
  source_id ← get_elem? block 4
  size ← get_elem? block 7
  controls ← read_controls size block 7 0
  let unit : ProcessingUnit = record {
    b_unit_id = unit_id;
    b_source_id = source_id;
    bm_controls = controls;
  }
  let c = info.ctrl_if
  some
      (set_ctrl info (record c { processing_unit_descs = append_one c.processing_unit_descs unit }))

pub parse_vc_selector_unit : List ℕ → DeviceInfo → Option DeviceInfo
parse_vc_selector_unit block info = do
  unit_id ← get_elem? block 3
  let unit : SelectorUnit = record { b_unit_id = unit_id }
  let c = info.ctrl_if
  some (set_ctrl info (record c { selector_unit_descs = append_one c.selector_unit_descs unit }))

pub parse_vc_extension_unit : List ℕ → DeviceInfo → Option DeviceInfo
parse_vc_extension_unit block info = do
  unit_id ← get_elem? block 3
  guid ← slice block 4 16
  pins ← get_elem? block 21
  size ← get_elem? block (22 + pins)
  controls ← read_controls size block (22 + pins) 0
  let unit : ExtensionUnit = record {
    b_unit_id = unit_id;
    guid_extension_code = guid;
    bm_controls = controls;
  }
  let c = info.ctrl_if
  some (set_ctrl info (record c { extension_unit_descs = append_one c.extension_unit_descs unit }))

-- A parser that returns `UVC_SUCCESS`.
abbrev succeed : Option DeviceInfo → Option (ℤ × DeviceInfo)
succeed o = do info ← o; some (pos 0, info)

-- The switch of `uvc_parse_vc`.
pub parse_vc_block : List Interface → ℕ → List ℕ → ℕ → DeviceInfo → Option (ℤ × DeviceInfo)
parse_vc_block config subtype block block_size info =
    if subtype == 0x01
    then parse_vc_header config block block_size info
    else (if subtype == 0x02
        then succeed (parse_vc_input_terminal block info)
        else (if subtype == 0x03
            then some (pos 0, info)
            else (if subtype == 0x04
                then succeed (parse_vc_selector_unit block info)
                else (if subtype == 0x05
                    then succeed (parse_vc_processing_unit block info)
                    else (if subtype == 0x06
                        then succeed (parse_vc_extension_unit block info)
                        else some (UvcError.invalid_device, info))))))

-- A descriptor other than `CS_INTERFACE` is passed over.
unfoldable pub parse_vc : List Interface → List ℕ → ℕ → DeviceInfo → Option (ℤ × DeviceInfo)
parse_vc config block block_size info = do
  descriptor_type ← get_elem? block 1
  if not (descriptor_type == 36)
      then some (pos 0, info)
      else (do subtype ← get_elem? block 2; parse_vc_block config subtype block block_size info)

-- The first interface of class Video and subclass Control, with its index; two cameras of one
-- maker (`haveTISCamera`) have class 255 instead.
unfoldable pub find_control : Bool → ℕ → List Interface → Option (ℕ × Interface)
find_control tis_camera i [] = none
find_control tis_camera i (if_desc ∷ config) =
    let class_ok =
      (tis_camera && (if_desc.b_interface_class == 255)) || (if_desc.b_interface_class == 14) in
    if class_ok && (if_desc.b_interface_sub_class == 1)
    then some (i, if_desc)
    else find_control tis_camera (suc i) config

-- The address of the first endpoint, if there is one.
first_endpoint : List ℕ → ControlInterface → ControlInterface
first_endpoint [] c = c
first_endpoint (address ∷ addresses) c = record c { b_endpoint_address = address }

-- `uvc_scan_control`; `tis_camera` is what the device descriptor says.
unfoldable pub scan_control : Bool → List Interface → DeviceInfo → Option (ℤ × DeviceInfo)
unfolding first_endpoint
scan_control tis_camera config info = elim (find_control tis_camera 0 config) [
  | none ↦ some (UvcError.invalid_device, info)
  | some (interface_idx, if_desc) ↦ scan_all (parse_vc config) if_desc.extra (
      set_ctrl info (
        first_endpoint if_desc.endpoint_addresses
          (record (info.ctrl_if) { b_interface_number = interface_idx })))
]
