-- ===== src/Status.antt =====
-- Status transfers of src/device.c: `_uvc_status_callback`, what it makes of the bytes, and the
-- user's callbacks. A user pointer is handed on as it is and left out.
pub mod Safety
pub mod Events
use usb_video_class.Base.{
  ℕ, ◌-◌, ◌%◌, Bool, true, false, not, ◌||◌, Option, none, some, List, [], ◌∷◌, ◌==◌, ltb,
  if◌then◌else◌, get_elem?, slice, ◌>>=◌,
}
use usb_video_class.Desc.{ControlInterface, InputTerminal, ProcessingUnit}
use usb_video_class.Stream.Callback.{
  TransferStatus, completed, cancelled, error, no_device, timed_out, stall, overflow,
}

-- `enum uvc_status_class`, as far as it is reported.
pub data StatusClass : Type 0 where
  control_camera control_processing : StatusClass

-- A call of the user's status callback or of the button callback.
pub data UserCall : Type 0 where
  update : StatusClass → ℕ → ℕ → ℕ → List ℕ → UserCall
  button : ℕ → ℕ → UserCall

-- The handle, as far as status transfers use it; whether the callbacks are set.
pub record StatusHandle : Type 0 where
  pub ctrl_if : ControlInterface
  pub status_cb : Bool
  pub button_cb : Bool

-- `uvc_set_status_callback` and `uvc_set_button_callback`.
unfoldable pub set_status_callback : Bool → StatusHandle → StatusHandle
set_status_callback cb h = record h { status_cb = cb }

unfoldable pub set_button_callback : Bool → StatusHandle → StatusHandle
set_button_callback cb h = record h { button_cb = cb }

unfoldable pub is_terminal : ℕ → List InputTerminal → Bool
is_terminal id [] = false
is_terminal id (t ∷ ts) = if t.b_terminal_id == id then true else is_terminal id ts

unfoldable pub is_unit : ℕ → List ProcessingUnit → Bool
is_unit id [] = false
is_unit id (u ∷ us) = if u.b_unit_id == id then true else is_unit id us

-- The searches for the originator.
unfoldable pub class_of : ControlInterface → ℕ → Option StatusClass
class_of ctrl_if id =
    if is_terminal id ctrl_if.input_term_descs
    then some control_camera
    else (if is_unit id ctrl_if.processing_unit_descs then some control_processing else none)

-- The call for an update of an entity, if that is known.
unfoldable pub report_update :
    StatusHandle → Option StatusClass → ℕ → ℕ → List ℕ → ℕ → Option (List UserCall)
report_update h none event selector bytes len = some []
report_update h (some class) event selector bytes len = do
  attribute ← get_elem? bytes 4
  content ← slice bytes 5 (len - 5)
  some (if h.status_cb then update class event selector attribute content ∷ [] else [])

unfoldable pub process_control_status : StatusHandle → List ℕ → ℕ → Option (List UserCall)
process_control_status h bytes len = if ltb len 5 then some [] else (do
  originator ← get_elem? bytes 1
  event ← get_elem? bytes 2
  selector ← get_elem? bytes 3
  if originator == 0 || not (event == 0)
      then some []
      else report_update h (class_of h.ctrl_if originator) event selector bytes len)

unfoldable pub process_streaming_status : StatusHandle → List ℕ → ℕ → Option (List UserCall)
process_streaming_status h bytes len = if ltb len 3 then some [] else (do
  interface ← get_elem? bytes 1
  event ← get_elem? bytes 2
  if not (event == 0) || ltb len 4 then some [] else (do
    state ← get_elem? bytes 3
    some (if h.button_cb then button interface state ∷ [] else [])))

unfoldable pub process_status_xfer : StatusHandle → List ℕ → ℕ → Option (List UserCall)
process_status_xfer h bytes len = if len == 0 then some [] else (do
  kind ← get_elem? bytes 0
  if kind % 16 == 1
      then process_control_status h bytes len
      else (if kind % 16 == 2 then process_streaming_status h bytes len else some []))

-- `_uvc_status_callback`: the user's calls, and whether the transfer is submitted again.
unfoldable pub status_callback :
    StatusHandle → TransferStatus → List ℕ → ℕ → Option (List UserCall × Bool)
status_callback h error bytes len = some ([], false)
status_callback h cancelled bytes len = some ([], false)
status_callback h no_device bytes len = some ([], false)
status_callback h completed bytes len = do
  calls ← process_status_xfer h bytes len
  some (calls, true)
status_callback h timed_out bytes len = some ([], true)
status_callback h stall bytes len = some ([], true)
status_callback h overflow bytes len = some ([], true)
