-- ===== src/Status/Events.antt =====
-- The events that a device sends, in the bytes of a status transfer, and what
-- `_uvc_status_callback` of src/device.c makes of them.
use usb_video_class.Base.{
  ap, ◌∙◌, slice, ℕ, suc, ◌+◌, ◌-◌, ◌*◌, ◌%◌, ◌≡◌, ◌≢◌, refl, true, false, some, List, [], ◌∷◌,
  ◌==◌, ltb, length, take_all, arith, slice-in_range,
}
use usb_video_class.Stream.Callback.{completed}
use usb_video_class.Status.{
  StatusHandle, StatusClass, UserCall, update, button, class_of, report_update,
  process_control_status, process_streaming_status, process_status_xfer, status_callback,
}

-- What a device has to tell, to a host that has set both callbacks.
pub data Event : Type 0 where
  -- A control of an entity has changed: its class, the entity, the control, the attribute and the
  -- bytes that follow.
  changed : StatusClass → ℕ → ℕ → ℕ → List ℕ → Event
  -- The button of an interface.
  pressed : ℕ → ℕ → Event

-- The bytes of an event; the high bits of the first are reserved.
abbrev pub event_bytes : ℕ → Event → List ℕ
event_bytes high (changed class id selector attribute content) =
    (high * 16 + 1) ∷ id ∷ 0 ∷ selector ∷ attribute ∷ content
event_bytes high (pressed interface state) = (high * 16 + 2) ∷ interface ∷ 0 ∷ state ∷ []

-- The event names an entity of the device, and its class.
abbrev pub Known : StatusHandle → Event → Type 0
Known h (changed class id selector attribute content) =
    (id ≢ 0) × (class_of h.ctrl_if id ≡ some class)
Known h (pressed interface state) = Unit {0}

abbrev pub call_of : Event → UserCall
call_of (changed class id selector attribute content) = update class 0 selector attribute content
call_of (pressed interface state) = button interface state

is_long : (n : ℕ) → ltb (suc (suc (suc (suc (suc n))))) 5 ≡ false
is_long n = ground arith

not_empty : (n : ℕ) → (suc (suc (suc (suc (suc n)))) == 0) ≡ false
not_empty n = ground arith

read_content :
    (a b c d e : ℕ) (content : List ℕ)
    → slice (a ∷ b ∷ c ∷ d ∷ e ∷ content) 5 (suc (suc (suc (suc (suc (length content))))) - 5)
      ≡ some content
read_content a b c d e content =
    let size : suc (suc (suc (suc (suc (length content))))) - 5 ≡ length content = omega arith in
    rw size (
      slice-in_range (a ∷ b ∷ c ∷ d ∷ e ∷ content) 5 (length content) (omega arith)
      ∙ ap some (take_all (length content) content (omega arith)))

-- With both callbacks set, a completed transfer with the bytes of an event, whose entity is not 0
-- and is known to the device with the class of the event, or of a button, is handed to the user as
-- that event, once, and submitted again.
pub status_callback-event_bytes :
    (h : StatusHandle) (high : ℕ) (e : Event)
    → h.status_cb ≡ true
    → h.button_cb ≡ true
    → Known h e
    → status_callback h completed (event_bytes high e) (length (event_bytes high e))
      ≡ some (call_of e ∷ [], true)
unfolding status_callback process_status_xfer process_control_status process_streaming_status
    report_update
status_callback-event_bytes h high (changed class id selector attribute content) st bt
      (some_id, known) =
    let kind : (high * 16 + 1) % 16 ≡ 1 = omega arith in
    let not_self : (id == 0) ≡ false = ground arith in
    rw
      (
        kind,
        not_empty (length content),
        is_long (length content),
        not_self,
        known,
        read_content _ _ _ _ _ content,
        st,
      )
      refl
status_callback-event_bytes h high (pressed interface state) st bt known =
    let kind : (high * 16 + 2) % 16 ≡ 2 = omega arith in rw (kind, bt) refl
