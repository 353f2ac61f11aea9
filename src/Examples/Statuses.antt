-- ===== src/Examples/Statuses.antt =====
-- Status transfers of a camera with one terminal.
use usb_video_class.Base.{◌≡◌, ◌⊎◌, refl, Bool, true, some, List, [], ◌∷◌, arith}
use usb_video_class.Stream.Callback.{TransferStatus}
use usb_video_class.Status.{
  StatusClass, UserCall, StatusHandle, status_callback, class_of, is_terminal, is_unit,
}
use usb_video_class.Status.Safety.{is_alive, status_callback-Runs}
use usb_video_class.Status.Events.{Event, Known, event_bytes, call_of, status_callback-event_bytes}
use usb_video_class.Examples.Settings.{ctrl_if}

abbrev handle : StatusHandle
handle = record { ctrl_if = ctrl_if; status_cb = true; button_cb = true }

-- The brightness of the processing unit, 300.
abbrev brighter : Event
brighter = Event.changed StatusClass.control_processing 2 2 0 (44 ∷ 1 ∷ [])

brighter-Known : Known handle brighter
unfolding class_of is_terminal is_unit
brighter-Known = ((λ e. absurd (omega arith)), refl)

status_callback-event_bytes_example :
    status_callback handle TransferStatus.completed (event_bytes 3 brighter) 7
    ≡ some (call_of brighter ∷ [], true)
status_callback-event_bytes_example =
    status_callback-event_bytes handle 3 brighter refl refl brighter-Known

status_callback-Runs_example :
    (calls : List UserCall) × (again : Bool) × (status_callback handle TransferStatus.completed
        (1 ∷ 2 ∷ 0 ∷ 2 ∷ 0 ∷ 9 ∷ [])
        5
      ≡ some (calls, again))
    × (again ≡ is_alive TransferStatus.completed)
    × ((TransferStatus.completed ≡ TransferStatus.completed) ⊎ (calls ≡ []))
status_callback-Runs_example =
    status_callback-Runs handle (1 ∷ 2 ∷ 0 ∷ 2 ∷ 0 ∷ 9 ∷ []) 5 (omega arith)
      TransferStatus.completed
