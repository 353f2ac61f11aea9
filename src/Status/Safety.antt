-- ===== src/Status/Safety.antt =====
-- The bytes that `_uvc_status_callback` of src/device.c reads, and the transfers that it keeps.
use usb_video_class.Base.{
  ℕ, ◌-◌, ◌%◌, ◌≤◌, ◌≡◌, refl, ◌⊎◌, inl, inr, Bool, true, false, not, ◌||◌, Option, none, some,
  List, [], ◌==◌, ltb, length, arith, if_cases, Runs, >>=-Runs, get_elem?-lt, slice-in_range,
}
use usb_video_class.Stream.Callback.{
  TransferStatus, completed, cancelled, error, no_device, timed_out, stall, overflow,
}
use usb_video_class.Status.{
  StatusHandle, StatusClass, UserCall, class_of, report_update, process_control_status,
  process_streaming_status, process_status_xfer, status_callback,
}

-- Whether libusb may still use the transfer.
abbrev pub is_alive : TransferStatus → Bool
is_alive error = false
is_alive cancelled = false
is_alive no_device = false
is_alive st = true

module _ (h : StatusHandle) (bytes : List ℕ) (len : ℕ) (inside : len ≤ length bytes) where
  report_update-Runs :
      (class : Option StatusClass) (event selector : ℕ)
      → 5 ≤ len
      → Runs (report_update h class event selector bytes len)
  unfolding report_update
  report_update-Runs none event selector long = ([], refl)
  report_update-Runs (some class) event selector long =
      >>=-Runs _ _ (get_elem?-lt bytes 4 (omega arith))
        λ _. >>=-Runs _ _ (_, slice-in_range bytes 5 (len - 5) (omega arith)) λ _. (_, refl)

  process_control_status-Runs : Runs (process_control_status h bytes len)
  unfolding process_control_status
  process_control_status-Runs =
      if_cases Runs (ltb len 5) (λ _. ([], refl))
        (λ long.
          let enough : 5 ≤ len = ground (arith, long) in
          >>=-Runs _ _ (get_elem?-lt bytes 1 (omega arith)) λ originator.
            >>=-Runs _ _ (get_elem?-lt bytes 2 (omega arith)) λ event.
              >>=-Runs _ _ (get_elem?-lt bytes 3 (omega arith)) λ selector.
                if_cases Runs (originator == 0 || not (event == 0)) (λ _. ([], refl))
                  (λ _. report_update-Runs (class_of h.ctrl_if originator) event selector enough))

  process_streaming_status-Runs : Runs (process_streaming_status h bytes len)
  unfolding process_streaming_status
  process_streaming_status-Runs =
      if_cases Runs (ltb len 3) (λ _. ([], refl))
        (λ long.
          let enough : 3 ≤ len = ground (arith, long) in
          >>=-Runs _ _ (get_elem?-lt bytes 1 (omega arith)) λ interface.
            >>=-Runs _ _ (get_elem?-lt bytes 2 (omega arith)) λ event.
              if_cases Runs (not (event == 0) || ltb len 4) (λ _. ([], refl))
                (λ whole.
                  let more : 4 ≤ len = ground (arith, whole) in
                  >>=-Runs _ _ (get_elem?-lt bytes 3 (omega arith)) λ _. (_, refl)))

  process_status_xfer-Runs : Runs (process_status_xfer h bytes len)
  unfolding process_status_xfer
  process_status_xfer-Runs =
      if_cases Runs (len == 0) (λ _. ([], refl))
        (λ some_bytes.
          let enough : 1 ≤ len = ground (arith, some_bytes) in
          >>=-Runs _ _ (get_elem?-lt bytes 0 (omega arith)) λ kind.
            if_cases Runs (kind % 16 == 1) (λ _. process_control_status-Runs)
              (λ _.
                if_cases Runs (kind % 16 == 2) (λ _. process_streaming_status-Runs)
                  (λ _. ([], refl))))

  -- For a status transfer whose bytes lie in its buffer, the callback ends without a read outside
  -- the buffer, whatever the bytes and the status are; it submits the transfer again exactly if that was not
  -- cancelled, the device is there and there was no error; and it calls the user only for a completed transfer.
  pub status_callback-Runs :
      (st : TransferStatus)
      → (calls : List UserCall) × (again : Bool) × (status_callback h st bytes len
          ≡ some (calls, again))
        × (again ≡ is_alive st)
        × ((st ≡ completed) ⊎ (calls ≡ []))
  unfolding status_callback
  status_callback-Runs completed =
      let (calls, run) = process_status_xfer-Runs in (calls, true, rw run refl, refl, inl refl)
  status_callback-Runs cancelled = ([], false, refl, refl, inr refl)
  status_callback-Runs error = ([], false, refl, refl, inr refl)
  status_callback-Runs no_device = ([], false, refl, refl, inr refl)
  status_callback-Runs timed_out = ([], true, refl, refl, inr refl)
  status_callback-Runs stall = ([], true, refl, refl, inr refl)
  status_callback-Runs overflow = ([], true, refl, refl, inr refl)
