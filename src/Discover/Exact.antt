-- ===== src/Discover/Exact.antt =====
-- What the searches of src/device.c find, and the references that they leave.
use usb_video_class.Base.{
  ℕ, ◌≡◌, refl, ap, ◌∙◌, ◌↔◌, Bool, true, ◌&&◌, Option, none, some, List, [], ◌∷◌, map,
  if◌then◌else◌, Bool-cases, inl, inr,
}
use usb_video_class.Discover.Wanted.{IsHit, IsHit-iff}
use usb_video_class.Base.Int.{ℤ, pos, negsuc, ◌+ℤ◌, ◌-ℤ◌}
use usb_video_class.Discover.{
  UsbDevice, UvcDevice, ref_device, unref_device, is_camera, list_cameras, get_device_list,
  survivors, is_wanted, take_first, take_wanted, found_result, found_any, find_device, find_devices,
}

-- The devices of the bus with a property, in its order, and the first.
abbrev select : (UsbDevice → Bool) → List UsbDevice → List UsbDevice
select test [] = []
select test (d ∷ ds) = if test d then d ∷ select test ds else select test ds

abbrev pub first : List UsbDevice → Option UsbDevice
first [] = none
first (d ∷ ds) = some d

abbrev pub listed : Option UsbDevice → List UsbDevice
listed none = []
listed (some d) = d ∷ []

-- The cameras that are wanted.
abbrev hits : (UsbDevice → Bool) → List UsbDevice → List UsbDevice
hits wanted = select (λ d. is_camera d && wanted d)

-- A structure with one reference, and so one to the device of libusb.
abbrev pub held_once : UsbDevice → UvcDevice
held_once d = record { usb_dev = d; ref = pos 1; usb_refs = pos 1 }

survivors-list_cameras : (bus : List UsbDevice) → survivors (list_cameras bus) ≡ []
unfolding survivors list_cameras unref_device ref_device ◌+ℤ◌ ◌-ℤ◌
survivors-list_cameras [] = refl
survivors-list_cameras (d ∷ bus) = elim (Bool-cases (is_camera d)) [
  | inl e ↦ rw e (survivors-list_cameras bus)
  | inr e ↦ rw e (survivors-list_cameras bus)
]

module _ (wanted : UsbDevice → Bool) where
  take_wanted-found :
      (bus : List UsbDevice) → (take_wanted wanted (list_cameras bus)).0 ≡ hits wanted bus
  unfolding take_wanted list_cameras ref_device
  take_wanted-found [] = refl
  take_wanted-found (d ∷ bus) = elim (Bool-cases (is_camera d)) [
    | inl e ↦ elim (Bool-cases (wanted d)) [
      | inl w ↦ rw (e, w) (ap (◌∷◌ d) (take_wanted-found bus))
      | inr w ↦ rw (e, w) (take_wanted-found bus)
    ]
    | inr e ↦ rw e (take_wanted-found bus)
  ]

  take_wanted-survivors :
      (bus : List UsbDevice)
      → survivors (take_wanted wanted (list_cameras bus)).1 ≡ map held_once (hits wanted bus)
  unfolding take_wanted list_cameras ref_device survivors unref_device ◌+ℤ◌ ◌-ℤ◌
  take_wanted-survivors [] = refl
  take_wanted-survivors (d ∷ bus) = elim (Bool-cases (is_camera d)) [
    | inl e ↦ elim (Bool-cases (wanted d)) [
      | inl w ↦ rw (e, w) (ap (◌∷◌ (held_once d)) (take_wanted-survivors bus))
      | inr w ↦ rw (e, w) (take_wanted-survivors bus)
    ]
    | inr e ↦ rw e (take_wanted-survivors bus)
  ]

  take_first-found :
      (bus : List UsbDevice) → (take_first wanted (list_cameras bus)).0 ≡ first (hits wanted bus)
  unfolding take_first list_cameras ref_device
  take_first-found [] = refl
  take_first-found (d ∷ bus) = elim (Bool-cases (is_camera d)) [
    | inl e ↦ elim (Bool-cases (wanted d)) [
      | inl w ↦ rw (e, w) refl
      | inr w ↦ rw (e, w) (take_first-found bus)
    ]
    | inr e ↦ rw e (take_first-found bus)
  ]

  take_first-survivors :
      (bus : List UsbDevice)
      → survivors (take_first wanted (list_cameras bus)).1
        ≡ map held_once (listed (first (hits wanted bus)))
  unfolding take_first list_cameras ref_device survivors unref_device ◌+ℤ◌ ◌-ℤ◌
  take_first-survivors [] = refl
  take_first-survivors (d ∷ bus) = elim (Bool-cases (is_camera d)) [
    | inl e ↦ elim (Bool-cases (wanted d)) [
      | inl w ↦ rw (e, w) (ap (◌∷◌ (held_once d)) (survivors-list_cameras bus))
      | inr w ↦ rw (e, w) (take_first-survivors bus)
    ]
    | inr e ↦ rw e (take_first-survivors bus)
  ]

find_device_exact :
    (bus : List UsbDevice) (vid pid : ℕ) (sn : Option (List ℕ))
    → find_device (some bus) vid pid sn ≡ (
      found_result (first (hits (is_wanted vid pid sn) bus)),
      first (hits (is_wanted vid pid sn) bus),
      map held_once (listed (first (hits (is_wanted vid pid sn) bus))),
    )
unfolding find_device get_device_list
find_device_exact bus vid pid sn =
    rw
      (take_first-found (is_wanted vid pid sn) bus, take_first-survivors (is_wanted vid pid sn) bus)
      refl

find_devices_exact :
    (bus : List UsbDevice) (vid pid : ℕ) (sn : Option (List ℕ))
    → find_devices (some bus) vid pid sn ≡ (
      found_any (hits (is_wanted vid pid sn) bus),
      hits (is_wanted vid pid sn) bus,
      map held_once (hits (is_wanted vid pid sn) bus),
    )
unfolding find_devices get_device_list
find_devices_exact bus vid pid sn =
    rw
      (
        take_wanted-found (is_wanted vid pid sn) bus,
        take_wanted-survivors (is_wanted vid pid sn) bus,
      )
      refl

-- The devices of a list with a property, all of them and in its order.
pub data Picks (P : UsbDevice → Type 0) : List UsbDevice → List UsbDevice → Type 0 where
  nothing : Picks P [] []
  takes :
      {d : UsbDevice} {ds found : List UsbDevice}
      → P d
      → Picks P ds found
      → Picks P (d ∷ ds) (d ∷ found)
  skips :
      {d : UsbDevice} {ds found : List UsbDevice}
      → ¬ (P d)
      → Picks P ds found
      → Picks P (d ∷ ds) found

select-Picks :
    (test : UsbDevice → Bool) (P : UsbDevice → Type 0)
    → ((d : UsbDevice) → (test d ≡ true) ↔ P d)
    → (bus : List UsbDevice) → Picks P bus (select test bus)
select-Picks test P one [] = nothing
select-Picks test P one (d ∷ bus) = elim (Bool-cases (test d)) [
  | inl e ↦ rw e (takes ((one d).0 e) (select-Picks test P one bus))
  | inr e ↦ rw e (skips (λ p. let hit = (one d).1 p in cc) (select-Picks test P one bus))
]

-- `UVC_ERROR_NO_DEVICE` for no device, and success otherwise.
abbrev pub report : List UsbDevice → ℤ
report [] = negsuc 3
report (d ∷ ds) = pos 0

found_any-report : (ds : List UsbDevice) → found_any ds ≡ report ds
unfolding found_any
found_any-report [] = refl
found_any-report (d ∷ ds) = refl

found_result-report : (ds : List UsbDevice) → found_result (first ds) ≡ report ds
unfolding found_result
found_result-report [] = refl
found_result-report (d ∷ ds) = refl

-- Where libusb lists the devices of the bus, the search for all cameras gives those that have the
-- identifiers asked for, where 0 stands for any, and the serial number asked for, if any, in the
-- order of the bus, and of all the structures that it makes only theirs are left, with one
-- reference each. The search for one gives the first of them, and only its structure is left, with
-- one reference. Without such a camera both report that there is no device, and otherwise success.
pub searches_exact :
    (bus : List UsbDevice) (vid pid : ℕ) (sn : Option (List ℕ))
    → (found : List UsbDevice) × Picks (IsHit vid pid sn) bus found
      × (find_devices (some bus) vid pid sn ≡ (report found, found, map held_once found))
      × (find_device (some bus) vid pid sn
          ≡ (report found, first found, map held_once (listed (first found))))
searches_exact bus vid pid sn =
    let found = hits (is_wanted vid pid sn) bus in
    (
      found,
      select-Picks (λ d. is_camera d && is_wanted vid pid sn d) (IsHit vid pid sn)
          (IsHit-iff vid pid sn) bus,
      find_devices_exact bus vid pid sn
          ∙ ap (λ ret. (ret, found, map held_once found)) (found_any-report found),
      find_device_exact bus vid pid sn
          ∙ ap (λ ret. (ret, first found, map held_once (listed (first found))))
              (found_result-report found),
    )
