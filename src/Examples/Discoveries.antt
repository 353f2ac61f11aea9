-- ===== src/Examples/Discoveries.antt =====
-- A bus with a keyboard and two cameras, one of which answers no request for its serial number.
use usb_video_class.Base.{◌≡◌, refl, ℕ, true, Option, none, some, List, [], ◌∷◌, map}
use usb_video_class.Base.Int.{pos, ◌+ℤ◌, ◌-ℤ◌}
use usb_video_class.Discover.{
  UsbDevice, any_setting, any_interface, got_interface, same_text, serial_matches, ids_match,
  is_wanted, found_any, find_device, find_devices, get_device_list, list_cameras, take_wanted,
  survivors, ref_device, unref_device,
}
use usb_video_class.Discover.Exact.{first, listed, held_once, report, Picks, searches_exact}
use usb_video_class.Discover.Wanted.{IsHit}

abbrev keyboard : UsbDevice
keyboard = record {
  ids = some (1, 2);
  interfaces = some (((record { b_interface_class = 3; b_interface_sub_class = 1 }) ∷ []) ∷ []);
  opens = true;
  serial = some (65 ∷ []);
}

abbrev pub camera_of : Option (List ℕ) → UsbDevice
camera_of serial = record {
  ids = some (1133, 2093);
  interfaces = some (((record { b_interface_class = 14; b_interface_sub_class = 2 }) ∷ []) ∷ []);
  opens = true;
  serial = serial;
}

abbrev bus : List UsbDevice
bus = keyboard ∷ camera_of none ∷ camera_of (some (65 ∷ 66 ∷ [])) ∷ []

abbrev camera_ab : UsbDevice
camera_ab = camera_of (some (65 ∷ 66 ∷ []))

camera_ab_found :
    find_devices (some bus) 1133 0 (some (65 ∷ 66 ∷ []))
    ≡ (pos 0, camera_ab ∷ [], held_once camera_ab ∷ [])
unfolding find_devices get_device_list list_cameras take_wanted found_any survivors ref_device
    unref_device is_wanted ids_match serial_matches same_text got_interface any_interface
    any_setting ◌+ℤ◌ ◌-ℤ◌
camera_ab_found = refl

searches_exact_example :
    (found : List UsbDevice) × Picks (IsHit 1133 0 (some (65 ∷ 66 ∷ []))) bus found
    × (find_devices (some bus) 1133 0 (some (65 ∷ 66 ∷ []))
        ≡ (report found, found, map held_once found))
    × (find_device (some bus) 1133 0 (some (65 ∷ 66 ∷ []))
        ≡ (report found, first found, map held_once (listed (first found))))
searches_exact_example = searches_exact bus 1133 0 (some (65 ∷ 66 ∷ []))
