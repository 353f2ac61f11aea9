-- ===== src/Discover.antt =====
-- Finding cameras: `uvc_get_device_list`, `uvc_find_device` and `uvc_find_devices` of src/device.c,
-- with the reference counts. What libusb says of each device on the bus is given; allocation does
-- not fail. `survivors` of a list are the structures that are not freed with it.
pub mod Wanted
pub mod Exact
use usb_video_class.Base.{
  ℕ, Bool, true, false, not, ◌&&◌, ◌||◌, Option, none, some, List, [], ◌∷◌, ◌==◌, leb,
  if◌then◌else◌,
}
use usb_video_class.Base.Int.{ℤ, pos, ◌+ℤ◌, ◌-ℤ◌, ◌==ℤ◌}
use usb_video_class.UvcError
use usb_video_class.Device.Claim.{is_success}

-- `bInterfaceClass` and `bInterfaceSubClass` of an alternate setting.
pub record AltClass : Type 0 where
  pub b_interface_class : ℕ
  pub b_interface_sub_class : ℕ

-- What libusb says of a device: its two identifiers and its interfaces' settings, where it answers;
-- whether it can be opened, and its serial number, where it has one, without the byte 0 that ends it.
pub record UsbDevice : Type 0 where
  pub ids : Option (ℕ × ℕ)
  pub interfaces : Option (List (List AltClass))
  pub opens : Bool
  pub serial : Option (List ℕ)

-- `struct uvc_device`; `usb_refs` counts the structure's references to the device of
-- libusb: the calls of `libusb_ref_device` less those of `libusb_unref_device`.
pub record UvcDevice : Type 0 where
  pub usb_dev : UsbDevice
  pub ref : ℤ
  pub usb_refs : ℤ

unfoldable pub ref_device : UvcDevice → UvcDevice
ref_device d = record d { ref = d.ref +ℤ pos 1; usb_refs = d.usb_refs +ℤ pos 1 }

-- `none` when it is freed.
unfoldable pub unref_device : UvcDevice → Option UvcDevice
unref_device d =
    if d.ref -ℤ pos 1 ==ℤ pos 0
    then none
    else some (record d { ref = d.ref -ℤ pos 1; usb_refs = d.usb_refs -ℤ pos 1 })

-- The tests of an alternate setting: a streaming interface, or one of two cameras of the Imaging
-- Source; eight of its other cameras are left out.
abbrev pub is_streaming : ℕ → ℕ → AltClass → Bool
is_streaming vid pid alt =
    not (vid == 0x199e && leb 0x8201 pid && leb pid 0x8208)
    && ((vid == 0x199e
          && (pid == 0x8101 || pid == 0x8102)
          && alt.b_interface_class == 255
          && alt.b_interface_sub_class == 2)
        || (alt.b_interface_class == 14 && alt.b_interface_sub_class == 2))

unfoldable pub any_setting : (AltClass → Bool) → List AltClass → Bool
any_setting test [] = false
any_setting test (alt ∷ alts) = if test alt then true else any_setting test alts

unfoldable pub any_interface : (AltClass → Bool) → List (List AltClass) → Bool
any_interface test [] = false
any_interface test (alts ∷ interfaces) =
    if any_setting test alts then true else any_interface test interfaces

unfoldable pub got_interface : Option (List (List AltClass)) → Option (ℕ × ℕ) → Bool
got_interface none ids = false
got_interface (some interfaces) none = false
got_interface (some interfaces) (some (vid, pid)) = any_interface (is_streaming vid pid) interfaces

abbrev pub is_camera : UsbDevice → Bool
is_camera d = got_interface d.interfaces d.ids

-- The structures for the devices of the bus that are cameras, with one reference each.
unfoldable pub list_cameras : List UsbDevice → List UvcDevice
list_cameras [] = []
list_cameras (d ∷ ds) =
    let rest = list_cameras ds in
    if is_camera d
    then ref_device (record { usb_dev = d; ref = pos 0; usb_refs = pos 0 }) ∷ rest
    else rest

-- `uvc_get_device_list`; `none` is a failure of libusb's own list.
unfoldable pub get_device_list : Option (List UsbDevice) → ℤ × List UvcDevice
get_device_list none = (UvcError.io, [])
get_device_list (some bus) = (pos 0, list_cameras bus)

-- `uvc_free_device_list` with its reference dropped: what is left of the devices.
unfoldable pub survivors : List UvcDevice → List UvcDevice
survivors [] = []
survivors (d ∷ ds) = elim (unref_device d) [ none ↦ survivors ds | some d' ↦ d' ∷ survivors ds ]

unfoldable pub same_text : List ℕ → List ℕ → Bool
same_text [] [] = true
same_text (a ∷ xs) (b ∷ bs) = a == b && same_text xs bs
same_text ys zs = false

-- The test of the serial number: none asked for, or the device's own, which is there if the device
-- could be opened.
unfoldable pub serial_matches : Option (List ℕ) → Bool → Option (List ℕ) → Bool
serial_matches none opens serial = true
serial_matches (some sn) true (some serial) = same_text serial sn
serial_matches (some sn) opens serial = false

-- The test of the two loops, on the descriptor that `uvc_get_device_descriptor` makes, if it does.
unfoldable pub ids_match : ℕ → ℕ → Option (ℕ × ℕ) → Bool
ids_match vid pid none = false
ids_match vid pid (some (v, p)) = (vid == 0 || v == vid) && (pid == 0 || p == pid)

unfoldable pub is_wanted : ℕ → ℕ → Option (List ℕ) → UsbDevice → Bool
is_wanted vid pid sn d = ids_match vid pid d.ids && serial_matches sn d.opens d.serial

-- The loop of `uvc_find_device`: the list with a reference more on the first device that is
-- wanted, and that device.
unfoldable pub take_first : (UsbDevice → Bool) → List UvcDevice → Option UsbDevice × List UvcDevice
take_first wanted [] = (none, [])
take_first wanted (d ∷ ds) =
    let (found, ds') = take_first wanted ds in
    if wanted d.usb_dev then (some d.usb_dev, ref_device d ∷ ds) else (found, d ∷ ds')

-- The loop of `uvc_find_devices`: the devices that are wanted, and the list with a reference more
-- on each of them.
unfoldable pub take_wanted : (UsbDevice → Bool) → List UvcDevice → List UsbDevice × List UvcDevice
take_wanted wanted [] = ([], [])
take_wanted wanted (d ∷ ds) =
    let (found, ds') = take_wanted wanted ds in
    if wanted d.usb_dev then (d.usb_dev ∷ found, ref_device d ∷ ds') else (found, d ∷ ds')

unfoldable pub found_result : Option UsbDevice → ℤ
found_result none = UvcError.no_device
found_result (some d) = pos 0

-- `uvc_find_device`: the result, the device, and the structures that are still there.
unfoldable pub find_device :
    Option (List UsbDevice) → ℕ → ℕ → Option (List ℕ) → ℤ × Option UsbDevice × List UvcDevice
find_device bus vid pid sn =
    let (ret, cameras) = get_device_list bus in
    if not (is_success ret)
    then (ret, none, [])
    else (let (found, cameras') = take_first (is_wanted vid pid sn) cameras in
        (found_result found, found, survivors cameras'))

unfoldable pub found_any : List UsbDevice → ℤ
found_any [] = UvcError.no_device
found_any (d ∷ ds) = pos 0

-- `uvc_find_devices`, in the same way.
unfoldable pub find_devices :
    Option (List UsbDevice) → ℕ → ℕ → Option (List ℕ) → ℤ × List UsbDevice × List UvcDevice
find_devices bus vid pid sn =
    let (ret, cameras) = get_device_list bus in
    if not (is_success ret)
    then (ret, [], [])
    else (let (found, cameras') = take_wanted (is_wanted vid pid sn) cameras in
        (found_any found, found, survivors cameras'))
