-- ===== src/Open.antt =====
-- Opening and closing of devices: `uvc_open`, `uvc_wrap`, `uvc_open_internal`,
-- `uvc_get_device_info` and `uvc_close` of src/device.c, `uvc_stop_streaming` of src/stream.c once
-- the transfers are drained. What libusb and the device answer is given; other allocation does not
-- fail.
pub mod Handler
pub mod Rollback
use usb_video_class.Base.{
  ℕ, Bool, false, not, ◌&&◌, Option, none, some, List, [], ◌∷◌, ◌==◌, if◌then◌else◌, ◌>>=◌,
}
use usb_video_class.Base.Int.{ℤ, pos}
use usb_video_class.UvcError
use usb_video_class.Usb.{Usb}
use usb_video_class.Desc.{DeviceInfo}
use usb_video_class.Device.{Device}
use usb_video_class.Device.Claim.{claim_if, release_if, is_success}
use usb_video_class.Parse.{Interface}
use usb_video_class.Parse.Control.{scan_control}
use usb_video_class.Stream.{Stream}
use usb_video_class.Session.{Session}
use usb_video_class.Context.{Handle, Context, add_device, leave}
use usb_video_class.Session.Close.{stream_close}
use usb_video_class.Discover.{UsbDevice, UvcDevice, ref_device, unref_device}

-- libusb for one device: the calls on its handle, its configuration where libusb has one, whether
-- it is one of the two cameras of the Imaging Source, its identifiers, whether a transfer can be
-- allocated, and what the opening, the closing and the submission of the status transfer do.
pub record Host (S : Type 0) : Type 0 where
  pub usb : Usb S
  pub config : Option (List Interface)
  pub tis_camera : Bool
  pub ids : ℕ × ℕ
  pub allocates : Bool
  pub usb_open : S → ℤ × S
  pub usb_close : S → S
  pub submit_status : S → ℤ × S

-- What `calloc` gives for `struct uvc_device_info`.
abbrev pub blank_info : DeviceInfo
blank_info = record {
  ctrl_if = record {
    input_term_descs = [];
    selector_unit_descs = [];
    processing_unit_descs = [];
    extension_unit_descs = [];
    bcd_uvc = 0;
    dw_clock_frequency = 0;
    b_endpoint_address = 0;
    b_interface_number = 0;
  };
  stream_ifs = [];
}

-- `uvc_get_device_info`: the result, and the descriptors if that is a success.
unfoldable pub get_device_info : Bool → Option (List Interface) → Option (ℤ × Option DeviceInfo)
get_device_info tis_camera none = some (UvcError.io, none)
get_device_info tis_camera (some config) = do
  (ret, info) ← scan_control tis_camera config blank_info
  some (if is_success ret then (ret, some info) else (ret, none))

-- The result of an opening, with the device unless it is freed.
pub record Opened (S : Type 0) : Type 0 where
  pub ret : ℤ
  pub dev : Option UvcDevice
  pub ctx : Context
  pub after : S

module _ {S : Type 0} (host : Host S) where
  -- `fail:` of `uvc_open_internal`, without descriptors and with them.
  unfoldable pub abandon : ℤ → UvcDevice → Context → S → Opened S
  abandon ret dev ctx w = record {
    ret = ret;
    dev = unref_device dev;
    ctx = ctx;
    after = host.usb_close w;
  }

  unfoldable pub abandon_scanned : ℤ → Device → UvcDevice → Context → S → Option (Opened S)
  abandon_scanned ret d dev ctx w = do
    (_, _, w') ← release_if host.usb d d.info.ctrl_if.b_interface_number w
    some (abandon ret dev ctx w')

  -- The status transfer, if the control interface has an endpoint.
  unfoldable pub start_status : ℕ → S → ℤ × S
  start_status endpoint w =
      if endpoint == 0
      then (pos 0, w)
      else (if not host.allocates then (UvcError.no_mem, w) else host.submit_status w)

  abbrev pub new_handle : ℕ → Device → Handle
  new_handle address d = record {
    address = address;
    session = record { device = d; streams = [] };
    is_isight = (host.ids.0 == 0x05ac) && (host.ids.1 == 0x8501);
    status_xfer = not (d.info.ctrl_if.b_endpoint_address == 0);
  }

  unfoldable pub open_claimed : ℕ → Device → UvcDevice → Context → S → Option (Opened S)
  open_claimed address d dev ctx w =
      let (ret, w') = start_status d.info.ctrl_if.b_endpoint_address w in
      if not (is_success ret)
      then abandon_scanned ret d dev ctx w'
      else some (record {
        ret = ret;
        dev = some dev;
        ctx = add_device (new_handle address d) ctx;
        after = w';
      })

  unfoldable pub open_scanned : ℕ → DeviceInfo → UvcDevice → Context → S → Option (Opened S)
  open_scanned address info dev ctx w = do
    (ret, d, w') ←
        claim_if host.usb (record { info = info; claimed = λ _. false })
          info.ctrl_if.b_interface_number w
    if not (is_success ret)
        then abandon_scanned ret d dev ctx w'
        else open_claimed address d dev ctx w'

  -- `uvc_open_internal`; `address` is that of the new handle.
  unfoldable pub open_internal : ℕ → UvcDevice → Context → S → Option (Opened S)
  open_internal address dev ctx w = do
    (ret, info) ← get_device_info host.tis_camera host.config
    elim info [
      | none ↦ some (abandon ret (ref_device dev) ctx w)
      | some info' ↦ open_scanned address info' (ref_device dev) ctx w
    ]

  -- `uvc_open`
  unfoldable pub open_device : ℕ → UvcDevice → Context → S → Option (Opened S)
  open_device address dev ctx w =
      let (ret, w') = host.usb_open w in
      if not (is_success ret)
      then some (record { ret = ret; dev = some dev; ctx = ctx; after = w' })
      else open_internal address dev ctx w'

  -- `uvc_wrap` of a device that libusb knows under a handle of the system; `wrap` is the result of
  -- `libusb_wrap_sys_device`. It makes a structure without a reference.
  unfoldable pub wrap_device : (S → ℤ × S) → ℕ → UsbDevice → Context → S → Option (Opened S)
  wrap_device wrap address usb_dev ctx w =
      let (ret, w') = wrap w in
      if not (is_success ret)
      then some (record { ret = ret; dev = none; ctx = ctx; after = w' })
      else open_internal address (record { usb_dev = usb_dev; ref = pos 0; usb_refs = pos 0 }) ctx
          w'

module _ {S : Type 0} (usb : Usb S) where
  -- `uvc_stop_streaming`
  unfoldable pub close_streams : List Stream → Session → S → Option (Session × S)
  close_streams [] y w = some (y, w)
  close_streams (s ∷ ss) y w = do (y', w') ← stream_close usb y s w; close_streams ss y' w'

-- `uvc_close`: the context, the device unless it is freed, and libusb's state.
unfoldable pub close_device :
    {S : Type 0}
    → Host S
    → Handle
    → UvcDevice
    → Context
    → S
    → Option (Context × Option UvcDevice × S)
close_device host handle dev ctx w = do
  (y, w₁) ← close_streams host.usb handle.session.streams handle.session w
  (_, d, w₂) ← release_if host.usb y.device y.device.info.ctrl_if.b_interface_number w₁
  some (leave handle.address ctx, unref_device dev, host.usb_close w₂)
