-- ===== src/Examples/Openings.antt =====
-- A camera with a status endpoint, opened in a context with an event thread of its own.
use usb_video_class.Base.{List, subst, ◌<◌, ◌≡◌, refl, ℕ, false, true, none, some, [], ◌∷◌, arith}
use mathlib.Core.Option.{some-injective}
use usb_video_class.Base.Int.{pos}
use usb_video_class.Desc.{DeviceInfo}
use usb_video_class.Parse.{Interface, scan}
use usb_video_class.Parse.Control.{scan_control, find_control}
use usb_video_class.Discover.{UvcDevice, ref_device}
use usb_video_class.Context.{blank_context}
use usb_video_class.Open.{Host, Opened, blank_info, get_device_info, open_internal}
use usb_video_class.Open.Rollback.{Outcome, Readable, open_internal_exact}
use usb_video_class.Open.Handler.{Handled, opens, starts, History-Handled}
use usb_video_class.Examples.Controls.{camera}

abbrev control_interface : Interface
control_interface = record {
  b_interface_number = 0;
  b_interface_class = 14;
  b_interface_sub_class = 1;
  endpoint_addresses = 0x83 ∷ [];
  extra = [];
}

abbrev host : Host (List ℕ)
host = record {
  usb = camera;
  config = some (control_interface ∷ []);
  tis_camera = false;
  ids = (1133, 2093);
  allocates = true;
  usb_open = λ w. (pos 0, w);
  usb_close = λ w. w;
  submit_status = λ w. (pos 0, w);
}

abbrev described : DeviceInfo
described = record {
  ctrl_if = record (blank_info.ctrl_if) { b_endpoint_address = 0x83 };
  stream_ifs = [];
}

host-Readable : Readable host
unfolding get_device_info scan_control find_control scan
host-Readable = (
  (pos 0, some described),
  refl,
  λ info e. subst (λ i. i.ctrl_if.b_interface_number < 32) (some-injective _ info e) (omega arith),
)

-- The camera as the list of devices holds it.
abbrev listed_camera : UvcDevice
listed_camera = record {
  usb_dev = record {
    ids = some (1133, 2093);
    interfaces = some (((record { b_interface_class = 14; b_interface_sub_class = 2 }) ∷ []) ∷ []);
    opens = true;
    serial = none;
  };
  ref = pos 1;
  usb_refs = pos 1;
}

opened :
    (o : Opened (List ℕ)) × (open_internal host 7 listed_camera (blank_context true) [] ≡ some o)
    × Outcome 7 (ref_device listed_camera) (blank_context true) o
opened = open_internal_exact host 7 listed_camera (blank_context true) [] host-Readable

open_internal_exact_example :
    (o : Opened (List ℕ)) × (open_internal host 7 listed_camera (blank_context true) [] ≡ some o)
    × Outcome 7 (ref_device listed_camera) (blank_context true) o
open_internal_exact_example =
    open_internal_exact host 7 listed_camera (blank_context true) [] host-Readable

History-Handled_example : Handled opened.0.ctx
History-Handled_example = History-Handled (opens host 7 listed_camera [] starts opened.1)
