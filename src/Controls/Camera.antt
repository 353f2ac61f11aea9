-- ===== src/Controls/Camera.antt =====
-- The controls of src/ctrl-gen.c on the camera terminal, with their selectors
-- from include/libuvc/libuvc.h.
use usb_video_class.Base.{[], ◌∷◌}
use usb_video_class.Controls.{Control, camera_terminal, byte, word, dword}

abbrev pub scanning_mode : Control
scanning_mode = record { entity = camera_terminal; selector = 0x01; fields = byte ∷ [] }

abbrev pub ae_mode : Control
ae_mode = record { entity = camera_terminal; selector = 0x02; fields = byte ∷ [] }

abbrev pub ae_priority : Control
ae_priority = record { entity = camera_terminal; selector = 0x03; fields = byte ∷ [] }

abbrev pub exposure_abs : Control
exposure_abs = record { entity = camera_terminal; selector = 0x04; fields = dword ∷ [] }

abbrev pub exposure_rel : Control
exposure_rel = record { entity = camera_terminal; selector = 0x05; fields = byte ∷ [] }

abbrev pub focus_abs : Control
focus_abs = record { entity = camera_terminal; selector = 0x06; fields = word ∷ [] }

abbrev pub focus_rel : Control
focus_rel = record { entity = camera_terminal; selector = 0x07; fields = byte ∷ byte ∷ [] }

abbrev pub focus_simple_range : Control
focus_simple_range = record { entity = camera_terminal; selector = 0x12; fields = byte ∷ [] }

abbrev pub focus_auto : Control
focus_auto = record { entity = camera_terminal; selector = 0x08; fields = byte ∷ [] }

abbrev pub iris_abs : Control
iris_abs = record { entity = camera_terminal; selector = 0x09; fields = word ∷ [] }

abbrev pub iris_rel : Control
iris_rel = record { entity = camera_terminal; selector = 0x0a; fields = byte ∷ [] }

abbrev pub zoom_abs : Control
zoom_abs = record { entity = camera_terminal; selector = 0x0b; fields = word ∷ [] }

abbrev pub zoom_rel : Control
zoom_rel = record { entity = camera_terminal; selector = 0x0c; fields = byte ∷ byte ∷ byte ∷ [] }

abbrev pub pantilt_abs : Control
pantilt_abs = record { entity = camera_terminal; selector = 0x0d; fields = dword ∷ dword ∷ [] }

abbrev pub pantilt_rel : Control
pantilt_rel = record {
  entity = camera_terminal;
  selector = 0x0e;
  fields = byte ∷ byte ∷ byte ∷ byte ∷ [];
}

abbrev pub roll_abs : Control
roll_abs = record { entity = camera_terminal; selector = 0x0f; fields = word ∷ [] }

abbrev pub roll_rel : Control
roll_rel = record { entity = camera_terminal; selector = 0x10; fields = byte ∷ byte ∷ [] }

abbrev pub privacy : Control
privacy = record { entity = camera_terminal; selector = 0x11; fields = byte ∷ [] }

abbrev pub digital_window : Control
digital_window = record {
  entity = camera_terminal;
  selector = 0x13;
  fields = word ∷ word ∷ word ∷ word ∷ word ∷ word ∷ [];
}

abbrev pub digital_roi : Control
digital_roi = record {
  entity = camera_terminal;
  selector = 0x14;
  fields = word ∷ word ∷ word ∷ word ∷ word ∷ [];
}
