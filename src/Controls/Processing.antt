-- ===== src/Controls/Processing.antt =====
-- The controls of src/ctrl-gen.c on the first processing unit and the first selector unit, with their selectors
-- from include/libuvc/libuvc.h.
use usb_video_class.Base.{[], ◌∷◌}
use usb_video_class.Controls.{Control, processing_unit, selector_unit, byte, word}

abbrev pub backlight_compensation : Control
backlight_compensation = record { entity = processing_unit; selector = 0x01; fields = word ∷ [] }

abbrev pub brightness : Control
brightness = record { entity = processing_unit; selector = 0x02; fields = word ∷ [] }

abbrev pub contrast : Control
contrast = record { entity = processing_unit; selector = 0x03; fields = word ∷ [] }

abbrev pub contrast_auto : Control
contrast_auto = record { entity = processing_unit; selector = 0x13; fields = byte ∷ [] }

abbrev pub gain : Control
gain = record { entity = processing_unit; selector = 0x04; fields = word ∷ [] }

abbrev pub power_line_frequency : Control
power_line_frequency = record { entity = processing_unit; selector = 0x05; fields = byte ∷ [] }

abbrev pub hue : Control
hue = record { entity = processing_unit; selector = 0x06; fields = word ∷ [] }

abbrev pub hue_auto : Control
hue_auto = record { entity = processing_unit; selector = 0x10; fields = byte ∷ [] }

abbrev pub saturation : Control
saturation = record { entity = processing_unit; selector = 0x07; fields = word ∷ [] }

abbrev pub sharpness : Control
sharpness = record { entity = processing_unit; selector = 0x08; fields = word ∷ [] }

abbrev pub gamma : Control
gamma = record { entity = processing_unit; selector = 0x09; fields = word ∷ [] }

abbrev pub white_balance_temperature : Control
white_balance_temperature = record { entity = processing_unit; selector = 0x0a; fields = word ∷ [] }

abbrev pub white_balance_temperature_auto : Control
white_balance_temperature_auto = record {
  entity = processing_unit;
  selector = 0x0b;
  fields = byte ∷ [];
}

abbrev pub white_balance_component : Control
white_balance_component = record {
  entity = processing_unit;
  selector = 0x0c;
  fields = word ∷ word ∷ [];
}

abbrev pub white_balance_component_auto : Control
white_balance_component_auto = record {
  entity = processing_unit;
  selector = 0x0d;
  fields = byte ∷ [];
}

abbrev pub digital_multiplier : Control
digital_multiplier = record { entity = processing_unit; selector = 0x0e; fields = word ∷ [] }

abbrev pub digital_multiplier_limit : Control
digital_multiplier_limit = record { entity = processing_unit; selector = 0x0f; fields = word ∷ [] }

abbrev pub analog_video_standard : Control
analog_video_standard = record { entity = processing_unit; selector = 0x11; fields = byte ∷ [] }

abbrev pub analog_video_lock_status : Control
analog_video_lock_status = record { entity = processing_unit; selector = 0x12; fields = byte ∷ [] }

abbrev pub input_select : Control
input_select = record { entity = selector_unit; selector = 0x01; fields = byte ∷ [] }
