-- ===== src/Examples/Searches.antt =====
-- The camera, asked for an image of 320 by 240 pixels at 30 frames a second.
use usb_video_class.Base.{◌≡◌, refl, none, some, [], ◌∷◌}
use usb_video_class.UvcError
use usb_video_class.Device.{Device}
use usb_video_class.Search.{listed_interval}
use usb_video_class.Examples.Controls.{device}
use usb_video_class.Examples.Polling.{info}

abbrev asked : Device
asked = record device { info = info }

-- A 0 ends a list.
listed_to_zero : listed_interval 30 (0 ∷ 333333 ∷ []) ≡ none
unfolding listed_interval
listed_to_zero = refl

listed_at_30 : listed_interval 30 (666666 ∷ 333333 ∷ []) ≡ some 333333
unfolding listed_interval
listed_at_30 = refl
