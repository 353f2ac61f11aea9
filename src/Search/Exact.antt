-- ===== src/Search/Exact.antt =====
-- What `uvc_get_stream_ctrl_format_size` of src/stream.c finds among the descriptors.
use usb_video_class.Base.{ℕ, ◌<◌, ◌≡◌, ◌⊎◌, true, false}
use usb_video_class.UvcError
use usb_video_class.Desc.{FrameFormat, FrameDesc, FormatDesc, StreamingInterface}
use usb_video_class.Device.{Device}
use usb_video_class.Format.{matches_guid}
use usb_video_class.Usb.{Usb, KeepsSize}
use usb_video_class.Ctrl.{StreamCtrl}
use usb_video_class.Search.{has_size}
use usb_video_class.Search.First.{All, Any}
use usb_video_class.Search.Rate.{OffersOf, DividesOf}

module _ (cf : FrameFormat) (width height fps : ℕ) where
  -- The control block asks for a frame of the right size, at an interval that the frame offers.
  abbrev pub AsksFrame : StreamingInterface → FormatDesc → StreamCtrl → FrameDesc → Type 0
  AsksFrame stream_if format c frame =
      (has_size width height frame ≡ true)
      × OffersOf frame.intervals fps frame c.dw_frame_interval
      × (c.b_frame_index ≡ frame.b_frame_index)
      × (c.b_format_index ≡ format.b_format_index)
      × (c.b_interface_number ≡ stream_if.b_interface_number)
      × (c.bm_hint ≡ 1)

  abbrev pub AsksFormat : StreamingInterface → StreamCtrl → FormatDesc → Type 0
  AsksFormat stream_if c format =
      (matches_guid 3 cf format.guid_format ≡ true)
      × Any (AsksFrame stream_if format c) format.frame_descs

  -- The control block asks for something that the interface offers.
  abbrev pub Asks : StreamCtrl → StreamingInterface → Type 0
  Asks c stream_if = Any (AsksFormat stream_if c) stream_if.format_descs

  abbrev pub LacksFrame : FrameDesc → Type 0
  LacksFrame frame =
      (has_size width height frame ≡ false) ⊎ ((i : ℕ) → ¬ (OffersOf frame.intervals fps frame i))

  abbrev pub LacksFormat : FormatDesc → Type 0
  LacksFormat format =
      (matches_guid 3 cf format.guid_format ≡ false) ⊎ All LacksFrame format.frame_descs

  -- The interface offers no frame of that format and size at that rate.
  abbrev pub Lacks : StreamingInterface → Type 0
  Lacks stream_if = All LacksFormat stream_if.format_descs

  -- An interface that can be claimed, and whose frames do not make the search divide by zero.
  abbrev pub Searchable : StreamingInterface → Type 0
  Searchable stream_if =
      (stream_if.b_interface_number < 32)
      × All (λ format. All (λ frame. DividesOf frame.intervals fps frame) format.frame_descs)
          stream_if.format_descs

  module _ {S : Type 0} (usb : Usb S) (keeps : KeepsSize usb) where
    abbrev Y : Type 0
    Y = Device × StreamCtrl × S
