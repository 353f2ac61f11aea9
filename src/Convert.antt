-- ===== src/Convert.antt =====
-- The frame functions of src/frame.c: sizes, copies and the conversions. What `realloc` and
-- `malloc` give is a parameter, `none` for `NULL`; an access outside a buffer is `none`.
pub mod Pixels
pub mod Loop
pub mod Sized
pub mod Blocks
pub mod Converted
pub mod Exact
use usb_video_class.Base.{
  ℕ, suc, ◌*◌, ◌%◌, Bool, true, false, not, ◌||◌, Option, none, some, List, [], ◌∷◌, ◌==◌, ltb,
  if◌then◌else◌, slice, write_at, ◌>>=◌,
}
use usb_video_class.Base.Bytes.{u32_mod}
use usb_video_class.Base.Int.{ℤ, pos, is_negative}
use usb_video_class.UvcError
use usb_video_class.Desc.{FrameFormat, yuyv, uyvy, rgb, bgr, mjpeg, gray8}
use usb_video_class.Frame.{Frame}
use usb_video_class.Convert.Pixels.{each_4, iyuyv2rgb_2, iuyvy2rgb_2, iuyvy2bgr_2}
use usb_video_class.Convert.Loop.{Body, convert_loop}

abbrev pub is_null : Option (List ℕ) → Bool
is_null none = true
is_null (some buf) = false

abbrev pub bytes_of : Option (List ℕ) → List ℕ
bytes_of none = []
bytes_of (some buf) = buf

-- The eight pixels of `IYUYV2RGB_8` and its like: 16 bytes to 24, by the macro for two pixels.
abbrev pub eight : (ℕ → ℕ → ℕ → ℕ → List ℕ) → Body
eight macro = record { window = 16; advance = 16; width = 24; chunk = each_4 macro }

-- One byte for each pair: `IYUYV2Y` takes the first, `IYUYV2UV` the second.
abbrev pub luma_body : Body
luma_body = record { window = 1; advance = 2; width = 1; chunk = λ bytes. bytes }

abbrev pub second : List ℕ → List ℕ
second (a ∷ b ∷ []) = b ∷ []
second bytes = []

abbrev pub chroma_body : Body
chroma_body = record { window = 2; advance = 2; width = 1; chunk = second }

abbrev pub is_yuyv : FrameFormat → Bool
is_yuyv yuyv = true
is_yuyv f = false

abbrev pub is_uyvy : FrameFormat → Bool
is_uyvy uyvy = true
is_uyvy f = false

-- `w * h * channels` in 32 bits.
abbrev pub need_bytes : ℕ → ℕ → ℕ → ℕ
need_bytes w h channels = w * h * channels % u32_mod

-- What each conversion copies of the input's header.
abbrev pub set_header : FrameFormat → ℕ → Frame → Frame → Frame
set_header target channels input out = record out {
  width = input.width;
  height = input.height;
  frame_format = target;
  step = input.width * channels % u32_mod;
  sequence = input.sequence;
  capture_time = input.capture_time;
  capture_time_finished = input.capture_time_finished;
  source = input.source;
}

-- The loop runs to the end of the output, whatever the size of the input.
unfoldable pub fill : Body → Frame → Frame → Option (ℤ × Frame)
fill b input out = do
  image ←
      convert_loop b (suc out.data_bytes) (bytes_of input.image) 0 (bytes_of out.image) 0
        out.data_bytes
  some (pos 0, record out { image = some image })

module _ (realloc : Option (List ℕ) → ℕ → Option (List ℕ)) where
  unfoldable pub resize : Frame → ℕ → Frame
  resize frame need =
      if is_null frame.image || not (frame.data_bytes == need)
      then record frame { data_bytes = need; image = realloc frame.image need }
      else frame

  unfoldable pub ensure_frame_size : Frame → ℕ → ℤ × Frame
  ensure_frame_size frame need =
      if frame.library_owns_data
      then (let frame' = resize frame need in
          ((if is_null frame'.image then UvcError.no_mem else pos 0), frame'))
      else (
        (if is_null frame.image || ltb frame.data_bytes need then UvcError.no_mem else pos 0),
        frame,
      )

  -- A conversion with its test of the format, its target, its bytes for a pixel, and its loop.
  unfoldable pub convert :
      Bool
      → FrameFormat
      → ℕ
      → (Frame → Frame → Option (ℤ × Frame))
      → Frame
      → Frame
      → Option (ℤ × Frame)
  convert accepted target channels run input out =
      if not accepted
      then some (UvcError.invalid_param, out)
      else (let (ret, out') =
            ensure_frame_size out (need_bytes input.width input.height channels) in
          if is_negative ret
          then some (UvcError.no_mem, out')
          else run input (set_header target channels input out'))

  unfoldable pub yuyv2rgb : Frame → Frame → Option (ℤ × Frame)
  yuyv2rgb input = convert (is_yuyv input.frame_format) rgb 3 (fill (eight iyuyv2rgb_2)) input

  -- The loop of this one is commented out.
  unfoldable pub yuyv2bgr : Frame → Frame → Option (ℤ × Frame)
  yuyv2bgr input = convert (is_yuyv input.frame_format) bgr 3 (λ _ out. some (pos 0, out)) input

  unfoldable pub yuyv2y : Frame → Frame → Option (ℤ × Frame)
  yuyv2y input = convert (is_yuyv input.frame_format) gray8 1 (fill luma_body) input

  unfoldable pub yuyv2uv : Frame → Frame → Option (ℤ × Frame)
  yuyv2uv input = convert (is_yuyv input.frame_format) gray8 1 (fill chroma_body) input

  unfoldable pub uyvy2rgb : Frame → Frame → Option (ℤ × Frame)
  uyvy2rgb input = convert (is_uyvy input.frame_format) rgb 3 (fill (eight iuyvy2rgb_2)) input

  unfoldable pub uyvy2bgr : Frame → Frame → Option (ℤ × Frame)
  uyvy2bgr input = convert (is_uyvy input.frame_format) bgr 3 (fill (eight iuyvy2bgr_2)) input

  -- The metadata, if there is some. `realloc` keeps what the old buffer held, which is
  -- overwritten at once.
  unfoldable pub copy_frame_metadata : Frame → Frame → Option Frame
  copy_frame_metadata input out =
      if is_null input.metadata || (input.metadata_bytes == 0) then some out else (do
        bytes ← slice (bytes_of input.metadata) 0 input.metadata_bytes
        metadata ←
            write_at
              (bytes_of (
                if ltb out.metadata_bytes input.metadata_bytes
                then realloc out.metadata input.metadata_bytes
                else out.metadata))
              0 bytes
        some (record out { metadata = some metadata; metadata_bytes = input.metadata_bytes }))

  unfoldable pub duplicate_sized : Frame → Frame → Option (ℤ × Frame)
  duplicate_sized input out = do
    bytes ← slice (bytes_of input.image) 0 input.data_bytes
    image ← write_at (bytes_of out.image) 0 bytes
    out' ← copy_frame_metadata input (record out {
      width = input.width;
      height = input.height;
      frame_format = input.frame_format;
      step = input.step;
      sequence = input.sequence;
      capture_time = input.capture_time;
      capture_time_finished = input.capture_time_finished;
      source = input.source;
      image = some image;
    })
    some (pos 0, out')

  unfoldable pub duplicate_frame : Frame → Frame → Option (ℤ × Frame)
  duplicate_frame input out =
      let (ret, out') = ensure_frame_size out input.data_bytes in
      if is_negative ret then some (UvcError.no_mem, out') else duplicate_sized input out'

  -- `mjpeg2rgb` is there when the library is built with libjpeg.
  unfoldable pub any2rgb_of :
      FrameFormat → Option (Frame → Frame → Option (ℤ × Frame)) → Frame → Frame → Option (ℤ × Frame)
  any2rgb_of mjpeg (some mjpeg2rgb) input out = mjpeg2rgb input out
  any2rgb_of yuyv jpeg input out = yuyv2rgb input out
  any2rgb_of uyvy jpeg input out = uyvy2rgb input out
  any2rgb_of rgb jpeg input out = duplicate_frame input out
  any2rgb_of f jpeg input out = some (UvcError.not_supported, out)

  unfoldable pub any2rgb :
      Option (Frame → Frame → Option (ℤ × Frame)) → Frame → Frame → Option (ℤ × Frame)
  any2rgb jpeg input out = any2rgb_of input.frame_format jpeg input out

  unfoldable pub any2bgr_of : FrameFormat → Frame → Frame → Option (ℤ × Frame)
  any2bgr_of yuyv input out = yuyv2bgr input out
  any2bgr_of uyvy input out = uyvy2bgr input out
  any2bgr_of bgr input out = duplicate_frame input out
  any2bgr_of f input out = some (UvcError.not_supported, out)

  unfoldable pub any2bgr : Frame → Frame → Option (ℤ × Frame)
  any2bgr input out = any2bgr_of input.frame_format input out

-- `uvc_allocate_frame`, from the header that `malloc` and `memset` give, if it did.
unfoldable pub allocate_frame : (ℕ → Option (List ℕ)) → Option Frame → ℕ → Option Frame
allocate_frame malloc none n = none
allocate_frame malloc (some zeroed) n =
    let frame = record zeroed { library_owns_data = true } in
    if n == 0
    then some frame
    else (do image ← malloc n; some (record frame { data_bytes = n; image = some image }))
