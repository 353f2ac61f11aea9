-- ===== src/Mjpeg.antt =====
-- The conversions of MJPEG frames, src/frame-mjpeg.c. libjpeg's decompressor is a parameter; its
-- messages and the choice of the transform are left out.
pub mod Tables
pub mod Lines
pub mod Decoded
pub mod Exact
use usb_video_class.Base.{
  ℕ, zero, suc, ◌+◌, ◌*◌, Bool, true, false, Option, none, some, List, ◌>>=◌, if◌then◌else◌, ltb,
  slice, write_at,
}
use usb_video_class.Base.Int.{ℤ, pos}
use usb_video_class.UvcError
use usb_video_class.Desc.{FrameFormat, mjpeg, rgb, gray8}
use usb_video_class.Frame.{Frame}
use usb_video_class.Convert.{bytes_of, convert}
use usb_video_class.Mjpeg.Tables.{
  HuffTable, copy_huff_table, dc_lumi_len, dc_lumi_val, dc_chromi_len, dc_chromi_val, ac_lumi_len,
  ac_lumi_val, ac_chromi_len, ac_chromi_val,
}

-- `J_COLOR_SPACE`, as far as it is asked for.
pub data ColorSpace : Type 0 where
  jcs_rgb jcs_grayscale : ColorSpace

-- What `jpeg_read_scanlines` gives for one row: how many it read, their bytes, and the state.
pub record Scanlines (J : Type 0) : Type 0 where
  pub count : ℕ
  pub bytes : List ℕ
  pub next : J

-- libjpeg's decompressor over its state; `none` and `false` are calls that leave by `error_exit`.
-- `row_bytes` is `output_width * output_components`.
pub record Jpeg (J : Type 0) : Type 0 where
  pub read_header : List ℕ → Option J
  pub has_huff_table : J → Bool
  pub set_huff_tables : HuffTable → HuffTable → HuffTable → HuffTable → J → J
  pub start_decompress : ColorSpace → J → Option J
  pub output_scanline : J → ℕ
  pub output_height : J → ℕ
  pub row_bytes : J → ℕ
  pub read_scanlines : J → Option (Scanlines J)
  pub finish_decompress : J → Bool

abbrev pub is_mjpeg : FrameFormat → Bool
is_mjpeg mjpeg = true
is_mjpeg f = false

abbrev pub color_space : FrameFormat → Option ColorSpace
color_space rgb = some jcs_rgb
color_space gray8 = some jcs_grayscale
color_space f = none

module _ {J : Type 0} (jpeg : Jpeg J) where
  unfoldable pub insert_huff_tables : J → J
  insert_huff_tables =
      jpeg.set_huff_tables (copy_huff_table dc_lumi_len dc_lumi_val)
        (copy_huff_table dc_chromi_len dc_chromi_val) (copy_huff_table ac_lumi_len ac_lumi_val)
        (copy_huff_table ac_chromi_len ac_chromi_val)

  unfoldable pub with_tables : J → J
  with_tables j = if jpeg.has_huff_table j then j else insert_huff_tables j

  -- The loop over the rows: the decompressor, unless it failed, and the output. The result is
  -- `none` for a row outside the buffer, and for a loop of more rounds than there is fuel.
  unfoldable pub read_lines : ℕ → ℕ → J → List ℕ → ℕ → Option (Option J × List ℕ)
  read_lines zero step j image lines_read = none
  read_lines (suc fuel) step j image lines_read =
      if ltb (jpeg.output_scanline j) (jpeg.output_height j)
      then elim (jpeg.read_scanlines j) [
        | none ↦ some (none, image)
        | some r ↦ do
          image' ← write_at image (lines_read * step) r.bytes
          read_lines fuel step r.next image' (lines_read + r.count)
      ]
      else some (some j, image)

  -- What follows the rows.
  unfoldable pub finish_lines : Frame → Option J × List ℕ → ℤ × Frame
  finish_lines out (none, image) = (UvcError.other, record out { image = some image })
  finish_lines out (some j, image) = (
    (if jpeg.finish_decompress j then pos 0 else UvcError.other),
    record out { image = some image },
  )

  unfoldable pub decompress : Frame → J → Option (ℤ × Frame)
  decompress out j = do
    r ← read_lines (suc (jpeg.output_height j)) out.step j (bytes_of out.image) 0
    some (finish_lines out r)

  -- The decompressor once it has the header and the colour space.
  unfoldable pub start : ColorSpace → J → Option J
  start color j = jpeg.start_decompress color (with_tables j)

  unfoldable pub start_or_fail : Frame → Option J → Option (ℤ × Frame)
  start_or_fail out none = some (UvcError.other, out)
  start_or_fail out (some j) = decompress out j

  -- `uvc_mjpeg_convert`
  unfoldable pub mjpeg_convert : Frame → Frame → Option (ℤ × Frame)
  mjpeg_convert input out = do
    bytes ← slice (bytes_of input.image) 0 input.data_bytes
    start_or_fail out
        (do j ← jpeg.read_header bytes; color ← color_space out.frame_format; start color j)

  module _ (realloc : Option (List ℕ) → ℕ → Option (List ℕ)) where
    unfoldable pub mjpeg2rgb : Frame → Frame → Option (ℤ × Frame)
    mjpeg2rgb input = convert realloc (is_mjpeg input.frame_format) rgb 3 mjpeg_convert input

    unfoldable pub mjpeg2gray : Frame → Frame → Option (ℤ × Frame)
    mjpeg2gray input = convert realloc (is_mjpeg input.frame_format) gray8 1 mjpeg_convert input
