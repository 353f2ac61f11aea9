-- ===== src/Convert/Converted.antt =====
-- What a conversion of src/frame.c leaves in the output frame, for any loop body.
use usb_video_class.Base.{
  ◌^◌, ℕ, suc, ◌*◌, ◌≤◌, ◌<◌, ◌≡◌, refl, ap, ◌∙◌, subst, ◌⊎◌, inl, inr, Bool, true, false, Option,
  some, List, length, take, arith,
}
use usb_video_class.Base.Int.{ℤ, pos}
use usb_video_class.UvcError
use usb_video_class.Desc.{FrameFormat}
use usb_video_class.Frame.{Frame}
use usb_video_class.Convert.Pixels.{each_4}
use usb_video_class.Convert.Loop.{Body, IsBody, chunks, convert_loop-Converts}
use usb_video_class.Convert.{eight, bytes_of, need_bytes, set_header, fill, convert}
use usb_video_class.Convert.Sized.{IsSized, convert-Ensured}
use usb_video_class.Convert.Blocks.{eight-IsBody, chunks-eight}

-- An output frame with the input's header and an image, in a buffer of at least that size.
pub record Shows (input : Frame) (target : FrameFormat) (channels : ℕ) (image : List ℕ)
    (out : Frame) : Type 0 where
  pub pixels : take out.data_bytes (bytes_of out.image) ≡ image
  pub size : out.data_bytes ≡ need_bytes input.width input.height channels
  pub header : out ≡ set_header target channels input out

-- No memory, or the converted image.
abbrev pub Converted : Frame → FrameFormat → ℕ → List ℕ → Option (ℤ × Frame) → Type 0
Converted input target channels image o =
    (ret : ℤ) × (out : Frame) × (o ≡ some (ret, out))
    × ((ret ≡ UvcError.no_mem) ⊎ ((ret ≡ pos 0) × Shows input target channels image out))

fill-Converted :
    (b : Body) (good : IsBody b) (input out : Frame) (target : FrameFormat) (channels n : ℕ)
    → need_bytes input.width input.height channels ≡ n * b.width
    → n * b.advance ≤ length (bytes_of input.image)
    → out.data_bytes ≤ length (bytes_of out.image)
    → out.data_bytes ≡ need_bytes input.width input.height channels
    → Converted input target channels
        (chunks b n (bytes_of input.image))
        (fill b input (set_header target channels input out))
unfolding fill
fill-Converted b good input out target channels n need inside room exact =
    let enough : n < suc out.data_bytes = rounds n b.width good.moves (exact ∙ need) in
    let (image, run, len, pixels) =
      convert_loop-Converts b good (bytes_of input.image) n (suc out.data_bytes) 0
        (bytes_of out.image) 0 out.data_bytes enough (omega arith) (omega arith) (omega arith) in
    (
      pos 0,
      record (set_header target channels input out) { image = some image },
      rw run refl,
      inr (
        refl,
        record {
          pixels = ap (λ k. take k image) (omega arith) ∙ pixels;
          size = exact;
          header = refl;
        },
      ),
    )
  where
    rounds : (n w : ℕ) {total : ℕ} → 0 < w → total ≡ n * w → n < suc total
    rounds n w h e = grind arith

-- A frame that the library owns has exactly the bytes that are needed.
pub owned_exact :
    (have need : ℕ) (owned : Bool) → owned ≡ true → (have ≡ need) ⊎ (owned ≡ false) → have ≡ need
owned_exact have need owned mine (inl e) = e
owned_exact have need owned mine (inr theirs) = cc

module _ (realloc : Option (List ℕ) → ℕ → Option (List ℕ))
    (sized : (old : Option (List ℕ)) (n : ℕ) (buf : List ℕ)
      → realloc old n ≡ some buf
      → length buf ≡ n) where
  pub convert-Converted :
      (b : Body) (good : IsBody b) (input out : Frame) (accepted : Bool) (target : FrameFormat)
      (channels n : ℕ)
      → accepted ≡ true
      → IsSized out
      → out.library_owns_data ≡ true
      → need_bytes input.width input.height channels ≡ n * b.width
      → n * b.advance ≤ length (bytes_of input.image)
      → Converted input target channels
          (chunks b n (bytes_of input.image))
          (convert realloc accepted target channels (fill b) input out)
  convert-Converted b good input out accepted target channels n yes_format s mine need inside =
      convert-Ensured realloc sized
        (Converted input target channels (chunks b n (bytes_of input.image))) (fill b) input out
        accepted target channels yes_format s (λ out'. (UvcError.no_mem, out', refl, inl refl))
        λ out' ready. fill-Converted b good input out' target channels n need inside ready.room (
          owned_exact out'.data_bytes (need_bytes input.width input.height channels)
            out.library_owns_data mine ready.exact)

  pub eight-Converted :
      (macro : ℕ → ℕ → ℕ → ℕ → List ℕ) (input out : Frame) (accepted : Bool) (target : FrameFormat)
      (n : ℕ)
      → ((a b c d : ℕ) → length (macro a b c d) ≡ 6)
      → accepted ≡ true
      → IsSized out
      → out.library_owns_data ≡ true
      → input.width * input.height ≡ 8 * n
      → 24 * n < 2 ^ 32
      → 16 * n ≤ length (bytes_of input.image)
      → Converted input target 3
          (each_4 macro (take (16 * n) (bytes_of input.image)))
          (convert realloc accepted target 3 (fill (eight macro)) input out)
  eight-Converted macro input out accepted target n six yes_format s mine pixels small inside =
      subst
        (λ image.
          Converted input target 3 image
            (convert realloc accepted target 3 (fill (eight macro)) input out))
        (chunks-eight macro n (bytes_of input.image) inside)
        (convert-Converted (eight macro) (eight-IsBody macro six) input out accepted target 3 n
          yes_format s mine (omega (arith, ap (λ (k : ℕ). k * 3) pixels)) (omega arith))
