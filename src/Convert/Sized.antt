-- ===== src/Convert/Sized.antt =====
-- `uvc_ensure_frame_size` of src/frame.c: what the output buffer has room for afterwards.
use usb_video_class.Base.{
  if_false, ℕ, ◌≤◌, ◌≡◌, refl, sym, ap, subst, ◌⊎◌, inl, inr, Bool, true, false, not, ◌||◌, Option,
  none, some, List, ◌==◌, ltb, length, arith, if_cases, if◌then◌else◌,
}
use usb_video_class.Base.Int.{ℤ, pos, is_negative}
use usb_video_class.UvcError
use usb_video_class.Frame.{Frame}
use usb_video_class.Convert.{
  is_null, bytes_of, need_bytes, set_header, convert, resize, ensure_frame_size,
}
use usb_video_class.Desc.{FrameFormat}

-- No buffer, or one that has the bytes that the frame states.
abbrev pub IsSized : Frame → Type 0
IsSized f = (is_null f.image ≡ true) ⊎ (f.data_bytes ≤ length (bytes_of f.image))

-- A buffer with room: exactly what was asked for if the library owns it.
pub record IsReady (need : ℕ) (owned : Bool) (f : Frame) : Type 0 where
  pub present : is_null f.image ≡ false
  pub room : f.data_bytes ≤ length (bytes_of f.image)
  pub enough : need ≤ f.data_bytes
  pub exact : (f.data_bytes ≡ need) ⊎ (owned ≡ false)

-- Success and room, or no memory.
abbrev pub Ensured : ℕ → Bool → ℤ × Frame → Type 0
Ensured need owned r = ((r.0 ≡ pos 0) × IsReady need owned r.1) ⊎ (r.0 ≡ UvcError.no_mem)

module _ (realloc : Option (List ℕ) → ℕ → Option (List ℕ))
    (sized : (old : Option (List ℕ)) (n : ℕ) (buf : List ℕ)
      → realloc old n ≡ some buf
      → length buf ≡ n) where
  -- The answer after a resize, by what the buffer then is.
  answer_Ensured :
      (f : Frame) (n : ℕ) (image : Option (List ℕ))
      → realloc f.image n ≡ image
      → Ensured n f.library_owns_data (
        (if is_null image then UvcError.no_mem else pos 0),
        record f { data_bytes = n; image = image },
      )
  answer_Ensured f n none e = inr refl
  answer_Ensured f n (some buf) e = inl (
    refl,
    record {
      present = refl;
      room = omega (arith, sized f.image n buf e);
      enough = omega arith;
      exact = inl refl;
    },
  )

  kept_IsReady :
      (f : Frame) (n : ℕ)
      → IsSized f
      → is_null f.image ≡ false
      → n ≤ f.data_bytes
      → (f.data_bytes ≡ n) ⊎ (f.library_owns_data ≡ false)
      → IsReady n f.library_owns_data f
  kept_IsReady f n (inl null) there h e = cc
  kept_IsReady f n (inr room) there h e = record {
    present = there;
    room = room;
    enough = h;
    exact = e;
  }

  owned_Ensured :
      (f : Frame) (n : ℕ)
      → IsSized f
      → Ensured n f.library_owns_data (
        (if is_null (resize realloc f n).image then UvcError.no_mem else pos 0),
        resize realloc f n,
      )
  unfolding resize
  owned_Ensured f n s =
      if_cases
        (λ (g : Frame).
          Ensured n f.library_owns_data ((if is_null g.image then UvcError.no_mem else pos 0), g))
        (is_null f.image || not (f.data_bytes == n))
        (λ changed. answer_Ensured f n (realloc f.image n) refl)
        (λ same.
          let there : is_null f.image ≡ false = ground (arith, same) in
          let fits : f.data_bytes ≡ n = ground (arith, same) in
          inl (if_false _ _ there, kept_IsReady f n s there (omega arith) (inl fits)))

  -- For an output frame whose buffer, if there is one, has the bytes that the frame states, and a
  -- `realloc` that gives the bytes asked for or none, the frame ends with a buffer of at least the
  -- bytes that are needed, exactly that many by its header if the library owns it, or the
  -- function reports that there is no memory.
  pub ensure_frame_size-Ensured :
      (f : Frame) (n : ℕ)
      → IsSized f
      → Ensured n f.library_owns_data (ensure_frame_size realloc f n)
  unfolding ensure_frame_size
  ensure_frame_size-Ensured f n s =
      if_cases (Ensured n f.library_owns_data) f.library_owns_data (λ mine. owned_Ensured f n s)
        (λ theirs.
          if_cases (λ ret. Ensured n f.library_owns_data (ret, f))
            (is_null f.image || ltb f.data_bytes n) (λ bad. inr refl)
            (λ good.
              let there : is_null f.image ≡ false = ground (arith, good) in
              let fits : n ≤ f.data_bytes = ground (arith, good) in
              inl (refl, kept_IsReady f n s there fits (inr theirs))))

  -- A conversion reports that there is no memory, or runs its loop on a frame with room.
  pub convert-Ensured :
      (P : Option (ℤ × Frame) → Type 0) (run : Frame → Frame → Option (ℤ × Frame))
      (input out : Frame) (accepted : Bool) (target : FrameFormat) (channels : ℕ)
      → accepted ≡ true
      → IsSized out
      → ((out' : Frame) → P (some (UvcError.no_mem, out')))
      → ((out' : Frame)
          → IsReady (need_bytes input.width input.height channels) out.library_owns_data out'
          → P (run input (set_header target channels input out')))
      → P (convert realloc accepted target channels run input out)
  unfolding convert
  convert-Ensured P run input out accepted target channels yes_format s full ready =
      subst P (sym (if_false _ _ (ap not yes_format))) (
        split (ensure_frame_size realloc out (need_bytes input.width input.height channels))
          (ensure_frame_size-Ensured out (need_bytes input.width input.height channels) s))
    where
      split :
          (r : ℤ × Frame)
          → Ensured (need_bytes input.width input.height channels) out.library_owns_data r
          → P (
              if is_negative r.0
              then some (UvcError.no_mem, r.1)
              else run input (set_header target channels input r.1))
      split (ret, out') (inl (ok, room)) = rw ok (ready out' room)
      split (ret, out') (inr bad) = rw bad (full out')
