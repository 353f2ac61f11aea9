-- ===== src/Controls/Codec.antt =====
-- The buffers of the controls of src/ctrl-gen.c: what is written is read back.
use usb_video_class.Base.{
  ℕ, ◌^◌, ◌%◌, ◌≤◌, ◌<◌, ◌≡◌, refl, some, List, [], ◌∷◌, length, drop, length-drop, get_elem?-lt,
  arith, Runs, >>=-Runs,
}
use usb_video_class.Base.Bytes.{
  read_sw, read_dw, read_sw-in_range, read_dw-in_range, sw_bytes, dw_bytes,
}
use usb_video_class.Controls.{Field, byte, word, dword, size, encode, decode}

-- As many values as fields, each within its field.
abbrev pub Fit : List Field → List ℕ → Type 0
Fit [] [] = Unit {0}
Fit [] (v ∷ vs) = ⊥
Fit (f ∷ fs) [] = ⊥
Fit (byte ∷ fs) (v ∷ vs) = (v < 2 ^ 8) × Fit fs vs
Fit (word ∷ fs) (v ∷ vs) = (v < 2 ^ 16) × Fit fs vs
Fit (dword ∷ fs) (v ∷ vs) = (v < 2 ^ 32) × Fit fs vs

pub decode-encode : (fs : List Field) (vs : List ℕ) → Fit fs vs → decode fs (encode fs vs) ≡ some vs
unfolding decode encode read_sw read_dw
decode-encode [] [] h = refl
decode-encode [] (v ∷ vs) h = elim h [ ]
decode-encode (byte ∷ fs) [] h = elim h [ ]
decode-encode (word ∷ fs) [] h = elim h [ ]
decode-encode (dword ∷ fs) [] h = elim h [ ]
decode-encode (byte ∷ fs) (v ∷ vs) (h, rest) =
    let low : v % 2 ^ 8 ≡ v = omega arith in rw (decode-encode fs vs rest, low) refl
decode-encode (word ∷ fs) (v ∷ vs) (h, rest) = rw (decode-encode fs vs rest, sw_bytes v h) refl
decode-encode (dword ∷ fs) (v ∷ vs) (h, rest) = rw (decode-encode fs vs rest, dw_bytes v h) refl

pub length-encode : (fs : List Field) (vs : List ℕ) → Fit fs vs → length (encode fs vs) ≡ size fs
unfolding encode
length-encode [] [] h = refl
length-encode [] (v ∷ vs) h = elim h [ ]
length-encode (byte ∷ fs) [] h = elim h [ ]
length-encode (word ∷ fs) [] h = elim h [ ]
length-encode (dword ∷ fs) [] h = elim h [ ]
length-encode (byte ∷ fs) (v ∷ vs) (h, rest) = omega (arith, length-encode fs vs rest)
length-encode (word ∷ fs) (v ∷ vs) (h, rest) = omega (arith, length-encode fs vs rest)
length-encode (dword ∷ fs) (v ∷ vs) (h, rest) = omega (arith, length-encode fs vs rest)

-- A buffer of the fields' size is decoded without a read outside it.
pub decode-Runs :
    (fs : List Field) (bytes : List ℕ) → size fs ≤ length bytes → Runs (decode fs bytes)
unfolding decode
decode-Runs [] bytes h = ([], refl)
decode-Runs (byte ∷ fs) bytes h = >>=-Runs _ _ (get_elem?-lt bytes 0 (omega arith)) λ v.
    >>=-Runs _ _ (decode-Runs fs (drop 1 bytes) (omega (arith, length-drop 1 bytes)))
      λ vs. (_, refl)
decode-Runs (word ∷ fs) bytes h = >>=-Runs _ _ (read_sw-in_range bytes 0 (omega arith)) λ v.
    >>=-Runs _ _ (decode-Runs fs (drop 2 bytes) (omega (arith, length-drop 2 bytes)))
      λ vs. (_, refl)
decode-Runs (dword ∷ fs) bytes h = >>=-Runs _ _ (read_dw-in_range bytes 0 (omega arith)) λ v.
    >>=-Runs _ _ (decode-Runs fs (drop 4 bytes) (omega (arith, length-drop 4 bytes)))
      λ vs. (_, refl)
