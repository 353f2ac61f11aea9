-- ===== src/Convert/Blocks.antt =====
-- The loop bodies of the conversions in src/frame.c, against the whole image.
use usb_video_class.Base.{
  ℕ, zero, suc, ◌+◌, ◌*◌, ◌≤◌, ◌≡◌, refl, ap, sym, ◌∙◌, List, [], ◌∷◌, ◌++◌, length, take, drop,
  arith, length-append, length-drop,
}
use mathlib.Core.List.{append_assoc}
use usb_video_class.Convert.Pixels.{each_4}
use usb_video_class.Convert.Loop.{IsBody, chunks}
use usb_video_class.Convert.{eight, luma_body, chroma_body, second}

-- 4 * k + m, so that `take` computes.
abbrev quads : ℕ → ℕ → ℕ
quads zero m = m
quads (suc k) m = suc (suc (suc (suc (quads k m))))

quads_eq : (k m : ℕ) → quads k m ≡ 4 * k + m
quads_eq zero m = omega arith
quads_eq (suc k) m = omega (arith, quads_eq k m)

module _ (macro : ℕ → ℕ → ℕ → ℕ → List ℕ) where
  each_4_split :
      (k m : ℕ) (bytes : List ℕ)
      → quads k 0 ≤ length bytes
      → each_4 macro (take (quads k m) bytes)
        ≡ each_4 macro (take (quads k 0) bytes) ++ each_4 macro (take m (drop (quads k 0) bytes))
  unfolding each_4
  each_4_split zero m bytes h = refl
  each_4_split (suc k) m (a ∷ b ∷ c ∷ d ∷ bytes) h =
      ap (λ rest. macro a b c d ++ rest) (each_4_split k m bytes (omega arith))
      ∙ sym (append_assoc (macro a b c d) (each_4 macro (take (quads k 0) bytes)) _)
  each_4_split (suc k) m (a ∷ b ∷ c ∷ []) h = absurd (omega arith)
  each_4_split (suc k) m (a ∷ b ∷ []) h = absurd (omega arith)
  each_4_split (suc k) m (a ∷ []) h = absurd (omega arith)
  each_4_split (suc k) m [] h = absurd (omega arith)

  -- Sixteen bytes a round make the image of all pairs of pixels.
  pub chunks-eight :
      (n : ℕ) (src : List ℕ)
      → 16 * n ≤ length src
      → chunks (eight macro) n src ≡ each_4 macro (take (16 * n) src)
  unfolding chunks each_4
  chunks-eight zero src h = refl
  chunks-eight (suc n) src h =
      let more : 16 * suc n ≡ quads 4 (16 * n) = omega arith in
      rw
        (
          more,
          each_4_split 4 (16 * n) src (omega arith),
          chunks-eight n (drop 16 src) (omega (arith, length-drop 16 src)),
        )
        refl

  module _ (six : (a b c d : ℕ) → length (macro a b c d) ≡ 6) where
    length-each_4 :
        (k : ℕ) (bytes : List ℕ) → length bytes ≡ quads k 0 → length (each_4 macro bytes) ≡ 6 * k
    unfolding each_4
    length-each_4 zero [] e = refl
    length-each_4 zero (a ∷ bytes) e = absurd (omega arith)
    length-each_4 (suc k) (a ∷ b ∷ c ∷ d ∷ bytes) e = omega (
      arith,
      length-append (macro a b c d) (each_4 macro bytes),
      six a b c d,
      length-each_4 k bytes (omega arith),
    )
    length-each_4 (suc k) (a ∷ b ∷ c ∷ []) e = absurd (omega arith)
    length-each_4 (suc k) (a ∷ b ∷ []) e = absurd (omega arith)
    length-each_4 (suc k) (a ∷ []) e = absurd (omega arith)
    length-each_4 (suc k) [] e = absurd (omega arith)

    pub eight-IsBody : IsBody (eight macro)
    eight-IsBody = record {
      reads = omega arith;
      moves = omega arith;
      writes = λ bytes e. length-each_4 4 bytes e;
    }

pub luma-IsBody : IsBody luma_body
luma-IsBody = record { reads = omega arith; moves = omega arith; writes = λ bytes e. e }

pub chroma-IsBody : IsBody chroma_body
chroma-IsBody = record { reads = omega arith; moves = omega arith; writes = one }
  where
    one : (bytes : List ℕ) → length bytes ≡ 2 → length (second bytes) ≡ 1
    one (a ∷ b ∷ []) e = refl
    one (a ∷ b ∷ c ∷ bytes) e = absurd (omega arith)
    one (a ∷ []) e = absurd (omega arith)
    one [] e = absurd (omega arith)

-- Every other byte, from the first on.
abbrev pub evens : List ℕ → List ℕ
evens (a ∷ b ∷ bytes) = a ∷ evens bytes
evens bytes = bytes

abbrev pub odds : List ℕ → List ℕ
odds (a ∷ b ∷ bytes) = b ∷ odds bytes
odds bytes = []

pub chunks-luma :
    (n : ℕ) (src : List ℕ) → n * 2 ≤ length src → chunks luma_body n src ≡ take n (evens src)
unfolding chunks
chunks-luma zero src h = refl
chunks-luma (suc n) (a ∷ b ∷ src) h = ap (◌∷◌ a) (chunks-luma n src (omega arith))
chunks-luma (suc n) (a ∷ []) h = absurd (omega arith)
chunks-luma (suc n) [] h = absurd (omega arith)

pub chunks-chroma :
    (n : ℕ) (src : List ℕ) → n * 2 ≤ length src → chunks chroma_body n src ≡ take n (odds src)
unfolding chunks
chunks-chroma zero src h = refl
chunks-chroma (suc n) (a ∷ b ∷ src) h = ap (◌∷◌ b) (chunks-chroma n src (omega arith))
chunks-chroma (suc n) (a ∷ []) h = absurd (omega arith)
chunks-chroma (suc n) [] h = absurd (omega arith)
