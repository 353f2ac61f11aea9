-- ===== src/Base/Lists.antt =====
-- Lists measured and cut by native numbers, and buffers: a read or write out of range is `none`.
use Prim.Native.Nat.{ℕ, zero, suc, ◌+◌, ◌-◌, ◌≤◌, ◌<◌, min}
use mathlib.Core.Path.{◌≡◌, refl, ap, ◌∙◌}
use mathlib.Core.List.{List, [], ◌∷◌, ◌++◌, append_assoc}
use mathlib.Core.Option.{Option, none, some}
use native.Mathlib.Omega.{arith}
use usb_video_class.Base.Tests.{leb, if◌then◌else◌}

module _ {ℓ} {A : Type ℓ} where
  abbrev pub length : List A → ℕ
  length [] = 0
  length (x ∷ xs) = suc (length xs)

  abbrev pub get_elem? : List A → ℕ → Option A
  get_elem? [] i = none
  get_elem? (x ∷ xs) zero = some x
  get_elem? (x ∷ xs) (suc i) = get_elem? xs i

  abbrev pub take : ℕ → List A → List A
  take zero xs = []
  take (suc n) [] = []
  take (suc n) (x ∷ xs) = x ∷ take n xs

  abbrev pub drop : ℕ → List A → List A
  drop zero xs = xs
  drop (suc n) [] = []
  drop (suc n) (x ∷ xs) = drop n xs

  abbrev pub replicate : ℕ → A → List A
  replicate zero a = []
  replicate (suc n) a = a ∷ replicate n a

module _ {ℓ} {A : Type ℓ} where
  pub length-append : (xs ys : List A) → length (xs ++ ys) ≡ length xs + length ys
  length-append [] ys = omega arith
  length-append (x ∷ xs) ys = omega (arith, length-append xs ys)

  pub length-take : (n : ℕ) (xs : List A) → length (take n xs) ≡ min n (length xs)
  length-take zero xs = omega arith
  length-take (suc n) [] = omega arith
  length-take (suc n) (x ∷ xs) = omega (arith, length-take n xs)

  pub length-drop : (n : ℕ) (xs : List A) → length (drop n xs) ≡ length xs - n
  length-drop zero xs = omega arith
  length-drop (suc n) [] = omega arith
  length-drop (suc n) (x ∷ xs) = omega (arith, length-drop n xs)

  pub length-replicate : (n : ℕ) (a : A) → length (replicate n a) ≡ n
  length-replicate zero a = refl
  length-replicate (suc n) a = ap suc (length-replicate n a)

  pub take_all : (n : ℕ) (xs : List A) → length xs ≤ n → take n xs ≡ xs
  take_all zero [] h = refl
  take_all zero (x ∷ xs) h = absurd (omega arith)
  take_all (suc n) [] h = refl
  take_all (suc n) (x ∷ xs) h = ap (◌∷◌ x) (take_all n xs (omega arith))

  -- A prefix of at most the first part's length does not see the rest.
  pub take-append : (n : ℕ) (xs ys : List A) → n ≤ length xs → take n (xs ++ ys) ≡ take n xs
  take-append zero xs ys h = refl
  take-append (suc n) [] ys h = absurd (omega arith)
  take-append (suc n) (x ∷ xs) ys h = ap (◌∷◌ x) (take-append n xs ys (omega arith))

  pub take-length : (n : ℕ) (xs ys : List A) → n ≡ length xs → take n (xs ++ ys) ≡ xs
  take-length zero [] ys h = refl
  take-length zero (x ∷ xs) ys h = absurd (omega arith)
  take-length (suc n) [] ys h = absurd (omega arith)
  take-length (suc n) (x ∷ xs) ys h = ap (◌∷◌ x) (take-length n xs ys (omega arith))

  pub drop-length : (n : ℕ) (xs ys : List A) → n ≡ length xs → drop n (xs ++ ys) ≡ ys
  drop-length zero [] ys h = refl
  drop-length zero (x ∷ xs) ys h = absurd (omega arith)
  drop-length (suc n) [] ys h = absurd (omega arith)
  drop-length (suc n) (x ∷ xs) ys h = drop-length n xs ys (omega arith)

  pub take-append_split :
      (n : ℕ) (xs ys : List A) → length xs ≤ n → take n (xs ++ ys) ≡ xs ++ take (n - length xs) ys
  take-append_split n [] ys h = ap (λ k. take k ys) (omega arith)
  take-append_split zero (x ∷ xs) ys h = absurd (omega arith)
  take-append_split (suc n) (x ∷ xs) ys h =
      ap (◌∷◌ x) (take-append_split n xs ys (omega arith) ∙ ap (λ k. xs ++ take k ys) (omega arith))

  pub take-take : (n m k : ℕ) (xs : List A) → k ≡ min n m → take n (take m xs) ≡ take k xs
  take-take zero m zero xs h = refl
  take-take zero m (suc k) xs h = absurd (omega arith)
  take-take (suc n) zero zero xs h = refl
  take-take (suc n) zero (suc k) xs h = absurd (omega arith)
  take-take (suc n) (suc m) zero xs h = absurd (omega arith)
  take-take (suc n) (suc m) (suc k) [] h = refl
  take-take (suc n) (suc m) (suc k) (x ∷ xs) h = ap (◌∷◌ x) (take-take n m k xs (omega arith))

  -- What a limit leaves of some bytes that follow others.
  pub take_within :
      (limit n k : ℕ) (acc bs : List A)
      → length acc ≤ limit
      → k ≡ min n (limit - length acc)
      → take limit (acc ++ take n bs) ≡ acc ++ take k bs
  take_within limit n k acc bs h e =
      take-append_split limit acc (take n bs) h
      ∙ ap (◌++◌ acc) (take-take (limit - length acc) n k bs (omega arith))

  pub get_elem?-lt : (xs : List A) (i : ℕ) → i < length xs → (a : A) × (get_elem? xs i ≡ some a)
  get_elem?-lt [] i h = elim h [ ]
  get_elem?-lt (x ∷ xs) zero h = (x, refl)
  get_elem?-lt (x ∷ xs) (suc i) h = get_elem?-lt xs i (omega arith)

  -- The `n` items from `off` on, as `memcpy` reads its source.
  pub slice : List A → ℕ → ℕ → Option (List A)
  slice xs off n = if leb (off + n) (length xs) then some (take n (drop off xs)) else none

  -- `memcpy (buf + off, src, length src)`.
  pub write_at : List A → ℕ → List A → Option (List A)
  write_at buf off src =
      if leb (off + length src) (length buf)
      then some (take off buf ++ (src ++ drop (off + length src) buf))
      else none

module _ {ℓ} {A : Type ℓ} where
  pub slice-in_range :
      (xs : List A) (off n : ℕ) → off + n ≤ length xs → slice xs off n ≡ some (take n (drop off xs))
  unfolding slice
  slice-in_range xs off n h = ground arith

  pub length-slice :
      (xs : List A) (off n : ℕ) → off + n ≤ length xs → length (take n (drop off xs)) ≡ n
  length-slice xs off n h = omega (arith, length-take n (drop off xs), length-drop off xs)

  -- The buffer after a write in range.
  abbrev pub written : List A → ℕ → List A → List A
  written buf off src = take off buf ++ (src ++ drop (off + length src) buf)

  pub write_at-in_range :
      (buf : List A) (off : ℕ) (src : List A)
      → off + length src ≤ length buf
      → write_at buf off src ≡ some (written buf off src)
  unfolding write_at
  write_at-in_range buf off src h = ground arith

  pub length-written :
      (buf : List A) (off : ℕ) (src : List A)
      → off + length src ≤ length buf
      → length (written buf off src) ≡ length buf
  length-written buf off src h = omega (
    arith,
    length-append (take off buf) (src ++ drop (off + length src) buf),
    length-append src (drop (off + length src) buf),
    length-take off buf,
    length-drop (off + length src) buf,
  )

  -- The bytes up to the end of the write are the old prefix and the source.
  pub take-written :
      (buf : List A) (off : ℕ) (src : List A)
      → off + length src ≤ length buf
      → take (off + length src) (written buf off src) ≡ take off buf ++ src
  take-written buf off src h =
      rw (← append_assoc (take off buf) src (drop (off + length src) buf)) (
        take-length (off + length src) (take off buf ++ src) (drop (off + length src) buf)
          (omega (arith, length-append (take off buf) src, length-take off buf)))

abbrev pub concat {ℓ} : {A : Type ℓ} → List (List A) → List A
concat [] = []
concat (xs ∷ xss) = xs ++ concat xss
