-- ===== src/Convert/Loop.antt =====
-- The loops of the conversions in src/frame.c, and what they leave in the output buffer.
use mathlib.Core.List.{append_assoc, append-nil}
use native.Mathlib.Nat.{suc-mul}
use usb_video_class.Base.{
  if_true, if_false, not_lt→ltb, lt→ltb, slice-in_range, length-slice, written, write_at-in_range,
  length-written, take-written, ℕ, zero, suc, ◌+◌, ◌*◌, ◌≤◌, ◌<◌, ◌≡◌, refl, ap, sym, ◌∙◌, Option,
  none, some, List, [], ◌∷◌, ◌++◌, length, take, drop, ltb, if◌then◌else◌, slice, write_at, ◌>>=◌,
  arith,
}

-- A loop body: it reads `window` bytes, writes those of `chunk`, and moves the pointers on.
pub record Body : Type 0 where
  pub window : ℕ
  pub advance : ℕ
  pub width : ℕ
  pub chunk : List ℕ → List ℕ

-- `while (p < end)`, with the pointers as offsets. Fuel ends in `none`, and so does an access
-- outside a buffer.
unfoldable pub convert_loop : Body → ℕ → List ℕ → ℕ → List ℕ → ℕ → ℕ → Option (List ℕ)
convert_loop b zero src q out p end = none
convert_loop b (suc fuel) src q out p end =
    if ltb p end
    then (do
      bytes ← slice src q b.window
      out' ← write_at out p (b.chunk bytes)
      convert_loop b fuel src (q + b.advance) out' (p + b.width) end)
    else some out

-- Without pointers: a chunk for each of the first `n` places of the input.
unfoldable pub chunks : Body → ℕ → List ℕ → List ℕ
chunks b zero src = []
chunks b (suc n) src = b.chunk (take b.window src) ++ chunks b n (drop b.advance src)

-- A body that moves on by at least what it reads, and by what it writes.
pub record IsBody (b : Body) : Type 0 where
  pub reads : b.window ≤ b.advance
  pub moves : 0 < b.width
  pub writes : (bytes : List ℕ) → length bytes ≡ b.window → length (b.chunk bytes) ≡ b.width

drop_nil {ℓ} : {A : Type ℓ} (n : ℕ) → drop {A = A} n [] ≡ []
drop_nil zero = refl
drop_nil (suc n) = refl

drop-add {ℓ} : {A : Type ℓ} (n k i : ℕ) (xs : List A) → i ≡ n + k → drop i xs ≡ drop k (drop n xs)
drop-add zero k i xs e = let same : i ≡ k = omega arith in rw same refl
drop-add (suc n) k zero xs e = absurd (omega arith)
drop-add (suc n) k (suc i) [] e = sym (drop_nil k)
drop-add (suc n) k (suc i) (x ∷ xs) e = drop-add n k i xs (omega arith)

regroup : (p w k m : ℕ) → m ≡ k + w → p + m ≡ p + w + k
regroup p w k m e = omega arith

joined :
    (out : List ℕ) (p : ℕ) (new rest : List ℕ) (w : ℕ)
    → length new ≡ w
    → p + length new ≤ length out
    → take (p + w) (written out p new) ++ rest ≡ take p out ++ (new ++ rest)
joined out p new rest w e fits =
    ap (λ k. take (p + k) (written out p new) ++ rest) (sym e)
    ∙ ap (λ front. front ++ rest) (take-written out p new fits)
    ∙ append_assoc (take p out) new rest

module _ (b : Body) (good : IsBody b) (src : List ℕ) where
  -- What the loop leaves in the output buffer.
  abbrev pub Converts : ℕ → ℕ → List ℕ → ℕ → Option (List ℕ) → Type 0
  Converts n q out p o =
      (out' : List ℕ) × (o ≡ some out')
      × (length out' ≡ length out)
      × (take (p + n * b.width) out' ≡ take p out ++ chunks b n (drop q src))

  -- For a body that writes as much as it moves on, and reads at most that of the input, with fuel for each round and one more,
  -- and buffers that hold `n` rounds.
  pub convert_loop-Converts :
      (n fuel q : ℕ) (out : List ℕ) (p end : ℕ)
      → n < fuel
      → end ≡ p + n * b.width
      → q + n * b.advance ≤ length src
      → p + n * b.width ≤ length out
      → Converts n q out p (convert_loop b fuel src q out p end)
  unfolding convert_loop chunks
  convert_loop-Converts n zero q out p end h e inside room = absurd (omega arith)
  convert_loop-Converts zero (suc fuel) q out p end h e inside room =
      let over : end ≡ p = omega arith in
      let same : p + 0 * b.width ≡ p = omega arith in
      (
        out,
        rw over (if_false _ _ (not_lt→ltb p p (omega arith))),
        refl,
        rw same (sym (append-nil _)),
      )
  convert_loop-Converts (suc n) (suc fuel) q out p end h e inside room =
      let wide = suc-mul n b.width in
      let far = suc-mul n b.advance in
      let moves = good.moves in
      let reads = good.reads in
      let bytes = take b.window (drop q src) in
      let read = slice-in_range src q b.window (omega (arith, wide, far)) in
      let size = good.writes bytes (length-slice src q b.window (omega (arith, wide, far))) in
      let fits : p + length (b.chunk bytes) ≤ length out = omega (arith, wide, far, size) in
      let (out', run, len, image) =
        convert_loop-Converts n fuel (q + b.advance) (written out p (b.chunk bytes)) (p + b.width)
          end (omega arith) (omega (arith, wide, far)) (omega (arith, wide, far))
          (omega (arith, wide, far, length-written out p (b.chunk bytes) fits)) in
      (
        out',
        if_true _ _ (lt→ltb p end (omega (arith, wide, far)))
            ∙ rw (read, write_at-in_range out p (b.chunk bytes) fits) run,
        len ∙ length-written out p (b.chunk bytes) fits,
        rw
            (
              regroup p b.width (n * b.width) (suc n * b.width) (omega (arith, wide)),
              image,
              drop-add q b.advance (q + b.advance) src refl,
            )
            (joined out p (b.chunk bytes) (chunks b n (drop b.advance (drop q src))) b.width size
              fits),
      )
