-- ===== src/Parse/Blocks.antt =====
-- The scan loop of src/device.c on a list of blocks.
use usb_video_class.Base.{
  concat, ℕ, zero, suc, ◌+◌, ◌-◌, ◌%◌, ◌≤◌, ◌<◌, ◌≡◌, refl, false, Option, some, List, [], ◌∷◌,
  ◌++◌, ltb, length, get_elem?, length-append, drop-length, arith, not_lt→ltb,
}
use usb_video_class.Base.Bytes.{u64_mod}
use usb_video_class.Base.Int.{ℤ, pos}
use usb_video_class.Parse.{scan, scan_all}

module _ {ℓ} {A : Type ℓ} (parse : List ℕ → ℕ → A → Option (ℤ × A)) where
  -- The parser takes each block, and only that, whatever follows it.
  pub data Parses : List (List ℕ) → A → A → Type ℓ where
    done : {a : A} → Parses [] a a
    step :
        {b : List ℕ} {bs : List (List ℕ)} {a a' a'' : A}
        → 3 ≤ length b
        → ((rest : List ℕ) → get_elem? (b ++ rest) 0 ≡ some (length b))
        → ((rest : List ℕ) → parse (b ++ rest) (length b) a ≡ some (pos 0, a'))
        → Parses bs a' a''
        → Parses (b ∷ bs) a a''

module _ {ℓ} {A : Type ℓ} (parse : List ℕ → ℕ → A → Option (ℤ × A)) where
  scan-Parses :
      (fuel : ℕ) {bs : List (List ℕ)} {a a' : A}
      → Parses parse bs a a'
      → length (concat bs) < u64_mod
      → length (concat bs) < fuel
      → scan parse fuel (concat bs) (length (concat bs)) a ≡ some (pos 0, a')
  unfolding scan
  scan-Parses zero p small h = absurd (omega arith)
  scan-Parses (suc fuel) done small h = refl
  scan-Parses (suc fuel) (step {b} {bs} three head run p) small h =
      let total : length (b ++ concat bs) ≡ length b + length (concat bs) =
        length-append b (concat bs) in
      let long : ltb (length (b ++ concat bs)) 3 ≡ false =
        not_lt→ltb (length (b ++ concat bs)) 3 (omega (arith, total)) in
      let left : (length (b ++ concat bs) + u64_mod - length b) % u64_mod ≡ length (concat bs) =
        omega (arith, total) in
      rw (long, head (concat bs), run (concat bs), left, drop-length (length b) b (concat bs) refl)
        (scan-Parses fuel p (omega (arith, total)) (omega (arith, total)))

  pub scan_all-Parses :
      {bs : List (List ℕ)} {a a' : A}
      → Parses parse bs a a'
      → length (concat bs) < u64_mod
      → scan_all parse (concat bs) a ≡ some (pos 0, a')
  scan_all-Parses {bs} p small = scan-Parses (suc (length (concat bs))) p small (omega arith)
