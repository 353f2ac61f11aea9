-- ===== src/Device/Claim.antt =====
-- `uvc_claim_if` and `uvc_release_if` of src/device.c. A shift by 32 or more is undefined,
-- `none`; one by 31 is taken to set the top bit, as compilers have it.
use usb_video_class.Base.{
  Runs, if_cases, arith, ℕ, ◌<◌, ◌≡◌, Bool, true, false, ◌||◌, not, Option, some, none, ltb, ◌==◌,
  if◌then◌else◌, arith, Bool-cases, ==_iff, ◌⊎◌, inl, inr, refl, sym, lt→ltb,
}
use usb_video_class.Base.Int.{ℤ, pos, ◌==ℤ◌}
use usb_video_class.UvcError
use usb_video_class.Usb.{Usb}
use usb_video_class.Device.{Device, set_bit}

-- The answers of the kernel driver calls that mean that there is nothing to do.
pub no_driver : ℤ → Bool
no_driver ret = (ret ==ℤ UvcError.not_found) || (ret ==ℤ UvcError.not_supported)

abbrev pub is_success : ℤ → Bool
is_success ret = ret ==ℤ pos 0

module _ {S : Type 0} (usb : Usb S) where
  claim_detached : Device → ℕ → S → ℤ × Device × S
  claim_detached d idx w =
      let (ret, w') = usb.claim_interface idx w in
      (ret, (if is_success ret then record d { claimed = set_bit idx true d.claimed } else d), w')

  pub claim_if : Device → ℕ → S → Option (ℤ × Device × S)
  unfolding no_driver claim_detached
  claim_if d idx w =
      if not (ltb idx 32)
      then none
      else (if d.claimed idx
          then some (pos 0, d, w)
          else (let (ret, w') = usb.detach_kernel_driver idx w in
              some (
                if is_success ret || no_driver ret then claim_detached d idx w' else (ret, d, w'))))

  reattach : Device → ℕ → S → ℤ × Device × S
  reattach d idx w =
      let (ret, w') = usb.attach_kernel_driver idx w in
      ((if no_driver ret then pos 0 else ret), d, w')

  pub release_if : Device → ℕ → S → Option (ℤ × Device × S)
  unfolding no_driver reattach
  release_if d idx w =
      if not (ltb idx 32)
      then none
      else (if not (d.claimed idx)
          then some (pos 0, d, w)
          else (let (_, w₁) = usb.set_interface_alt_setting idx 0 w in
              let (ret, w₂) = usb.release_interface idx w₁ in
              some (
                if is_success ret
                then reattach (record d { claimed = set_bit idx false d.claimed }) idx w₂
                else (ret, d, w₂))))

-- A release of an interface below 32 ends.
module _ {S : Type 0} (usb : Usb S) where
  pub release_if-Runs : (d : Device) (idx : ℕ) (w : S) → idx < 32 → Runs (release_if usb d idx w)
  unfolding release_if
  release_if-Runs d idx w low =
      if_cases Runs (not (ltb idx 32)) (λ high. absurd (ground (arith, high)))
        (λ _. if_cases Runs (not (d.claimed idx)) (λ _. (_, refl)) (λ _. (_, refl)))

-- What a claim leaves alone: the descriptors and the bits of the other interfaces.
abbrev pub SameBut : ℕ → Device → Device → Type 0
SameBut idx d d' = (d'.info ≡ d.info) × ((j : ℕ) → (idx ≡ j) ⊎ (d'.claimed j ≡ d.claimed j))

set_bit_other :
    (idx : ℕ) (b : Bool) (mask : ℕ → Bool) (j : ℕ) → (idx ≡ j) ⊎ (set_bit idx b mask j ≡ mask j)
set_bit_other idx b mask j = elim (Bool-cases (idx == j)) [
  | inl e ↦ inl ((==_iff idx j).0 e)
  | inr e ↦ inr (rw e refl)
]

module _ {S : Type 0} (usb : Usb S) where
  abbrev Exact : ℕ → Device → ℤ × Device × S → Type 0
  Exact idx d (ret, d', w') = (is_success ret ≡ d'.claimed idx) × SameBut idx d d'

  claim_detached-Exact :
      (d : Device) (idx : ℕ) (w : S)
      → d.claimed idx ≡ false
      → Exact idx d (claim_detached usb d idx w)
  unfolding claim_detached
  claim_detached-Exact d idx w clear =
      elim (Bool-cases (is_success (usb.claim_interface idx w).0)) [
        | inl e ↦ rw e (ground arith, (refl, λ j. set_bit_other idx true d.claimed j))
        | inr e ↦ rw e (sym clear, (refl, λ j. inr refl))
      ]

  -- A claim of an interface below 32 reports success exactly when the mask of claimed interfaces
  -- has its bit afterwards, and writes no other bit.
  pub claim_if_exact :
      (d : Device) (idx : ℕ) (w : S)
      → idx < 32
      → (r : ℤ × Device × S) × (claim_if usb d idx w ≡ some r)
        × (is_success r.0 ≡ r.1.claimed idx)
        × SameBut idx d r.1
  unfolding claim_if
  claim_if_exact d idx w h = elim (Bool-cases (d.claimed idx)) [
    | inl e ↦ ((pos 0, d, w), rw (lt→ltb idx 32 h, e), sym e, (refl, λ j. inr refl))
    | inr e ↦ elim (Bool-cases (is_success ret || no_driver ret)) [
      | inl free ↦ (
        claim_detached usb d idx w',
        rw (lt→ltb idx 32 h, e, free),
        (claim_detached-Exact d idx w' e).0,
        (claim_detached-Exact d idx w' e).1,
      )
      | inr held ↦ (
        (ret, d, w'),
        rw (lt→ltb idx 32 h, e, held),
        ground (arith, held, e),
        (refl, λ j. inr refl),
      )
    ]
  ]
    where
      ret : ℤ
      ret = (usb.detach_kernel_driver idx w).0

      w' : S
      w' = (usb.detach_kernel_driver idx w).1
