-- ===== src/Discover/Wanted.antt =====
-- The tests of src/device.c on the devices of the bus, beside what they look for.
use usb_video_class.Base.{
  ℕ, ◌≤◌, ◌≡◌, refl, ap, sym, ◌↔◌, both_true, subst, ◌⊎◌, inl, inr, Bool, true, false, ◌&&◌, Option,
  none, some, List, [], ◌∷◌, ◌==◌, ==_iff, Bool-cases, arith,
}
use mathlib.Core.Option.{some-injective}
use usb_video_class.Search.First.{Any}
use usb_video_class.Discover.{
  AltClass, UsbDevice, is_streaming, any_setting, any_interface, got_interface, is_camera,
  same_text, serial_matches, ids_match, is_wanted,
}

-- A streaming interface of a video device, or the vendor's of the Imaging Source's two cameras;
-- eight other products of that vendor are not taken.
abbrev pub IsStreaming : ℕ → ℕ → AltClass → Type 0
IsStreaming vid pid alt =
    ¬ ((vid ≡ 0x199e) × (0x8201 ≤ pid) × (pid ≤ 0x8208))
    × (((alt.b_interface_class ≡ 14) × (alt.b_interface_sub_class ≡ 2))
        ⊎ ((vid ≡ 0x199e)
            × ((pid ≡ 0x8101) ⊎ (pid ≡ 0x8102))
            × (alt.b_interface_class ≡ 255)
            × (alt.b_interface_sub_class ≡ 2)))

-- Interfaces and identifiers that libusb gives, with a setting to stream from.
abbrev pub Streams : Option (List (List AltClass)) → Option (ℕ × ℕ) → Type 0
Streams interfaces ids =
    (is : List (List AltClass)) × (vid : ℕ) × (pid : ℕ) × (interfaces ≡ some is)
    × (ids ≡ some (vid, pid))
    × Any (Any (IsStreaming vid pid)) is

abbrev pub IsCamera : UsbDevice → Type 0
IsCamera d = Streams d.interfaces d.ids

-- The serial number that is asked for, if any, is that of the device, which can be opened.
abbrev pub SerialIs : Option (List ℕ) → Bool → Option (List ℕ) → Type 0
SerialIs none opens serial = Unit {0}
SerialIs (some sn) opens serial = (opens ≡ true) × (serial ≡ some sn)

-- The identifiers that are asked for, where 0 stands for any.
abbrev pub HasIds : ℕ → ℕ → Option (ℕ × ℕ) → Type 0
HasIds vid pid ids =
    (v : ℕ) × (p : ℕ) × (ids ≡ some (v, p)) × ((vid ≡ 0) ⊎ (v ≡ vid)) × ((pid ≡ 0) ⊎ (p ≡ pid))

abbrev pub IsWanted : ℕ → ℕ → Option (List ℕ) → UsbDevice → Type 0
IsWanted vid pid sn d = HasIds vid pid d.ids × SerialIs sn d.opens d.serial

is_streaming_iff :
    (vid pid : ℕ) (alt : AltClass) → (is_streaming vid pid alt ≡ true) ↔ IsStreaming vid pid alt
is_streaming_iff vid pid alt = (λ h. ground (arith, h), λ h. ground (arith, h))

any_setting_iff :
    (test : AltClass → Bool) (P : AltClass → Type 0)
    → ((a : AltClass) → (test a ≡ true) ↔ P a)
    → (alts : List AltClass) → (any_setting test alts ≡ true) ↔ Any P alts
unfolding any_setting
any_setting_iff test P one [] = (λ h. cc, λ h. absurd h)
any_setting_iff test P one (a ∷ alts) = elim (Bool-cases (test a)) [
  | inl e ↦ rw e ((λ h. inl ((one a).0 e)), λ h. refl)
  | inr e ↦ rw e (
    (λ h. inr ((any_setting_iff test P one alts).0 h)),
    elim [
      | inl p ↦ let hit = (one a).1 p in cc
      | inr later ↦ (any_setting_iff test P one alts).1 later
    ],
  )
]

any_interface_iff :
    (test : AltClass → Bool) (P : AltClass → Type 0)
    → ((a : AltClass) → (test a ≡ true) ↔ P a)
    → (is : List (List AltClass)) → (any_interface test is ≡ true) ↔ Any (Any P) is
unfolding any_interface
any_interface_iff test P one [] = (λ h. cc, λ h. absurd h)
any_interface_iff test P one (alts ∷ is) = elim (Bool-cases (any_setting test alts)) [
  | inl e ↦ rw e ((λ h. inl ((any_setting_iff test P one alts).0 e)), λ h. refl)
  | inr e ↦ rw e (
    (λ h. inr ((any_interface_iff test P one is).0 h)),
    elim [
      | inl here ↦ let hit = (any_setting_iff test P one alts).1 here in cc
      | inr later ↦ (any_interface_iff test P one is).1 later
    ],
  )
]

same_text_iff : (xs ys : List ℕ) → (same_text xs ys ≡ true) ↔ (xs ≡ ys)
unfolding same_text
same_text_iff [] [] = (λ h. refl, λ h. refl)
same_text_iff [] (y ∷ ys) = (λ h. cc, λ h. cc)
same_text_iff (x ∷ xs) [] = (λ h. cc, λ h. cc)
same_text_iff (x ∷ xs) (y ∷ ys) = elim (Bool-cases (x == y)) [
  | inl e ↦ rw e (
    (λ h. let same = (same_text_iff xs ys).0 h in let head = (==_iff x y).0 e in cc),
    λ h. (same_text_iff xs ys).1 (cc),
  )
  | inr e ↦ rw e ((λ h. cc), λ h. let head : (x == y) ≡ true = (==_iff x y).1 (cc) in cc)
]

serial_matches_iff :
    (sn : Option (List ℕ)) (opens : Bool) (serial : Option (List ℕ))
    → (serial_matches sn opens serial ≡ true) ↔ SerialIs sn opens serial
unfolding serial_matches
serial_matches_iff none opens serial = (λ h. tt, λ h. refl)
serial_matches_iff (some sn) true (some serial) = (
  λ h. (refl, ap some ((same_text_iff serial sn).0 h)),
  λ (on, same). (same_text_iff serial sn).1 (some-injective serial sn same),
)
serial_matches_iff (some sn) true none = (λ h. cc, λ (on, same). cc)
serial_matches_iff (some sn) false serial = (λ h. cc, λ (on, same). cc)

ids_match_iff :
    (vid pid : ℕ) (ids : Option (ℕ × ℕ)) → (ids_match vid pid ids ≡ true) ↔ HasIds vid pid ids
unfolding ids_match
ids_match_iff vid pid none = (λ h. cc, λ (v, p, e, _, _). cc)
ids_match_iff vid pid (some (v, p)) = (
  λ h. (v, p, refl, ground (arith, h), ground (arith, h)),
  λ (v', p', e, is_vid, is_pid).
      let same = some-injective (v, p) (v', p') e in
      let same_v : v ≡ v' = ap (λ q. q.0) same in
      let same_p : p ≡ p' = ap (λ q. q.1) same in ground (arith, same_v, same_p, is_vid, is_pid),
)

is_wanted_iff :
    (vid pid : ℕ) (sn : Option (List ℕ)) (d : UsbDevice)
    → (is_wanted vid pid sn d ≡ true) ↔ IsWanted vid pid sn d
unfolding is_wanted
is_wanted_iff vid pid sn d = (
  λ h.
      let (ids, serial) =
        both_true (ids_match vid pid d.ids) (serial_matches sn d.opens d.serial) h in
      ((ids_match_iff vid pid d.ids).0 ids, (serial_matches_iff sn d.opens d.serial).0 serial),
  λ (ids, serial).
      rw ((ids_match_iff vid pid d.ids).1 ids, (serial_matches_iff sn d.opens d.serial).1 serial)
        refl,
)

got_interface_iff :
    (interfaces : Option (List (List AltClass))) (ids : Option (ℕ × ℕ))
    → (got_interface interfaces ids ≡ true) ↔ Streams interfaces ids
unfolding got_interface
got_interface_iff none ids = (λ h. cc, λ (is, vid, pid, e, _, _). cc)
got_interface_iff (some is) none = (λ h. cc, λ (is', vid, pid, _, e, _). cc)
got_interface_iff (some is) (some (vid, pid)) = (
  λ h. (
    is,
    vid,
    pid,
    refl,
    refl,
    (any_interface_iff (is_streaming vid pid) (IsStreaming vid pid) (is_streaming_iff vid pid) is).0
        h,
  ),
  λ (is', vid', pid', e, e', hit).
      let same = some-injective is is' e in
      let same_ids = some-injective (vid, pid) (vid', pid') e' in
      (any_interface_iff (is_streaming vid pid) (IsStreaming vid pid) (is_streaming_iff vid pid)
          is).1
        (subst (λ (q : ℕ × ℕ). Any (Any (IsStreaming q.0 q.1)) is) (sym same_ids)
          (subst (λ k. Any (Any (IsStreaming vid' pid')) k) (sym same) hit)),
)

is_camera_iff : (d : UsbDevice) → (is_camera d ≡ true) ↔ IsCamera d
is_camera_iff d = got_interface_iff d.interfaces d.ids

-- A device that the searches look for.
abbrev pub IsHit : ℕ → ℕ → Option (List ℕ) → UsbDevice → Type 0
IsHit vid pid sn d = IsCamera d × IsWanted vid pid sn d

pub IsHit-iff :
    (vid pid : ℕ) (sn : Option (List ℕ)) (d : UsbDevice)
    → (is_camera d && is_wanted vid pid sn d ≡ true) ↔ IsHit vid pid sn d
IsHit-iff vid pid sn d = (
  λ h.
      let (camera, wanted) = both_true (is_camera d) (is_wanted vid pid sn d) h in
      ((is_camera_iff d).0 camera, (is_wanted_iff vid pid sn d).0 wanted),
  λ (camera, wanted). rw ((is_camera_iff d).1 camera, (is_wanted_iff vid pid sn d).1 wanted) refl,
)
