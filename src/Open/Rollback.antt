-- ===== src/Open/Rollback.antt =====
-- What `uvc_open_internal` of src/device.c leaves when it succeeds and when it fails.
use usb_video_class.Base.{
  ℕ, ◌<◌, ◌≡◌, refl, sym, Bool, true, false, not, ◌⊎◌, inl, inr, Option, none, some, List,
  Bool-cases, ◌>>=◌, if_cases, arith, Runs, >>=-Runs, Always, fault, returns, >>=-Always,
  from_Always, subst,
}
use usb_video_class.Base.Int.{ℤ}
use usb_video_class.Desc.{DeviceInfo}
use usb_video_class.Device.{Device}
use usb_video_class.Device.Claim.{claim_if, release_if, is_success, claim_if_exact, release_if-Runs}
use usb_video_class.Parse.{Interface}
use usb_video_class.Parse.Control.{scan_control}
use usb_video_class.Discover.{UvcDevice, ref_device, unref_device}
use usb_video_class.Context.{Handle, Context, add_device}
use usb_video_class.Open.{
  Host, Opened, abandon, abandon_scanned, start_status, new_handle, open_claimed, open_scanned,
  open_internal, get_device_info, blank_info,
}

-- A failed opening leaves the context, and drops the reference that it took; one that succeeds
-- appends the handle and keeps the reference.
abbrev pub Outcome : {S : Type 0} → ℕ → UvcDevice → Context → Opened S → Type 0
Outcome address dev ctx o =
    ((is_success o.ret ≡ false) × (o.ctx ≡ ctx) × (o.dev ≡ unref_device dev))
    ⊎ ((is_success o.ret ≡ true)
        × ((h : Handle) × (h.address ≡ address) × (o.ctx ≡ add_device h ctx))
        × (o.dev ≡ some dev))

failed : (b : Bool) → not b ≡ true → b ≡ false
failed b e = ground arith

passed : (b : Bool) → not b ≡ false → b ≡ true
passed b e = ground arith

module _ {S : Type 0} (host : Host S) (address : ℕ) (dev : UvcDevice) (ctx : Context) where
  abandon_scanned-Outcome :
      (ret : ℤ) (d : Device) (w : S)
      → is_success ret ≡ false
      → Always (Outcome address dev ctx) (abandon_scanned host ret d dev ctx w)
  unfolding abandon_scanned abandon
  abandon_scanned-Outcome ret d w bad =
      >>=-Always (release_if host.usb d d.info.ctrl_if.b_interface_number w) _
        λ _. returns (inl (bad, refl, refl))

  open_claimed-Outcome :
      (d : Device) (w : S)
      → Always (Outcome address dev ctx) (open_claimed host address d dev ctx w)
  unfolding open_claimed
  open_claimed-Outcome d w =
      let r = start_status host d.info.ctrl_if.b_endpoint_address w in
      if_cases (Always (Outcome address dev ctx)) (not (is_success r.0))
        (λ bad. abandon_scanned-Outcome r.0 d r.1 (failed (is_success r.0) bad))
        (λ good.
          returns
            (inr (passed (is_success r.0) good, (new_handle host address d, refl, refl), refl)))

  open_scanned-Outcome :
      (info : DeviceInfo) (w : S)
      → Always (Outcome address dev ctx) (open_scanned host address info dev ctx w)
  unfolding open_scanned
  open_scanned-Outcome info w =
      >>=-Always
        (claim_if host.usb (record { info = info; claimed = λ _. false })
          info.ctrl_if.b_interface_number w)
        _
        λ (ret, d, w').
          if_cases (Always (Outcome address dev ctx)) (not (is_success ret))
            (λ bad. abandon_scanned-Outcome ret d w' (failed (is_success ret) bad))
            (λ good. open_claimed-Outcome d w')

-- Without descriptors the result is a failure.
abbrev Described : ℤ × Option DeviceInfo → Type 0
Described (ret, none) = is_success ret ≡ false
Described (ret, some info) = Unit

get_device_info-Described :
    (tis_camera : Bool) (config : Option (List Interface))
    → Always Described (get_device_info tis_camera config)
unfolding get_device_info
get_device_info-Described tis_camera none = returns refl
get_device_info-Described tis_camera (some config) =
    >>=-Always (scan_control tis_camera config blank_info) _ λ (ret, info).
      elim (Bool-cases (is_success ret)) [ inl e ↦ rw e (returns tt) | inr e ↦ rw e (returns e) ]

-- The descriptors can be read without an access outside them, and say that the control interface
-- is below 32.
abbrev pub Readable : {S : Type 0} → Host S → Type 0
Readable host =
    (r : ℤ × Option DeviceInfo) × (get_device_info host.tis_camera host.config ≡ some r)
    × ((info : DeviceInfo) → r.1 ≡ some info → info.ctrl_if.b_interface_number < 32)

module _ {S : Type 0} (host : Host S) (address : ℕ) (dev : UvcDevice) (ctx : Context) where
  pub open_internal-Outcome :
      (w : S) → Always (Outcome address (ref_device dev) ctx) (open_internal host address dev ctx w)
  unfolding open_internal abandon
  open_internal-Outcome w =
      go (get_device_info host.tis_camera host.config)
        (get_device_info-Described host.tis_camera host.config)
    where
      go :
          (m : Option (ℤ × Option DeviceInfo))
          → Always Described m
          → Always (Outcome address (ref_device dev) ctx) (
              m >>= λ (ret, info). elim info [
                | none ↦ some (abandon host ret (ref_device dev) ctx w)
                | some info' ↦ open_scanned host address info' (ref_device dev) ctx w
              ])
      go none d = fault
      go (some (ret, none)) (returns bad) = returns (inl (bad, refl, refl))
      go (some (ret, some info)) d = open_scanned-Outcome host address (ref_device dev) ctx info w

  abandon_scanned-Runs :
      (ret : ℤ) (d : Device) (w : S)
      → d.info.ctrl_if.b_interface_number < 32
      → Runs (abandon_scanned host ret d dev ctx w)
  unfolding abandon_scanned
  abandon_scanned-Runs ret d w low =
      >>=-Runs (release_if host.usb d d.info.ctrl_if.b_interface_number w) _
        (release_if-Runs host.usb d d.info.ctrl_if.b_interface_number w low) λ _. (_, refl)

  open_claimed-Runs :
      (d : Device) (w : S)
      → d.info.ctrl_if.b_interface_number < 32
      → Runs (open_claimed host address d dev ctx w)
  unfolding open_claimed
  open_claimed-Runs d w low =
      let r = start_status host d.info.ctrl_if.b_endpoint_address w in
      if_cases Runs (not (is_success r.0)) (λ _. abandon_scanned-Runs r.0 d r.1 low)
        (λ _. (_, refl))

  open_scanned-Runs :
      (info : DeviceInfo) (w : S)
      → info.ctrl_if.b_interface_number < 32
      → Runs (open_scanned host address info dev ctx w)
  unfolding open_scanned
  open_scanned-Runs info w low =
      let ((ret, d, w'), run, _, (kept, _)) =
        claim_if_exact host.usb (record { info = info; claimed = λ _. false })
          info.ctrl_if.b_interface_number w low in
      let low' : d.info.ctrl_if.b_interface_number < 32 =
        subst (λ i. i.ctrl_if.b_interface_number < 32) (sym kept) low in
      rw run (
        if_cases Runs (not (is_success ret)) (λ _. abandon_scanned-Runs ret d w' low')
          (λ _. open_claimed-Runs d w' low'))

open_internal-Runs :
    {S : Type 0} (host : Host S) (address : ℕ) (dev : UvcDevice) (ctx : Context) (w : S)
    → Readable host
    → Runs (open_internal host address dev ctx w)
unfolding open_internal
open_internal-Runs host address dev ctx w ((ret, none), run, low) = rw run (_, refl)
open_internal-Runs host address dev ctx w ((ret, some info), run, low) =
    rw run (open_scanned-Runs host address (ref_device dev) ctx info w (low info refl))

-- Where a device's descriptors can be read and number the control interface below 32, its opening
-- ends: it succeeds with a new handle behind the open devices of the context and a reference more
-- on the device, or it fails with the context as it was and the reference that it took dropped.
pub open_internal_exact :
    {S : Type 0} (host : Host S) (address : ℕ) (dev : UvcDevice) (ctx : Context) (w : S)
    → Readable host
    → (o : Opened S) × (open_internal host address dev ctx w ≡ some o)
      × Outcome address (ref_device dev) ctx o
open_internal_exact host address dev ctx w readable =
    let (o, run) = open_internal-Runs host address dev ctx w readable in
    (o, run, from_Always (open_internal-Outcome host address dev ctx w) o run)
