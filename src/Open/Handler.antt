-- ===== src/Open/Handler.antt =====
-- When the event thread of src/init.c runs.
use usb_video_class.Base.{
  ℕ, ◌≡◌, refl, sym, Bool, false, not, ◌&&◌, Option, some, List, [], ◌∷◌, ◌++◌, ◌==◌, Bool-cases,
  inl, inr, arith, subst, Always, returns, >>=-Always, from_Always,
}
use usb_video_class.Device.Claim.{release_if}
use usb_video_class.Open.Rollback.{open_internal-Outcome}
use usb_video_class.Discover.{UvcDevice}
use usb_video_class.Context.{
  Handle, Context, blank_context, start_handler_thread, is_empty, add_device, is_only,
  remove_device, leave,
}
use usb_video_class.Open.{Host, Opened, open_internal, close_streams, close_device}

-- A thread handles events.
abbrev pub Handled : Context → Type 0
Handled ctx =
    ctx.handles_events
    ≡ ctx.own_usb_ctx && (not ctx.kill_handler_thread && not (is_empty ctx.open_devices))

is_empty-append : (h : Handle) (hs : List Handle) → is_empty (hs ++ h ∷ []) ≡ false
unfolding is_empty
is_empty-append h [] = refl
is_empty-append h (k ∷ hs) = refl

add_device-Handled :
    (handle : Handle) (ctx : Context) → Handled ctx → Handled (add_device handle ctx)
unfolding add_device start_handler_thread is_empty
add_device-Handled handle ctx h = elim (Bool-cases ctx.own_usb_ctx) [
  | inl own ↦ elim (Bool-cases (is_empty ctx.open_devices)) [
    | inl e ↦ rw (own, e, is_empty-append handle ctx.open_devices) ground (arith, h, own, e)
    | inr e ↦ rw (own, e, is_empty-append handle ctx.open_devices) ground (arith, h, own, e)
  ]
  | inr own ↦ rw own ground (arith, h, own)
]

remove_device-empty :
    (address : ℕ) (hs : List Handle)
    → is_only address hs ≡ false
    → is_empty (remove_device address hs) ≡ is_empty hs
unfolding is_only remove_device is_empty
remove_device-empty address [] e = refl
remove_device-empty address (h ∷ []) e = rw e refl
remove_device-empty address (h ∷ k ∷ hs) e = elim (Bool-cases (h.address == address)) [
  | inl hit ↦ rw hit refl
  | inr miss ↦ rw miss refl
]

leave-Handled : (address : ℕ) (ctx : Context) → Handled ctx → Handled (leave address ctx)
unfolding leave
leave-Handled address ctx h = elim (Bool-cases ctx.own_usb_ctx) [
  | inl own ↦ elim (Bool-cases (is_only address ctx.open_devices)) [
    | inl e ↦ rw (own, e) refl
    | inr e ↦ rw (own, e, remove_device-empty address ctx.open_devices e) ground (arith, h, own)
  ]
  | inr own ↦ rw own ground (arith, h, own)
]

-- The contexts that openings and closings of devices lead to, from a new one.
pub data History (own : Bool) : Context → Type 1 where
  starts : History own (blank_context own)
  opens :
      {S : Type 0} {ctx : Context} {o : Opened S} (host : Host S) (address : ℕ) (dev : UvcDevice)
      (w : S)
      → History own ctx
      → open_internal host address dev ctx w ≡ some o
      → History own o.ctx
  closes :
      {S : Type 0} {ctx : Context} {o : Context × Option UvcDevice × S} (host : Host S)
      (handle : Handle) (dev : UvcDevice) (w : S)
      → History own ctx
      → close_device host handle dev ctx w ≡ some o
      → History own o.0

close_device-leave :
    {S : Type 0} (host : Host S) (handle : Handle) (dev : UvcDevice) (ctx : Context) (w : S)
    → Always (λ o. o.0 ≡ leave handle.address ctx) (close_device host handle dev ctx w)
unfolding close_device
close_device-leave host handle dev ctx w =
    >>=-Always (close_streams host.usb handle.session.streams handle.session w) _ λ (y, w₁).
      >>=-Always (release_if host.usb y.device y.device.info.ctrl_if.b_interface_number w₁) _
        λ _. returns refl

-- After any openings and closings of devices in a new context, a thread handles libusb's events
-- exactly if the context has a libusb context of its own, a device is open, and the flag that ends
-- the thread is not set.
pub History-Handled : {own : Bool} {ctx : Context} → History own ctx → Handled ctx
unfolding is_empty
History-Handled {own} starts = ground (arith, Bool-cases own)
History-Handled (opens {ctx} {o} host address dev w past run) =
    elim (from_Always (open_internal-Outcome host address dev ctx w) o run) [
      | inl (_, same, _) ↦ subst Handled (sym same) (History-Handled past)
      | inr (_, (h, _, added), _) ↦
          subst Handled (sym added) (add_device-Handled h ctx (History-Handled past))
    ]
History-Handled (closes {ctx} {o} host handle dev w past run) =
    subst Handled (sym (from_Always (close_device-leave host handle dev ctx w) o run))
      (leave-Handled handle.address ctx (History-Handled past))
