-- ===== src/Stream/Callback/Ownership.antt =====
-- Who holds a transfer: the handle's table, libusb, or nobody once it is freed. libusb calls the
-- callback with a transfer that it holds, in any order and with any status, and `uvc_stream_stop`
-- of src/stream.c may come between any two calls.
use usb_video_class.Base.{
  ℕ, ◌+◌, ◌≤◌, ◌≡◌, refl, ap, sym, inl, inr, Bool, true, false, Option, none, some, List, [], ◌∷◌,
  ◌==◌, if◌then◌else◌, not, arith, Bool-cases, ==_iff, ◌>>=◌, ap,
}
use usb_video_class.Base.Int.{ℤ, is_negative}
use usb_video_class.UvcError
use usb_video_class.Stream.{Stream}
use usb_video_class.Stream.Payload.Refine.{IsValid}
use usb_video_class.Stream.Callback.{
  Effect, submits, frees, broadcasts, Transfer, mark_deleted, holds, stream_callback,
}
use usb_video_class.Stream.Callback.Kept.{TransferFits}

-- The handle, the transfers that libusb holds, and those that were freed.
pub record System : Type 0 where
  pub stream : Stream
  pub flight : List ℕ
  pub freed : List ℕ

abbrev pub tally : ℕ → ℕ → ℕ
tally x i = if x == i then 1 else 0

abbrev pub count : ℕ → List ℕ → ℕ
count i [] = 0
count i (x ∷ xs) = tally x i + count i xs

-- How often a transfer stands in the table.
abbrev pub slots : ℕ → List (Option ℕ) → ℕ
slots i [] = 0
slots i (none ∷ ts) = slots i ts
slots i (some t ∷ ts) = tally t i + slots i ts

abbrev pub take_out : ℕ → List ℕ → List ℕ
take_out x [] = []
take_out x (y ∷ ys) = if y == x then ys else y ∷ take_out x ys

-- A submission that libusb accepts puts the transfer in its hands.
abbrev pub perform : (ℕ → ℤ) → Effect → System → System
perform submit (submits id) y =
    if is_negative (submit id) then y else record y { flight = id ∷ y.flight }
perform submit (frees id) y = record y { freed = id ∷ y.freed }
perform submit broadcasts y = y

abbrev pub perform_all : (ℕ → ℤ) → List Effect → System → System
perform_all submit [] y = y
perform_all submit (e ∷ es) y = perform_all submit es (perform submit e y)

abbrev pub settle : (ℕ → ℤ) → ℕ → System → Stream × List Effect → System
settle submit id y (s', fx) =
    perform_all submit fx (record y { stream = s'; flight = take_out id y.flight })

-- libusb hands a finished transfer to the callback.
abbrev pub deliver : (ℕ → ℕ) → (ℕ → ℤ) → System → Transfer → Option System
deliver clock submit y t = do
  r ← stream_callback clock submit y.stream t
  some (settle submit t.id y r)

-- `uvc_stream_stop` up to its wait. It asks libusb to cancel the transfers of the table, which
-- stay with libusb and come back through the callback.
unfoldable pub begin_stop : System → ℤ × System
begin_stop y =
    if not y.stream.running
    then (UvcError.invalid_param, y)
    else (UvcError.success, record y { stream = record (y.stream) { running = false } })

-- The test of its wait: no slot holds a transfer.
unfoldable pub is_drained : List (Option ℕ) → Bool
is_drained [] = true
is_drained (none ∷ ts) = is_drained ts
is_drained (some t ∷ ts) = false

pub data Reach (y : System) : System → Type 0 where
  here : Reach y y
  delivers :
      {z z' : System} (clock : ℕ → ℕ) (submit : ℕ → ℤ) (t : Transfer)
      → Reach y z
      → 1 ≤ count t.id z.flight
      → TransferFits t
      → deliver clock submit z t ≡ some z'
      → Reach y z'
  stops : {z : System} → Reach y z → Reach y (begin_stop z).1

-- The table holds what libusb holds, and a transfer is in the table or freed, once.
pub record IsOwned (y : System) : Type 0 where
  pub valid : IsValid y.stream
  pub held : (i : ℕ) → slots i y.stream.transfers ≡ count i y.flight
  pub once : (i : ℕ) → slots i y.stream.transfers + count i y.freed ≤ 1

pub tally_self : (x : ℕ) → tally x x ≡ 1
tally_self x = ground arith

pub tally_other : (x i : ℕ) → (x == i) ≡ false → tally x i ≡ 0
tally_other x i e = rw e refl

pub count-take_out :
    (x : ℕ) (xs : List ℕ)
    → 1 ≤ count x xs
    → (i : ℕ) → tally x i + count i (take_out x xs) ≡ count i xs
count-take_out x [] h i = absurd (omega arith)
count-take_out x (y ∷ ys) h i = elim (Bool-cases (y == x)) [
  | inl e ↦ rw e (ap (λ k. tally k i + count i ys) (sym ((==_iff y x).0 e)))
  | inr e ↦ rw e (omega (arith, count-take_out x ys (omega (arith, tally_other y x e)) i))
]

pub slots-mark_deleted :
    (x : ℕ) (ts : List (Option ℕ))
    → 1 ≤ slots x ts
    → (i : ℕ) → tally x i + slots i (mark_deleted x ts) ≡ slots i ts
unfolding mark_deleted
slots-mark_deleted x [] h i = absurd (omega arith)
slots-mark_deleted x (none ∷ ts) h i = slots-mark_deleted x ts h i
slots-mark_deleted x (some t ∷ ts) h i = elim (Bool-cases (t == x)) [
  | inl e ↦ rw e (ap (λ k. tally k i + slots i ts) (sym ((==_iff t x).0 e)))
  | inr e ↦ rw e (omega (arith, slots-mark_deleted x ts (omega (arith, tally_other t x e)) i))
]

pub holds-slots : (x : ℕ) (ts : List (Option ℕ)) → 1 ≤ slots x ts → holds x ts ≡ true
unfolding holds
holds-slots x [] h = absurd (omega arith)
holds-slots x (none ∷ ts) h = holds-slots x ts h
holds-slots x (some t ∷ ts) h = elim (Bool-cases (t == x)) [
  | inl e ↦ rw e refl
  | inr e ↦ rw e (holds-slots x ts (omega (arith, tally_other t x e)))
]

pub drained-slots : (ts : List (Option ℕ)) → is_drained ts ≡ true → (i : ℕ) → slots i ts ≡ 0
unfolding is_drained
drained-slots [] h i = refl
drained-slots (none ∷ ts) h i = drained-slots ts h i
drained-slots (some t ∷ ts) h i = cc

pub count_none : (xs : List ℕ) → ((i : ℕ) → count i xs ≡ 0) → xs ≡ []
count_none [] h = refl
count_none (x ∷ xs) h = absurd (omega (arith, h x, tally_self x))
