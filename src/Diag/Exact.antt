-- ===== src/Diag/Exact.antt =====
-- Which diagnostics of src/diag.c can be printed.
use usb_video_class.Base.{
  ℕ, suc, ◌≡◌, refl, ◌≢◌, ◌⊎◌, inl, inr, ◌↔◌, Bool, true, false, Option, none, some, List, [], ◌∷◌,
  ◌==◌, ==_iff, ◌>>=◌, Runs, Bool-cases, arith,
}
use usb_video_class.Desc.{FrameDesc, FormatDesc, StreamingInterface, DeviceInfo}
use usb_video_class.Discover.{UsbDevice}
use usb_video_class.Search.First.{All, Any}
use usb_video_class.Diag.{
  Line, rate_of, print_frame_intervals, print_frame, print_each, text_of, is_known, print_format,
  print_interfaces, get_device_descriptor, print_diag, print_frameformats,
}

both-Runs :
    {A B C : Type 0} (m : Option A) (n : Option B) (g : A → B → C)
    → Runs (m >>= λ x. n >>= λ y. some (g x y)) ↔ (Runs m × Runs n)
both-Runs none n g = (λ (x, e). cc, λ ((x, e), r). cc)
both-Runs (some x) none g = (λ (z, e). cc, λ (r, (y, e)). cc)
both-Runs (some x) (some y) g = (λ r. ((x, refl), (y, refl)), λ r. (g x y, refl))

map-Runs : {A B : Type 0} (m : Option A) (g : A → B) → Runs (m >>= λ x. some (g x)) ↔ Runs m
map-Runs none g = (λ (x, e). cc, λ (x, e). cc)
map-Runs (some x) g = ((λ r. (x, refl)), λ r. (g x, refl))

abbrev then_iff : {A B C : Type 0} → A ↔ B → B ↔ C → A ↔ C
then_iff f g = (λ a. g.0 (f.0 a), λ c. f.1 (g.1 c))

abbrev pair_iff : {A B C D : Type 0} → A ↔ C → B ↔ D → (A × B) ↔ (C × D)
pair_iff f g = (λ (a, b). (f.0 a, g.0 b), λ (c, d). (f.1 c, g.1 d))

rate_of-Runs : (d : ℕ) → Runs (rate_of d) ↔ (d ≢ 0)
unfolding rate_of
rate_of-Runs d = elim (Bool-cases (d == 0)) [
  | inl e ↦ rw e ((λ (x, run). cc), λ h. absurd (h ((==_iff d 0).0 e)))
  | inr e ↦ rw e ((λ r. λ z. ground (arith, e, z)), λ h. (_, refl))
]

abbrev IntervalsPrint : FrameDesc → Option (List ℕ) → Type 0
IntervalsPrint f (some ds) = Unit
IntervalsPrint f none = (f.dw_min_frame_interval ≢ 0) × (f.dw_max_frame_interval ≢ 0)

intervals-Runs :
    (f : FrameDesc) (ds : Option (List ℕ)) → Runs (print_frame_intervals f ds) ↔ IntervalsPrint f ds
unfolding print_frame_intervals
intervals-Runs f (some ds) = ((λ r. tt), λ t. (_, refl))
intervals-Runs f none =
    then_iff (both-Runs (rate_of f.dw_min_frame_interval) (rate_of f.dw_max_frame_interval) _)
      (pair_iff (rate_of-Runs f.dw_min_frame_interval) (rate_of-Runs f.dw_max_frame_interval))

-- The intervals that a frame's lines divide by are not 0.
abbrev pub FramePrints : FrameDesc → Type 0
FramePrints f = (f.dw_default_frame_interval ≢ 0) × IntervalsPrint f f.intervals

print_frame-Runs : (f : FrameDesc) → Runs (print_frame f) ↔ FramePrints f
unfolding print_frame
print_frame-Runs f =
    then_iff
      (both-Runs (rate_of f.dw_default_frame_interval) (print_frame_intervals f f.intervals) _)
      (pair_iff (rate_of-Runs f.dw_default_frame_interval) (intervals-Runs f f.intervals))

print_each-Runs :
    {A : Type 0} (print : A → Option (List Line)) (P : A → Type 0)
    → ((x : A) → Runs (print x) ↔ P x)
    → (xs : List A) → Runs (print_each print xs) ↔ All P xs
unfolding print_each
print_each-Runs print P one [] = ((λ r. tt), λ t. ([], refl))
print_each-Runs print P one (x ∷ xs) =
    then_iff (both-Runs (print x) (print_each print xs) _)
      (pair_iff (one x) (print_each-Runs print P one xs))

text_of-Runs : (bs : List ℕ) → Runs (text_of bs) ↔ Any (λ b. b ≡ 0) bs
unfolding text_of
text_of-Runs [] = ((λ (x, e). cc), λ h. absurd h)
text_of-Runs (b ∷ bs) = elim (Bool-cases (b == 0)) [
  | inl e ↦ rw e ((λ r. inl ((==_iff b 0).0 e)), λ h. ([], refl))
  | inr e ↦ rw e (
      then_iff (map-Runs (text_of bs) _) (
        then_iff (text_of-Runs bs)
          ((λ h. inr h), elim [ inl z ↦ ground (arith, e, z) | inr h ↦ h ])))
]

-- A format of a kind without a name is printed; another one has a GUID with a byte 0, where its
-- text ends, and frames that can be printed.
abbrev pub FormatPrints : FormatDesc → Type 0
FormatPrints f =
    (is_known f.b_descriptor_subtype ≡ false)
    ⊎ (Any (λ (b : ℕ). b ≡ 0) f.guid_format × All FramePrints f.frame_descs)

print_format-Runs : (stills : Bool) (f : FormatDesc) → Runs (print_format stills f) ↔ FormatPrints f
unfolding print_format
print_format-Runs stills f = elim (Bool-cases (is_known f.b_descriptor_subtype)) [
  | inl e ↦ rw e (
      then_iff (both-Runs (text_of f.guid_format) (print_each print_frame f.frame_descs) _) (
        then_iff
          (pair_iff (text_of-Runs f.guid_format)
            (print_each-Runs print_frame FramePrints print_frame-Runs f.frame_descs))
          ((λ h. inr h), elim [ inl z ↦ cc | inr h ↦ h ])))
  | inr e ↦ rw e ((λ r. inl refl), λ h. (_, refl))
]

abbrev pub InterfacePrints : StreamingInterface → Type 0
InterfacePrints s = All FormatPrints s.format_descs

print_interfaces-Runs :
    (i : ℕ) (ss : List StreamingInterface) → Runs (print_interfaces i ss) ↔ All InterfacePrints ss
unfolding print_interfaces
print_interfaces-Runs i [] = ((λ r. tt), λ t. ([], refl))
print_interfaces-Runs i (s ∷ ss) =
    then_iff
      (both-Runs (print_each (print_format true) s.format_descs) (print_interfaces (suc i) ss) _)
      (pair_iff
        (print_each-Runs (print_format true) FormatPrints (print_format-Runs true) s.format_descs)
        (print_interfaces-Runs (suc i) ss))

descriptor-Runs : (d : UsbDevice) → Runs (get_device_descriptor d) ↔ Runs d.ids
unfolding get_device_descriptor
descriptor-Runs d = map-Runs d.ids _

-- `uvc_print_diag` and `uvc_print_frameformats` end without a division by zero, a read past a
-- GUID or an unset pointer exactly if the device is not configured, or if each format of a kind
-- with a name has a byte 0 in its GUID and frames whose default interval is not 0, nor the ends of
-- their range where they have one, and, for the first, libusb gives the device's identifiers.
pub prints_iff :
    (dev : UsbDevice) (streaming : Bool) (info : DeviceInfo)
    → (Runs (print_diag dev streaming info)
        ↔ ((info.ctrl_if.bcd_uvc ≡ 0) ⊎ (Runs dev.ids × All InterfacePrints info.stream_ifs)))
      × (Runs (print_frameformats info)
          ↔ ((info.ctrl_if.bcd_uvc ≡ 0) ⊎ All InterfacePrints info.stream_ifs))
unfolding print_diag print_frameformats
prints_iff dev streaming info = elim (Bool-cases (info.ctrl_if.bcd_uvc == 0)) [
  | inl e ↦ rw e (
    ((λ r. inl ((==_iff info.ctrl_if.bcd_uvc 0).0 e)), λ h. (_, refl)),
    ((λ r. inl ((==_iff info.ctrl_if.bcd_uvc 0).0 e)), λ h. (_, refl)),
  )
  | inr e ↦ rw e (
    then_iff (both-Runs (get_device_descriptor dev) (print_interfaces 0 info.stream_ifs) _) (
        then_iff (pair_iff (descriptor-Runs dev) (print_interfaces-Runs 0 info.stream_ifs))
          ((λ h. inr h), elim [ inl z ↦ ground (arith, e, z) | inr h ↦ h ])),
    then_iff
        (print_each-Runs
          (λ (s : StreamingInterface). print_each (print_format false) s.format_descs)
          InterfacePrints
          (λ (s : StreamingInterface).
            print_each-Runs (print_format false) FormatPrints (print_format-Runs false)
              s.format_descs)
          info.stream_ifs)
        ((λ h. inr h), elim [ inl z ↦ ground (arith, e, z) | inr h ↦ h ]),
  )
]
