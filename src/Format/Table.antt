-- ===== src/Format/Table.antt =====
-- The searches of the format table of src/stream.c: what a GUID names, and what a class covers.
use usb_video_class.Base.{
  ℕ, zero, suc, ◌≤◌, ◌<◌, sym, ap, ◌∙◌, ◌≡◌, refl, ◌≢◌, ◌↔◌, ◌⊎◌, inl, inr, Bool, true, false, List,
  [], ◌∷◌, replicate, arith, Bool-cases,
}
use usb_video_class.Desc.{FrameFormat, any, uncompressed, compressed, yuyv}
use usb_video_class.Format.{
  get_format_entry, same_guid, any_of, matches_guid, formats, first_format, frame_format_for_guid,
}

abbrev pub guid_of : FrameFormat → List ℕ
guid_of f = (get_format_entry f).guid

-- A format with no children, as opposed to a class of formats.
abbrev pub IsConcrete : FrameFormat → Type 0
IsConcrete f = (get_format_entry f).children ≡ []

pub same_guid_iff : (xs ys : List ℕ) → (same_guid xs ys ≡ true) ↔ (xs ≡ ys)
unfolding same_guid
same_guid_iff [] [] = (λ _. refl, λ _. refl)
same_guid_iff [] (y ∷ ys) = (λ e. cc, λ e. cc)
same_guid_iff (x ∷ xs) [] = (λ e. cc, λ e. cc)
same_guid_iff (x ∷ xs) (y ∷ ys) = ground (arith, same_guid_iff xs ys)

-- The format of a GUID in the table is the concrete format that has it.
pub for_guid-guid_of : (f : FrameFormat) → IsConcrete f → frame_format_for_guid (guid_of f) ≡ f
unfolding frame_format_for_guid first_format same_guid get_format_entry
for_guid-guid_of any h = cc
for_guid-guid_of uncompressed h = cc
for_guid-guid_of compressed h = cc
for_guid-guid_of yuyv h = refl
for_guid-guid_of f h = refl

not_abstract : (f : FrameFormat) → (get_format_entry f).abstract_fmt ≡ false
unfolding get_format_entry
not_abstract any = refl
not_abstract f = refl

format_of_entry : (f : FrameFormat) → (get_format_entry f).format ≡ f
unfolding get_format_entry
format_of_entry any = refl
format_of_entry f = refl

first_format_sound :
    (fs : List FrameFormat) (g : List ℕ)
    → (first_format fs g ≡ any) ⊎ (g ≡ guid_of (first_format fs g))
unfolding first_format
first_format_sound [] g = inl refl
first_format_sound (f ∷ fs) g = elim (Bool-cases (same_guid (guid_of f) g)) [
  | inl hit ↦
      inr (rw (not_abstract f, hit, format_of_entry f) (sym ((same_guid_iff (guid_of f) g).0 hit)))
  | inr miss ↦ rw (not_abstract f, miss) (first_format_sound fs g)
]

zeros_name_none : frame_format_for_guid (replicate 16 0) ≡ any
unfolding frame_format_for_guid first_format same_guid get_format_entry
zeros_name_none = refl

named_IsConcrete :
    (f : FrameFormat) → f ≢ any → frame_format_for_guid (guid_of f) ≡ f → IsConcrete f
unfolding get_format_entry
named_IsConcrete any n e = absurd (n refl)
named_IsConcrete uncompressed n e = absurd (n (sym e ∙ zeros_name_none))
named_IsConcrete compressed n e = absurd (n (sym e ∙ zeros_name_none))
named_IsConcrete f n e = refl

for_guid-guid :
    (f : FrameFormat) (g : List ℕ) → f ≢ any → frame_format_for_guid g ≡ f → g ≡ guid_of f
unfolding frame_format_for_guid
for_guid-guid f g n e = elim (first_format_sound formats g) [
  | inl none_found ↦ absurd (n (sym e ∙ none_found))
  | inr found ↦ found ∙ ap guid_of e
]

-- The search of the table for a GUID gives a format other than `any` exactly when that format is
-- concrete and the GUID is its own.
for_guid_iff :
    (f : FrameFormat) (g : List ℕ)
    → f ≢ any
    → (frame_format_for_guid g ≡ f) ↔ (IsConcrete f × (g ≡ guid_of f))
for_guid_iff f g n = (
  λ e.
      let own = for_guid-guid f g n e in
      (named_IsConcrete f n (ap frame_format_for_guid (sym own) ∙ e), own),
  λ (concrete, own). ap frame_format_for_guid own ∙ for_guid-guid_of f concrete,
)

-- What a GUID stands for, a format or a class of formats below which it lies.
pub data Child (c : FrameFormat) : List FrameFormat → Type 0 where
  here : {fs : List FrameFormat} → Child c (c ∷ fs)
  there : {f : FrameFormat} {fs : List FrameFormat} → Child c fs → Child c (f ∷ fs)

pub data Covers (g : List ℕ) : FrameFormat → Type 0 where
  own : {f : FrameFormat} → g ≡ guid_of f → Covers g f
  below : {f c : FrameFormat} → Child c (get_format_entry f).children → Covers g c → Covers g f

-- The depth of the table below a format.
abbrev pub depth : FrameFormat → ℕ
depth any = 2
depth uncompressed = 1
depth compressed = 1
depth f = 0

depth_le : (f : FrameFormat) → depth f ≤ 2
depth_le any = omega arith
depth_le f = omega arith

abbrev AllBelow : ℕ → List FrameFormat → Type 0
AllBelow n [] = Unit {0}
AllBelow n (f ∷ fs) = (depth f < n) × AllBelow n fs

children_below : (f : FrameFormat) → AllBelow (depth f) (get_format_entry f).children
unfolding get_format_entry
children_below any = omega arith
children_below f = omega arith

depth-Child :
    {c : FrameFormat} {fs : List FrameFormat} (n : ℕ) → Child c fs → AllBelow n fs → depth c < n
depth-Child n here a = a.0
depth-Child n (there m) a = depth-Child n m a.1

any_of-Child :
    {c : FrameFormat} {fs : List FrameFormat} (p : FrameFormat → Bool)
    → Child c fs
    → p c ≡ true
    → any_of p fs ≡ true
any_of-Child p here e = ground arith
any_of-Child p (there {f} m) e = ground (arith, any_of-Child p m e)

any_of_sound :
    (p : FrameFormat → Bool) (fs : List FrameFormat)
    → any_of p fs ≡ true
    → (c : FrameFormat) × Child c fs × (p c ≡ true)
any_of_sound p [] e = cc
any_of_sound p (f ∷ fs) e = elim (Bool-cases (p f)) [
  | inl hit ↦ (f, here, hit)
  | inr miss ↦ let (c, m, q) = any_of_sound p fs (ground (arith, miss, e)) in (c, there m, q)
]

matches_guid_sound :
    (fuel : ℕ) (f : FrameFormat) (g : List ℕ) → matches_guid fuel f g ≡ true → Covers g f
unfolding matches_guid
matches_guid_sound zero f g e = cc
matches_guid_sound (suc fuel) f g e = elim (Bool-cases (same_guid g (guid_of f))) [
  | inl hit ↦ own ((same_guid_iff g (guid_of f)).0 hit)
  | inr miss ↦
      let (c, m, q) =
        any_of_sound (λ child. matches_guid fuel child g) (get_format_entry f).children
          (ground (arith, miss, e)) in
      below m (matches_guid_sound fuel c g q)
]

matches_guid_complete :
    {f : FrameFormat} {g : List ℕ} (fuel : ℕ)
    → Covers g f
    → depth f < fuel
    → matches_guid fuel f g ≡ true
unfolding matches_guid
matches_guid_complete zero c h = absurd (omega arith)
matches_guid_complete {f} {g} (suc fuel) (own e) h =
    rw (not_abstract f, (same_guid_iff g (guid_of f)).1 e)
matches_guid_complete {f} {g} (suc fuel) (below {c} m k) h =
    let deeper =
      matches_guid_complete fuel k (omega (arith, depth-Child (depth f) m (children_below f))) in
    let found = any_of-Child (λ child. matches_guid fuel child g) m deeper in ground (arith, found)

-- With fuel for the depth of the table, a GUID matches a format or class exactly when it is the
-- GUID of it or of something below it.
matches_guid_iff :
    (fuel : ℕ) (f : FrameFormat) (g : List ℕ)
    → 2 < fuel
    → (matches_guid fuel f g ≡ true) ↔ Covers g f
matches_guid_iff fuel f g h =
    (matches_guid_sound fuel f g, λ c. matches_guid_complete fuel c (omega (arith, depth_le f)))

-- The search of the table for a GUID gives a format other than `any` exactly when that format is
-- concrete and the GUID is its own. With fuel above 2, the depth of the table, the recursive
-- matcher accepts a GUID for a format or class exactly when it is the GUID of it or of something
-- below it.
pub searches_iff :
    (fuel : ℕ) (f class : FrameFormat) (g : List ℕ)
    → f ≢ any
    → 2 < fuel
    → ((frame_format_for_guid g ≡ f) ↔ (IsConcrete f × (g ≡ guid_of f)))
      × ((matches_guid fuel class g ≡ true) ↔ Covers g class)
searches_iff fuel f class g n h = (for_guid_iff f g n, matches_guid_iff fuel class g h)
