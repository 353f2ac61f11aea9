-- ===== src/Search/Rate.antt =====
-- The frame interval that `uvc_get_stream_ctrl_format_size` of src/stream.c chooses for a rate.
use usb_video_class.Base.{
  ap, if_cases, ==_iff, subst, ℕ, ◌-◌, ◌/◌, ◌%◌, ◌≤◌, ◌<◌, ◌≡◌, ◌≢◌, refl, ◌∙◌, ◌⊎◌, inl, inr,
  false, Option, none, some, List, [], ◌∷◌, ◌==◌, ◌||◌, ◌&&◌, not, leb, if_true, if_false,
  Bool-cases, arith,
}
use native.Mathlib.Nat.{zero-mod}
use usb_video_class.Desc.{FrameDesc}
use usb_video_class.Search.{listed_interval, stepped_interval, choose_interval, choose_interval_of}

-- A listed interval has the rate, where 0 stands for every rate.
abbrev pub HasRate : ℕ → ℕ → Type 0
HasRate fps i = (10000000 / i ≡ fps) ⊎ (fps ≡ 0)

-- An interval of a range with a step: that of the rate, in the range, a number of steps from its
-- start.
abbrev pub IsStep : ℕ → FrameDesc → ℕ → Type 0
IsStep fps frame i =
    (i ≡ 10000000 / fps)
    × (frame.dw_min_frame_interval ≤ i)
    × (i ≤ frame.dw_max_frame_interval)
    × ((i - frame.dw_min_frame_interval) % frame.dw_frame_interval_step ≡ 0)

-- An interval of a list, which ends at the first 0, that has the rate.
abbrev pub Lists : ℕ → ℕ → List ℕ → Type 0
Lists fps i [] = ⊥
Lists fps i (j ∷ is) = (j ≢ 0) × (((j ≡ i) × HasRate fps j) ⊎ Lists fps i is)

-- What a frame descriptor offers for a rate.
abbrev pub OffersOf : Option (List ℕ) → ℕ → FrameDesc → ℕ → Type 0
OffersOf (some is) fps frame i = Lists fps i is
OffersOf none fps frame i = IsStep fps frame i

-- A descriptor with listed intervals, or with a step that is not zero for a rate that is not zero.
abbrev pub DividesOf : Option (List ℕ) → ℕ → FrameDesc → Type 0
DividesOf (some is) fps frame = Unit {0}
DividesOf none fps frame = (0 < fps) × (0 < frame.dw_frame_interval_step)

-- An interval on offer, or none is.
abbrev pub Chooses : Option (List ℕ) → ℕ → FrameDesc → Option (Option ℕ) → Type 0
Chooses intervals fps frame o =
    ((i : ℕ) × (o ≡ some (some i)) × OffersOf intervals fps frame i)
    ⊎ ((o ≡ some none) × ((i : ℕ) → ¬ (OffersOf intervals fps frame i)))

listed_interval_cases :
    (fps : ℕ) (is : List ℕ)
    → ((i : ℕ) × (listed_interval fps is ≡ some i) × Lists fps i is)
      ⊎ ((listed_interval fps is ≡ none) × ((i : ℕ) → ¬ (Lists fps i is)))
unfolding listed_interval
listed_interval_cases fps [] = inr (refl, λ i h. h)
listed_interval_cases fps (j ∷ is) = elim (Bool-cases (j == 0)) [
  | inl zero_here ↦ inr (if_true _ _ zero_here, λ i h. h.0 ((==_iff j 0).0 zero_here))
  | inr nonzero ↦
      let there : j ≢ 0 = λ z. ground (arith, nonzero, z) in
      elim (Bool-cases (10000000 / j == fps || fps == 0)) [
        | inl e ↦
            inl (j, if_false _ _ nonzero ∙ if_true _ _ e, (there, inl (refl, ground (arith, e))))
        | inr e ↦
            let no : ¬ (HasRate fps j) = λ h. ground (arith, e) in
            elim (listed_interval_cases fps is) [
              | inl (i, run, hit) ↦
                  inl (i, if_false _ _ nonzero ∙ (if_false _ _ e ∙ run), (there, inr hit))
              | inr (run, miss) ↦ inr (
                if_false _ _ nonzero ∙ (if_false _ _ e ∙ run),
                λ i (_, h). elim h [ inl (same, rate) ↦ no rate | inr later ↦ miss i later ],
              )
            ]
      ]
]

stepped_interval_cases :
    (fps : ℕ) (frame : FrameDesc)
    → 0 < fps
    → 0 < frame.dw_frame_interval_step
    → Chooses none fps frame (stepped_interval fps frame)
unfolding stepped_interval
stepped_interval_cases fps frame rate step =
    if_cases P (fps == 0) (λ e. absurd (omega (arith, (==_iff fps 0).0 e)))
      (λ _.
        if_cases P (not (leb low i && leb i high)) (λ out. inr (refl, λ j h. ground (arith, out)))
          (λ inside.
            let above : low ≤ i = ground (arith, inside) in
            let below : i ≤ high = ground (arith, inside) in
            if_cases P (i - low == 0)
              (λ start.
                inl (
                  i,
                  refl,
                  (refl, above, below, rw ((==_iff (i - low) 0).0 start) (zero-mod unit)),
                ))
              (λ _.
                if_cases P (unit == 0) (λ e. absurd (omega (arith, (==_iff unit 0).0 e)))
                  (λ _.
                    if_cases (λ o. P (some o)) ((i - low) % unit == 0)
                      (λ whole. inl (i, refl, (refl, above, below, (==_iff _ 0).0 whole)))
                      (λ part. inr (refl, λ j h. not_step j part h))))))
  where
    i : ℕ
    i = 10000000 / fps

    low : ℕ
    low = frame.dw_min_frame_interval

    high : ℕ
    high = frame.dw_max_frame_interval

    unit : ℕ
    unit = frame.dw_frame_interval_step

    P : Option (Option ℕ) → Type 0
    P = Chooses none fps frame

    not_step : (j : ℕ) → ((i - low) % unit == 0) ≡ false → ¬ (IsStep fps frame j)
    not_step j part (same, _, _, whole) =
        let moved : (i - low) % unit ≡ 0 = subst (λ k. (k - low) % unit ≡ 0) same whole in
        ground (arith, part)

pub choose_interval-Chooses :
    (fps : ℕ) (frame : FrameDesc)
    → DividesOf frame.intervals fps frame
    → Chooses frame.intervals fps frame (choose_interval fps frame)
unfolding choose_interval choose_interval_of
choose_interval-Chooses fps frame = split frame.intervals
  where
    split :
        (intervals : Option (List ℕ))
        → DividesOf intervals fps frame
        → Chooses intervals fps frame (choose_interval_of intervals fps frame)
    split (some is) h = elim (listed_interval_cases fps is) [
      | inl (i, run, hit) ↦ inl (i, ap some run, hit)
      | inr (run, miss) ↦ inr (ap some run, miss)
    ]
    split none (rate, step) = stepped_interval_cases fps frame rate step
