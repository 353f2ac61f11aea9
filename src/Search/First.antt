-- ===== src/Search/First.antt =====
-- The loops of src/stream.c that are left by `goto found`: the first hit, or a miss everywhere.
use usb_video_class.Base.{◌≡◌, refl, ◌⊎◌, inl, inr, Bool, true, false, Option, some, List, [], ◌∷◌}
use usb_video_class.Search.{first_of}

abbrev pub All {ℓ} : {A : Type ℓ} → (A → Type 0) → List A → Type 0
All P [] = Unit {0}
All P (x ∷ xs) = P x × All P xs

abbrev pub Any {ℓ} : {A : Type ℓ} → (A → Type 0) → List A → Type 0
Any P [] = ⊥
Any P (x ∷ xs) = P x ⊎ Any P xs

-- A loop body that ends with a hit, which shows in the state, or with a miss.
abbrev pub Ends : {Y : Type 0} → (Y → Type 0) → Type 0 → Option (Bool × Y) → Type 0
Ends {Y} Hit Miss o =
    (found : Bool) × (y : Y) × (o ≡ some (found, y))
    × (((found ≡ true) × Hit y) ⊎ ((found ≡ false) × Miss))

module _ {A Y : Type 0} (body : A → Y → Option (Bool × Y)) (Ok : A → Type 0) (Hit : A → Y → Type 0)
    (Miss : A → Type 0) (one : (x : A) (y : Y) → Ok x → Ends (Hit x) (Miss x) (body x y)) where
  pub first_of-Ends :
      (xs : List A) (y : Y)
      → All Ok xs
      → Ends (λ z. Any (λ x. Hit x z) xs) (All Miss xs) (first_of body xs y)
  unfolding first_of
  first_of-Ends [] y ok = (false, y, refl, inr (refl, tt))
  first_of-Ends (x ∷ xs) y (ok, oks) = after (one x y ok) (λ z. first_of-Ends xs z oks)
    where
      after :
          Ends (Hit x) (Miss x) (body x y)
          → ((z : Y) → Ends (λ z'. Any (λ x'. Hit x' z') xs) (All Miss xs) (first_of body xs z))
          → Ends (λ z. Any (λ x'. Hit x' z) (x ∷ xs)) (All Miss (x ∷ xs)) (first_of body (x ∷ xs) y)
      after (found, z, run, inl (hit, shows)) rest =
          (true, z, rw (run, hit) refl, inl (refl, inl shows))
      after (found, z, run, inr (miss, none_here)) rest =
          let (found', z', run', ends) = rest z in
          (
            found',
            z',
            rw (run, miss) run',
            elim ends [
              | inl (hit, later) ↦ inl (hit, inr later)
              | inr (missed, others) ↦ inr (missed, (none_here, others))
            ],
          )
