-- ===== src/Base/Outcome.antt =====
-- Code that may read or write outside an allocation: `none` is that fault.
use mathlib.Core.Path.{◌≡◌, refl, subst}
use mathlib.Core.Option.{Option, none, some, some-injective}

infixl 5 ◌>>=◌
abbrev pub ◌>>=◌ {ℓ κ} : {A : Type ℓ} {B : Type κ} → Option A → (A → Option B) → Option B
none >>= f = none
some a >>= f = f a

-- Inversion of a bind that ran through.
pub >>=-eq-some {ℓ κ} :
    {A : Type ℓ} {B : Type κ} (m : Option A) (f : A → Option B) {b : B}
    → (m >>= f) ≡ some b
    → (a : A) × (m ≡ some a) × (f a ≡ some b)
>>=-eq-some none f h = cc
>>=-eq-some (some a) f h = (a, refl, h)

-- The code runs through.
abbrev pub Runs {ℓ} : {A : Type ℓ} → Option A → Type ℓ
Runs {A} o = (a : A) × (o ≡ some a)

pub >>=-Runs {ℓ κ} :
    {A : Type ℓ} {B : Type κ} (m : Option A) (f : A → Option B)
    → Runs m
    → ((a : A) → Runs (f a))
    → Runs (m >>= f)
>>=-Runs none f (a, e) k = cc
>>=-Runs (some a) f r k = k a

-- Whatever the code returns has a property.
pub data Always {ℓ} {A : Type ℓ} (P : A → Type ℓ) : Option A → Type ℓ where
  fault : Always P none
  returns : {a : A} → P a → Always P (some a)

pub >>=-Always {ℓ} :
    {A B : Type ℓ} {P : B → Type ℓ} (m : Option A) (f : A → Option B)
    → ((a : A) → Always P (f a))
    → Always P (m >>= f)
>>=-Always none f k = fault
>>=-Always (some a) f k = k a

-- The same, of a result that is there.
pub from_Always {ℓ} :
    {A : Type ℓ} {P : A → Type ℓ} {m : Option A} → Always P m → (a : A) → m ≡ some a → P a
from_Always fault a e = cc
from_Always {P} (returns p) a e = subst P (some-injective _ a e) p
