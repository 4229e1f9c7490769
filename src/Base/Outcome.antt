-- ===== src/Base/Outcome.antt =====
-- Results of fallible code: a value, the code's own failure return, or a fault (undefined
-- behaviour, a failed assertion or an exception that nothing catches). `stuck` is a loop that did not
-- end within its fuel.
use mathlib.Core.Path.{◌≡◌, refl}
use mathlib.Core.Logic.{◌⊎◌, inl, inr}

pub data Outcome {ℓ} (A : Type ℓ) : Type ℓ where
  ok : A → Outcome A
  failed : Outcome A
  fault : Outcome A
  stuck : Outcome A

infixl 5 ◌>>=◌
abbrev pub ◌>>=◌ {ℓ κ} : {A : Type ℓ} {B : Type κ} → Outcome A → (A → Outcome B) → Outcome B
ok a >>= f = f a
failed >>= f = failed
fault >>= f = fault
stuck >>= f = stuck

pub Outcome-cases {ℓ} :
    {A : Type ℓ} (r : Outcome A)
    → ((a : A) × (r ≡ ok a)) ⊎ ((r ≡ failed) ⊎ ((r ≡ fault) ⊎ (r ≡ stuck)))
Outcome-cases (ok a) = inl (a, refl)
Outcome-cases failed = inr (inl refl)
Outcome-cases fault = inr (inr (inl refl))
Outcome-cases stuck = inr (inr (inr refl))

-- A run that gives a value which satisfies a predicate.
abbrev pub Returns {ℓ} : {A : Type ℓ} → (A → Type 0) → Outcome A → Type 0
Returns P (ok a) = P a
Returns P failed = ⊥
Returns P fault = ⊥
Returns P stuck = ⊥

pub >>=-Returns {ℓ κ} :
    {A : Type ℓ} {B : Type κ} (P : A → Type 0) (Q : B → Type 0) (m : Outcome A) (f : A → Outcome B)
    → Returns P m
    → ((a : A) → P a → Returns Q (f a))
    → Returns Q (m >>= f)
>>=-Returns P Q (ok a) f h k = k a h
>>=-Returns P Q failed f h k = absurd h
>>=-Returns P Q fault f h k = absurd h
>>=-Returns P Q stuck f h k = absurd h

pub Returns-ok {ℓ} :
    {A : Type ℓ} (P : A → Type 0) (r : Outcome A) → Returns P r → (a : A) × (r ≡ ok a) × P a
Returns-ok P (ok a) h = (a, refl, h)
Returns-ok P failed h = absurd h
Returns-ok P fault h = absurd h
Returns-ok P stuck h = absurd h

pub Returns-mono {ℓ} :
    {A : Type ℓ} (P Q : A → Type 0) (r : Outcome A)
    → ((a : A) → P a → Q a)
    → Returns P r
    → Returns Q r
Returns-mono P Q (ok a) k h = k a h
Returns-mono P Q failed k h = h
Returns-mono P Q fault k h = h
Returns-mono P Q stuck k h = h
