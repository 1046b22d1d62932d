-- ===== src/Common/Outcomes.antt =====
-- What a call of a C function comes to: a value (return code 0), the return code -1, or undefined
-- behaviour, such as a read through NULL or outside the bytes that were passed.
use mathlib.Core.Path.{◌≡◌, refl, subst}
use mathlib.Core.Logic.{◌≢◌}
use mathlib.Core.Bool.{Bool, true, false}
use mathlib.Core.Option.{Option, none, some}

pub data Outcome {ℓ} (A : Type ℓ) : Type ℓ where
  done : A → Outcome A
  failed : Outcome A
  fault : Outcome A

infixl 5 ◌>>=◌ ◌>>◌
abbrev pub ◌>>=◌ {ℓ κ} : {A : Type ℓ} {B : Type κ} → Outcome A → (A → Outcome B) → Outcome B
done a >>= f = f a
failed >>= f = failed
fault >>= f = fault

abbrev pub ◌>>◌ {ℓ} : {B : Type ℓ} → Outcome (Unit {0}) → Outcome B → Outcome B
m >> k = m >>= λ _. k

-- A call that must give a value, and a test that must hold, for the rest to run.
abbrev pub require {ℓ} : {A : Type ℓ} → Option A → Outcome A
require none = failed
require (some a) = done a

abbrev pub guard : Bool → Outcome (Unit {0})
guard true = done tt
guard false = failed

pub >>=-eq-done {ℓ κ} :
    {A : Type ℓ} {B : Type κ} (m : Outcome A) (f : A → Outcome B) {b : B}
    → (m >>= f) ≡ done b
    → (a : A) × (m ≡ done a) × (f a ≡ done b)
>>=-eq-done (done a) f h = (a, refl, h)
>>=-eq-done failed f h = cc
>>=-eq-done fault f h = cc

-- A sequence of steps has defined behaviour if each has.
pub >>=-ne-fault {ℓ κ} :
    {A : Type ℓ} {B : Type κ} (m : Outcome A) (f : A → Outcome B)
    → m ≢ fault
    → ((a : A) → m ≡ done a → f a ≢ fault)
    → (m >>= f) ≢ fault
>>=-ne-fault (done a) f h k = k a refl
>>=-ne-fault failed f h k = cc
>>=-ne-fault fault f h k = λ _. h refl

module _ {ℓ} {A : Type ℓ} (P : A → Type 0) where
  -- The value, if there is one, has the property; a fault is not excluded.
  abbrev pub Returns : Outcome A → Type 0
  Returns (done a) = P a
  Returns failed = Unit
  Returns fault = Unit

  -- The behaviour is defined, and the value, if there is one, has the property.
  abbrev pub Ensures : Outcome A → Type 0
  Ensures (done a) = P a
  Ensures failed = Unit
  Ensures fault = ⊥

pub Returns->>= {ℓ κ} :
    {A : Type ℓ} {B : Type κ} (Q : A → Type 0) (P : B → Type 0) (m : Outcome A) (f : A → Outcome B)
    → Returns Q m
    → ((a : A) → Q a → Returns P (f a))
    → Returns P (m >>= f)
Returns->>= Q P (done a) f h k = k a h
Returns->>= Q P failed f h k = tt
Returns->>= Q P fault f h k = tt

pub Ensures->>= {ℓ κ} :
    {A : Type ℓ} {B : Type κ} (Q : A → Type 0) (P : B → Type 0) (m : Outcome A) (f : A → Outcome B)
    → Ensures Q m
    → ((a : A) → Q a → Ensures P (f a))
    → Ensures P (m >>= f)
Ensures->>= Q P (done a) f h k = k a h
Ensures->>= Q P failed f h k = tt
Ensures->>= Q P fault f h k = absurd h

pub Returns-done {ℓ} :
    {A : Type ℓ} (P : A → Type 0) {o : Outcome A} {a : A} → Returns P o → o ≡ done a → P a
Returns-done P h e = subst (Returns P) e h

pub Ensures-ne-fault {ℓ} : {A : Type ℓ} (P : A → Type 0) (o : Outcome A) → Ensures P o → o ≢ fault
Ensures-ne-fault P (done a) h = cc
Ensures-ne-fault P failed h = cc
Ensures-ne-fault P fault h = absurd h

pub Returns-Ensures {ℓ} : {A : Type ℓ} (P : A → Type 0) (o : Outcome A) → Ensures P o → Returns P o
Returns-Ensures P (done a) h = h
Returns-Ensures P failed h = tt
Returns-Ensures P fault h = tt

pub Ensures-mono {ℓ} :
    {A : Type ℓ} (P Q : A → Type 0) (o : Outcome A)
    → Ensures P o
    → ((a : A) → P a → Q a)
    → Ensures Q o
Ensures-mono P Q (done a) h k = k a h
Ensures-mono P Q failed h k = tt
Ensures-mono P Q fault h k = h

pub >>=-ne-failed {ℓ κ} :
    {A : Type ℓ} {B : Type κ} (m : Outcome A) (f : A → Outcome B)
    → m ≢ failed
    → ((a : A) → m ≡ done a → f a ≢ failed)
    → (m >>= f) ≢ failed
>>=-ne-failed (done a) f h k = k a refl
>>=-ne-failed failed f h k = λ _. h refl
>>=-ne-failed fault f h k = cc

-- With neither failure nor fault there is a value, and it has the property.
pub Ensures-done {ℓ} :
    {A : Type ℓ} (P : A → Type 0) (o : Outcome A)
    → Ensures P o
    → o ≢ failed
    → (a : A) × (o ≡ done a) × P a
Ensures-done P (done a) h k = (a, refl, h)
Ensures-done P failed h k = absurd (k refl)
Ensures-done P fault h k = absurd h
