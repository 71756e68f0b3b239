-- ===== src/Common/Outcome.antt =====
-- What a run of C++ code comes to: a value, undefined behaviour, or a loop that is still running.
use mathlib.Core.Path.{◌≡◌, refl}

-- `fault` is undefined behaviour: an access outside a block, a null pointer, a signed overflow.
-- `stuck` means that a loop used up the rounds that it was given.
pub data Result {ℓ} (A : Type ℓ) : Type ℓ where
  ok : A → Result A
  fault : Result A
  stuck : Result A

infixl 5 ◌>>=◌
abbrev pub ◌>>=◌ {ℓ κ} : {A : Type ℓ} {B : Type κ} → Result A → (A → Result B) → Result B
ok a >>= f = f a
fault >>= f = fault
stuck >>= f = stuck

-- Total correctness of a run: it comes to a value, and the value has the property.
pub data Returns {ℓ κ} {A : Type ℓ} (P : A → Type κ) : Result A → Type (ℓ ⊔ κ) where
  returns : {a : A} → P a → Returns P (ok a)

module _ {ℓ κ μ ν} {A : Type ℓ} {P : A → Type κ} where
  pub Returns-bind :
      {B : Type μ} {Q : B → Type ν} {r : Result A} {k : A → Result B}
      → Returns P r
      → ((a : A) → P a → Returns Q (k a))
      → Returns Q (r >>= k)
  Returns-bind (returns p) next = next _ p

module _ {ℓ κ μ} {A : Type ℓ} {P : A → Type κ} where
  pub Returns-mono :
      {Q : A → Type μ} {r : Result A} → Returns P r → ((a : A) → P a → Q a) → Returns Q r
  Returns-mono (returns p) weaken = returns (weaken _ p)

module _ {ℓ κ} {A : Type ℓ} {P : A → Type κ} where
  pub Returns-value : {r : Result A} → Returns P r → (a : A) × (r ≡ ok a) × P a
  Returns-value (returns p) = (_, refl, p)

-- Partial correctness of a run: if it comes to a value, the value has the property.
abbrev pub Yields {ℓ κ} : {A : Type ℓ} → (A → Type κ) → Result A → Type κ
Yields P (ok a) = P a
Yields P fault = Unit
Yields P stuck = Unit

pub Yields-bind {ℓ κ μ ν} :
    {A : Type ℓ} {B : Type μ} (P : A → Type κ) (Q : B → Type ν) (r : Result A) (k : A → Result B)
    → Yields P r
    → ((a : A) → P a → Yields Q (k a))
    → Yields Q (r >>= k)
Yields-bind P Q (ok a) k p next = next a p
Yields-bind P Q fault k p next = tt
Yields-bind P Q stuck k p next = tt

pub Returns-Yields {ℓ κ} : {A : Type ℓ} {P : A → Type κ} (r : Result A) → Returns P r → Yields P r
Returns-Yields r (returns p) = p

pub Yields-mono {ℓ κ μ} :
    {A : Type ℓ} (P : A → Type κ) (Q : A → Type μ) (r : Result A)
    → Yields P r
    → ((a : A) → P a → Q a)
    → Yields Q r
Yields-mono P Q (ok a) p f = f a p
Yields-mono P Q fault p f = tt
Yields-mono P Q stuck p f = tt

pub Yields-both {ℓ κ μ ν} :
    {A : Type ℓ} (P : A → Type κ) (Q : A → Type μ) (r : Result A) (R : A → Type ν)
    → Yields P r
    → Yields Q r
    → ((a : A) → P a → Q a → R a)
    → Yields R r
Yields-both P Q (ok a) R p q f = f a p q
Yields-both P Q fault R p q f = tt
Yields-both P Q stuck R p q f = tt

pub Yields-any {ℓ} : {A : Type ℓ} (r : Result A) → Yields (λ _. Unit {0}) r
Yields-any (ok a) = tt
Yields-any fault = tt
Yields-any stuck = tt

pub Returns-both {ℓ κ μ} :
    {A : Type ℓ} {P : A → Type κ} {Q : A → Type μ} {r : Result A}
    → Returns P r
    → Yields Q r
    → Returns (λ a. P a × Q a) r
Returns-both (returns p) q = returns (p, q)

-- What follows from the value that a run comes to.
pub Yields-value {ℓ κ} :
    {A : Type ℓ} {P : A → Type κ} (r : Result A) → ((a : A) → r ≡ ok a → P a) → Yields P r
Yields-value (ok a) h = h a refl
Yields-value fault h = tt
Yields-value stuck h = tt
