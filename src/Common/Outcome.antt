-- ===== src/Common/Outcome.antt =====
-- The outcome of a function of C that can fail.
use mathlib.Core.Path.{◌≡◌, refl}
use mathlib.Core.Bool.{Bool, true, false}
use mathlib.Core.Option.{Option, none, some}

-- `failed` is a result that reports an error, `undefined` a failed `assert` or a behaviour that C
-- leaves undefined.
pub data Outcome {ℓ} (A : Type ℓ) : Type ℓ where
  ok : A → Outcome A
  failed undefined : Outcome A

infixl 5 ◌>>=◌
abbrev pub ◌>>=◌ {ℓ κ} : {A : Type ℓ} {B : Type κ} → Outcome A → (A → Outcome B) → Outcome B
undefined >>= next = undefined
failed >>= next = failed
ok a >>= next = next a

-- A pointer that must not be null.
abbrev pub defined {ℓ} : {A : Type ℓ} → Option A → Outcome A
defined none = undefined
defined (some a) = ok a

infixl 5 ◌>>◌
abbrev pub ◌>>◌ {ℓ} : {B : Type ℓ} → Outcome (Unit {0}) → Outcome B → Outcome B
test >> after = test >>= (λ passed. after)

-- `assert(test)`
abbrev pub assert : Bool → Outcome (Unit {0})
assert true = ok tt
assert false = undefined

-- An error return where the test holds.
abbrev pub fail_if : Bool → Outcome (Unit {0})
fail_if true = failed
fail_if false = ok tt

-- A step that was not the last to succeed.
pub bind-ok {ℓ κ} :
    {A : Type ℓ} {B : Type κ} (step : Outcome A) (next : A → Outcome B) {result : B}
    → (step >>= next) ≡ ok result
    → (value : A) × (step ≡ ok value) × (next value ≡ ok result)
bind-ok undefined next e = cc
bind-ok failed next e = cc
bind-ok (ok value) next e = (value, refl, e)

-- The outcome is defined, and `P` holds of the value if there is one.
abbrev pub Defined {ℓ} : {A : Type ℓ} → (A → Type 0) → Outcome A → Type 0
Defined P (ok a) = P a
Defined P failed = Unit
Defined P undefined = ⊥

pub bind-Defined {ℓ κ} :
    {A : Type ℓ} {B : Type κ} (P : A → Type 0) (Q : B → Type 0) (m : Outcome A) (f : A → Outcome B)
    → Defined P m
    → ((a : A) → m ≡ ok a → P a → Defined Q (f a))
    → Defined Q (m >>= f)
bind-Defined P Q (ok a) f h k = k a refl h
bind-Defined P Q failed f h k = tt
bind-Defined P Q undefined f h k = absurd h
