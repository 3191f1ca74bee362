-- ===== src/Common/Panic.antt =====
-- The outcome of a call that may panic (`assert!`, `expect`, an index out of bounds), or whose
-- behaviour may be undefined (a read of memory that was never initialised, a dangling pointer).
use mathlib.Core.Path.{◌≡◌, refl}
use mathlib.Core.Logic.{◌⊎◌, inl, inr}
use mathlib.Core.Bool.{Bool, true, false}
use mathlib.Core.Option.{Option, none, some}
use native.Mathlib.Omega.{arith}

pub data Outcome {ℓ} (A : Type ℓ) : Type ℓ where
  ok : A → Outcome A
  panic : Outcome A
  undefined : Outcome A

infixl 5 ◌>>=◌ ◌>>◌
abbrev pub ◌>>=◌ {ℓ κ} : {A : Type ℓ} {B : Type κ} → Outcome A → (A → Outcome B) → Outcome B
ok a >>= f = f a
panic >>= f = panic
undefined >>= f = undefined

abbrev pub ◌>>◌ {ℓ} : {B : Type ℓ} → Outcome (Unit {0}) → Outcome B → Outcome B
m >> k = m >>= λ _. k

-- `assert!` and `debug_assert!`
abbrev pub check : Bool → Outcome (Unit {0})
check true = ok tt
check false = panic

-- `v[i]`
abbrev pub index {ℓ} : {A : Type ℓ} → Option A → Outcome A
index none = panic
index (some a) = ok a

-- A raw pointer's target
abbrev pub deref {ℓ} : {A : Type ℓ} → Option A → Outcome A
deref none = undefined
deref (some a) = ok a

-- What an outcome is, for a proof that goes by its cases.
pub Outcome-cases {ℓ} :
    {A : Type ℓ} (o : Outcome A) → (o ≡ panic) ⊎ (o ≡ undefined) ⊎ ((a : A) × (o ≡ ok a))
Outcome-cases panic = inl refl
Outcome-cases undefined = inr (inl refl)
Outcome-cases (ok a) = inr (inr (a, refl))

pub ok-injective {ℓ} : {A : Type ℓ} {a b : A} → ok a ≡ ok b → a ≡ b
ok-injective h = cc h

-- A chain succeeds only if its first part does.
pub >>=-ok {ℓ κ} :
    {A : Type ℓ} {B : Type κ} (m : Outcome A) (f : A → Outcome B) (b : B)
    → (m >>= f) ≡ ok b
    → (a : A) × (m ≡ ok a) × (f a ≡ ok b)
>>=-ok (ok a) f b h = (a, refl, h)
>>=-ok panic f b h = absurd (ground arith)
>>=-ok undefined f b h = absurd (ground arith)

pub index-ok {ℓ} : {A : Type ℓ} (o : Option A) {a : A} → index o ≡ ok a → o ≡ some a
index-ok none h = absurd (ground arith)
index-ok (some a) h = cc h
