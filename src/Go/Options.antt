-- ===== src/Go/Options.antt =====
-- The chain of steps that each end the function where they fail.
use open_agentic_threat_defe.Prelude.{
  Bool, Option, false, if◌then◌else◌, none, refl, some, true, ◌≡◌,
}

infixl 5 ◌>>=◌
abbrev pub ◌>>=◌ {ℓ κ} : {A : Type ℓ} {B : Type κ} → Option A → (A → Option B) → Option B
none >>= f = none
some a >>= f = f a

-- A chain that succeeds has succeeded at its first step.
pub >>=-some {ℓ κ} :
    {A : Type ℓ} {B : Type κ} (m : Option A) (f : A → Option B) (b : B)
    → (m >>= f) ≡ some b
    → (a : A) × (m ≡ some a) × (f a ≡ some b)
>>=-some none f b h = absurd (cc)
>>=-some (some a) f b h = (a, refl, h)

-- So has a test in front of a chain.
pub unless_some {ℓ} :
    {A : Type ℓ} (c : Bool) (m : Option A) (b : A)
    → (if c then none else m) ≡ some b
    → (c ≡ false) × (m ≡ some b)
unless_some true m b h = absurd (cc)
unless_some false m b h = (refl, h)
