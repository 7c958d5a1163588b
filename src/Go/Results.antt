-- ===== src/Go/Results.antt =====
-- Fallible steps whose errors are texts: `inl` is the result, `inr` the error.
use open_agentic_threat_defe.Prelude.{
  Bool, Option, String, false, if◌then◌else◌, inl, inr, none, refl, some, true, ◌≡◌, ◌⊎◌,
}

infixl 5 ◌>>=◌
abbrev pub ◌>>=◌ {ℓ κ} : {A : Type ℓ} {B : Type κ} → A ⊎ String → (A → B ⊎ String) → B ⊎ String
inl a >>= f = f a
inr e >>= f = inr e

-- The result, or the error where there is none.
abbrev pub or_error {ℓ} : {A : Type ℓ} → Option A → String → A ⊎ String
or_error none e = inr e
or_error (some a) e = inl a

abbrev pub fail_if {ℓ} : {A : Type ℓ} → Bool → String → A ⊎ String → A ⊎ String
fail_if true e m = inr e
fail_if false e m = m

-- A chain that succeeds has succeeded at its first step.
pub >>=-inl {ℓ κ} :
    {A : Type ℓ} {B : Type κ} (m : A ⊎ String) (f : A → B ⊎ String) (b : B)
    → (m >>= f) ≡ inl b
    → (a : A) × (m ≡ inl a) × (f a ≡ inl b)
>>=-inl (inl a) f b h = (a, refl, h)
>>=-inl (inr e) f b h = absurd (cc)

pub or_error-inl {ℓ} :
    {A : Type ℓ} (o : Option A) (e : String) (a : A) → or_error o e ≡ inl a → o ≡ some a
or_error-inl none e a h = absurd (cc)
or_error-inl (some b) e a h = cc

pub fail_if-inl {ℓ} :
    {A : Type ℓ} (c : Bool) (e : String) (m : A ⊎ String) (a : A)
    → fail_if c e m ≡ inl a
    → (c ≡ false) × (m ≡ inl a)
fail_if-inl true e m a h = absurd (cc)
fail_if-inl false e m a h = (refl, h)

-- A test in front of a result that is there has failed.
pub unless_error {ℓ} :
    {A : Type ℓ} (c : Bool) (e : String) (m : A ⊎ String) (a : A)
    → (if c then inr e else m) ≡ inl a
    → (c ≡ false) × (m ≡ inl a)
unless_error true e m a h = absurd (cc)
unless_error false e m a h = (refl, h)
