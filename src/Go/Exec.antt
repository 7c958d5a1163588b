-- ===== src/Go/Exec.antt =====
-- Methods that change a state and may stop early: `inl` is what the method returns, `inr` what it
-- stops with. The state is kept where it stops.
pub mod Keeps
pub mod Yields
use open_agentic_threat_defe.Prelude.{inl, inr, ◌⊎◌}

abbrev pub Exec {ℓ} : Type ℓ → Type ℓ → Type ℓ → Type ℓ
Exec S E A = S → (A ⊎ E) × S

module _ {ℓ} {S E A : Type ℓ} where
  unfoldable pub pure : A → Exec S E A
  pure a s = (inl a, s)

  unfoldable pub stop : E → Exec S E A
  stop e s = (inr e, s)

  unfoldable pub gets : (S → A) → Exec S E A
  gets f s = (inl (f s), s)

  -- A step that changes the state and answers.
  unfoldable pub update : (S → S × A) → Exec S E A
  update f s = let (s', a) = f s in (inl a, s')

  -- The result, or the end with what the error makes.
  unfoldable pub or_stop {κ} : {F : Type κ} → A ⊎ F → (F → E) → Exec S E A
  or_stop (inl a) f = λ s. (inl a, s)
  or_stop (inr e) f = λ s. (inr (f e), s)

module _ {ℓ} {S E A B : Type ℓ} where
  unfoldable pub go_on : A ⊎ E → (A → Exec S E B) → Exec S E B
  go_on (inl a) f s = f a s
  go_on (inr e) f s = (inr e, s)

  infixl 5 ◌>>=◌ ◌>>◌
  unfoldable pub ◌>>=◌ : Exec S E A → (A → Exec S E B) → Exec S E B
  unfolding go_on
  ◌>>=◌ m f s = let (r, s') = m s in go_on r f s'

  abbrev pub ◌>>◌ : Exec S E A → Exec S E B → Exec S E B
  m >> n = m >>= λ _. n

module _ {ℓ} {S E A : Type ℓ} where
  -- `_ = m`: the error of a method is dropped.
  unfoldable pub attempt : Exec S E A → Exec S E (Unit {ℓ})
  attempt m s = let (r, s') = m s in (inl tt, s')
