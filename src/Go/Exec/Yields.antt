-- ===== src/Go/Exec/Yields.antt =====
-- What holds after a method, of the state and of what the method returns.
use open_agentic_threat_defe.Go.Exec.{Exec, go_on, pure, ◌>>=◌}
use open_agentic_threat_defe.Go.Exec.Keeps.{Keeps}
use open_agentic_threat_defe.Prelude.{inl, inr, ◌⊎◌}

-- What is returned satisfies `Q`; nothing is said where the method stops.
abbrev pub Returned {ℓ κ} : {A E : Type ℓ} → (A → Type κ) → A ⊎ E → Type κ
Returned Q (inl a) = Q a
Returned Q (inr e) = Unit

-- `P` is kept, and what is returned satisfies `Q`.
pub record Yields {ℓ κ} {S E A : Type ℓ} (P : S → Type κ) (Q : A → Type κ) (m : Exec S E A)
    : Type (ℓ ⊔ κ) where
  pub at : (before : S) → P before → P (m before).1 × Returned Q (m before).0

module _ {ℓ κ} {S E A : Type ℓ} {P : S → Type κ} {Q : A → Type κ} where
  pub Yields-pure : (a : A) → Q a → Yields {E = E} P Q (pure a)
  unfolding pure
  Yields-pure a q = record { at = λ s h. (h, q) }

  pub Yields-Keeps : (m : Exec S E A) → Yields P Q m → Keeps P m
  Yields-Keeps m y = record { at = λ s h. (y.at s h).0 }

module _ {ℓ κ} {E A : Type ℓ} where
  any_result : (r : A ⊎ E) → Returned (λ (a : A). Unit {κ}) r
  any_result (inl a) = tt
  any_result (inr e) = tt

module _ {ℓ κ} {S E A : Type ℓ} {P : S → Type κ} where
  -- A method of which only the state matters.
  pub Keeps-Yields : (m : Exec S E A) → Keeps P m → Yields P (λ (a : A). Unit {κ}) m
  Keeps-Yields m k = record { at = λ s h. (k.at s h, any_result (m s).0) }

module _ {ℓ κ} {S E A B : Type ℓ} {P : S → Type κ} {Q : A → Type κ} {R : B → Type κ} where
  next-Yields :
      (next : A → Exec S E B) (r : A ⊎ E) (after : S)
      → P after
      → Returned Q r
      → ((a : A) → Q a → Yields P R (next a))
      → P (go_on r next after).1 × Returned R (go_on r next after).0
  unfolding go_on
  next-Yields next (inl a) after h q k = (k a q).at after h
  next-Yields next (inr e) after h q k = (h, tt)

  pub Yields-bind :
      (first : Exec S E A) (next : A → Exec S E B)
      → Yields P Q first
      → ((a : A) → Q a → Yields P R (next a))
      → Yields P R (first >>= next)
  unfolding ◌>>=◌
  Yields-bind first next y k = record {
    at = λ s h. let (kept, q) = y.at s h in next-Yields next (first s).0 (first s).1 kept q k;
  }
