-- ===== src/Go/Exec/Keeps.antt =====
-- Invariants of methods, one rule for each way to build one.
use open_agentic_threat_defe.Go.Exec.{◌>>=◌}
use open_agentic_threat_defe.Go.Exec.{Exec, attempt, gets, go_on, or_stop, pure, stop, update}
use open_agentic_threat_defe.Prelude.{Bool, false, if◌then◌else◌, inl, inr, true, ◌⊎◌}

-- Where the state satisfies `P`, it does so after the method too, whether it returns or stops.
pub record Keeps {ℓ κ} {S E A : Type ℓ} (P : S → Type κ) (m : Exec S E A) : Type (ℓ ⊔ κ) where
  pub at : (before : S) → P before → P (m before).1

module _ {ℓ κ} {S E A : Type ℓ} {P : S → Type κ} where
  pub Keeps-pure : (a : A) → Keeps {E = E} P (pure a)
  unfolding pure
  Keeps-pure a = record { at = λ s h. h }

  pub Keeps-stop : (e : E) → Keeps {A = A} P (stop e)
  unfolding stop
  Keeps-stop e = record { at = λ s h. h }

  pub Keeps-gets : (f : S → A) → Keeps {E = E} P (gets f)
  unfolding gets
  Keeps-gets f = record { at = λ s h. h }

  pub Keeps-update : (f : S → S × A) → ((s : S) → P s → P (f s).0) → Keeps {E = E} P (update f)
  unfolding update
  Keeps-update f k = record { at = k }

  pub Keeps-or_stop {μ} : {F : Type μ} (r : A ⊎ F) (f : F → E) → Keeps P (or_stop r f)
  unfolding or_stop
  Keeps-or_stop (inl a) f = record { at = λ s h. h }
  Keeps-or_stop (inr e) f = record { at = λ s h. h }

  -- A test in front of two methods that both keep `P`.
  pub Keeps-if :
      (test : Bool) (x y : Exec S E A) → Keeps P x → Keeps P y → Keeps P (if test then x else y)
  Keeps-if true x y at_x at_y = at_x
  Keeps-if false x y at_x at_y = at_y

  pub Keeps-attempt : (m : Exec S E A) → Keeps P m → Keeps {E = E} P (attempt m)
  unfolding attempt
  Keeps-attempt m k = record { at = k.at }

module _ {ℓ κ} {S E A B : Type ℓ} {P : S → Type κ} where
  go_on-Keeps :
      (next : A → Exec S E B) (r : A ⊎ E) (after : S)
      → P after
      → ((a : A) → Keeps P (next a))
      → P (go_on r next after).1
  unfolding go_on
  go_on-Keeps next (inl a) after h kept = (kept a).at after h
  go_on-Keeps next (inr e) after h kept = h

  -- A method and whatever it goes on with.
  pub Keeps-bind :
      (first : Exec S E A) (next : A → Exec S E B)
      → Keeps P first
      → ((a : A) → Keeps P (next a))
      → Keeps P (first >>= next)
  unfolding ◌>>=◌
  Keeps-bind first next kept_first kept_next = record {
    at = λ before h.
        go_on-Keeps next (first before).0 (first before).1 (kept_first.at before h) kept_next;
  }

pub ruleset keeps_rules =
    (Keeps-pure, Keeps-stop, Keeps-gets, Keeps-or_stop, Keeps-if, Keeps-bind, Keeps-attempt)
