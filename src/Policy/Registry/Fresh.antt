-- ===== src/Policy/Registry/Fresh.antt =====
-- The ids that canary tokens are given are new.
use text.Mathlib.TextLemmas.{append_cancel_left}
use open_agentic_threat_defe.Domain.{DeceptionToken}
use open_agentic_threat_defe.Go.Maps.{
  Dict, delete, delete-lt, has_key, lookup, lookup-delete, lookup-put,
}
use open_agentic_threat_defe.Go.Runtime.{Platform}
use open_agentic_threat_defe.Go.Strings.{itoa, trim_space}
use open_agentic_threat_defe.Go.Strings.Numbers.{itoa_injective}
use open_agentic_threat_defe.Policy.Deception.{normalize_deception_token}
use open_agentic_threat_defe.Policy.Engine.{Engine}
use open_agentic_threat_defe.Policy.Registry.{
  add_deception_token, deception_id, named_token, next_deception_seq, next_seq, store_token,
}
use open_agentic_threat_defe.Prelude.{
  Bool-cases, String, [], arith, eq_iff, false, if◌then◌else◌, inl, inr, length, refl, some, suc,
  sym, zero, ℕ, ◌==◌, ◌<◌, ◌≤◌, ◌∙◌, ◌∷◌, ◌≡◌, ◌⊎◌,
}

deception_id-ne : (a b : ℕ) → a < b → (deception_id a == deception_id b) ≡ false
deception_id-ne a b h = elim (Bool-cases (deception_id a == deception_id b)) [
  | inr e ↦ e
  | inl e ↦ absurd (
      omega (
        arith,
        itoa_injective a b (
            append_cancel_left "dt-" (itoa a) (itoa b)
              ((eq_iff (deception_id a) (deception_id b)).0 e)),
      ))
]

absent_of_none : (key : String) (m : Dict DeceptionToken) → length m ≤ 0 → has_key key m ≡ false
unfolding lookup
absent_of_none key [] h = refl
absent_of_none key (x ∷ m) h = absurd (omega arith)

-- `m'` is `m` without ids that the loop has passed, and the fuel counts what is left of it.
next_seq-free_in :
    (fuel : ℕ) (m m' : Dict DeceptionToken) (seq : ℕ)
    → length m' ≤ fuel
    → ((n : ℕ) → seq < n → has_key (deception_id n) m' ≡ has_key (deception_id n) m)
    → has_key (deception_id (next_seq fuel m seq)) m ≡ false
unfolding next_seq
next_seq-free_in zero m m' seq h k =
    sym (k (suc seq) (omega arith)) ∙ absent_of_none (deception_id (suc seq)) m' h
next_seq-free_in (suc fuel) m m' seq h k = elim (Bool-cases (has_key (deception_id (suc seq)) m)) [
  | inr e ↦ rw e e
  | inl e ↦ rw e (
      next_seq-free_in fuel m (delete (deception_id (suc seq)) m') (suc seq)
        (omega (arith, h, delete-lt (deception_id (suc seq)) m' (k (suc seq) (omega arith) ∙ e)))
        (λ n l. ground (
          arith,
          lookup-delete (deception_id (suc seq)) (deception_id n) m',
          deception_id-ne (suc seq) n l,
          k n (omega (arith, l)),
        )))
]

pub next_deception_seq-free :
    (e : Engine) → has_key (deception_id (next_deception_seq e)) e.deception ≡ false
unfolding next_deception_seq
next_deception_seq-free e =
    next_seq-free_in (length e.deception) e.deception e.deception e.deception_seq (omega arith)
      (λ n l. refl)

-- The token that is stored for one that is given: it has the value that was given; the registry has
-- it under its id, and all else as before; and its id is the one that was given, or else, where that
-- is blank, one that no token had.
pub record IsStored ⦃p : Platform⦄ (before after : Engine) (given stored : DeceptionToken)
    : Type 0 where
  pub value_kept : stored.value ≡ trim_space given.value
  pub lookup_after :
      (id : String)
      → lookup id after.deception
        ≡ (if stored.id == id then some stored else lookup id before.deception)
  pub id_chosen :
      (stored.id ≡ trim_space given.id)
      ⊎ ((trim_space given.id ≡ "") × (has_key stored.id before.deception ≡ false))

module _ ⦃p : Platform⦄ where
  store_token-IsStored :
      (e : Engine) (now : ℕ) (given : DeceptionToken)
      → IsStored e
          (store_token e (normalize_deception_token now given)).0
          given
          (store_token e (normalize_deception_token now given)).1
  unfolding store_token named_token normalize_deception_token
  store_token-IsStored e now given = elim (Bool-cases (trim_space given.id == "")) [
    | inl c ↦ rw c (record {
      value_kept = refl;
      lookup_after = λ id. lookup-put _ id _ e.deception;
      id_chosen = inr ((eq_iff (trim_space given.id) "").0 c, next_deception_seq-free e);
    })
    | inr c ↦ rw c (record {
      value_kept = refl;
      lookup_after = λ id. lookup-put _ id _ e.deception;
      id_chosen = inl refl;
    })
  ]

  -- Adding a token whose value is not blank succeeds: the search for a free id ends, and the token
  -- replaces another only where its id was given and was taken.
  pub add_deception_token-IsStored :
      (e : Engine) (now : ℕ) (given : DeceptionToken)
      → (trim_space given.value == "") ≡ false
      → (stored : DeceptionToken) × ((add_deception_token e now given).1 ≡ inl stored)
        × IsStored e (add_deception_token e now given).0 given stored
  unfolding add_deception_token
  add_deception_token-IsStored e now given h = rw h (
    (store_token e (normalize_deception_token now given)).1,
    refl,
    store_token-IsStored e now given,
  )
