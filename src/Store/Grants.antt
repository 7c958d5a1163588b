-- ===== src/Store/Grants.antt =====
-- Where approving an action succeeds.
use mathlib.Core.Option.{some-injective}
use open_agentic_threat_defe.Domain.{ResponseAction}
use open_agentic_threat_defe.Prelude.{
  Bool-cases, List, Option, String, [], ap, arith, false, find, inl, inr, none, refl, some, ℕ, ◌==◌,
  ◌∙◌, ◌∷◌, ◌≡◌, ◌⊎◌,
}
use open_agentic_threat_defe.Store.Approval.{is_blocked}
use open_agentic_threat_defe.Store.Operations.{
  approve_action, approving, change_action, change_first, get_action, write_change,
}
use open_agentic_threat_defe.Store.Persistence.{persist}
use open_agentic_threat_defe.Store.State.{Store}

-- The loop answers with the changed first action of the id.
change_first-changes :
    (f : ResponseAction → ResponseAction ⊎ String) (id : String) (actions : List ResponseAction)
    (a b : ResponseAction)
    → find (λ x. x.id == id) actions ≡ some a
    → f a ≡ inl b
    → (change_first f id actions).1 ≡ some (inl b)
unfolding change_first
change_first-changes f id [] a b h k = absurd (cc)
change_first-changes f id (x ∷ actions) a b h k = elim (Bool-cases (x.id == id)) [
  | inl e ↦
      let same : x ≡ a = some-injective x a (rw e at h) in
      let changed : f x ≡ inl b = ap f same ∙ k in rw (e, changed) refl
  | inr e ↦ rw e (change_first-changes f id actions a b (rw e at h) k)
]

persist_written : (s : Store) → (persist none s).1 ≡ none
unfolding persist
persist_written s = ground arith

write_change-written :
    (s : Store) (c : List ResponseAction × Option (ResponseAction ⊎ String)) (b : ResponseAction)
    → c.1 ≡ some (inl b)
    → (write_change none s c).1 ≡ some (inl b)
unfolding write_change
write_change-written s (actions, none) b h = absurd (cc)
write_change-written s (actions, some (inr err)) b h = absurd (cc)
write_change-written s (actions, some (inl a)) b h =
    rw (persist_written (record s { actions = actions })) h

-- The action with its approval.
abbrev pub granted : ResponseAction → String → ℕ → ResponseAction
granted a by at = record a { approval_status = "approved"; approved_by = by; approved_at = some at }

-- What is found under the id and is not refused is approved, where writing does not fail.
pub approve_action-grants :
    (s : Store) (id by : String) (at : ℕ) (a : ResponseAction)
    → get_action s id ≡ some a
    → is_blocked a ≡ false
    → (approve_action none s id by at).1 ≡ some (inl (granted a by at))
unfolding get_action approve_action change_action approving
approve_action-grants s id by at a h b =
    let changed =
      change_first-changes (approving by at) id s.actions a (granted a by at) h (rw b refl) in
    write_change-written s (change_first (approving by at) id s.actions) (granted a by at) changed
