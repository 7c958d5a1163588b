-- ===== src/Store/Untouched.antt =====
-- The operations that append no audit record leave the audit chain alone, and those that add no alert
-- leave the alerts and their fingerprints alone.
use open_agentic_threat_defe.Domain.{Alert, AuditEvent, Event, ResponseAction}
use open_agentic_threat_defe.Go.Runtime.{Platform}
use open_agentic_threat_defe.Prelude.{
  All, Bool-cases, List, Option, String, [], ap, inl, inr, is_empty, nat_eq, none, refl, some,
  subst, sym, true, ℕ, ◌++◌, ◌∙◌, ◌∷◌, ◌≡◌, ◌⊎◌,
}
use open_agentic_threat_defe.Store.Assets.{upsert_asset}
use open_agentic_threat_defe.Store.AuditChain.{Secrets, prepare_audit_chain}
use open_agentic_threat_defe.Store.Chain.{IsChain, IsChained}
use open_agentic_threat_defe.Store.Fingerprints.{
  IsDeduplicated, commit-IsDeduplicated, persist-IsDeduplicated,
}
use open_agentic_threat_defe.Store.Operations.{
  add_actions, add_alerts, add_audit, add_event, approve_action, approving, change_action,
  change_first, executing, is_repeated, record_action_execution, take_alert, take_alerts,
  write_change,
}
use open_agentic_threat_defe.Store.Persistence.{commit, commit_plain, persist, persist-cases}
use open_agentic_threat_defe.Store.State.{Numbered, Store, head_after, is_linked}

-- The parts of a store that its audit chain is made of, and the retention window.
pub record SameChain (s t : Store) : Type 0 where
  pub audits : t.audits ≡ s.audits
  pub head : t.audit_chain_head ≡ s.audit_chain_head
  pub valid : t.audit_chain_valid ≡ s.audit_chain_valid
  pub window : t.retention_window ≡ s.retention_window

SameChain-refl : (s : Store) → SameChain s s
SameChain-refl s = record { audits = refl; head = refl; valid = refl; window = refl }

SameChain-trans : (s t u : Store) → SameChain s t → SameChain t u → SameChain s u
SameChain-trans s t u h k = record {
  audits = k.audits ∙ h.audits;
  head = k.head ∙ h.head;
  valid = k.valid ∙ h.valid;
  window = k.window ∙ h.window;
}

SameChain-eq : (s t u : Store) → SameChain s t → u ≡ t → SameChain s u
SameChain-eq s t u h e = subst (SameChain s) (sym e) h

-- Writing the file changes the last error only.
persist-SameChain : (written : Option String) (s : Store) → SameChain s (persist written s).0
persist-SameChain written s = elim (persist-cases written s) [
  | inl e ↦
      SameChain-eq s (record s { last_err = "" }) _
        (record { audits = refl; head = refl; valid = refl; window = refl }) e
  | inr (err, e) ↦
      SameChain-eq s (record s { last_err = err }) _
        (record { audits = refl; head = refl; valid = refl; window = refl }) e
]

pub write_change-SameChain :
    (written : Option String) (s : Store)
    (c : List ResponseAction × Option (ResponseAction ⊎ String))
    → SameChain s (write_change written s c).0
unfolding write_change
write_change-SameChain written s (actions, none) = SameChain-refl s
write_change-SameChain written s (actions, some (inr err)) = SameChain-refl s
write_change-SameChain written s (actions, some (inl a)) =
    SameChain-trans s (record s { actions = actions }) _
      (record { audits = refl; head = refl; valid = refl; window = refl })
      (persist-SameChain written (record s { actions = actions }))

pub approve_action-SameChain :
    (written : Option String) (s : Store) (id by : String) (at : ℕ)
    → SameChain s (approve_action written s id by at).0
unfolding approve_action change_action
approve_action-SameChain written s id by at =
    write_change-SameChain written s (change_first (approving by at) id s.actions)

pub record_action_execution-SameChain :
    (written : Option String) (s : Store) (id : String) (at : ℕ) (status err : String)
    → SameChain s (record_action_execution written s id at status err).0
unfolding record_action_execution change_action
record_action_execution-SameChain written s id at status err =
    write_change-SameChain written s (change_first (executing at status err) id s.actions)

module _ ⦃p : Platform⦄ where
  commit-SameChain :
      (now : ℕ) (written : Option String) (s : Store)
      → nat_eq s.retention_window 0 ≡ true
      → SameChain s (commit now written s).0
  commit-SameChain now written s w =
      let (err, e) = commit_plain now written s w in
      SameChain-eq s (record s { last_err = err }) _
        (record { audits = refl; head = refl; valid = refl; window = refl }) e

  take_alerts-SameChain : (s : Store) (alerts : List Alert) → SameChain s (take_alerts s alerts).0
  unfolding take_alerts take_alert
  take_alerts-SameChain s [] = SameChain-refl s
  take_alerts-SameChain s (alert ∷ alerts) = elim (Bool-cases (is_repeated s alert)) [
    | inl h ↦ rw h (take_alerts-SameChain s alerts)
    | inr h ↦ rw h (
        SameChain-trans s (take_alert s alert) _
          (record { audits = refl; head = refl; valid = refl; window = refl })
          (take_alerts-SameChain (take_alert s alert) alerts))
  ]

  pub add_alerts-SameChain :
      (now : ℕ) (written : Option String) (s : Store) (alerts : List Alert)
      → nat_eq s.retention_window 0 ≡ true
      → SameChain s (add_alerts now written s alerts).0
  unfolding add_alerts
  add_alerts-SameChain now written s alerts w =
      let taken = take_alerts-SameChain s alerts in
      elim (Bool-cases (is_empty (take_alerts s alerts).1)) [
        | inl h ↦ rw h taken
        | inr h ↦ rw h (
            SameChain-trans s (take_alerts s alerts).0 _ taken (
              commit-SameChain now written (take_alerts s alerts).0
                (ap (λ n. nat_eq n 0) taken.window ∙ w)))
      ]

  pub add_actions-SameChain :
      (now : ℕ) (written : Option String) (s : Store) (actions : List ResponseAction)
      → nat_eq s.retention_window 0 ≡ true
      → SameChain s (add_actions now written s actions).0
  unfolding add_actions
  add_actions-SameChain now written s actions w =
      SameChain-trans s (record s { actions = s.actions ++ actions }) _
        (record { audits = refl; head = refl; valid = refl; window = refl })
        (commit-SameChain now written (record s { actions = s.actions ++ actions }) w)

  pub add_event-SameChain :
      (now : ℕ) (written : Option String) (s : Store) (event : Event)
      → nat_eq s.retention_window 0 ≡ true
      → SameChain s (add_event now written s event).0
  unfolding add_event
  add_event-SameChain now written s event w =
      let s' : Store = record s {
        events = s.events ++ event ∷ [];
        assets = upsert_asset event s.assets;
      } in
      SameChain-trans s s' _ (record { audits = refl; head = refl; valid = refl; window = refl })
        (commit-SameChain now written s' w)

  -- Appending a record keeps the retention window.
  pub add_audit-window :
      (env : Secrets) (now : ℕ) (written : Option String) (s : Store) (event : AuditEvent)
      → nat_eq s.retention_window 0 ≡ true
      → (add_audit env now written s event).0.retention_window ≡ s.retention_window
  unfolding add_audit prepare_audit_chain
  add_audit-window env now written s event w =
      let (s1, a) = prepare_audit_chain env s event in
      let s2 : Store = record s1 { audits = s.audits ++ a ∷ [] } in
      (commit-SameChain now written s2 w).window

  -- A chain is one of the audit records, the head and its validity alone.
  pub IsChained-SameChain :
      (env : Secrets) (s t : Store) → SameChain s t → IsChained env s → IsChained env t
  IsChained-SameChain env s t h c = record {
    links = subst (IsChain "") (sym h.audits) c.links;
    linked = subst (All (λ a. is_linked a ≡ true)) (sym h.audits) c.linked;
    numbers = subst (Numbered 1) (sym h.audits) c.numbers;
    head = h.head ∙ c.head ∙ ap (head_after "") (sym h.audits);
    valid = rw (h.valid, h.audits, h.head) c.valid;
  }

  -- A change of the actions or the audit records alone leaves no fingerprint twice.
  write_change-IsDeduplicated :
      (written : Option String) (s : Store)
      (c : List ResponseAction × Option (ResponseAction ⊎ String))
      → IsDeduplicated s
      → IsDeduplicated (write_change written s c).0
  unfolding write_change
  write_change-IsDeduplicated written s (actions, none) d = d
  write_change-IsDeduplicated written s (actions, some (inr err)) d = d
  write_change-IsDeduplicated written s (actions, some (inl a)) d =
      persist-IsDeduplicated written (record s { actions = actions })
        (record { agrees = d.agrees; distinct = d.distinct })

  pub approve_action-IsDeduplicated :
      (written : Option String) (s : Store) (id by : String) (at : ℕ)
      → IsDeduplicated s
      → IsDeduplicated (approve_action written s id by at).0
  unfolding approve_action change_action
  approve_action-IsDeduplicated written s id by at d =
      write_change-IsDeduplicated written s (change_first (approving by at) id s.actions) d

  pub record_action_execution-IsDeduplicated :
      (written : Option String) (s : Store) (id : String) (at : ℕ) (status err : String)
      → IsDeduplicated s
      → IsDeduplicated (record_action_execution written s id at status err).0
  unfolding record_action_execution change_action
  record_action_execution-IsDeduplicated written s id at status err d =
      write_change-IsDeduplicated written s (change_first (executing at status err) id s.actions) d

  pub add_actions-IsDeduplicated :
      (now : ℕ) (written : Option String) (s : Store) (actions : List ResponseAction)
      → IsDeduplicated s
      → IsDeduplicated (add_actions now written s actions).0
  unfolding add_actions
  add_actions-IsDeduplicated now written s actions d =
      commit-IsDeduplicated now written (record s { actions = s.actions ++ actions })
        (record { agrees = d.agrees; distinct = d.distinct })

  pub add_event-IsDeduplicated :
      (now : ℕ) (written : Option String) (s : Store) (event : Event)
      → IsDeduplicated s
      → IsDeduplicated (add_event now written s event).0
  unfolding add_event
  add_event-IsDeduplicated now written s event d =
      commit-IsDeduplicated now written
        (record s { events = s.events ++ event ∷ []; assets = upsert_asset event s.assets })
        (record { agrees = d.agrees; distinct = d.distinct })

  pub add_audit-IsDeduplicated :
      (env : Secrets) (now : ℕ) (written : Option String) (s : Store) (event : AuditEvent)
      → IsDeduplicated s
      → IsDeduplicated (add_audit env now written s event).0
  unfolding add_audit prepare_audit_chain
  add_audit-IsDeduplicated env now written s event d =
      let (s1, a) = prepare_audit_chain env s event in
      commit-IsDeduplicated now written (record s1 { audits = s.audits ++ a ∷ [] })
        (record { agrees = d.agrees; distinct = d.distinct })
