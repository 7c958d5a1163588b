-- ===== src/Store/Others.antt =====
-- What adding records of one tenant does to the records of another.
use open_agentic_threat_defe.Domain.{Alert, AuditEvent, Event}
use open_agentic_threat_defe.Go.Runtime.{Platform}
use open_agentic_threat_defe.Prelude.{
  All, Bool-cases, List, Option, String, [], false, filter, filter_push, inl, inr, is_empty, nat_eq,
  true, ℕ, ◌++◌, ◌∙◌, ◌∷◌, ◌≡◌,
}
use open_agentic_threat_defe.Store.Assets.{upsert_asset}
use open_agentic_threat_defe.Store.AuditChain.{Secrets, prepare_audit_chain}
use open_agentic_threat_defe.Store.Operations.{
  add_alerts, add_audit, add_event, is_repeated, take_alert, take_alerts,
}
use open_agentic_threat_defe.Store.Persistence.{commit, commit_plain}
use open_agentic_threat_defe.Store.State.{Store}
use open_agentic_threat_defe.Store.Tenant.{same_tenant}

module _ ⦃p : Platform⦄ (tenant : String) where
  -- The events and the alerts of a tenant, in the order in which they came.
  abbrev pub events_of : Store → List Event
  events_of s = filter (λ (x : Event). same_tenant x.tenant tenant) s.events

  abbrev pub alerts_of : Store → List Alert
  alerts_of s = filter (λ (x : Alert). same_tenant x.tenant tenant) s.alerts

  -- The events and alerts of the tenant are these, and the store has no retention window.
  pub record HasRecords (events : List Event) (alerts : List Alert) (s : Store) : Type 0 where
    pub no_retention : nat_eq s.retention_window 0 ≡ true
    pub same_events : events_of s ≡ events
    pub same_alerts : alerts_of s ≡ alerts

  module _ (events : List Event) (alerts : List Alert) where
    commit-HasRecords :
        (now : ℕ) (written : Option String) (s : Store)
        → HasRecords events alerts s
        → HasRecords events alerts (commit now written s).0
    commit-HasRecords now written s h =
        let (err, e) = commit_plain now written s h.no_retention in
        rw e (record {
          no_retention = h.no_retention;
          same_events = h.same_events;
          same_alerts = h.same_alerts;
        })

    pub add_event-HasRecords :
        (now : ℕ) (written : Option String) (s : Store) (event : Event)
        → same_tenant event.tenant tenant ≡ false
        → HasRecords events alerts s
        → HasRecords events alerts (add_event now written s event).0
    unfolding add_event
    add_event-HasRecords now written s event other h =
        commit-HasRecords now written
          (record s { events = s.events ++ event ∷ []; assets = upsert_asset event s.assets })
          (record {
            no_retention = h.no_retention;
            same_events = filter_push _ s.events event other ∙ h.same_events;
            same_alerts = h.same_alerts;
          })

    take_alerts-HasRecords :
        (s : Store) (new : List Alert)
        → All (λ (a : Alert). same_tenant a.tenant tenant ≡ false) new
        → HasRecords events alerts s
        → HasRecords events alerts (take_alerts s new).0
    unfolding take_alerts take_alert
    take_alerts-HasRecords s [] others h = h
    take_alerts-HasRecords s (a ∷ new) others h = elim (Bool-cases (is_repeated s a)) [
      | inl e ↦ rw e (take_alerts-HasRecords s new others.1 h)
      | inr e ↦ rw e (
          take_alerts-HasRecords (take_alert s a) new others.1 (record {
            no_retention = h.no_retention;
            same_events = h.same_events;
            same_alerts = filter_push _ s.alerts a others.0 ∙ h.same_alerts;
          }))
    ]

    pub add_alerts-HasRecords :
        (now : ℕ) (written : Option String) (s : Store) (new : List Alert)
        → All (λ (a : Alert). same_tenant a.tenant tenant ≡ false) new
        → HasRecords events alerts s
        → HasRecords events alerts (add_alerts now written s new).0
    unfolding add_alerts
    add_alerts-HasRecords now written s new others h =
        let taken = take_alerts-HasRecords s new others h in
        elim (Bool-cases (is_empty (take_alerts s new).1)) [
          | inl e ↦ rw e taken
          | inr e ↦ rw e (commit-HasRecords now written (take_alerts s new).0 taken)
        ]

    pub add_audit-HasRecords :
        (env : Secrets) (now : ℕ) (written : Option String) (s : Store) (event : AuditEvent)
        → HasRecords events alerts s
        → HasRecords events alerts (add_audit env now written s event).0
    unfolding add_audit prepare_audit_chain
    add_audit-HasRecords env now written s event h = commit-HasRecords now written _ (record {
      no_retention = h.no_retention;
      same_events = h.same_events;
      same_alerts = h.same_alerts;
    })
