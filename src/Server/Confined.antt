-- ===== src/Server/Confined.antt =====
-- Events that come in stay with the tenant of whoever sends them.
use open_agentic_threat_defe.Domain.{Alert, Event}
use open_agentic_threat_defe.Go.Exec.{gets, or_stop, ◌>>=◌}
use open_agentic_threat_defe.Go.Exec.Keeps.{
  Keeps, Keeps-bind, Keeps-gets, Keeps-if, Keeps-stop, Keeps-or_stop, keeps_rules,
}
use open_agentic_threat_defe.Go.Exec.Yields.{
  Keeps-Yields, Yields, Yields-Keeps, Yields-bind, Yields-pure,
}
use open_agentic_threat_defe.Go.Runtime.{Platform}
use open_agentic_threat_defe.Policy.Rules.{evaluate}
use open_agentic_threat_defe.Prelude.{
  All, List, Option, String, [], false, nat_eq, none, refl, some, true, ℕ, ◌++◌, ◌==◌, ◌∷◌, ◌≡◌,
  ◌⊎◌,
}
use open_agentic_threat_defe.Server.Actions.{
  id_or_new, ok_or_500, prepare_alerts, prepare_each, prepare_event, time_or_now,
}
use open_agentic_threat_defe.Server.Ingest.{
  correlate_tenant, handle_events, ingest, ingest_each, keep_event, post_events,
}
use open_agentic_threat_defe.Server.Stable.{
  Recordable, clock_now-Keeps, next_id-Keeps, record_audit-Keeps,
}
use open_agentic_threat_defe.Server.State.{
  App, HttpRequest, Settings, World, clock_now, next_id, on_store, or_500, write_error,
}
use open_agentic_threat_defe.Server.Tenancy.{tenant_for_principal}
use open_agentic_threat_defe.Store.Isolation.{DefaultIsTrimmed, tenant_or_default_idem}
use open_agentic_threat_defe.Store.Operations.{add_alerts, add_event}
use open_agentic_threat_defe.Store.Others.{
  HasRecords, add_alerts-HasRecords, add_audit-HasRecords, add_event-HasRecords, alerts_of,
  events_of,
}
use open_agentic_threat_defe.Store.Tenant.{same_tenant, tenant_or_default}

module _ ⦃p : Platform⦄ (w : World) (set : Settings) (trimmed : DefaultIsTrimmed) (other : String)
    (events : List Event) (alerts : List Alert) where
  -- What the other tenant has.
  abbrev Untouched : App → Type 0
  Untouched app = HasRecords other events alerts app.store

  abbrev Foreign : String → Type 0
  Foreign tenant = same_tenant tenant other ≡ false

  Foreign-default : (tenant : String) → Foreign tenant → Foreign (tenant_or_default tenant)
  unfolding same_tenant
  Foreign-default tenant h = rw (tenant_or_default_idem trimmed tenant) h

  Untouched-Recordable : Recordable w set Untouched
  unfolding on_store
  Untouched-Recordable = record {
    on_tick = λ app h. h;
    on_count = λ app h. h;
    on_audit = λ event. record {
      at = λ app h.
          add_audit-HasRecords other events alerts set.secrets (w.clock app.ticks)
            (w.written app.ticks) app.store event h;
    };
  }

  Keeps-clock_now : Keeps Untouched (clock_now w)
  Keeps-clock_now = clock_now-Keeps w set Untouched-Recordable

  Keeps-next_id : (prefix : String) → Keeps Untouched (next_id w set prefix)
  Keeps-next_id = next_id-Keeps w set Untouched-Recordable

  ruleset effects = (keeps_rules, Keeps-clock_now, Keeps-next_id)

  Keeps-id_or_new : (prefix id : String) → Keeps Untouched (id_or_new w set prefix id)
  Keeps-id_or_new prefix id = search effects

  Keeps-time_or_now : (at : ℕ) → Keeps Untouched (time_or_now w set at)
  Keeps-time_or_now at = search effects

  prepare_event-Foreign :
      (tenant : String) (event : Event)
      → Foreign tenant
      → Yields Untouched (λ (e : Event). Foreign e.tenant) (prepare_event w set tenant event)
  unfolding prepare_event
  prepare_event-Foreign tenant event h =
      Yields-bind _ _ (Keeps-Yields _ (Keeps-id_or_new "evt" event.id)) (λ id u.
        Yields-bind _ _ (Keeps-Yields _ (Keeps-time_or_now event.timestamp))
          (λ at v. Yields-pure _ (Foreign-default tenant h)))

  Keeps-ok_or_500 : (err : Option String) → Keeps Untouched (ok_or_500 w set err)
  unfolding ok_or_500
  Keeps-ok_or_500 none = search keeps_rules
  Keeps-ok_or_500 (some err) = search keeps_rules

  store_event-kept :
      (event : Event)
      → Foreign event.tenant
      → Keeps Untouched (on_store w (λ at written s. add_event at written s event))
  unfolding on_store
  store_event-kept event h = record {
    at = λ app k.
        add_event-HasRecords other events alerts (w.clock app.ticks) (w.written app.ticks) app.store
          event h k;
  }

  keep_event-kept :
      (tenant : String) (event : Event)
      → Foreign tenant
      → Keeps Untouched (keep_event w set tenant event)
  unfolding keep_event
  keep_event-kept tenant event h = Yields-Keeps _ (
      Yields-bind _ _ (prepare_event-Foreign tenant event h) (λ prepared f. Keeps-Yields _ (
        Keeps-bind _ _ (store_event-kept prepared f)
          (λ err. search (keeps_rules, Keeps-ok_or_500)))))

  ingest_each-kept :
      (tenant : String) (new : List Event)
      → Foreign tenant
      → Keeps Untouched (ingest_each w set tenant new)
  unfolding ingest_each
  ingest_each-kept tenant [] h = search keeps_rules
  ingest_each-kept tenant (event ∷ new) h = Keeps-bind _ _ (keep_event-kept tenant event h) (λ kept.
      Keeps-bind (gets (λ (app : App). evaluate app.engine kept)) _ (Keeps-gets _)
        (λ raised. Keeps-bind _ _ (ingest_each-kept tenant new h) (λ rest. search keeps_rules)))

  prepare_each-Foreign :
      (tenant : String) (now : ℕ) (new : List Alert)
      → Foreign tenant
      → Yields Untouched (All (λ (a : Alert). Foreign a.tenant)) (prepare_each w set tenant now new)
  unfolding prepare_each
  prepare_each-Foreign tenant now [] h = Yields-pure [] tt
  prepare_each-Foreign tenant now (alert ∷ new) h =
      Yields-bind _ _ (Keeps-Yields _ (Keeps-id_or_new "alrt" alert.id)) (λ id u.
        Yields-bind _ _ (prepare_each-Foreign tenant now new h)
          (λ rest all. Yields-pure _ (h, all)))

  prepare_alerts-Foreign :
      (new : List Alert) (tenant : String)
      → Foreign tenant
      → Yields Untouched (All (λ (a : Alert). Foreign a.tenant)) (prepare_alerts w set new tenant)
  unfolding prepare_alerts
  prepare_alerts-Foreign new tenant h =
      Yields-bind _ _ (Keeps-Yields _ Keeps-clock_now) (λ now u.
        prepare_each-Foreign (tenant_or_default tenant) now new (Foreign-default tenant h))

  store_alerts-kept :
      (new : List Alert)
      → All (λ (a : Alert). Foreign a.tenant) new
      → Keeps Untouched (on_store w (λ at written s. add_alerts at written s new))
  unfolding on_store
  store_alerts-kept new h = record {
    at = λ app k.
        add_alerts-HasRecords other events alerts (w.clock app.ticks) (w.written app.ticks)
          app.store new h k;
  }

  Keeps-or_500 : (a : List Alert × Option String) → Keeps Untouched (or_500 a)
  unfolding or_500
  Keeps-or_500 (a, none) = search keeps_rules
  Keeps-or_500 (a, some err) = search keeps_rules

  Keeps-correlate_tenant : (tenant : String) → Keeps Untouched (correlate_tenant w set tenant)
  unfolding correlate_tenant
  Keeps-correlate_tenant tenant = Keeps-bind (gets _) _ (Keeps-gets _) (λ recent. search effects)

  store_prepared-kept :
      (new : List Alert) (tenant : String)
      → Foreign tenant
      → Keeps Untouched (do
        prepared ← prepare_alerts w set new tenant
        stored ← on_store w (λ at written s. add_alerts at written s prepared)
        or_500 stored)
  store_prepared-kept new tenant h = Yields-Keeps _ (
      Yields-bind _ _ (prepare_alerts-Foreign new tenant h) (λ prepared all.
        Keeps-Yields _ (Keeps-bind _ _ (store_alerts-kept prepared all) (λ a. Keeps-or_500 a))))

  ingest-kept :
      (new : List Event) (tenant : String)
      → Foreign tenant
      → Keeps Untouched (ingest w set new tenant)
  unfolding ingest
  ingest-kept new tenant h =
      let f = Foreign-default tenant h in
      Keeps-bind _ _ (ingest_each-kept (tenant_or_default tenant) new f) (λ raised.
        Keeps-bind _ _ (Keeps-correlate_tenant (tenant_or_default tenant))
          (λ correlated. store_prepared-kept (raised ++ correlated) (tenant_or_default tenant) f))

  post_events-kept :
      (r : HttpRequest) (body : List Event ⊎ String)
      → Foreign r.principal.tenant
      → Keeps Untouched (post_events w set r body)
  unfolding post_events tenant_for_principal
  post_events-kept r body h =
      Keeps-bind (or_stop body (write_error 400)) _ (Keeps-or_stop _ _) (λ new.
        Keeps-bind _ _ (ingest-kept new _ (Foreign-default r.principal.tenant h))
          (λ raised. search (keeps_rules, record_audit-Keeps w set Untouched-Recordable)))

  handle_events-kept :
      (r : HttpRequest) (body : List Event ⊎ String)
      → Foreign r.principal.tenant
      → Keeps Untouched (handle_events w set r body)
  unfolding handle_events
  handle_events-kept r body h =
      Keeps-if (r.method == "GET") _ _ (Keeps-gets _)
        (Keeps-if (r.method == "POST") _ _ (post_events-kept r body h) (Keeps-stop _))

module _ ⦃p : Platform⦄ (w : World) (set : Settings) where
  -- A request to /api/events changes neither the events nor the alerts of any tenant but that of its
  -- principal: those of another stay as they were, in their order, whatever tenant the events in the
  -- body name, whatever alerts they raise, and wherever the handler stops. (The store has no retention
  -- window, and no letter of the word "default" is taken to be a space.)
  pub ingest_stays_in_tenant :
      (r : HttpRequest) (body : List Event ⊎ String) (other : String) (app : App)
      → DefaultIsTrimmed
      → same_tenant r.principal.tenant other ≡ false
      → nat_eq app.store.retention_window 0 ≡ true
      → (events_of other (handle_events w set r body app).1.store ≡ events_of other app.store)
        × (alerts_of other (handle_events w set r body app).1.store ≡ alerts_of other app.store)
  ingest_stays_in_tenant r body other app trimmed foreign no_retention =
      let after =
        (handle_events-kept w set trimmed other (events_of other app.store)
            (alerts_of other app.store) r body foreign).at
          app (record { no_retention = no_retention; same_events = refl; same_alerts = refl }) in
      (after.same_events, after.same_alerts)
