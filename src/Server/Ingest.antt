-- ===== src/Server/Ingest.antt =====
-- server.go: the handler of /api/events, which stores events and raises their alerts. Not here: the
-- export of alerts to a webhook, which no reply depends on.
use open_agentic_threat_defe.Correlation.Correlator.{correlate}
use open_agentic_threat_defe.Domain.{Alert, Event}
use open_agentic_threat_defe.Go.Exec.{gets, or_stop, pure, stop, ◌>>=◌, ◌>>◌}
use open_agentic_threat_defe.Go.Runtime.{Platform}
use open_agentic_threat_defe.Go.Strings.{itoa}
use open_agentic_threat_defe.Policy.Rules.{evaluate}
use open_agentic_threat_defe.Prelude.{
  List, String, [], if◌then◌else◌, length, take, ℕ, ◌++◌, ◌==◌, ◌∷◌, ◌⊎◌,
}
use open_agentic_threat_defe.Server.Actions.{ok_or_500, prepare_alerts, prepare_event}
use open_agentic_threat_defe.Server.State.{
  App, Handler, HttpRequest, Settings, World, clock_now, method_not_allowed, on_store, or_500,
  record_audit, write_error,
}
use open_agentic_threat_defe.Server.Tenancy.{tenant_for_principal}
use open_agentic_threat_defe.Store.Operations.{add_alerts, add_event, list_events_for_tenant}
use open_agentic_threat_defe.Store.Tenant.{tenant_or_default}

abbrev max_correlation_events : ℕ
max_correlation_events = 5000

-- What the handler writes where it does not fail: the listed events, or the number of events that
-- came in and the alerts that are new.
pub data EventsReply : Type 0 where
  events_listed : List Event → EventsReply
  events_accepted : ℕ → List Alert → EventsReply

module _ ⦃p : Platform⦄ (w : World) (set : Settings) where
  -- prepareEvent and addEventsForTenant
  unfoldable pub keep_event : String → Event → Handler Event
  keep_event tenant event = do
    prepared ← prepare_event w set tenant event
    err ← on_store w (λ at written s. add_event at written s prepared)
    ok_or_500 w set err
    pure prepared

  -- The loop of ingest over the events: the alerts that they raise.
  unfoldable pub ingest_each : String → List Event → Handler (List Alert)
  unfolding keep_event
  ingest_each tenant [] = pure []
  ingest_each tenant (event ∷ events) = do
    kept ← keep_event tenant event
    raised ← gets (λ (app : App). evaluate app.engine kept)
    rest ← ingest_each tenant events
    pure (raised ++ rest)

  -- The correlator on the most recent events of a tenant.
  unfoldable pub correlate_tenant : String → Handler (List Alert)
  correlate_tenant tenant = do
    recent ←
        gets (λ (app : App). take max_correlation_events (list_events_for_tenant app.store tenant))
    now ← clock_now w
    pure (correlate set.correlation_window now recent)

  unfoldable pub ingest : List Event → String → Handler (List Alert)
  unfolding ingest_each correlate_tenant
  ingest events given = do
    let tenant = tenant_or_default given
    raised ← ingest_each tenant events
    correlated ← correlate_tenant tenant
    alerts ← prepare_alerts w set (raised ++ correlated) tenant
    stored ← on_store w (λ at written s. add_alerts at written s alerts)
    or_500 stored

  -- A POST whose body was decoded, or not.
  unfoldable pub post_events : HttpRequest → List Event ⊎ String → Handler EventsReply
  unfolding ingest
  post_events r body = do
    events ← or_stop body (write_error 400)
    alerts ← ingest events (tenant_for_principal r.principal)
    record_audit w set r r.principal "events.ingest" "events" "" "accepted"
        (("events", itoa (length events)) ∷ ("alerts", itoa (length alerts)) ∷ [])
    pure (events_accepted (length events) alerts)

  unfoldable pub handle_events : HttpRequest → List Event ⊎ String → Handler EventsReply
  unfolding post_events
  handle_events r body =
      if r.method == "GET"
      then gets (λ (app : App).
        events_listed (list_events_for_tenant app.store (tenant_for_principal r.principal)))
      else if r.method == "POST"
      then post_events r body
      else stop method_not_allowed
