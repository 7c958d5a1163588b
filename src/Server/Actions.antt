-- ===== src/Server/Actions.antt =====
-- server.go: what the handlers do with a request, the alerts and the decision before they answer.
use open_agentic_threat_defe.Go.Exec.{◌>>=◌, ◌>>◌}
use open_agentic_threat_defe.Domain.{
  Alert, Event, ResponseAction, ToolCallDecision, ToolCallRequest,
}
use open_agentic_threat_defe.Go.Exec.{pure, stop, update}
use open_agentic_threat_defe.Go.Maps.{Dict, put, put_if}
use open_agentic_threat_defe.Go.Runtime.{Platform}
use open_agentic_threat_defe.Go.Strings.{elem, join_with, lower, trim_space}
use open_agentic_threat_defe.Policy.Gateway.Gate.{gate_tool_call}
use open_agentic_threat_defe.Policy.Gateway.Score.{severity_text}
use open_agentic_threat_defe.Policy.History.{verdict_text}
use open_agentic_threat_defe.Prelude.{
  List, Option, String, [], if◌then◌else◌, is_empty, nat_eq, none, not, some, ℕ, ◌&&◌, ◌++◌, ◌==◌,
  ◌∷◌,
}
use open_agentic_threat_defe.Response.Planner.{plan}
use open_agentic_threat_defe.Server.State.{
  Handler, Settings, World, clock_now, next_id, on_store, or_500, write_error,
}
use open_agentic_threat_defe.Store.Operations.{add_actions, add_alerts}
use open_agentic_threat_defe.Store.Tenant.{tenant_or_default}

-- mergeStringMaps: entries with an empty key or value are left out.
unfoldable pub merge_string_maps : Dict String → Dict String → Dict String
merge_string_maps dst [] = dst
merge_string_maps dst ((k, v) ∷ src) =
    merge_string_maps (put_if (not (k == "") && not (v == "")) k v dst) src

unfoldable pub decision_action_id : Option ResponseAction → String
decision_action_id none = ""
decision_action_id (some action) = action.id

-- The key under which recommendedActionsForAlerts keeps one action.
abbrev action_key : ResponseAction → String
action_key a = join_with "|" (a.action_type ∷ a.asset_id ∷ a.target ∷ a.reason ∷ [])

-- The loop over the actions: the keys that were seen, the actions so far.
unfoldable pub new_actions : List String → List ResponseAction → List ResponseAction
new_actions seen [] = []
new_actions seen (a ∷ actions) =
    let rest = new_actions seen actions in
    let kept = a ∷ new_actions (action_key a ∷ seen) actions in
    if elem (action_key a) seen then rest else kept

abbrev recommended_of : List Alert → List ResponseAction
recommended_of [] = []
recommended_of (alert ∷ alerts) = alert.recommended_actions ++ recommended_of alerts

-- recommendedActionsForAlerts
unfoldable pub recommended_actions_for_alerts : List Alert → List ResponseAction
unfolding new_actions
recommended_actions_for_alerts alerts = new_actions [] (recommended_of alerts)

module _ ⦃p : Platform⦄ where
  -- The metadata of `gatewayActionFromDecision`.
  unfoldable pub gateway_metadata : ToolCallRequest → ToolCallDecision → String → Dict String
  unfolding merge_string_maps
  gateway_metadata r d tenant =
      let merged = merge_string_maps r.metadata d.metadata in
      let named = put "risk" (severity_text d.risk) (
        put "verdict" (verdict_text d.verdict) (
          put "hostname" r.hostname (
            put "actor" r.actor (
              put "tool" (trim_space (lower r.tool_name))
                (put "request_id" r.id (put "tenant" (tenant_or_default tenant) merged)))))) in
      put_if (not (is_empty r.labels)) "labels" (join_with "," r.labels) (
        put_if (not (r.arguments == "")) "arguments" r.arguments (
          put_if (not (r.command == "")) "command" r.command (
            put_if (not (r.signal == "")) "signal" r.signal
              (put_if (not (r.destination == "")) "destination" r.destination named))))

  -- gatewayActionFromDecision
  unfoldable pub gateway_action_from_decision :
      ToolCallRequest → ToolCallDecision → String → String → String → ResponseAction
  gateway_action_from_decision r d tenant approval_status execution_status = record {
    id = "";
    action_type = "gateway_tool_call";
    mode = "inline";
    asset_id = r.asset_id;
    tenant = tenant_or_default tenant;
    target = r.tool_name;
    reason = d.reason;
    created_at = 0;
    approval_status = approval_status;
    approved_by = "";
    approved_at = none;
    execution_status = execution_status;
    executed_at = none;
    execution_error = "";
    metadata = gateway_metadata r d tenant;
  }

module _ ⦃p : Platform⦄ (w : World) (set : Settings) where
  -- The id that is there, or a new one; the time that is there, or the clock's.
  abbrev pub id_or_new : String → String → Handler String
  id_or_new prefix id = if id == "" then next_id w set prefix else pure id

  abbrev pub time_or_now : ℕ → Handler ℕ
  time_or_now at = if nat_eq at 0 then clock_now w else pure at

  unfoldable pub prepare_tool_call_request : ToolCallRequest → Handler ToolCallRequest
  prepare_tool_call_request r = do
    id ← id_or_new "gw" r.id
    at ← time_or_now r.timestamp
    pure (record r { id = id; timestamp = at })

  unfoldable pub prepare_event : String → Event → Handler Event
  prepare_event tenant event = do
    id ← id_or_new "evt" event.id
    at ← time_or_now event.timestamp
    pure (record event { tenant = tenant_or_default tenant; id = id; timestamp = at })

  -- An alert after prepareAlerts, but for its status: it has one, since there are two.
  abbrev prepared_alert : String → ℕ → String → Alert → Alert
  prepared_alert tenant now id alert =
      let named : Alert = record alert {
        tenant = tenant;
        id = id;
        created_at = if nat_eq alert.created_at 0 then now else alert.created_at;
      } in
      record named { recommended_actions = plan set.planner_mode named }

  unfoldable pub prepare_each : String → ℕ → List Alert → Handler (List Alert)
  prepare_each tenant now [] = pure []
  prepare_each tenant now (alert ∷ alerts) = do
    id ← id_or_new "alrt" alert.id
    rest ← prepare_each tenant now alerts
    pure (prepared_alert tenant now id alert ∷ rest)

  -- prepareAlerts
  unfoldable pub prepare_alerts : List Alert → String → Handler (List Alert)
  unfolding prepare_each
  prepare_alerts alerts tenant = do
    now ← clock_now w
    prepare_each (tenant_or_default tenant) now alerts

  unfoldable pub prepare_action : ResponseAction → String → Handler ResponseAction
  prepare_action action tenant = do
    id ← id_or_new "act" action.id
    at ← time_or_now action.created_at
    pure (record action { tenant = tenant_or_default tenant; id = id; created_at = at })

  unfoldable pub ok_or_500 : Option String → Handler (Unit {0})
  ok_or_500 none = pure tt
  ok_or_500 (some err) = stop (write_error 500 err)

  -- addActionsForTenant for one action, whose error ends the handler.
  unfoldable pub add_action : ResponseAction → Handler (Unit {0})
  unfolding ok_or_500
  add_action action = do
    err ← on_store w (λ at written s. add_actions at written s (action ∷ []))
    ok_or_500 err

  -- prepareAction and addActionsForTenant
  unfoldable pub keep_action : ResponseAction → String → Handler ResponseAction
  unfolding prepare_action add_action
  keep_action action tenant = do
    prepared ← prepare_action action tenant
    add_action prepared
    pure prepared

  -- GateToolCall on the application's engine.
  unfoldable pub gate : ToolCallRequest → Handler ToolCallDecision
  gate r = do
    now ← clock_now w
    seen ← clock_now w
    update (λ app.
        let (engine, d) = gate_tool_call set.limits app.engine r now seen in
        (record app { engine = engine }, d))

  -- What the four handlers of tool calls have in common: the call is decided on, its alerts are
  -- prepared and stored, and the decision carries those that are new.
  unfoldable pub decide_call : ToolCallRequest → String → Handler ToolCallDecision
  unfolding gate prepare_alerts
  decide_call r tenant = do
    d ← gate r
    alerts ← prepare_alerts d.alerts tenant
    stored ← on_store w (λ at written s. add_alerts at written s alerts)
    added ← or_500 stored
    pure (record d { alerts = added; recommended_actions = recommended_actions_for_alerts added })
