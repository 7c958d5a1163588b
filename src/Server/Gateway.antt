-- ===== src/Server/Gateway.antt =====
-- server.go: the handlers of /api/gateway/decide and /api/gateway/execute. Not here: the samples of
-- the latency, and the export of alerts to a webhook, which no reply depends on.
use Prim.Native.String.{◌++◌ as cat}
use open_agentic_threat_defe.Go.Exec.{◌>>=◌, ◌>>◌}
use open_agentic_threat_defe.Domain.{
  GatewayVerdict, ResponseAction, ToolCallDecision, ToolCallRequest, allow, deny, require_approval,
  unset,
}
use open_agentic_threat_defe.Go.Exec.{or_stop, pure, stop}
use open_agentic_threat_defe.Go.Maps.{Dict, lookup, put, put_if}
use open_agentic_threat_defe.Go.Runtime.{Platform}
use open_agentic_threat_defe.Go.Strings.{or_text, itoa, lower, trim_space}
use open_agentic_threat_defe.Policy.Gateway.Score.{severity_text}
use open_agentic_threat_defe.Policy.History.{verdict_text}
use open_agentic_threat_defe.Prelude.{
  Bool, List, Option, String, [], false, get_or, if◌then◌else◌, inl, inr, is_empty, length, none,
  not, some, ℕ, ◌==◌, ◌∷◌, ◌⊎◌,
}
use open_agentic_threat_defe.Server.Actions.{
  decide_call, decision_action_id, gateway_action_from_decision, keep_action, prepare_action,
  prepare_tool_call_request,
}
use open_agentic_threat_defe.Server.State.{
  Handler, HttpRequest, Reply, Settings, World, clock_now, on_store, plain, gated_post,
  record_audit, write_error,
}
use open_agentic_threat_defe.Server.Tenancy.{tenant_for_principal}
use open_agentic_threat_defe.Store.Operations.{add_actions, record_action_execution}
use open_agentic_threat_defe.Store.State.{Store}

module _ ⦃p : Platform⦄ where
  -- runGatewayStubTool, which never fails
  unfoldable pub run_gateway_stub_tool : ResponseAction → String
  run_gateway_stub_tool action =
      let tool = lower (trim_space action.target) in
      let asset = trim_space action.asset_id in
      if tool == "asset_inventory"
      then cat "inventory completed for " (or_text asset "unknown")
      else if tool == "ticket_create"
      then cat "ticket stub created for " (or_text asset "unknown")
      else if tool == "policy_read"
      then "policy manifest returned"
      else if tool == "siem_search"
      then cat "search completed for " (or_text asset "all-assets")
      else cat "tool " (cat tool " executed")

  -- The action that `executeGatewayToolAction` makes of one, before it is recorded.
  unfoldable pub executed_action : ResponseAction → String → ℕ → ResponseAction
  unfolding run_gateway_stub_tool
  executed_action action status now =
      let result = run_gateway_stub_tool action in
      record action {
        approval_status = if status == "proceeded" then "approved" else action.approval_status;
        execution_status = status;
        execution_error = "";
        executed_at = some now;
        metadata = put_if (not (result == "")) "gateway_result" result (
            put "gateway_executed_at" (p.rfc3339 now)
              (put "gateway_execution" status action.metadata));
      }

-- An action that the store handed out shares its metadata map with the stored one: what is written
-- into the map is in the store too.
unfoldable pub share_metadata : String → Dict String → List ResponseAction → List ResponseAction
share_metadata id metadata [] = []
share_metadata id metadata (a ∷ actions) =
    let rest = share_metadata id metadata actions in
    if a.id == id
    then (if is_empty a.metadata then a ∷ actions else record a { metadata = metadata } ∷ actions)
    else a ∷ rest

abbrev pub shared : Bool → String → Dict String → Store → Store × Unit {0}
shared b id metadata s =
    (if b then record s { actions = share_metadata id metadata s.actions } else s, tt)

module _ ⦃p : Platform⦄ (w : World) (set : Settings) where
  -- What follows RecordActionExecution: the stored action, or the given one, which is added.
  unfoldable pub recorded_or_added :
      ResponseAction → Option (ResponseAction ⊎ String) → Handler ResponseAction
  recorded_or_added action (some (inl recorded)) = pure recorded
  recorded_or_added action (some (inr err)) = stop (write_error 500 err)
  recorded_or_added action none = do
    err ← on_store w (λ at written s. add_actions at written s (action ∷ []))
    pure action

  abbrev metadata_of : ResponseAction → String → String
  metadata_of action key = get_or (lookup key action.metadata) ""

  -- executeGatewayToolAction: `stored` says that the action is the store's. Its error ends the
  -- handlers that call it with status 500.
  unfoldable pub execute_gateway_tool_action :
      HttpRequest → Bool → ResponseAction → String → Handler (ResponseAction × String)
  unfolding executed_action share_metadata recorded_or_added
  execute_gateway_tool_action r stored action0 status = do
    now ← clock_now w
    let action = executed_action action0 status now
    let result = run_gateway_stub_tool action0
    on_store w (λ at written s. shared stored action.id action.metadata s)
    answer ← on_store w (λ at written s.
        record_action_execution written s action.id now action.execution_status
          action.execution_error)
    kept ← recorded_or_added action answer
    record_audit w set r r.principal "gateway.execute" "response_action" kept.id "accepted" (
        ("tool", kept.target)
        ∷ ("asset_id", kept.asset_id)
        ∷ ("request_id", metadata_of kept "request_id")
        ∷ ("verdict", metadata_of kept "verdict")
        ∷ ("execution", kept.execution_status)
        ∷ [])
    pure (kept, result)

  -- The record of a call that was decided.
  abbrev audit_call :
      HttpRequest
      → String
      → ToolCallRequest
      → ToolCallDecision
      → String
      → String
      → Handler (Unit {0})
  audit_call r name req d outcome action_id =
      record_audit w set r r.principal name "tool_call" d.request_id outcome (
        ("tool", d.tool_name)
        ∷ ("asset_id", req.asset_id)
        ∷ ("hostname", req.hostname)
        ∷ ("risk", severity_text d.risk)
        ∷ ("alerts", itoa (length d.alerts))
        ∷ ("reason", d.reason)
        ∷ ("destination", req.destination)
        ∷ ("action_id", action_id)
        ∷ [])

  -- The switch of handleGatewayDecision.
  unfoldable pub settle_decision :
      GatewayVerdict → ToolCallRequest → ToolCallDecision → String → Handler ToolCallDecision
  settle_decision require_approval req d tenant = do
    action ← keep_action w set (gateway_action_from_decision req d tenant "required" "") tenant
    pure (record d { action = some action })
  settle_decision deny req d tenant = do
    action ←
        keep_action w set (gateway_action_from_decision req d tenant "not_required" "blocked")
          tenant
    pure (record d { action = some action })
  settle_decision allow req d tenant = pure d
  settle_decision unset req d tenant = pure d

  -- A call that the limiter let through: `body` is the decoded body, or the error of decoding it.
  unfoldable pub decide_decoded : HttpRequest → ToolCallRequest ⊎ String → Handler Reply
  unfolding settle_decision
  decide_decoded r body = do
    req0 ← or_stop body (write_error 400)
    req1 ← prepare_tool_call_request w set req0
    let tenant = tenant_for_principal r.principal
    let req : ToolCallRequest = record req1 { tenant = tenant }
    d0 ← decide_call w set req tenant
    d ← settle_decision d0.verdict req d0 tenant
    audit_call r "gateway.decide" req d (verdict_text d.verdict) (decision_action_id d.action)
    pure (record (plain 202) { decision = some d })

  -- handleGatewayDecision
  unfoldable pub handle_gateway_decision : HttpRequest → ToolCallRequest ⊎ String → Handler Reply
  unfolding decide_decoded gated_post
  handle_gateway_decision r body = gated_post r (decide_decoded r body)

  -- The switch of handleGatewayExecute.
  unfoldable pub settle_execution :
      GatewayVerdict → HttpRequest → ToolCallRequest → ToolCallDecision → String → Handler Reply
  unfolding execute_gateway_tool_action
  settle_execution allow r req d tenant = do
    action ←
        prepare_action w set (gateway_action_from_decision req d tenant "not_required" "executed")
          tenant
    (executed, result) ← execute_gateway_tool_action r false action "executed"
    audit_call r "gateway.execute" req d "executed" executed.id
    pure (record (plain 200) {
      decision = some d;
      action = some executed;
      result_status = executed.execution_status;
      body = result;
    })
  settle_execution require_approval r req d tenant = do
    action ← keep_action w set (gateway_action_from_decision req d tenant "required" "") tenant
    audit_call r "gateway.execute" req d "pending_approval" action.id
    pure (record (plain 202) {
      decision = some d;
      action = some action;
      result_status = "pending_approval";
    })
  settle_execution deny r req d tenant = do
    action ←
        keep_action w set (gateway_action_from_decision req d tenant "not_required" "blocked")
          tenant
    audit_call r "gateway.execute" req d "blocked" action.id
    pure (record (plain 403) { decision = some d; action = some action; result_status = "blocked" })
  settle_execution unset r req d tenant = stop (write_error 500 "unknown gateway verdict")

  -- A call that the limiter let through.
  unfoldable pub execute_decoded : HttpRequest → ToolCallRequest ⊎ String → Handler Reply
  unfolding settle_execution
  execute_decoded r body = do
    req0 ← or_stop body (write_error 400)
    req1 ← prepare_tool_call_request w set req0
    let tenant = tenant_for_principal r.principal
    let req : ToolCallRequest = record req1 { tenant = tenant }
    d ← decide_call w set req tenant
    settle_execution d.verdict r req d tenant

  -- handleGatewayExecute
  unfoldable pub handle_gateway_execute : HttpRequest → ToolCallRequest ⊎ String → Handler Reply
  unfolding execute_decoded gated_post
  handle_gateway_execute r body = gated_post r (execute_decoded r body)
