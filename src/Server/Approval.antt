-- ===== src/Server/Approval.antt =====
-- server.go: the handler of /api/responses/approve, and how approved actions are executed.
use open_agentic_threat_defe.Go.Exec.{◌>>=◌, ◌>>◌}
use open_agentic_threat_defe.Auth.Roles.{Principal}
use open_agentic_threat_defe.Domain.{ResponseAction}
use open_agentic_threat_defe.Go.Exec.{or_stop, pure, stop}
use open_agentic_threat_defe.Go.Maps.{lookup, put}
use open_agentic_threat_defe.Go.Runtime.{Platform}
use open_agentic_threat_defe.Go.Strings.{contains, itoa, trim_space}
use open_agentic_threat_defe.Prelude.{
  Bool, List, Option, String, [], false, get_or, if◌then◌else◌, inl, inr, none, not, some, true, ℕ,
  ◌+◌, ◌==◌, ◌∷◌, ◌⊎◌,
}
use open_agentic_threat_defe.Server.Forward.{forward_mcp_request}
use open_agentic_threat_defe.Server.Gateway.{execute_gateway_tool_action, shared}
use open_agentic_threat_defe.Server.State.{
  Answer, Handler, HttpRequest, Reply, Settings, World, clock_now, on_store, gated_post, plain,
  record_audit, write_error,
}
use open_agentic_threat_defe.Server.Tenancy.{tenant_for_principal}
use open_agentic_threat_defe.Server.Upstream.{Network}
use open_agentic_threat_defe.Store.Operations.{approve_action, record_action_execution}
use open_agentic_threat_defe.Store.Tenant.{same_tenant}

pub record ApprovalRequest : Type 0 where
  pub action_id : String
  pub approved_by : String

module _ (w : World) where
  -- An action is handed to a connector.
  unfoldable pub dispatch : String → ResponseAction → Handler (Option String)
  dispatch name action app = (
    inl (w.deliver app.ticks name action),
    record app { dispatched = (name, action) ∷ app.dispatched; ticks = app.ticks + 1 },
  )

-- The status and the error that an execution is recorded with.
abbrev Outcome : Type 0
Outcome = String × String

module _ ⦃p : Platform⦄ (w : World) (net : Network) (set : Settings) where
  -- The record of what a connector did.
  unfoldable pub connector_outcome :
      HttpRequest → ResponseAction → String → Option String → Handler Outcome
  connector_outcome r action name (some err) = do
    record_audit w set r r.principal "responses.execute" "response_action" action.id "failed"
        (("error", err) ∷ ("connector", name) ∷ [])
    pure ("failed", err)
  connector_outcome r action name none = do
    record_audit w set r r.principal "responses.execute" "response_action" action.id "accepted"
        (("connector", name) ∷ [])
    pure ("sent", "")

  -- Through the connector, where there is one.
  unfoldable pub run_connector : HttpRequest → ResponseAction → Option String → Handler Outcome
  unfolding connector_outcome dispatch
  run_connector r action none = pure ("not_configured", "")
  run_connector r action (some name) = do
    failure ← dispatch w name action
    connector_outcome r action name failure

  -- What follows RecordActionExecution: the stored action, or the given one with the outcome.
  unfoldable pub recorded_or_own :
      ResponseAction → Outcome → ℕ → Option (ResponseAction ⊎ String) → Handler ResponseAction
  recorded_or_own action outcome now (some (inl recorded)) = pure recorded
  recorded_or_own action outcome now (some (inr err)) = stop (write_error 500 err)
  recorded_or_own action outcome now none = pure (record action {
    execution_status = outcome.0;
    execution_error = outcome.1;
    executed_at = some now;
  })

  -- The end of the three ways to execute: the outcome is recorded.
  unfoldable pub record_outcome : ResponseAction → Outcome → Handler ResponseAction
  unfolding recorded_or_own
  record_outcome action outcome = do
    now ← clock_now w
    answer ←
        on_store w
          (λ at written s. record_action_execution written s action.id now outcome.0 outcome.1)
    recorded_or_own action outcome now answer

  -- executeTicketAction: the first connector that is enabled
  unfoldable pub execute_ticket_action : HttpRequest → ResponseAction → Handler ResponseAction
  unfolding run_connector record_outcome
  execute_ticket_action r action = do
    outcome ← run_connector r action (first_of set.ticket_connectors)
    record_outcome action outcome
    where
      first_of : List String → Option String
      first_of [] = none
      first_of (x ∷ xs) = some x

  -- The request that an action of the MCP proxy kept.
  abbrev metadata_text_of : ResponseAction → String → String
  metadata_text_of action key = trim_space (get_or (lookup key action.metadata) "")

  unfoldable pub kept_request : ResponseAction → String ⊎ String
  kept_request action =
      let raw = metadata_text_of action "mcp_raw_request" in
      if raw == "" then inr "missing mcp raw request" else elim (p.base64_raw_url raw) [
        | none ↦ inr "decode mcp raw request"
        | some text ↦ inl text
      ]

  -- The upstream of the action, or the configured one.
  unfoldable pub kept_upstream : ResponseAction → String ⊎ String
  kept_upstream action =
      let own = metadata_text_of action "mcp_upstream_url" in
      let url = if own == "" then trim_space set.mcp_upstream_url else own in
      if url == "" then inr "MCP upstream is not configured" else inl url

  abbrev kept_method : ResponseAction → String
  kept_method action =
      let method = metadata_text_of action "mcp_method" in
      if method == "" then "tools/call" else method

  -- What comes of the answer: the action with its new metadata, and the outcome.
  unfoldable pub mcp_outcome :
      HttpRequest → ResponseAction → Answer ⊎ String → Handler (ResponseAction × Outcome)
  unfolding connector_outcome
  mcp_outcome r action (inr err) = do
    outcome ← connector_outcome r action "mcp_proxy" (some err)
    pure (action, outcome)
  mcp_outcome r action (inl answer) = do
    let metadata =
        put "mcp_response_body" answer.body
          (put "mcp_response_status" (itoa answer.status) action.metadata)
    on_store w (λ at written s. shared true action.id metadata s)
    outcome ← connector_outcome r action "mcp_proxy" none
    pure (record action { metadata = metadata }, outcome)

  -- Only an action that is approved is sent.
  unfoldable pub send_kept :
      Bool → HttpRequest → ResponseAction → String → String → Handler (ResponseAction × Outcome)
  unfolding mcp_outcome
  send_kept false r action raw url = pure (action, ("not_configured", ""))
  send_kept true r action raw url = do
    answer ←
        forward_mcp_request w net raw (kept_method action) url (trim_space set.mcp_upstream_token)
    mcp_outcome r action answer

  -- executeMCPProxyAction, whose errors end the handler with status 500
  unfoldable pub execute_mcp_proxy_action : HttpRequest → ResponseAction → Handler ResponseAction
  unfolding kept_request kept_upstream send_kept record_outcome
  execute_mcp_proxy_action r action0 = do
    raw ← or_stop (kept_request action0) (write_error 500)
    url ← or_stop (kept_upstream action0) (write_error 500)
    (action, outcome) ← send_kept (action0.approval_status == "approved") r action0 raw url
    record_outcome action outcome

  unfoldable pub execute_connected : HttpRequest → ResponseAction → Handler ResponseAction
  unfolding run_connector record_outcome
  execute_connected r action = do
    outcome ← run_connector r action set.response_connector
    record_outcome action outcome

  -- executeResponseAction, and executeTicketAction for the actions that are tickets
  unfoldable pub execute_approved : HttpRequest → ResponseAction → Handler ResponseAction
  unfolding execute_ticket_action execute_mcp_proxy_action execute_connected
  execute_approved r action =
      if action.action_type == "create_incident_ticket"
      then execute_ticket_action r action
      else if action.action_type == "gateway_tool_call"
      then (do
        (executed, result) ← execute_gateway_tool_action w set r true action "proceeded"
        pure executed)
      else if action.action_type == "mcp_proxy"
      then execute_mcp_proxy_action r action
      else execute_connected r action

  abbrev not_found : Reply
  not_found = write_error 404 "action not found"

  -- The action that ApproveAction hands out, or how its failure is answered.
  unfoldable pub approved_or_reply : Option (ResponseAction ⊎ String) → ResponseAction ⊎ Reply
  approved_or_reply none = inr not_found
  approved_or_reply (some (inl action)) = inl action
  approved_or_reply (some (inr err)) = inr (
      write_error (if contains err "blocked gateway actions cannot be approved" then 409 else 500)
        err)

  -- What follows the approval: an action of another tenant is not shown, nor executed.
  unfoldable pub finish_approval : HttpRequest → String → ResponseAction → Handler Reply
  unfolding execute_approved
  finish_approval r approved_by action =
      if not (same_tenant action.tenant (tenant_for_principal r.principal))
      then stop not_found
      else (do
        let who : Principal = record r.principal {
          name = if r.principal.name == "" then approved_by else r.principal.name;
        }
        record_audit w set r who "responses.approve" "response_action" action.id "accepted" (
            ("approved_by", approved_by)
            ∷ ("asset_id", action.asset_id)
            ∷ ("action_type", action.action_type)
            ∷ [])
        executed ← execute_approved (record r { principal = who }) action
        pure (record (plain 202) { action = some executed }))

  -- The body of a request, which must name an action.
  unfoldable pub named_approval : ApprovalRequest ⊎ String → ApprovalRequest ⊎ Reply
  named_approval (inr err) = inr (write_error 400 err)
  named_approval (inl req) =
      if req.action_id == ""
      then inr (write_error 400 "action_id is required")
      else inl (record req {
        approved_by = if req.approved_by == "" then "operator" else req.approved_by;
      })

  -- The approval of a named action.
  unfoldable pub approve_named : HttpRequest → ApprovalRequest → Handler Reply
  unfolding approved_or_reply finish_approval
  approve_named r req = do
    now ← clock_now w
    answer ← on_store w (λ at written s. approve_action written s req.action_id req.approved_by now)
    action ← or_stop (approved_or_reply answer) (λ reply. reply)
    finish_approval r req.approved_by action

  -- A request that the limiter let through.
  unfoldable pub approve_decoded : HttpRequest → ApprovalRequest ⊎ String → Handler Reply
  unfolding named_approval approve_named
  approve_decoded r body = do
    req ← or_stop (named_approval body) (λ reply. reply)
    approve_named r req

  -- handleResponseApproval
  unfoldable pub handle_response_approval : HttpRequest → ApprovalRequest ⊎ String → Handler Reply
  unfolding approve_decoded gated_post
  handle_response_approval r body = gated_post r (approve_decoded r body)
