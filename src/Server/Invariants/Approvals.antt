-- ===== src/Server/Invariants/Approvals.antt =====
-- What the approval of actions and the planning of responses keep.
use open_agentic_threat_defe.Domain.{Alert, ResponseAction}
use open_agentic_threat_defe.Go.Exec.Keeps.{Keeps, Keeps-bind, Keeps-pure, keeps_rules}
use open_agentic_threat_defe.Go.Runtime.{Platform}
use open_agentic_threat_defe.Prelude.{
  Bool, List, [], ◌∷◌, Option, String, false, inl, inr, none, some, true, ℕ, ◌⊎◌,
}
use open_agentic_threat_defe.Server.Approval.{
  ApprovalRequest, approve_decoded, approve_named, connector_outcome, dispatch, execute_approved,
  execute_connected, execute_mcp_proxy_action, execute_ticket_action, finish_approval, mcp_outcome,
  record_outcome, recorded_or_own, run_connector, send_kept,
}
use open_agentic_threat_defe.Server.Forward.{send}
use open_agentic_threat_defe.Server.Invariants.{Keeps-forward_mcp_request}
use open_agentic_threat_defe.Server.Planning.{
  execute_tickets, handle_responses, plan_for, post_responses, prepare_actions,
}
use open_agentic_threat_defe.Server.Stable.{
  Keeps-ok_or_500, Keeps-prepare_action, Keeps-clock_now, Keeps-execute_gateway_tool_action,
  Keeps-record_audit, Stable,
}
use open_agentic_threat_defe.Server.State.{
  Answer, App, HttpRequest, Outbound, Settings, World, clock_now, on_store,
}
use open_agentic_threat_defe.Server.Upstream.{Network}
use open_agentic_threat_defe.Store.Operations.{approve_action}

module _ ⦃p : Platform⦄ (w : World) (net : Network) (set : Settings) {P : App → Type 0}
    (st : Stable w set P) (sends : (out : Outbound) → Keeps P (send w out))
    (hands : (name : String) (action : ResponseAction) → Keeps P (dispatch w name action))
    (grants : (id by : String) (now : ℕ)
      → Keeps P (on_store w (λ at written s. approve_action written s id by now))) where
  Keeps-connector_outcome :
      (r : HttpRequest) (action : ResponseAction) (name : String) (failure : Option String)
      → Keeps P (connector_outcome w net set r action name failure)
  unfolding connector_outcome
  Keeps-connector_outcome r action name none = search (keeps_rules, Keeps-record_audit w set st)
  Keeps-connector_outcome r action name (some err) =
      search (keeps_rules, Keeps-record_audit w set st)

  Keeps-run_connector :
      (r : HttpRequest) (action : ResponseAction) (name : Option String)
      → Keeps P (run_connector w net set r action name)
  unfolding run_connector
  Keeps-run_connector r action none = search keeps_rules
  Keeps-run_connector r action (some name) =
      Keeps-bind (dispatch w name action) _ (hands name action)
        (λ failure. Keeps-connector_outcome r action name failure)

  Keeps-recorded_or_own :
      (action : ResponseAction) (outcome : String × String) (now : ℕ)
      (o : Option (ResponseAction ⊎ String))
      → Keeps P (recorded_or_own w net set action outcome now o)
  unfolding recorded_or_own
  Keeps-recorded_or_own action outcome now none = search keeps_rules
  Keeps-recorded_or_own action outcome now (some (inl a)) = search keeps_rules
  Keeps-recorded_or_own action outcome now (some (inr err)) = search keeps_rules

  Keeps-record_outcome :
      (action : ResponseAction) (outcome : String × String)
      → Keeps P (record_outcome w net set action outcome)
  unfolding record_outcome
  Keeps-record_outcome action outcome =
      Keeps-bind (clock_now w) _ (Keeps-clock_now w set st)
        (λ now. search (keeps_rules, st.on_executed, Keeps-recorded_or_own))

  Keeps-mcp_outcome :
      (r : HttpRequest) (action : ResponseAction) (a : Answer ⊎ String)
      → Keeps P (mcp_outcome w net set r action a)
  unfolding mcp_outcome
  Keeps-mcp_outcome r action (inr err) = search (keeps_rules, Keeps-connector_outcome)
  Keeps-mcp_outcome r action (inl a) =
      search (keeps_rules, st.on_shared, Keeps-connector_outcome) depth 12

  Keeps-send_kept :
      (b : Bool) (r : HttpRequest) (action : ResponseAction) (raw url : String)
      → Keeps P (send_kept w net set b r action raw url)
  unfolding send_kept
  Keeps-send_kept false r action raw url = search keeps_rules
  Keeps-send_kept true r action raw url =
      Keeps-bind _ _ (Keeps-forward_mcp_request w net set st sends raw _ url _)
        (λ a. Keeps-mcp_outcome r action a)

  Keeps-execute_mcp_proxy_action :
      (r : HttpRequest) (action : ResponseAction)
      → Keeps P (execute_mcp_proxy_action w net set r action)
  unfolding execute_mcp_proxy_action
  Keeps-execute_mcp_proxy_action r action =
      search (keeps_rules, Keeps-send_kept, Keeps-record_outcome) depth 12

  Keeps-execute_approved :
      (r : HttpRequest) (action : ResponseAction) → Keeps P (execute_approved w net set r action)
  unfolding execute_approved execute_ticket_action execute_connected
  Keeps-execute_approved r action =
      search
        (
          keeps_rules,
          Keeps-run_connector,
          Keeps-record_outcome,
          Keeps-execute_gateway_tool_action w set st,
          Keeps-execute_mcp_proxy_action,
        )
        depth 12

  Keeps-approve_named :
      (r : HttpRequest) (req : ApprovalRequest) → Keeps P (approve_named w net set r req)
  unfolding approve_named finish_approval
  Keeps-approve_named r req = Keeps-bind (clock_now w) _ (Keeps-clock_now w set st) (λ now.
      search (keeps_rules, grants, Keeps-record_audit w set st, Keeps-execute_approved) depth 14)

  -- A request to approve keeps what is stable and broken by neither sending, nor connectors, nor
  -- approvals.
  pub Keeps-approve_decoded :
      (r : HttpRequest) (body : ApprovalRequest ⊎ String)
      → Keeps P (approve_decoded w net set r body)
  unfolding approve_decoded
  Keeps-approve_decoded r body = search (keeps_rules, Keeps-approve_named) depth 12

  Keeps-prepare_actions :
      (tenant : String) (actions : List ResponseAction)
      → Keeps P (prepare_actions w net set tenant actions)
  unfolding prepare_actions
  Keeps-prepare_actions tenant [] = search keeps_rules
  Keeps-prepare_actions tenant (action ∷ actions) =
      Keeps-bind _ _ (Keeps-prepare_action w set st action tenant)
        (λ prepared. Keeps-bind _ _ (Keeps-prepare_actions tenant actions) (λ rest. Keeps-pure _))

  Keeps-execute_ticket_action :
      (r : HttpRequest) (action : ResponseAction)
      → Keeps P (execute_ticket_action w net set r action)
  unfolding execute_ticket_action
  Keeps-execute_ticket_action r action =
      search (keeps_rules, Keeps-run_connector, Keeps-record_outcome) depth 12

  Keeps-execute_tickets :
      (r : HttpRequest) (actions : List ResponseAction)
      → Keeps P (execute_tickets w net set r actions)
  unfolding execute_tickets
  Keeps-execute_tickets r [] = search keeps_rules
  Keeps-execute_tickets r (action ∷ actions) =
      Keeps-bind _ _ (search (keeps_rules, Keeps-execute_ticket_action))
        (λ done. Keeps-bind _ _ (Keeps-execute_tickets r actions) (λ rest. Keeps-pure _))

  Keeps-plan_for :
      (r : HttpRequest) (tenant : String) (alert : Alert)
      → Keeps P (plan_for w net set r tenant alert)
  unfolding plan_for
  Keeps-plan_for r tenant alert =
      search
        (
          keeps_rules,
          Keeps-prepare_actions,
          st.on_actions,
          Keeps-ok_or_500 w set st,
          Keeps-execute_tickets,
          Keeps-record_audit w set st,
        )
        depth 14

  Keeps-post_responses :
      (r : HttpRequest) (body : String ⊎ String) → Keeps P (post_responses w net set r body)
  unfolding post_responses
  Keeps-post_responses r body = search (keeps_rules, Keeps-plan_for) depth 14

  pub Keeps-handle_responses :
      (r : HttpRequest) (body : String ⊎ String) → Keeps P (handle_responses w net set r body)
  unfolding handle_responses
  Keeps-handle_responses r body = search (keeps_rules, Keeps-post_responses) depth 14
