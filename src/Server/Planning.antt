-- ===== src/Server/Planning.antt =====
-- server.go: the handler of /api/responses, which plans the responses to an alert.
use open_agentic_threat_defe.Domain.{Alert, ResponseAction}
use open_agentic_threat_defe.Go.Exec.{gets, or_stop, pure, stop, ◌>>=◌, ◌>>◌}
use open_agentic_threat_defe.Go.Runtime.{Platform}
use open_agentic_threat_defe.Go.Strings.{itoa}
use open_agentic_threat_defe.Prelude.{
  List, Option, String, [], if◌then◌else◌, inl, inr, length, none, some, ◌==◌, ◌∷◌, ◌⊎◌,
}
use open_agentic_threat_defe.Response.Planner.{plan}
use open_agentic_threat_defe.Server.Actions.{ok_or_500, prepare_action}
use open_agentic_threat_defe.Server.Approval.{execute_ticket_action}
use open_agentic_threat_defe.Server.State.{
  App, Handler, HttpRequest, Reply, Settings, World, method_not_allowed, on_store, record_audit,
  write_error,
}
use open_agentic_threat_defe.Server.Tenancy.{tenant_for_principal}
use open_agentic_threat_defe.Server.Upstream.{Network}
use open_agentic_threat_defe.Store.Operations.{
  add_actions, get_alert_for_tenant, list_actions_for_tenant,
}

-- The actions, listed or planned, with the status that they are written with.
pub data ActionsReply : Type 0 where
  actions_listed actions_planned : List ResponseAction → ActionsReply

-- The alert, or the reply where there is none.
unfoldable pub found_alert : Option Alert → Alert ⊎ Reply
found_alert none = inr (write_error 404 "alert not found")
found_alert (some alert) = inl alert

module _ ⦃p : Platform⦄ (w : World) (net : Network) (set : Settings) where
  -- The loop that prepares the actions.
  unfoldable pub prepare_actions : String → List ResponseAction → Handler (List ResponseAction)
  prepare_actions tenant [] = pure []
  prepare_actions tenant (action ∷ actions) = do
    prepared ← prepare_action w set action tenant
    rest ← prepare_actions tenant actions
    pure (prepared ∷ rest)

  -- The loop that executes those that are tickets.
  unfoldable pub execute_tickets : HttpRequest → List ResponseAction → Handler (List ResponseAction)
  execute_tickets r [] = pure []
  execute_tickets r (action ∷ actions) = do
    done ←
        if action.action_type == "create_incident_ticket"
        then execute_ticket_action w net set r action
        else pure action
    rest ← execute_tickets r actions
    pure (done ∷ rest)

  -- What follows once the alert is found.
  unfoldable pub plan_for : HttpRequest → String → Alert → Handler ActionsReply
  unfolding prepare_actions execute_tickets
  plan_for r tenant alert = do
    actions ← prepare_actions tenant (plan set.planner_mode alert)
    err ← on_store w (λ at written s. add_actions at written s actions)
    ok_or_500 w set err
    executed ← execute_tickets r actions
    record_audit w set r r.principal "responses.plan" "alert" alert.id "accepted"
        (("actions", itoa (length executed)) ∷ [])
    pure (actions_planned executed)

  -- A POST: the body is the alert's id, or the error of decoding it.
  unfoldable pub post_responses : HttpRequest → String ⊎ String → Handler ActionsReply
  unfolding found_alert plan_for
  post_responses r body = do
    let tenant = tenant_for_principal r.principal
    id ← or_stop body (write_error 400)
    if id == "" then stop (write_error 400 "alert_id is required") else (do
      sought ← gets (λ (app : App). get_alert_for_tenant app.store id tenant)
      alert ← or_stop (found_alert sought) (λ reply. reply)
      plan_for r tenant alert)

  unfoldable pub handle_responses : HttpRequest → String ⊎ String → Handler ActionsReply
  unfolding post_responses
  handle_responses r body =
      if r.method == "GET"
      then gets (λ (app : App).
        actions_listed (list_actions_for_tenant app.store (tenant_for_principal r.principal)))
      else if r.method == "POST"
      then post_responses r body
      else stop method_not_allowed
