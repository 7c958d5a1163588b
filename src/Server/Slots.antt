-- ===== src/Server/Slots.antt =====
-- No request of a run is refused for want of room in the limiter.
use mathlib.Core.Path.{ap₂}
use open_agentic_threat_defe.Domain.{ResponseAction, ToolCallRequest}
use open_agentic_threat_defe.Go.Exec.Keeps.{Keeps}
use open_agentic_threat_defe.Go.Runtime.{Platform}
use open_agentic_threat_defe.Prelude.{Option, String, ltb, none, refl, some, true, ℕ, ◌∙◌, ◌≡◌}
use open_agentic_threat_defe.Server.Approval.{dispatch, handle_response_approval}
use open_agentic_threat_defe.Server.Forward.{send}
use open_agentic_threat_defe.Server.Gateway.{handle_gateway_decision, handle_gateway_execute}
use open_agentic_threat_defe.Server.Invariants.{
  Keeps-decide_decoded, Keeps-execute_decoded, Keeps-proxy_body, Keeps-serve_mcp,
}
use open_agentic_threat_defe.Server.Invariants.Approvals.{
  Keeps-approve_decoded, Keeps-handle_responses,
}
use open_agentic_threat_defe.Server.Invariants.Ingests.{
  Keeps-handle_deception_tokens, Keeps-handle_events, Keeps-handle_tenant_policies,
}
use open_agentic_threat_defe.Server.Limiter.{Holds, gated_post-Holds, has_room}
use open_agentic_threat_defe.Server.Mcp.{McpCodec, handle_mcp_proxy}
use open_agentic_threat_defe.Server.Proxy.{handle_gateway_proxy}
use open_agentic_threat_defe.Server.Runs.{
  Call, Reaches, at_start, serve, then_call, to_approve, to_canaries, to_decide, to_execute,
  to_ingest, to_mcp, to_overlays, to_plan, to_proxy,
}
use open_agentic_threat_defe.Server.Stable.{Stable}
use open_agentic_threat_defe.Server.State.{App, Outbound, Settings, World, on_store}
use open_agentic_threat_defe.Server.Upstream.{Network}
use open_agentic_threat_defe.Store.Operations.{approve_action}

module _ ⦃p : Platform⦄ (w : World) (set : Settings) (limit : Option ℕ) (held refused : ℕ) where
  Holds-Stable : Stable w set (Holds limit held refused)
  unfolding on_store
  Holds-Stable = record {
    recorded = record {
      on_tick = λ app h. h;
      on_count = λ app h. h;
      on_audit = λ event. record { at = λ app h. h };
    };
    on_gate = λ app r now seen h. h;
    on_alerts = λ alerts. record { at = λ app h. h };
    on_actions = λ actions. record { at = λ app h. h };
    on_executed = λ id status err now. record { at = λ app h. h };
    on_event = λ event. record { at = λ app h. h };
    on_configured = λ app e same h. h;
    on_shared = λ b id metadata. record { at = λ app h. h };
  }

  send-Holds : (out : Outbound) → Keeps (Holds limit held refused) (send w out)
  unfolding send
  send-Holds out = record { at = λ app h. h }

  dispatch-Holds :
      (name : String) (action : ResponseAction)
      → Keeps (Holds limit held refused) (dispatch w name action)
  unfolding dispatch
  dispatch-Holds name action = record { at = λ app h. h }

  grant-Holds :
      (id by : String) (now : ℕ)
      → Keeps
          (Holds limit held refused)
          (on_store w (λ at written s. approve_action written s id by now))
  unfolding on_store
  grant-Holds id by now = record { at = λ app h. h }

module _ ⦃p : Platform⦄ (w : World) (net : Network) (set : Settings) (codec : McpCodec)
    (encode : ToolCallRequest → String) where
  serve-Holds :
      (c : Call) (app : App)
      → has_room app ≡ true
      → Holds app.gateway_limit app.in_flight app.gateway_rejected
          (serve w net set codec encode c app)
  unfolding serve handle_gateway_decision handle_gateway_execute handle_gateway_proxy
      handle_mcp_proxy handle_response_approval
  serve-Holds (to_decide r body) app room =
      gated_post-Holds r _ (λ l n k. Keeps-decide_decoded w set (Holds-Stable w set l n k) r body)
        app room
  serve-Holds (to_execute r body) app room =
      gated_post-Holds r _ (λ l n k. Keeps-execute_decoded w set (Holds-Stable w set l n k) r body)
        app room
  serve-Holds (to_proxy r body) app room =
      gated_post-Holds r _
        (λ l n k.
          Keeps-proxy_body w net set (Holds-Stable w set l n k) (send-Holds w set l n k) encode r
            body)
        app room
  serve-Holds (to_mcp r body) app room =
      gated_post-Holds r _
        (λ l n k.
          Keeps-serve_mcp w net set (Holds-Stable w set l n k) (send-Holds w set l n k) codec r
            body)
        app room
  serve-Holds (to_approve r body) app room =
      gated_post-Holds r _
        (λ l n k.
          Keeps-approve_decoded w net set (Holds-Stable w set l n k) (send-Holds w set l n k)
            (dispatch-Holds w set l n k) (grant-Holds w set l n k) r body)
        app room
  serve-Holds (to_ingest r body) app room =
      (Keeps-handle_events w set (Holds-Stable w set _ _ _) r body).at app (refl, refl, refl)
  serve-Holds (to_plan r body) app room =
      (Keeps-handle_responses w net set (Holds-Stable w set _ _ _) (send-Holds w set _ _ _)
          (dispatch-Holds w set _ _ _) (grant-Holds w set _ _ _) r body).at
        app (refl, refl, refl)
  serve-Holds (to_canaries r query body) app room =
      (Keeps-handle_deception_tokens w set (Holds-Stable w set _ _ _) r query body).at app
        (refl, refl, refl)
  serve-Holds (to_overlays r query body) app room =
      (Keeps-handle_tenant_policies w set (Holds-Stable w set _ _ _) r query body).at app
        (refl, refl, refl)

  -- Where the limiter has room at the start, no request of a run is refused for want of room: each
  -- handler gives back the token that it took, however it ends and whatever its effects answer.
  pub reached_has_room :
      (start app : App)
      → has_room start ≡ true
      → Reaches w net set codec encode start app
      → (has_room app ≡ true) × Holds start.gateway_limit start.in_flight start.gateway_rejected app
  reached_has_room start app room (at_start) = (room, (refl, refl, refl))
  reached_has_room start app room (then_call before c run) =
      let (room', (l, n, k)) = reached_has_room start before room run in
      let (l', n', k') = serve-Holds c before room' in
      (
        ap₂ (λ (o : Option ℕ) (m : ℕ). elim o [ none ↦ true | some limit ↦ ltb m limit ]) l' n'
            ∙ room',
        (l' ∙ l, n' ∙ n, k' ∙ k),
      )
