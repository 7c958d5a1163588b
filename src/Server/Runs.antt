-- ===== src/Server/Runs.antt =====
-- What holds of the application after any run of requests.
use open_agentic_threat_defe.Domain.{DeceptionToken, Event, ResponseAction, ToolCallRequest}
use open_agentic_threat_defe.Go.Exec.Keeps.{Keeps}
use open_agentic_threat_defe.Go.Maps.{Dict}
use open_agentic_threat_defe.Go.Runtime.{Platform}
use open_agentic_threat_defe.Policy.Engine.{Engine, TenantPolicy}
use open_agentic_threat_defe.Policy.Gateway.Decisions.{gate_tool_call-IsBounded}
use open_agentic_threat_defe.Policy.History.Bounds.{IsBounded}
use open_agentic_threat_defe.Prelude.{
  Bool, Option, String, ap, false, nat_eq, refl, subst, sym, true, List, ℕ, ◌<◌, ◌∙◌, ◌≡◌, ◌⊎◌,
}
use open_agentic_threat_defe.Server.Approval.{ApprovalRequest, dispatch, handle_response_approval}
use open_agentic_threat_defe.Server.Forward.{send}
use open_agentic_threat_defe.Server.Gateway.{
  handle_gateway_decision, handle_gateway_execute, shared,
}
use open_agentic_threat_defe.Server.Invariants.{
  Keeps-decide_decoded, Keeps-execute_decoded, Keeps-proxy_body, Keeps-serve_mcp,
}
use open_agentic_threat_defe.Server.Invariants.Approvals.{
  Keeps-approve_decoded, Keeps-handle_responses,
}
use open_agentic_threat_defe.Server.Administration.{handle_deception_tokens, handle_tenant_policies}
use open_agentic_threat_defe.Server.Ingest.{handle_events}
use open_agentic_threat_defe.Server.Invariants.Ingests.{
  Keeps-handle_deception_tokens, Keeps-handle_events, Keeps-handle_tenant_policies,
}
use open_agentic_threat_defe.Server.Planning.{handle_responses}
use open_agentic_threat_defe.Server.Mcp.{McpCodec, handle_mcp_proxy}
use open_agentic_threat_defe.Server.Proxy.{ProxyRequest, handle_gateway_proxy}
use open_agentic_threat_defe.Server.Limiter.{Keeps-gated_post, Unlimited}
use open_agentic_threat_defe.Server.Stable.{Stable}
use open_agentic_threat_defe.Server.State.{App, HttpRequest, Outbound, Settings, World, on_store}
use open_agentic_threat_defe.Server.Upstream.{Network}
use open_agentic_threat_defe.Store.Chain.{DigestsAreVisible, IsChained, add_audit-IsChained}
use open_agentic_threat_defe.Store.Fingerprints.{IsDeduplicated, add_alerts-IsDeduplicated}
use open_agentic_threat_defe.Store.Operations.{
  add_actions, add_alerts, add_event, approve_action, record_action_execution,
}
use open_agentic_threat_defe.Store.State.{Store}
use open_agentic_threat_defe.Store.Untouched.{
  IsChained-SameChain, SameChain, add_actions-IsDeduplicated, add_actions-SameChain,
  add_alerts-SameChain, add_event-IsDeduplicated, add_event-SameChain, add_audit-IsDeduplicated,
  add_audit-window, approve_action-IsDeduplicated, approve_action-SameChain,
  record_action_execution-IsDeduplicated, record_action_execution-SameChain,
}

-- A request of one of the nine handlers.
pub data Call : Type 0 where
  to_decide to_execute : HttpRequest → ToolCallRequest ⊎ String → Call
  to_proxy : HttpRequest → ProxyRequest ⊎ String → Call
  to_mcp : HttpRequest → String ⊎ String → Call
  to_approve : HttpRequest → ApprovalRequest ⊎ String → Call
  to_ingest : HttpRequest → List Event ⊎ String → Call
  to_plan : HttpRequest → String ⊎ String → Call
  to_canaries : HttpRequest → String → DeceptionToken ⊎ String → Call
  to_overlays : HttpRequest → String → TenantPolicy ⊎ String → Call

-- A store whose audit chain holds and whose alerts have no fingerprint twice, and an engine whose
-- gateway history is bounded.
pub record SoundParts (set : Settings) ⦃p : Platform⦄ (s : Store) (e : Engine) : Type 0 where
  pub chained : IsChained set.secrets s
  pub no_retention : nat_eq s.retention_window 0 ≡ true
  pub deduplicated : IsDeduplicated s
  pub bounded : IsBounded set.limits e.history

abbrev pub IsSound : ⦃p : Platform⦄ → Settings → App → Type 0
IsSound set app = SoundParts set app.store app.engine

module _ ⦃p : Platform⦄ (w : World) (net : Network) (set : Settings) (codec : McpCodec)
    (encode : ToolCallRequest → String) where
  -- What a call makes of the application.
  unfoldable pub serve : Call → App → App
  serve (to_decide r body) app = (handle_gateway_decision w set r body app).1
  serve (to_execute r body) app = (handle_gateway_execute w set r body app).1
  serve (to_proxy r body) app = (handle_gateway_proxy w net set encode r body app).1
  serve (to_mcp r body) app = (handle_mcp_proxy w net set codec r body app).1
  serve (to_approve r body) app = (handle_response_approval w net set r body app).1
  serve (to_ingest r body) app = (handle_events w set r body app).1
  serve (to_plan r body) app = (handle_responses w net set r body app).1
  serve (to_canaries r query body) app = (handle_deception_tokens w set r query body app).1
  serve (to_overlays r query body) app = (handle_tenant_policies w set r query body app).1

  -- The applications that calls lead to.
  pub data Reaches (start : App) : App → Type 0 where
    at_start : Reaches start start
    then_call : (app : App) (c : Call) → Reaches start app → Reaches start (serve c app)

module _ ⦃p : Platform⦄ (w : World) (set : Settings) (visible : DigestsAreVisible)
    (room : 0 < set.limits.max_entries) (batch : 0 < set.limits.evict_batch) where
  -- A store whose chain, alerts and fingerprints are those of another is as sound.
  on_store-IsSound :
      {A : Type 0} (f : ℕ → Option String → Store → Store × A)
      → ((at : ℕ) (written : Option String) (s : Store)
          → nat_eq s.retention_window 0 ≡ true
          → SameChain s (f at written s).0)
      → ((at : ℕ) (written : Option String) (s : Store)
          → IsDeduplicated s
          → IsDeduplicated (f at written s).0)
      → Keeps (IsSound set) (on_store w f)
  unfolding on_store
  on_store-IsSound f same dedup = record {
    at = λ app h.
        let kept = same (w.clock app.ticks) (w.written app.ticks) app.store h.no_retention in
        record {
          chained = IsChained-SameChain set.secrets app.store _ kept h.chained;
          no_retention = ap (λ n. nat_eq n 0) kept.window ∙ h.no_retention;
          deduplicated = dedup (w.clock app.ticks) (w.written app.ticks) app.store h.deduplicated;
          bounded = h.bounded;
        };
  }

  shared-SameChain :
      (b : Bool) (id : String) (metadata : Dict String) (s : Store)
      → SameChain s (shared b id metadata s).0
  shared-SameChain false id metadata s = record {
    audits = refl;
    head = refl;
    valid = refl;
    window = refl;
  }
  shared-SameChain true id metadata s = record {
    audits = refl;
    head = refl;
    valid = refl;
    window = refl;
  }

  shared-IsDeduplicated :
      (b : Bool) (id : String) (metadata : Dict String) (s : Store)
      → IsDeduplicated s
      → IsDeduplicated (shared b id metadata s).0
  shared-IsDeduplicated false id metadata s d = d
  shared-IsDeduplicated true id metadata s d = record { agrees = d.agrees; distinct = d.distinct }

  IsSound-Stable : Stable w set (IsSound set)
  unfolding on_store
  IsSound-Stable = record {
    recorded = record {
      on_tick = λ app h. h;
      on_count = λ app h. h;
      on_audit = λ event. record {
        at = λ app h.
            let now = w.clock app.ticks in
            let file = w.written app.ticks in
            record {
              chained =
                  add_audit-IsChained set.secrets now file app.store event visible h.no_retention
                    h.chained;
              no_retention =
                  ap (λ n. nat_eq n 0)
                    (add_audit-window set.secrets now file app.store event h.no_retention)
                  ∙ h.no_retention;
              deduplicated =
                  add_audit-IsDeduplicated set.secrets now file app.store event h.deduplicated;
              bounded = h.bounded;
            };
      };
    };
    on_gate = λ app r now seen h. record {
      chained = h.chained;
      no_retention = h.no_retention;
      deduplicated = h.deduplicated;
      bounded = gate_tool_call-IsBounded set.limits app.engine r now seen room batch h.bounded;
    };
    on_alerts = λ alerts.
        on_store-IsSound (λ at written s. add_alerts at written s alerts)
          (λ at written s no. add_alerts-SameChain at written s alerts no)
          (λ at written s d. add_alerts-IsDeduplicated at written s alerts d);
    on_actions = λ actions.
        on_store-IsSound (λ at written s. add_actions at written s actions)
          (λ at written s no. add_actions-SameChain at written s actions no)
          (λ at written s d. add_actions-IsDeduplicated at written s actions d);
    on_executed = λ id status err now.
        on_store-IsSound (λ at written s. record_action_execution written s id now status err)
          (λ at written s no. record_action_execution-SameChain written s id now status err)
          (λ at written s d. record_action_execution-IsDeduplicated written s id now status err d);
    on_event = λ event.
        on_store-IsSound (λ at written s. add_event at written s event)
          (λ at written s no. add_event-SameChain at written s event no)
          (λ at written s d. add_event-IsDeduplicated at written s event d);
    on_configured = λ app e same h. record {
      chained = h.chained;
      no_retention = h.no_retention;
      deduplicated = h.deduplicated;
      bounded = subst (IsBounded set.limits) (sym same) h.bounded;
    };
    on_shared = λ b id metadata.
        on_store-IsSound (λ at written s. shared b id metadata s)
          (λ at written s no. shared-SameChain b id metadata s)
          (λ at written s d. shared-IsDeduplicated b id metadata s d);
  }

  IsSound-Unlimited : Unlimited (IsSound set)
  IsSound-Unlimited = record { on_slot = λ app n h. h; on_refusal = λ app h. h }

  send-IsSound : (out : Outbound) → Keeps (IsSound set) (send w out)
  unfolding send
  send-IsSound out = record { at = λ app h. h }

  dispatch-IsSound :
      (name : String) (action : ResponseAction) → Keeps (IsSound set) (dispatch w name action)
  unfolding dispatch
  dispatch-IsSound name action = record { at = λ app h. h }

  grant-IsSound :
      (id by : String) (now : ℕ)
      → Keeps (IsSound set) (on_store w (λ at written s. approve_action written s id by now))
  grant-IsSound id by now =
      on_store-IsSound (λ at written s. approve_action written s id by now)
        (λ at written s no. approve_action-SameChain written s id by now)
        (λ at written s d. approve_action-IsDeduplicated written s id by now d)

  module _ (net : Network) (codec : McpCodec) (encode : ToolCallRequest → String) where
    serve-IsSound :
        (c : Call) (app : App) → IsSound set app → IsSound set (serve w net set codec encode c app)
    unfolding serve handle_gateway_decision handle_gateway_execute handle_gateway_proxy
        handle_mcp_proxy handle_response_approval
    serve-IsSound (to_decide r body) app h =
        (Keeps-gated_post IsSound-Unlimited r _
            (Keeps-decide_decoded w set IsSound-Stable r body)).at
          app h
    serve-IsSound (to_execute r body) app h =
        (Keeps-gated_post IsSound-Unlimited r _
            (Keeps-execute_decoded w set IsSound-Stable r body)).at
          app h
    serve-IsSound (to_proxy r body) app h =
        (Keeps-gated_post IsSound-Unlimited r _
            (Keeps-proxy_body w net set IsSound-Stable send-IsSound encode r body)).at
          app h
    serve-IsSound (to_mcp r body) app h =
        (Keeps-gated_post IsSound-Unlimited r _
            (Keeps-serve_mcp w net set IsSound-Stable send-IsSound codec r body)).at
          app h
    serve-IsSound (to_approve r body) app h =
        (Keeps-gated_post IsSound-Unlimited r _ (
            Keeps-approve_decoded w net set IsSound-Stable send-IsSound dispatch-IsSound
              grant-IsSound r body)).at
          app h
    serve-IsSound (to_ingest r body) app h =
        (Keeps-handle_events w set IsSound-Stable r body).at app h
    serve-IsSound (to_plan r body) app h =
        (Keeps-handle_responses w net set IsSound-Stable send-IsSound dispatch-IsSound grant-IsSound
            r body).at
          app h
    serve-IsSound (to_canaries r query body) app h =
        (Keeps-handle_deception_tokens w set IsSound-Stable r query body).at app h
    serve-IsSound (to_overlays r query body) app h =
        (Keeps-handle_tenant_policies w set IsSound-Stable r query body).at app h

    -- Whatever requests are served to decide, execute, proxy or approve calls, to take in events, to plan
    -- responses and to administer canaries and overlays, in whatever order, and however their effects
    -- turn out: if the application was sound, it is. Its audit records are a chain that
    -- is linked, numbered and anchored, its alerts have no fingerprint twice, and its gateway history
    -- is bounded. (Digests are never blank, the history's limits are positive, and the store has no
    -- retention window.)
    pub reached-IsSound :
        (start app : App)
        → IsSound set start
        → Reaches w net set codec encode start app
        → IsSound set app
    reached-IsSound start app h (at_start) = h
    reached-IsSound start app h (then_call before c run) =
        serve-IsSound c before (reached-IsSound start before h run)
