-- ===== src/Server/Invariants.antt =====
-- What the handlers of tool calls keep; the children are about the other handlers.
pub mod Approvals
pub mod Ingests
use open_agentic_threat_defe.Domain.{
  GatewayVerdict, ToolCallDecision, ToolCallRequest, allow, deny, require_approval, unset,
}
use open_agentic_threat_defe.Go.Exec.{or_stop}
use open_agentic_threat_defe.Go.Exec.Keeps.{Keeps, Keeps-bind, Keeps-or_stop, keeps_rules}
use open_agentic_threat_defe.Go.Maps.{Dict}
use open_agentic_threat_defe.Go.Runtime.{Platform}
use open_agentic_threat_defe.Prelude.{String, inl, inr, ◌⊎◌}
use open_agentic_threat_defe.Server.Forward.{forward_mcp_request, send, send_to}
use open_agentic_threat_defe.Server.Gateway.{
  decide_decoded, execute_decoded, settle_decision, settle_execution,
}
use open_agentic_threat_defe.Server.Mcp.{
  McpCodec, McpRequest, answer_or_502, proxy_mcp, serve_mcp, settle_mcp,
}
use open_agentic_threat_defe.Server.Proxy.{
  ProxyRequest, proxy_body, proxy_decoded, proxy_target, proxy_validated, settle_proxy,
}
use open_agentic_threat_defe.Server.Stable.{
  Keeps-decide_call, Keeps-execute_gateway_tool_action, Keeps-keep_action, Keeps-prepare_action,
  Keeps-prepare_tool_call_request, Keeps-record_audit, Keeps-tick, Stable,
}
use open_agentic_threat_defe.Server.State.{
  Answer, App, HttpRequest, Outbound, Settings, World, tick, write_error,
}
use open_agentic_threat_defe.Server.Upstream.{Network, UpstreamTarget}

module _ ⦃p : Platform⦄ (w : World) (set : Settings) {P : App → Type 0} (st : Stable w set P) where
  Keeps-settle_decision :
      (v : GatewayVerdict) (req : ToolCallRequest) (d : ToolCallDecision) (tenant : String)
      → Keeps P (settle_decision w set v req d tenant)
  unfolding settle_decision
  Keeps-settle_decision allow req d tenant = search keeps_rules
  Keeps-settle_decision unset req d tenant = search keeps_rules
  Keeps-settle_decision deny req d tenant = search (keeps_rules, Keeps-keep_action w set st)
  Keeps-settle_decision require_approval req d tenant =
      search (keeps_rules, Keeps-keep_action w set st)

  -- A decision under the limiter keeps what is stable.
  pub Keeps-decide_decoded :
      (r : HttpRequest) (body : ToolCallRequest ⊎ String) → Keeps P (decide_decoded w set r body)
  unfolding decide_decoded
  Keeps-decide_decoded r body =
      search
        (
          keeps_rules,
          Keeps-prepare_tool_call_request w set st,
          Keeps-decide_call w set st,
          Keeps-settle_decision,
          Keeps-record_audit w set st,
        )
        depth 12

  Keeps-settle_execution :
      (v : GatewayVerdict) (r : HttpRequest) (req : ToolCallRequest) (d : ToolCallDecision)
      (tenant : String)
      → Keeps P (settle_execution w set v r req d tenant)
  unfolding settle_execution
  Keeps-settle_execution allow r req d tenant =
      search
        (
          keeps_rules,
          Keeps-prepare_action w set st,
          Keeps-execute_gateway_tool_action w set st,
          Keeps-record_audit w set st,
        )
        depth 12
  Keeps-settle_execution require_approval r req d tenant =
      search (keeps_rules, Keeps-keep_action w set st, Keeps-record_audit w set st) depth 12
  Keeps-settle_execution deny r req d tenant =
      search (keeps_rules, Keeps-keep_action w set st, Keeps-record_audit w set st) depth 12
  Keeps-settle_execution unset r req d tenant = search keeps_rules

  -- An execution under the limiter keeps what is stable.
  pub Keeps-execute_decoded :
      (r : HttpRequest) (body : ToolCallRequest ⊎ String) → Keeps P (execute_decoded w set r body)
  unfolding execute_decoded
  Keeps-execute_decoded r body =
      search
        (
          keeps_rules,
          Keeps-prepare_tool_call_request w set st,
          Keeps-decide_call w set st,
          Keeps-settle_execution,
        )
        depth 12

module _ ⦃p : Platform⦄ (w : World) (net : Network) (set : Settings) {P : App → Type 0}
    (st : Stable w set P) (sends : (out : Outbound) → Keeps P (send w out)) where
  Keeps-send_to :
      (target : UpstreamTarget ⊎ String) (headers : Dict String) (raw : String)
      → Keeps P (send_to w net target headers raw)
  unfolding send_to
  Keeps-send_to (inl target) headers raw = sends _
  Keeps-send_to (inr err) headers raw = search keeps_rules

  pub Keeps-forward_mcp_request :
      (raw method url token : String) → Keeps P (forward_mcp_request w net raw method url token)
  unfolding forward_mcp_request
  Keeps-forward_mcp_request raw method url token =
      search (keeps_rules, Keeps-tick w set st, Keeps-send_to)

  module _ (codec : McpCodec) where
    Keeps-answer_or_502 : (a : Answer ⊎ String) → Keeps P (answer_or_502 w net set codec a)
    unfolding answer_or_502
    Keeps-answer_or_502 (inl a) = search keeps_rules
    Keeps-answer_or_502 (inr err) = search keeps_rules

    Keeps-settle_mcp :
        (v : GatewayVerdict) (r : HttpRequest) (raw : String) (rpc : McpRequest)
        (call : ToolCallRequest) (d : ToolCallDecision) (tenant : String)
        → Keeps P (settle_mcp w net set codec v r raw rpc call d tenant)
    unfolding settle_mcp
    Keeps-settle_mcp allow r raw rpc call d tenant =
        search
          (
            keeps_rules,
            Keeps-forward_mcp_request,
            Keeps-answer_or_502,
            Keeps-keep_action w set st,
            Keeps-record_audit w set st,
          )
          depth 12
    Keeps-settle_mcp require_approval r raw rpc call d tenant =
        search (keeps_rules, Keeps-keep_action w set st, Keeps-record_audit w set st) depth 12
    Keeps-settle_mcp deny r raw rpc call d tenant =
        search (keeps_rules, Keeps-keep_action w set st, Keeps-record_audit w set st) depth 12
    Keeps-settle_mcp unset r raw rpc call d tenant =
        search (keeps_rules, Keeps-forward_mcp_request, Keeps-answer_or_502)

    Keeps-proxy_mcp :
        (r : HttpRequest) (raw : String) (rpc : McpRequest)
        → Keeps P (proxy_mcp w net set codec r raw rpc)
    unfolding proxy_mcp
    Keeps-proxy_mcp r raw rpc =
        search
          (
            keeps_rules,
            Keeps-forward_mcp_request,
            Keeps-answer_or_502,
            Keeps-decide_call w set st,
            Keeps-settle_mcp,
          )
          depth 12

    -- A request to the MCP proxy keeps what is stable and not broken by sending.
    pub Keeps-serve_mcp :
        (r : HttpRequest) (body : String ⊎ String) → Keeps P (serve_mcp w net set codec r body)
    unfolding serve_mcp
    Keeps-serve_mcp r body = search (keeps_rules, Keeps-proxy_mcp) depth 12

  module _ (encode : ToolCallRequest → String) where
    Keeps-settle_proxy :
        (v : GatewayVerdict) (r : HttpRequest) (req : ProxyRequest) (target : UpstreamTarget)
        (url : String) (call : ToolCallRequest) (d : ToolCallDecision) (tenant : String)
        → Keeps P (settle_proxy w net set encode v r req target url call d tenant)
    unfolding settle_proxy
    Keeps-settle_proxy allow r req target url call d tenant =
        search (keeps_rules, Keeps-send_to, Keeps-keep_action w set st, Keeps-record_audit w set st)
          depth 12
    Keeps-settle_proxy require_approval r req target url call d tenant =
        search (keeps_rules, Keeps-keep_action w set st, Keeps-record_audit w set st) depth 12
    Keeps-settle_proxy deny r req target url call d tenant =
        search (keeps_rules, Keeps-keep_action w set st, Keeps-record_audit w set st) depth 12
    Keeps-settle_proxy unset r req target url call d tenant = search keeps_rules

    Keeps-proxy_validated :
        (r : HttpRequest) (req : ProxyRequest) (target : UpstreamTarget)
        → Keeps P (proxy_validated w net set encode r req target)
    unfolding proxy_validated
    Keeps-proxy_validated r req target =
        search
          (
            keeps_rules,
            Keeps-prepare_tool_call_request w set st,
            Keeps-decide_call w set st,
            Keeps-settle_proxy,
          )
          depth 12

    Keeps-proxy_decoded :
        (r : HttpRequest) (req : ProxyRequest) → Keeps P (proxy_decoded w net set encode r req)
    unfolding proxy_decoded
    Keeps-proxy_decoded r req = Keeps-bind tick _ (Keeps-tick w set st) (λ n.
        Keeps-bind (or_stop (proxy_target w net set encode n req) (write_error 400)) _
          (Keeps-or_stop (proxy_target w net set encode n req) (write_error 400))
          (λ target. Keeps-proxy_validated r req target))

    -- A request to the proxy keeps what is stable and not broken by sending.
    pub Keeps-proxy_body :
        (r : HttpRequest) (body : ProxyRequest ⊎ String)
        → Keeps P (proxy_body w net set encode r body)
    unfolding proxy_body
    Keeps-proxy_body r body = search (keeps_rules, Keeps-proxy_decoded) depth 12
