-- ===== src/Server/Proxy.antt =====
-- server.go: the handler of /api/gateway/proxy.

use open_agentic_threat_defe.Go.Exec.{◌>>=◌, ◌>>◌}
use open_agentic_threat_defe.Domain.{
  GatewayVerdict, ResponseAction, ToolCallDecision, ToolCallRequest, allow, deny, require_approval,
  unset,
}
use open_agentic_threat_defe.Go.Exec.{or_stop, pure, stop}
use open_agentic_threat_defe.Go.Maps.{Dict, lookup, put, put_if}
use open_agentic_threat_defe.Go.Runtime.{Platform}
use open_agentic_threat_defe.Go.Strings.{itoa, trim_space}
use open_agentic_threat_defe.Policy.Gateway.Score.{severity_text}
use open_agentic_threat_defe.Policy.History.{verdict_text}
use open_agentic_threat_defe.Prelude.{
  String, [], get_or, if◌then◌else◌, inl, inr, some, ℕ, ◌==◌, ◌∷◌, ◌⊎◌,
}
use open_agentic_threat_defe.Server.Actions.{
  decide_call, gateway_action_from_decision, keep_action, prepare_tool_call_request,
}
use open_agentic_threat_defe.Server.Forward.{send_to}
use open_agentic_threat_defe.Server.State.{
  Handler, HttpRequest, Reply, Settings, World, plain, record_audit, tick, gated_post, write_error,
}
use open_agentic_threat_defe.Server.Tenancy.{tenant_for_principal}
use open_agentic_threat_defe.Server.Upstream.{
  Network, UpstreamTarget, redact_url_credentials, sanitize_proxy_headers, request_to,
  validate_proxy_upstream_url,
}

pub record ProxyRequest : Type 0 where
  pub upstream_url : String
  pub body : String
  pub headers : Dict String
  pub tool_call : ToolCallRequest

module _ ⦃p : Platform⦄ (w : World) (net : Network) (set : Settings)
    (encode_call : ToolCallRequest → String) where
  -- The headers of the request that goes out.
  abbrev proxy_headers : Dict String → ToolCallDecision → Dict String
  proxy_headers headers d =
      let kept = sanitize_proxy_headers net [] headers in
      put "X-OATD-Request-ID" d.request_id (
        put "X-OATD-Tool" d.tool_name (
          put "X-OATD-Decision" (verdict_text d.verdict) (
            put_if (get_or (lookup "Content-Type" kept) "" == "") "Content-Type" "application/json"
              kept)))

  -- The action that is kept of a call.
  abbrev proxy_action :
      String → ToolCallRequest → ToolCallDecision → String → String → String → ResponseAction
  proxy_action url call d tenant approval execution =
      let action = gateway_action_from_decision call d tenant approval execution in
      record action {
        action_type = "gateway_proxy";
        metadata = put "proxy_upstream_url" url action.metadata;
      }

  abbrev audit_proxy :
      HttpRequest
      → String
      → ToolCallRequest
      → ToolCallDecision
      → String
      → String
      → Dict String
      → Handler (Unit {0})
  audit_proxy r url call d outcome action_id more =
      record_audit w set r r.principal "gateway.proxy" "tool_call" d.request_id outcome (
        ("tool", d.tool_name)
        ∷ ("asset_id", call.asset_id)
        ∷ ("hostname", call.hostname)
        ∷ ("risk", severity_text d.risk)
        ∷ ("reason", d.reason)
        ∷ ("destination", url)
        ∷ ("action_id", action_id)
        ∷ more)

  -- The switch on the verdict.
  unfoldable pub settle_proxy :
      GatewayVerdict
      → HttpRequest
      → ProxyRequest
      → UpstreamTarget
      → String
      → ToolCallRequest
      → ToolCallDecision
      → String
      → Handler Reply
  settle_proxy allow r req target url call d tenant = do
    ready ← or_stop (request_to net target) (write_error 400)
    sent ←
        send_to w net (inl ready) (proxy_headers req.headers d)
          (if req.body == "" then encode_call call else req.body)
    answer ← or_stop sent (write_error 502)
    let action = proxy_action url call d tenant "not_required" "executed"
    let noted : ResponseAction = record action {
      metadata =
          put "proxy_content_type" answer.content_type
            (put "proxy_upstream_status" (itoa answer.status) action.metadata);
    }
    kept ← keep_action w set noted tenant
    audit_proxy r url call d "executed" kept.id (("status", itoa answer.status) ∷ [])
    pure
        (record (plain answer.status) { decision = some d; action = some kept; body = answer.body })
  settle_proxy require_approval r req target url call d tenant = do
    kept ← keep_action w set (proxy_action url call d tenant "required" "") tenant
    audit_proxy r url call d "pending_approval" kept.id []
    pure (record (plain 202) {
      decision = some (record d { action = some kept });
      action = some kept;
    })
  settle_proxy deny r req target url call d tenant = do
    kept ← keep_action w set (proxy_action url call d tenant "not_required" "blocked") tenant
    audit_proxy r url call d "blocked" kept.id []
    pure (record (plain 403) {
      decision = some (record d { action = some kept });
      action = some kept;
    })
  settle_proxy unset r req target url call d tenant =
      stop (write_error 500 "unknown gateway verdict")

  -- The call that a proxy request makes, before it is prepared.
  abbrev proxy_call : ProxyRequest → String → ToolCallRequest
  proxy_call req url = record req.tool_call {
    tool_name = if req.tool_call.tool_name == "" then "proxy_forward" else req.tool_call.tool_name;
    destination = url;
  }

  -- A request whose upstream was validated.
  unfoldable pub proxy_validated : HttpRequest → ProxyRequest → UpstreamTarget → Handler Reply
  unfolding settle_proxy
  proxy_validated r req target = do
    let url = redact_url_credentials net req.upstream_url
    let tenant = tenant_for_principal r.principal
    prepared ← prepare_tool_call_request w set (proxy_call req url)
    let call : ToolCallRequest = record prepared { tenant = tenant }
    d ← decide_call w set call tenant
    settle_proxy d.verdict r req target url call d tenant

  -- The target of a request, as the nth lookup.
  unfoldable pub proxy_target : ℕ → ProxyRequest → UpstreamTarget ⊎ String
  proxy_target n req =
      if trim_space req.upstream_url == ""
      then inr "upstream_url is required"
      else validate_proxy_upstream_url net n req.upstream_url set.proxy_allow_local_targets

  -- A request that was decoded.
  unfoldable pub proxy_decoded : HttpRequest → ProxyRequest → Handler Reply
  unfolding proxy_validated proxy_target
  proxy_decoded r req = do
    n ← tick
    target ← or_stop (proxy_target n req) (write_error 400)
    proxy_validated r req target

  -- A request that the limiter let through: `body` is the decoded body, or the error of decoding it.
  unfoldable pub proxy_body : HttpRequest → ProxyRequest ⊎ String → Handler Reply
  unfolding proxy_decoded
  proxy_body r body = do req ← or_stop body (write_error 400); proxy_decoded r req

  -- handleGatewayProxy
  unfoldable pub handle_gateway_proxy : HttpRequest → ProxyRequest ⊎ String → Handler Reply
  unfolding proxy_body gated_post
  handle_gateway_proxy r body = gated_post r (proxy_body r body)
