-- ===== src/Server/Mcp.antt =====
-- mcp.go: the proxy in front of an MCP server.
use Prim.Native.String.{◌++◌ as cat}
use open_agentic_threat_defe.Go.Exec.{◌>>=◌, ◌>>◌}
use open_agentic_threat_defe.Domain.{
  GatewayVerdict, ResponseAction, ToolCallDecision, ToolCallRequest, allow, deny, require_approval,
  unset,
}
use open_agentic_threat_defe.Go.Exec.{or_stop, pure, stop}
use open_agentic_threat_defe.Go.Maps.{Dict, lookup, put, put_if}
use open_agentic_threat_defe.Go.Runtime.{Platform}
use open_agentic_threat_defe.Go.Strings.{elem, has_prefix, itoa, trim_space}
use open_agentic_threat_defe.Policy.Gateway.Score.{severity_text}
use open_agentic_threat_defe.Prelude.{
  Bool, Option, String, [], get_or, if◌then◌else◌, inl, inr, is_some, none, not, some, ◌&&◌, ◌==◌,
  ◌||◌, ◌∷◌, ◌⊎◌,
}
use open_agentic_threat_defe.Server.Actions.{decide_call, gateway_action_from_decision, keep_action}
use open_agentic_threat_defe.Server.Forward.{forward_mcp_request}
use open_agentic_threat_defe.Server.State.{
  Answer, Handler, HttpRequest, Reply, Settings, World, plain, record_audit, gated_post,
  write_error,
}
use open_agentic_threat_defe.Server.Tenancy.{tenant_for_principal}
use open_agentic_threat_defe.Server.Upstream.{Network}

-- A JSON value as encoding/json decodes it: a text, the %v text of a number, a truth value, null, or
-- the text of any other value encoded again ("" where it cannot be).
pub data Json : Type 0 where
  json_text json_number json_other : String → Json
  json_bool : Bool → Json
  json_null : Json

-- mcpJSONRPCRequest, without its version and id, which are only copied: `params` is the raw text.
pub record McpRequest : Type 0 where
  pub method : String
  pub params : String

-- What mcp.go uses of encoding/json.
pub record McpCodec : Type 0 where
  pub decode_request : String → McpRequest ⊎ String
  pub decode_params : String → Option (Dict Json)
  pub encode_params : Dict Json → String

module _ ⦃p : Platform⦄ where
  -- isMCPPassthroughMethod
  unfoldable pub is_mcp_passthrough_method : String → Bool
  is_mcp_passthrough_method method =
      let m = trim_space method in
      has_prefix m "notifications/"
      || elem m (
          "initialize" ∷ "ping" ∷ "tools/list" ∷ "resources/list" ∷ "resources/templates/list"
          ∷ "prompts/list" ∷ "roots/list" ∷ [])

  abbrev should_intercept_mcp_method : String → Bool
  should_intercept_mcp_method method = not (is_mcp_passthrough_method method)

  unfoldable pub mcp_surface : String → String
  mcp_surface method =
      let m = trim_space method in
      if m == "tools/call"
      then "tool"
      else if m == "resources/read" || m == "resources/subscribe"
      then "resource"
      else if m == "prompts/get"
      then "prompt"
      else if m == "sampling/createMessage"
      then "sampling"
      else if m == "completion/complete"
      then "completion"
      else "other"

  unfoldable pub string_from_any : Json → Option String
  string_from_any (json_text s) = some (trim_space s)
  string_from_any (json_number s) = some (trim_space s)
  string_from_any (json_bool b) = some (if b then "true" else "false")
  string_from_any json_null = none
  string_from_any (json_other s) = if trim_space s == "" then none else some s

  -- stringFromAny(params[key]); a key that is not there is null
  unfoldable pub param : Dict Json → String → Option String
  unfolding string_from_any
  param params key = string_from_any (get_or (lookup key params) json_null)

  -- The loop that copies the parameters into the metadata.
  unfoldable pub copy_params : Dict Json → Dict String → Dict String
  unfolding string_from_any
  copy_params [] metadata = metadata
  copy_params ((k, v) ∷ params) metadata =
      copy_params params (
        put_if (is_some (string_from_any v)) (cat "mcp_" k) (get_or (string_from_any v) "")
          metadata)

  -- The call that an MCP request makes, before its parameters are read.
  unfoldable pub bare_tool_call : String → String → ToolCallRequest
  unfolding mcp_surface
  bare_tool_call upstream method0 =
      let method = trim_space method0 in
      let surface = mcp_surface method in
      record {
        id = "";
        timestamp = 0;
        tenant = "";
        asset_id = "";
        hostname = "";
        actor = "";
        agent_id = "";
        agent_token = "";
        tool_name = cat "mcp_" method;
        tool_fingerprint = "";
        tool_publisher = "";
        protocol_surface = not (surface == "tool") && not (surface == "other");
        command = "";
        arguments = "";
        signal = cat "mcp_method=" (cat method (cat " mcp_surface=" surface));
        destination = "";
        labels = "mcp" ∷ cat "mcp_surface:" surface ∷ [];
        metadata =
            put_if (not (trim_space upstream == "")) "mcp_upstream_url" upstream
              (("mcp_method", method) ∷ ("mcp_surface", surface) ∷ []);
      }

  -- The call with what its parameters say: `json` is their text.
  unfoldable pub with_params : ToolCallRequest → String → Dict Json → String → ToolCallRequest
  unfolding param copy_params
  with_params call surface params json =
      let uri = param params "uri" in
      let link = get_or uri "" in
      let command =
        get_or (param params "message")
          (get_or (param params "prompt") (get_or uri call.command)) in
      let arguments = get_or (param params "arguments") (get_or uri call.arguments) in
      record call {
        tool_name =
            if surface == "tool"
            then get_or (param params "name") call.tool_name
            else call.tool_name;
        destination =
            if surface == "resource" && (has_prefix link "http://" || has_prefix link "https://")
            then link
            else call.destination;
        command = if command == "" then json else command;
        arguments = if arguments == "" then json else arguments;
        metadata = copy_params params call.metadata;
      }

  -- toolCallFromMCPRequest: `upstream` is the configured URL.
  unfoldable pub tool_call_from_mcp_request : McpCodec → String → McpRequest → ToolCallRequest
  unfolding bare_tool_call with_params
  tool_call_from_mcp_request codec upstream rpc =
      let call = bare_tool_call upstream rpc.method in
      if rpc.params == "" then call else elim (codec.decode_params rpc.params) [
        | none ↦ record call { command = rpc.params }
        | some params ↦
            with_params call (mcp_surface (trim_space rpc.method)) params
              (codec.encode_params params)
      ]

-- writeMCPResponse
unfoldable pub mcp_reply : Answer → Reply
mcp_reply answer = record (plain answer.status) {
  body =
      if answer.body == ""
      then "{\"jsonrpc\":\"2.0\",\"error\":{\"code\":500,\"message\":\"empty upstream response\"}}"
      else answer.body;
}

module _ ⦃p : Platform⦄ (w : World) (net : Network) (set : Settings) (codec : McpCodec) where
  -- gatewayMCPUpstream, gatewayMCPUpstreamToken
  abbrev pub upstream : String
  upstream = trim_space set.mcp_upstream_url

  abbrev pub upstream_token : String
  upstream_token = trim_space set.mcp_upstream_token

  unfoldable pub answer_or_502 : Answer ⊎ String → Handler Answer
  answer_or_502 (inl answer) = pure answer
  answer_or_502 (inr err) = stop (write_error 502 err)

  abbrev forward : String → McpRequest → Handler Answer
  forward raw rpc = do
    answer ← forward_mcp_request w net raw rpc.method upstream upstream_token
    answer_or_502 answer

  -- The action that is kept of a call.
  abbrev pub mcp_action :
      String
      → McpRequest
      → ToolCallRequest
      → ToolCallDecision
      → String
      → String
      → String
      → ResponseAction
  mcp_action raw rpc call d tenant approval execution =
      let action = gateway_action_from_decision call d tenant approval execution in
      record action {
        action_type = "mcp_proxy";
        metadata =
            put "mcp_raw_request" (p.to_base64_raw_url raw)
              (put "mcp_upstream_url" upstream (put "mcp_method" rpc.method action.metadata));
      }

  abbrev pub audit_mcp :
      HttpRequest
      → McpRequest
      → ToolCallDecision
      → String
      → String
      → Dict String
      → Handler (Unit {0})
  audit_mcp r rpc d outcome action_id more =
      record_audit w set r r.principal "mcp.proxy" "tool_call" d.request_id outcome (
        ("method", rpc.method)
        ∷ ("tool", d.tool_name)
        ∷ ("risk", severity_text d.risk)
        ∷ ("reason", d.reason)
        ∷ ("destination", upstream)
        ∷ ("action_id", action_id)
        ∷ more)

  -- The switch on the verdict, and what follows it: a verdict that is none of the three falls through
  -- to the request being forwarded.
  unfoldable pub settle_mcp :
      GatewayVerdict
      → HttpRequest
      → String
      → McpRequest
      → ToolCallRequest
      → ToolCallDecision
      → String
      → Handler Reply
  unfolding answer_or_502 mcp_reply
  settle_mcp allow r raw rpc call d tenant = do
    answer ← forward raw rpc
    action ← keep_action w set (mcp_action raw rpc call d tenant "not_required" "executed") tenant
    audit_mcp r rpc d "executed" action.id (("status", itoa answer.status) ∷ [])
    pure (mcp_reply answer)
  settle_mcp require_approval r raw rpc call d tenant = do
    action ← keep_action w set (mcp_action raw rpc call d tenant "required" "") tenant
    audit_mcp r rpc d "pending_approval" action.id []
    pure (record (plain 202) {
      error = "approval required";
      decision = some (record d { action = some action });
      action = some action;
    })
  settle_mcp deny r raw rpc call d tenant = do
    action ← keep_action w set (mcp_action raw rpc call d tenant "not_required" "blocked") tenant
    audit_mcp r rpc d "blocked" action.id []
    pure (record (plain 403) {
      error = "blocked by policy";
      decision = some (record d { action = some action });
      action = some action;
    })
  settle_mcp unset r raw rpc call d tenant = do answer ← forward raw rpc; pure (mcp_reply answer)

  -- The call that a request makes for a tenant.
  abbrev pub mcp_call : McpRequest → String → ToolCallRequest
  mcp_call rpc tenant = record (tool_call_from_mcp_request codec upstream rpc) { tenant = tenant }

  -- A request that was read and decoded.
  unfoldable pub proxy_mcp : HttpRequest → String → McpRequest → Handler Reply
  unfolding settle_mcp
  proxy_mcp r raw rpc =
      let tenant = tenant_for_principal r.principal in
      if is_mcp_passthrough_method rpc.method
      then (do answer ← forward raw rpc; pure (mcp_reply answer))
      else (do
        d ← decide_call w set (mcp_call rpc tenant) tenant
        settle_mcp d.verdict r raw rpc (mcp_call rpc tenant) d tenant)

  -- The text of the body, which must not be blank.
  unfoldable pub read_body : String ⊎ String → String ⊎ Reply
  read_body (inr err) = inr (write_error 400 err)
  read_body (inl raw) =
      if trim_space raw == "" then inr (write_error 400 "empty request body") else inl raw

  -- The body of a request to a proxy that has an upstream.
  unfoldable pub proxied_body : String ⊎ String → String ⊎ Reply
  unfolding read_body
  proxied_body body =
      if upstream == ""
      then inr (write_error 503 "MCP upstream is not configured")
      else read_body body

  -- A request that the limiter let through.
  unfoldable pub serve_mcp : HttpRequest → String ⊎ String → Handler Reply
  unfolding proxy_mcp proxied_body
  serve_mcp r body = do
    raw ← or_stop (proxied_body body) (λ reply. reply)
    rpc ← or_stop (codec.decode_request raw) (write_error 400)
    proxy_mcp r raw rpc

  -- handleMCPProxy: `body` is the text of the body, or the error of reading it.
  unfoldable pub handle_mcp_proxy : HttpRequest → String ⊎ String → Handler Reply
  unfolding serve_mcp gated_post
  handle_mcp_proxy r body = gated_post r (serve_mcp r body)
