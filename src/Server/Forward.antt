-- ===== src/Server/Forward.antt =====
-- mcp.go: the request that goes to an upstream server, and its answer.
use Prim.Native.String.{◌++◌ as cat, len}
use open_agentic_threat_defe.Go.Exec.{◌>>=◌}
use open_agentic_threat_defe.Go.Exec.{pure}
use open_agentic_threat_defe.Go.Maps.{Dict, put_if}
use open_agentic_threat_defe.Go.Runtime.{Platform}
use open_agentic_threat_defe.Go.Strings.{trim_space}
use open_agentic_threat_defe.Prelude.{
  String, [], if◌then◌else◌, inl, inr, ltb, not, true, ℕ, ◌+◌, ◌==◌, ◌^◌, ◌∷◌, ◌⊎◌,
}
use open_agentic_threat_defe.Server.State.{Answer, Handler, Outbound, World, tick}
use open_agentic_threat_defe.Server.Upstream.{Network, UpstreamTarget, request_target}

-- mcpUpstreamResponseLimit
abbrev pub mcp_upstream_response_limit : ℕ
mcp_upstream_response_limit = 2 ^ 20

-- The answer, unless its body is too long.
unfoldable pub bounded_answer : Answer ⊎ String → Answer ⊎ String
bounded_answer (inr err) = inr err
bounded_answer (inl answer) =
    if ltb mcp_upstream_response_limit (len answer.body)
    then inr "upstream response too large"
    else inl answer

module _ (w : World) where
  -- client.Do and the reading of the body
  unfoldable pub send : Outbound → Handler (Answer ⊎ String)
  unfolding bounded_answer
  send out app = (
    inl (bounded_answer (w.answer app.ticks out)),
    record app { sent = out ∷ app.sent; ticks = app.ticks + 1 },
  )

module _ ⦃p : Platform⦄ (w : World) (net : Network) where
  -- The headers of a request that forwardMCPRequest sends.
  abbrev mcp_headers : String → String → Dict String
  mcp_headers method token =
      put_if (not (trim_space token == "")) "Authorization" (cat "Bearer " (trim_space token)) (
        ("Content-Type", "application/json")
        ∷ ("Accept", "application/json")
        ∷ ("X-OATD-Proxy", "mcp")
        ∷ ("X-OATD-Method", method)
        ∷ [])

  -- Sending to a target that was validated, or not at all.
  unfoldable pub send_to :
      UpstreamTarget ⊎ String → Dict String → String → Handler (Answer ⊎ String)
  unfolding send
  send_to (inr err) headers raw = pure (inr err)
  send_to (inl target) headers raw =
      send w (record { url = target.url.text; ip = target.ip; headers = headers; body = raw })

  -- forwardMCPRequest, which lets the operator's own upstream be a local one
  unfoldable pub forward_mcp_request : String → String → String → String → Handler (Answer ⊎ String)
  unfolding send_to
  forward_mcp_request raw method upstream_url token = do
    n ← tick
    send_to (request_target net n upstream_url true) (mcp_headers method token) raw
