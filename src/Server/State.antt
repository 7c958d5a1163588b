-- ===== src/Server/State.antt =====
-- server.go: the state of the application that the gateway's handlers change, the effects they have
-- and the operations on the store. Tenants share one store: the registry is absent or not in its
-- physical mode.
use Prim.Native.Char.{Char, code}
use Prim.Native.String.{◌++◌ as cat}
use open_agentic_threat_defe.Go.Exec.{◌>>=◌}
use open_agentic_threat_defe.Auth.Roles.{Principal}
use open_agentic_threat_defe.Domain.{AuditEvent, ResponseAction, ToolCallDecision}
use open_agentic_threat_defe.Go.Exec.{Exec, pure, stop}
use open_agentic_threat_defe.Go.Maps.{Dict, put_if}
use open_agentic_threat_defe.Go.Runtime.{Platform}
use open_agentic_threat_defe.Go.Strings.{
  itoa, join_with, lower, map_chars, strip, text_before, trim_space,
}
use open_agentic_threat_defe.Policy.Engine.{Engine}
use open_agentic_threat_defe.Policy.History.{HistoryLimits}
use open_agentic_threat_defe.Prelude.{
  Bool, List, Option, String, [], any, get_or, if◌then◌else◌, inl, inr, leb, ltb, nat_eq, none, not,
  some, ℕ, ◌&&◌, ◌+◌, ◌-◌, ◌==◌, ◌||◌, ◌∷◌, ◌⊎◌,
}
use open_agentic_threat_defe.Store.AuditChain.{Secrets}
use open_agentic_threat_defe.Store.Operations.{add_audit}
use open_agentic_threat_defe.Store.State.{Store}
use open_agentic_threat_defe.Store.Tenant.{tenant_or_default}

-- What an HTTP handler reads of a request besides its body.
pub record HttpRequest : Type 0 where
  pub method : String
  pub path : String
  pub remote_addr : String
  pub forwarded_for : String
  pub user_agent : String
  -- the principal that `withAuth` put into the request's context, the zero one where there is none
  pub principal : Principal

-- A request that went out to an upstream server.
pub record Outbound : Type 0 where
  pub url : String
  pub ip : String
  pub headers : Dict String
  pub body : String

-- What an upstream server answered.
pub record Answer : Type 0 where
  pub status : ℕ
  pub content_type : String
  pub body : String

-- The options of the application, fixed when it starts.
pub record Settings : Type 0 where
  pub limits : HistoryLimits
  pub secrets : Secrets
  pub planner_mode : String
  pub correlation_window : ℕ
  pub instance_name : String
  pub mcp_upstream_url : String
  pub mcp_upstream_token : String
  pub proxy_allow_local_targets : Bool
  pub trusted_proxies : List String
  -- the connectors for incident tickets that are enabled, in their order, and that for all other
  -- actions: "github_workflow" or "response_webhook"
  pub ticket_connectors : List String
  pub response_connector : Option String

-- What the handlers cannot choose, as functions of how many effects there were before: the clock, the
-- hexadecimal text of six random bytes, the outcome of writing the snapshot file, and what an upstream
-- server answers.
pub record World : Type 0 where
  pub clock : ℕ → ℕ
  pub random : ℕ → Option String
  pub written : ℕ → Option String
  pub answer : ℕ → Outbound → Answer ⊎ String
  -- what a connector fails with
  pub deliver : ℕ → String → ResponseAction → Option String
  -- IPNet.Contains of a trusted network and a parsed address; not where the address does not parse
  pub contains_addr : String → String → Bool

pub record App : Type 0 where
  pub store : Store
  pub engine : Engine
  pub counter : ℕ
  -- the capacity of gatewayLimiter, and how many tokens it holds
  pub gateway_limit : Option ℕ
  pub in_flight : ℕ
  pub gateway_rejected : ℕ
  -- the effects so far
  pub ticks : ℕ
  -- the requests that went out to upstream servers so far, the last first
  pub sent : List Outbound
  -- the actions that were handed to connectors so far, each with the connector's name
  pub dispatched : List (String × ResponseAction)

-- What a handler writes: the status code and the body's parts that matter.
pub record Reply : Type 0 where
  pub status : ℕ
  pub error : String
  pub decision : Option ToolCallDecision
  pub action : Option ResponseAction
  pub result_status : String
  pub body : String

abbrev pub Handler : Type 0 → Type 0
Handler A = Exec App Reply A

abbrev pub plain : ℕ → Reply
plain status = record {
  status = status;
  error = "";
  decision = none;
  action = none;
  result_status = "";
  body = "";
}

-- writeError: the text of an internal error is not shown
unfoldable pub write_error : ℕ → String → Reply
write_error status err = record (plain status) {
  error = if nat_eq status 500 then "internal server error" else err;
}

abbrev pub method_not_allowed : Reply
method_not_allowed = write_error 405 "method not allowed"

-- The number of an effect.
unfoldable pub tick : Handler ℕ
tick app = (inl app.ticks, record app { ticks = app.ticks + 1 })

unfoldable pub next_count : Handler ℕ
next_count app = (inl (app.counter + 1), record app { counter = app.counter + 1 })

-- The limiter takes a token, or refuses the request where there is no room; without a limiter, there
-- is nothing to take.
unfoldable pub take_slot : Option ℕ → Handler (Unit {0})
take_slot none app = (inl tt, app)
take_slot (some limit) app =
    if ltb app.in_flight limit then (inl tt, record app { in_flight = app.in_flight + 1 }) else (
      inr (write_error 429 "gateway is saturated"),
      record app { gateway_rejected = app.gateway_rejected + 1 },
    )

-- gatewayCriticalStart
unfoldable pub gateway_critical_start : Handler (Unit {0})
unfolding take_slot
gateway_critical_start app = take_slot app.gateway_limit app

unfoldable pub put_back : Option ℕ → App → App
put_back none app = app
put_back (some limit) app = record app { in_flight = app.in_flight - 1 }

-- The function that gatewayCriticalStart returns: the token is put back.
unfoldable pub release : App → App
unfolding put_back
release app = put_back app.gateway_limit app

unfoldable pub free_slot : Handler Reply → Unit {0} ⊎ Reply → Handler Reply
unfolding release
free_slot m (inr refused) app = (inr refused, app)
free_slot m (inl u) app = let (answer, app') = m app in (answer, release app')

-- `defer release()`: the rest of a handler, and the token goes back however it ends.
unfoldable pub with_slot : Handler Reply → Handler Reply
unfolding gateway_critical_start free_slot
with_slot m app = let (r, app') = gateway_critical_start app in free_slot m r app'

-- How the handlers of tool calls begin: the method is POST, and the rest runs with a token.
unfoldable pub gated_post : HttpRequest → Handler Reply → Handler Reply
unfolding with_slot
gated_post r m = if not (r.method == "POST") then stop method_not_allowed else with_slot m

module _ (w : World) where
  -- time.Now().UTC()
  unfoldable pub clock_now : Handler ℕ
  unfolding tick
  clock_now = do n ← tick; pure (w.clock n)

module _ {A : Type 0} (w : World) where
  -- An operation of the store, with its clock and the outcome of writing the snapshot file.
  unfoldable pub on_store : (ℕ → Option String → Store → Store × A) → Handler A
  on_store f app =
      let (s, a) = f (w.clock app.ticks) (w.written app.ticks) app.store in
      (inl a, record app { store = s; ticks = app.ticks + 1 })

-- An operation whose error ends the handler with status 500.
module _ {A : Type 0} where
  unfoldable pub or_500 : A × Option String → Handler A
  or_500 (a, none) = pure a
  or_500 (a, some err) = stop (write_error 500 err)

-- The characters that sanitizeIdentifier keeps.
abbrev is_identifier_char : Char → Bool
is_identifier_char c =
    (leb b'a' (code c) && leb (code c) b'z')
    || ((leb b'0' (code c) && leb (code c) b'9') || (nat_eq (code c) b'-' || nat_eq (code c) b'_'))

abbrev is_dash : Char → Bool
is_dash c = nat_eq (code c) b'-'

module _ ⦃p : Platform⦄ where
  unfoldable pub sanitize_identifier : String → String
  sanitize_identifier value =
      let kept =
        map_chars (λ c. if is_identifier_char c then c else "-") (lower (trim_space value)) in
      let result = strip is_dash kept in
      if trim_space value == "" then "default" else if result == "" then "default" else result

  -- sourceIP and isTrustedProxy
  unfoldable pub is_trusted_proxy : World → Settings → String → Bool
  is_trusted_proxy w set remote_addr =
      let addr = trim_space remote_addr in
      any (λ network. w.contains_addr network (get_or (p.split_host addr) addr)) set.trusted_proxies

  unfoldable pub client_ip : World → Settings → HttpRequest → String
  unfolding is_trusted_proxy
  client_ip w set r =
      let forwarded = trim_space r.forwarded_for in
      if not (forwarded == "") && is_trusted_proxy w set r.remote_addr
      then trim_space (text_before "," forwarded)
      else get_or (p.split_host r.remote_addr) r.remote_addr

module _ ⦃p : Platform⦄ (w : World) (set : Settings) where
  -- nextID
  unfoldable pub next_id : String → Handler String
  next_id prefix = do
    t ← tick
    n ← next_count
    let front = join_with "-" (prefix ∷ sanitize_identifier set.instance_name ∷ itoa n ∷ [])
    pure (elim (w.random t) [ none ↦ front | some hex ↦ cat front (cat "-" hex) ])

  -- recordAudit: whether the record could be written is not looked at.
  unfoldable pub record_audit :
      HttpRequest → Principal → String → String → String → String → Dict String → Handler (Unit {0})
  unfolding next_id client_ip
  record_audit r who action resource_type resource_id outcome metadata = do
    let tenant = tenant_or_default who.tenant
    id ← next_id "aud"
    now ← clock_now w
    let event : AuditEvent = record {
      id = id;
      timestamp = now;
      tenant = tenant;
      chain_index = 0;
      prev_hash = "";
      hash = "";
      actor = if who.name == "" then "anonymous" else who.name;
      roles = who.roles;
      action = action;
      resource_type = resource_type;
      resource_id = resource_id;
      outcome = outcome;
      source_ip = client_ip w set r;
      user_agent = r.user_agent;
      metadata = put_if (not (tenant == "")) "tenant" tenant metadata;
    }
    err ← on_store w (λ at written s. add_audit set.secrets at written s event)
    pure tt

-- What a handler answers the client with in the end: an early reply or the last one.
abbrev pub reply_of : Reply ⊎ Reply → Reply
reply_of (inl r) = r
reply_of (inr r) = r
