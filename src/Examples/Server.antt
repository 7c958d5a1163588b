-- ===== src/Examples/Server.antt =====
-- The theorems about the handlers at concrete requests.
use open_agentic_threat_defe.Auth.Roles.{Principal}
use open_agentic_threat_defe.Domain.{ResponseAction, ToolCallDecision}
use open_agentic_threat_defe.Examples.Fixtures.{
  ascii-DigestsAreVisible, host_event, queued_action, blank_request, other_tool_request,
  sample_engine,
}
use open_agentic_threat_defe.Examples.Web.{
  alice, app, blocked_approval, codec, coding, encode, network, post_request, queued_approval, rpc,
  settings, world,
}
use open_agentic_threat_defe.Go.Ascii.{ascii}
use open_agentic_threat_defe.Go.Maps.{lookup}
use open_agentic_threat_defe.Go.Strings.{has_prefix, lower, trim_space}
use open_agentic_threat_defe.Policy.Gateway.Decisions.{decision}
use open_agentic_threat_defe.Prelude.{
  Option, [], arith, false, inl, none, refl, some, true, ◌∷◌, ◌↔◌, ◌≡◌, ◌⊎◌,
}
use open_agentic_threat_defe.Server.Access.{
  Authorized, NeedsNoLogin, is_open_path, served, with_auth, with_auth-served_iff,
}
use open_agentic_threat_defe.Server.Blocked.{
  approval, blocked_error, blocked_never_executed, foreign_approval,
}
use open_agentic_threat_defe.Server.Dispatched.{proxy_call_dispatched}
use open_agentic_threat_defe.Server.Confined.{ingest_stays_in_tenant}
use open_agentic_threat_defe.Server.Ingest.{handle_events}
use open_agentic_threat_defe.Store.Others.{alerts_of, events_of}
use open_agentic_threat_defe.Server.Denied.{denied_call_blocked, refused_call}
use open_agentic_threat_defe.Server.Gated.{MaySend, mcp_sends_only_allowed}
use open_agentic_threat_defe.Server.Guard.{RefusedWith, refused_runs_nothing}
use open_agentic_threat_defe.Server.Limiter.{Holds, has_room}
use open_agentic_threat_defe.Server.Mcp.{handle_mcp_proxy}
use open_agentic_threat_defe.Server.Approval.{ApprovalRequest, approve_named}
use open_agentic_threat_defe.Server.Runs.{
  Call, IsSound, Reaches, at_start, reached-IsSound, serve, then_call, to_decide,
}
use open_agentic_threat_defe.Server.Slots.{reached_has_room}
use open_agentic_threat_defe.Server.State.{
  App, Handler, HttpRequest, Reply, Settings, reply_of, write_error,
}
use open_agentic_threat_defe.Server.Tenancy.{tenant_for_principal}
use open_agentic_threat_defe.Server.Upstream.{
  checked_host, is_blocked_proxy_host, is_blocked_proxy_ip, resolved_target, scan_addrs,
  select_addr, validate_proxy_upstream_url,
}
use open_agentic_threat_defe.Server.Validated.{IsSafeTarget, validated-IsSafeTarget}
use open_agentic_threat_defe.Store.Approval.{is_blocked}
use open_agentic_threat_defe.Store.Grants.{granted}
use open_agentic_threat_defe.Store.Operations.{get_action}
use open_agentic_threat_defe.Store.State.{new_store}
use open_agentic_threat_defe.Store.Persistence.{rebuild_fingerprints}
use open_agentic_threat_defe.Policy.History.{default_limits}
use open_agentic_threat_defe.Store.Tenant.{same_tenant, tenant_or_default}

with_auth-served_iff_example :
    (with_auth true "GET" "/api/alerts" (some alice) ≡ served (some alice)) ↔ (
      (NeedsNoLogin "/api/alerts" × (◌≡◌ {A = Option Principal} (some alice) none))
      ⊎ ((¬ NeedsNoLogin "/api/alerts") × Authorized "GET" "/api/alerts" (some alice) (some alice)))
with_auth-served_iff_example = with_auth-served_iff "GET" "/api/alerts" (some alice) (some alice)

abbrev reader_request : HttpRequest
reader_request = record post_request { method = "GET"; path = "/api/alerts" }

-- A handler that would send what it is asked to.
abbrev forwarding : HttpRequest → Handler Reply
forwarding r = handle_mcp_proxy ⦃p = coding⦄ world network settings codec r (inl "ping")

refused_runs_nothing_example :
    ((◌≡◌ {A = Option Principal} none none)
      × RefusedWith ⦃p = ascii⦄ world settings forwarding reader_request none app 401)
    ⊎ ((pr : Principal) × (◌≡◌ {A = Option Principal} none (some pr))
        × RefusedWith ⦃p = ascii⦄ world settings forwarding reader_request none app 403)
unfolding is_open_path has_prefix
refused_runs_nothing_example =
    refused_runs_nothing ⦃p = ascii⦄ world settings forwarding reader_request none app refl
      (λ pr e. absurd (cc))

mcp_sends_only_allowed_example :
    ((handle_mcp_proxy ⦃p = coding⦄ world network settings codec post_request (inl "rm") app).1.sent
      ≡ [])
    ⊎ MaySend ⦃p = coding⦄ world network settings codec post_request (inl "rm") app.engine
mcp_sends_only_allowed_example =
    mcp_sends_only_allowed ⦃p = coding⦄ world network settings codec post_request (inl "rm") app

blocked_never_executed_example :
    (reply_of (approval ⦃p = ascii⦄ world network settings post_request blocked_approval app).0
      ≡ write_error 409 blocked_error)
    × ((approval ⦃p = ascii⦄ world network settings post_request blocked_approval app).1.store
        ≡ app.store)
    × ((approval ⦃p = ascii⦄ world network settings post_request blocked_approval app).1.sent ≡ [])
    × ((approval ⦃p = ascii⦄ world network settings post_request blocked_approval app).1.dispatched
        ≡ [])
unfolding get_action
blocked_never_executed_example =
    blocked_never_executed ⦃p = ascii⦄ world network settings post_request blocked_approval app
      (record queued_action { id = "q-2"; execution_status = "blocked" }) refl refl refl refl refl

-- The application, with a store that has no record.
abbrev empty_app : App
empty_app = record app { store = new_store }

abbrev rm_decision : ToolCallDecision
rm_decision = decision ⦃p = ascii⦄ default_limits sample_engine other_tool_request 5 6

-- A denied call to the MCP proxy.
abbrev rm_refused : (Reply ⊎ Reply) × App
rm_refused =
    refused_call ⦃p = ascii⦄ world network settings codec post_request "{}" rpc other_tool_request
      rm_decision "acme" empty_app

denied_call_blocked_example :
    ((reply_of rm_refused.0).status ≡ 403)
    × (rm_refused.1.sent ≡ [])
    × ((kept : ResponseAction) × (rm_refused.1.store.actions ≡ kept ∷ [])
        × (is_blocked kept ≡ true)
        × (kept.approval_status ≡ "not_required")
        × (lookup "mcp_raw_request" kept.metadata ≡ some "{}"))
denied_call_blocked_example =
    denied_call_blocked ⦃p = ascii⦄ world network settings codec post_request "{}" rpc
      other_tool_request rm_decision "acme" empty_app refl refl

-- A caller of another tenant than the action's.
abbrev foreign_request : HttpRequest
foreign_request = record post_request { principal = record alice { tenant = "other" } }

abbrev foreign_run : (Reply ⊎ Reply) × App
foreign_run = approve_named ⦃p = ascii⦄ world network settings foreign_request queued_approval app

foreign_approval_example :
    (reply_of foreign_run.0 ≡ write_error 404 "action not found")
    × (foreign_run.1.sent ≡ [])
    × (foreign_run.1.dispatched ≡ [])
    × (get_action foreign_run.1.store "q-1" ≡ some (granted queued_action "bob" 100))
unfolding get_action same_tenant tenant_or_default tenant_for_principal trim_space
foreign_approval_example =
    foreign_approval ⦃p = ascii⦄ world network settings foreign_request queued_approval app
      queued_action refl refl refl refl

-- A call that the HTTP proxy blocked, and settings with a connector.
abbrev blocked_proxy_call : ResponseAction
blocked_proxy_call = record queued_action {
  id = "q-3";
  action_type = "gateway_proxy";
  approval_status = "not_required";
  execution_status = "blocked";
}

abbrev proxy_app : App
proxy_app = record app { store = record new_store { actions = blocked_proxy_call ∷ [] } }

abbrev connected : Settings
connected = record settings { response_connector = some "webhook" }

abbrev proxy_approval : ApprovalRequest
proxy_approval = record { action_id = "q-3"; approved_by = "bob" }

proxy_call_dispatched_example :
    (approve_named ⦃p = ascii⦄ world network connected post_request proxy_approval
      proxy_app).1.dispatched
    ≡ ("webhook", granted blocked_proxy_call "bob" 100) ∷ []
unfolding get_action same_tenant tenant_or_default tenant_for_principal trim_space
proxy_call_dispatched_example =
    proxy_call_dispatched ⦃p = ascii⦄ world network connected post_request proxy_approval proxy_app
      blocked_proxy_call "webhook" refl refl refl refl refl

new_store-IsSound : IsSound ⦃p = ascii⦄ settings empty_app
unfolding rebuild_fingerprints
new_store-IsSound = record {
  chained = record { links = tt; linked = tt; numbers = tt; head = refl; valid = refl };
  no_retention = refl;
  deduplicated = record { agrees = λ f. refl; distinct = tt };
  bounded = record { entries = tt; size = omega arith };
}

abbrev one_call : Call
one_call = to_decide post_request (inl blank_request)

-- The application after one call.
abbrev after_call : App
after_call = serve ⦃p = ascii⦄ world network settings codec encode one_call empty_app

one_call-Reaches : Reaches ⦃p = ascii⦄ world network settings codec encode empty_app after_call
one_call-Reaches = then_call empty_app one_call at_start

reached-IsSound_example : IsSound ⦃p = ascii⦄ settings after_call
reached-IsSound_example =
    reached-IsSound ⦃p = ascii⦄ world settings ascii-DigestsAreVisible (omega arith) (omega arith)
      network codec encode empty_app after_call new_store-IsSound one_call-Reaches

reached_has_room_example : (has_room after_call ≡ true) × Holds (some 2) 0 0 after_call
reached_has_room_example =
    reached_has_room ⦃p = ascii⦄ world network settings codec encode empty_app after_call refl
      one_call-Reaches

validated-IsSafeTarget_example : IsSafeTarget ⦃p = ascii⦄ network 0 "https://up" false (record {
  url = record { scheme = "https"; hostname = "up"; port = ""; text = "https://up" };
  ip = "8.8.8.8";
})
unfolding validate_proxy_upstream_url checked_host is_blocked_proxy_host resolved_target scan_addrs
    select_addr is_blocked_proxy_ip trim_space lower
validated-IsSafeTarget_example =
    validated-IsSafeTarget ⦃p = ascii⦄ network 0 "https://up" false
      (record {
        url = record { scheme = "https"; hostname = "up"; port = ""; text = "https://up" };
        ip = "8.8.8.8";
      })
      refl

abbrev events_run : App
events_run = (handle_events ⦃p = ascii⦄ world settings post_request (inl (host_event ∷ [])) app).1

ingest_stays_in_tenant_example :
    (events_of ⦃p = ascii⦄ "beta" events_run.store ≡ events_of ⦃p = ascii⦄ "beta" app.store)
    × (alerts_of ⦃p = ascii⦄ "beta" events_run.store ≡ alerts_of ⦃p = ascii⦄ "beta" app.store)
unfolding same_tenant tenant_or_default trim_space
ingest_stays_in_tenant_example =
    ingest_stays_in_tenant ⦃p = ascii⦄ world settings post_request (inl (host_event ∷ [])) "beta"
      app refl refl refl
