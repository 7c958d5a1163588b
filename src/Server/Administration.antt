-- ===== src/Server/Administration.antt =====
-- server.go: the handlers of /api/deception/tokens and of the tenants' policy overlays.
use open_agentic_threat_defe.Auth.Roles.{admin, has_any}
use open_agentic_threat_defe.Domain.{DeceptionToken}
use open_agentic_threat_defe.Go.Exec.{gets, or_stop, pure, stop, update, ◌>>=◌, ◌>>◌}
use open_agentic_threat_defe.Go.Runtime.{Platform}
use open_agentic_threat_defe.Go.Strings.{itoa, trim_space}
use open_agentic_threat_defe.Policy.Deception.{list_deception_tokens, remove_deception_token}
use open_agentic_threat_defe.Policy.Engine.{Engine, TenantPolicy}
use open_agentic_threat_defe.Policy.Registry.{add_deception_token}
use open_agentic_threat_defe.Policy.Tenants.{
  list_tenant_policies, remove_tenant_policy, set_tenant_policy,
}
use open_agentic_threat_defe.Prelude.{
  Bool, List, Option, String, [], false, if◌then◌else◌, inl, inr, length, none, not, some, true,
  ◌==◌, ◌||◌, ◌∷◌, ◌⊎◌,
}
use open_agentic_threat_defe.Server.State.{
  App, Handler, HttpRequest, Reply, Settings, World, clock_now, method_not_allowed, record_audit,
  write_error,
}

pub data DeceptionReply : Type 0 where
  tokens_listed : List DeceptionToken → DeceptionReply
  token_created : DeceptionToken → DeceptionReply
  token_removed : String → DeceptionReply

pub data OverlayReply : Type 0 where
  overlays_listed : List TenantPolicy → OverlayReply
  overlay_stored : TenantPolicy → OverlayReply
  overlay_removed : String → OverlayReply

-- A change of the engine.
module _ {A : Type 0} where
  unfoldable pub on_engine : (Engine → Engine × A) → Handler A
  on_engine f =
      update (λ (app : App). let (engine, a) = f app.engine in (record app { engine = engine }, a))

unfoldable pub if_removed : Bool → String → Handler String
if_removed true name = pure name
if_removed false name = stop (write_error 404 "deception token not found")

unfoldable pub overlay_gone : Bool → String → Handler OverlayReply
overlay_gone true tenant = pure (overlay_removed tenant)
overlay_gone false tenant = stop (write_error 404 "tenant policy not found")

unfoldable pub stored_or_400 : Option TenantPolicy → TenantPolicy ⊎ Reply
stored_or_400 none = inr (write_error 400 "tenant_id is required")
stored_or_400 (some policy) = inl policy

module _ ⦃p : Platform⦄ (w : World) (set : Settings) where
  -- POST: a token is registered.
  unfoldable pub register_token : HttpRequest → DeceptionToken ⊎ String → Handler DeceptionReply
  unfolding on_engine
  register_token r body = do
    token ← or_stop body (write_error 400)
    now ← clock_now w
    answer ← on_engine (λ e. add_deception_token e now token)
    created ← or_stop answer (write_error 400)
    record_audit w set r r.principal "deception.register" "deception_token" created.id "accepted"
        (("name", created.name) ∷ ("kind", created.kind) ∷ [])
    pure (token_created created)

  -- DELETE: `query` is the query's id.
  unfoldable pub unregister_token : HttpRequest → String → Handler DeceptionReply
  unfolding on_engine if_removed
  unregister_token r query =
      let id = trim_space query in
      if id == "" then stop (write_error 400 "id query parameter is required") else (do
        removed ← on_engine (λ e. remove_deception_token e id)
        gone ← if_removed removed id
        record_audit w set r r.principal "deception.remove" "deception_token" gone "accepted" []
        pure (token_removed gone))

  unfoldable pub handle_deception_tokens :
      HttpRequest → String → DeceptionToken ⊎ String → Handler DeceptionReply
  unfolding register_token unregister_token
  handle_deception_tokens r query body =
      if r.method == "GET"
      then gets (λ (app : App). tokens_listed (list_deception_tokens app.engine))
      else if r.method == "POST"
      then register_token r body
      else if r.method == "DELETE"
      then unregister_token r query
      else stop method_not_allowed

  -- POST and PUT: an overlay is set.
  unfoldable pub set_overlay : HttpRequest → TenantPolicy ⊎ String → Handler OverlayReply
  unfolding on_engine stored_or_400
  set_overlay r body = do
    policy ← or_stop body (write_error 400)
    answer ← on_engine (λ e. set_tenant_policy e policy)
    stored ← or_stop (stored_or_400 answer) (λ reply. reply)
    record_audit w set r r.principal "policy.tenant.set" "policy" stored.tenant_id "accepted" (
        ("tenant", stored.tenant_id)
        ∷ ("approved_tools", itoa (length stored.approved_tools))
        ∷ ("approved_egress", itoa (length stored.approved_egress))
        ∷ [])
    pure (overlay_stored stored)

  -- DELETE: `query` is the query's tenant_id.
  unfoldable pub drop_overlay : HttpRequest → String → Handler OverlayReply
  unfolding on_engine overlay_gone
  drop_overlay r query =
      let tenant = trim_space query in
      if tenant == "" then stop (write_error 400 "tenant_id query parameter is required") else (do
        removed ← on_engine (λ e. remove_tenant_policy e tenant)
        record_audit w set r r.principal "policy.tenant.remove" "policy" tenant
            (if removed then "accepted" else "not_found") (("tenant", tenant) ∷ [])
        overlay_gone removed tenant)

  unfoldable pub handle_tenant_policies :
      HttpRequest → String → TenantPolicy ⊎ String → Handler OverlayReply
  unfolding set_overlay drop_overlay
  handle_tenant_policies r query body =
      if not (has_any r.principal (admin ∷ []))
      then stop (write_error 403 "admin role required")
      else if r.method == "GET"
      then gets (λ (app : App). overlays_listed (list_tenant_policies app.engine))
      else if r.method == "POST" || r.method == "PUT"
      then set_overlay r body
      else if r.method == "DELETE"
      then drop_overlay r query
      else stop method_not_allowed
