-- ===== src/Server/Invariants/Ingests.antt =====
-- What the handlers of events, responses, canaries and overlays keep.
use open_agentic_threat_defe.Domain.{DeceptionToken, Event}
use open_agentic_threat_defe.Go.Exec.{gets, or_stop}
use open_agentic_threat_defe.Policy.Rules.{evaluate}
use open_agentic_threat_defe.Go.Exec.Keeps.{
  Keeps, Keeps-gets, Keeps-or_stop, Keeps-bind, Keeps-pure, Keeps-update, keeps_rules,
}
use open_agentic_threat_defe.Go.Runtime.{Platform}
use open_agentic_threat_defe.Policy.Deception.{remove_deception_token}
use open_agentic_threat_defe.Policy.Engine.{Engine, TenantPolicy}
use open_agentic_threat_defe.Policy.Registry.{add_deception_token, named_token, store_token}
use open_agentic_threat_defe.Policy.Tenants.{remove_tenant_policy, set_tenant_policy}
use open_agentic_threat_defe.Prelude.{Bool, List, String, [], arith, false, true, ℕ, ◌∷◌, ◌≡◌, ◌⊎◌}
use open_agentic_threat_defe.Server.Administration.{
  drop_overlay, handle_deception_tokens, handle_tenant_policies, if_removed, on_engine,
  overlay_gone, register_token, set_overlay, unregister_token,
}
use open_agentic_threat_defe.Server.Ingest.{
  correlate_tenant, handle_events, ingest, ingest_each, keep_event, post_events,
}
use open_agentic_threat_defe.Server.Stable.{
  Keeps-clock_now, Keeps-ok_or_500, Keeps-or_500, Keeps-prepare_alerts, Keeps-prepare_event,
  Keeps-record_audit, Stable,
}
use open_agentic_threat_defe.Server.State.{App, HttpRequest, Settings, World, write_error}

module _ ⦃p : Platform⦄ (w : World) (set : Settings) {P : App → Type 0} (st : Stable w set P) where
  Keeps-keep_event : (tenant : String) (event : Event) → Keeps P (keep_event w set tenant event)
  unfolding keep_event
  Keeps-keep_event tenant event =
      search (keeps_rules, Keeps-prepare_event w set st, st.on_event, Keeps-ok_or_500 w set st)
        depth 12

  Keeps-ingest_each :
      (tenant : String) (events : List Event) → Keeps P (ingest_each w set tenant events)
  unfolding ingest_each
  Keeps-ingest_each tenant [] = search keeps_rules
  Keeps-ingest_each tenant (event ∷ events) =
      Keeps-bind _ _ (Keeps-keep_event tenant event) (λ kept.
        Keeps-bind (gets (λ (app : App). evaluate app.engine kept)) _ (Keeps-gets _)
          (λ raised. Keeps-bind _ _ (Keeps-ingest_each tenant events) (λ rest. Keeps-pure _)))

  Keeps-correlate_tenant : (tenant : String) → Keeps P (correlate_tenant w set tenant)
  unfolding correlate_tenant
  Keeps-correlate_tenant tenant =
      Keeps-bind (gets _) _ (Keeps-gets _)
        (λ recent. search (keeps_rules, Keeps-clock_now w set st))

  Keeps-ingest : (events : List Event) (tenant : String) → Keeps P (ingest w set events tenant)
  unfolding ingest
  Keeps-ingest events tenant =
      search
        (
          keeps_rules,
          Keeps-ingest_each,
          Keeps-correlate_tenant,
          Keeps-prepare_alerts w set st,
          st.on_alerts,
          Keeps-or_500 w set st,
        )
        depth 12

  pub Keeps-handle_events :
      (r : HttpRequest) (body : List Event ⊎ String) → Keeps P (handle_events w set r body)
  unfolding handle_events post_events
  Keeps-handle_events r body =
      search (keeps_rules, Keeps-ingest, Keeps-record_audit w set st) depth 14

  module _ {A : Type 0} where
    Keeps-on_engine :
        (f : Engine → Engine × A)
        → ((e : Engine) → (f e).0.history ≡ e.history)
        → Keeps P (on_engine f)
    unfolding on_engine
    Keeps-on_engine f same =
        Keeps-update _ (λ app h. st.on_configured app (f app.engine).0 (same app.engine) h)

  add_deception_token-history :
      (e : Engine) (now : ℕ) (token : DeceptionToken)
      → (add_deception_token e now token).0.history ≡ e.history
  unfolding add_deception_token store_token named_token
  add_deception_token-history e now token = ground arith

  remove_deception_token-history :
      (e : Engine) (id : String) → (remove_deception_token e id).0.history ≡ e.history
  unfolding remove_deception_token
  remove_deception_token-history e id = ground arith

  set_tenant_policy-history :
      (e : Engine) (policy : TenantPolicy) → (set_tenant_policy e policy).0.history ≡ e.history
  unfolding set_tenant_policy
  set_tenant_policy-history e policy = ground arith

  remove_tenant_policy-history :
      (e : Engine) (id : String) → (remove_tenant_policy e id).0.history ≡ e.history
  unfolding remove_tenant_policy
  remove_tenant_policy-history e id = ground arith

  Keeps-if_removed : (b : Bool) (name : String) → Keeps P (if_removed b name)
  unfolding if_removed
  Keeps-if_removed true name = search keeps_rules
  Keeps-if_removed false name = search keeps_rules

  Keeps-overlay_gone : (b : Bool) (name : String) → Keeps P (overlay_gone b name)
  unfolding overlay_gone
  Keeps-overlay_gone true name = search keeps_rules
  Keeps-overlay_gone false name = search keeps_rules

  Keeps-add_token :
      (now : ℕ) (token : DeceptionToken)
      → Keeps P (on_engine (λ e. add_deception_token e now token))
  Keeps-add_token now token =
      Keeps-on_engine (λ e. add_deception_token e now token)
        (λ e. add_deception_token-history e now token)

  Keeps-register_token :
      (r : HttpRequest) (body : DeceptionToken ⊎ String) → Keeps P (register_token w set r body)
  unfolding register_token
  Keeps-register_token r body =
      Keeps-bind (or_stop body (write_error 400)) _ (Keeps-or_stop _ _) (λ token.
        Keeps-bind _ _ (Keeps-clock_now w set st) (λ now.
          Keeps-bind _ _ (Keeps-add_token now token)
            (λ answer. search (keeps_rules, Keeps-record_audit w set st) depth 12)))

  Keeps-unregister_token :
      (r : HttpRequest) (query : String) → Keeps P (unregister_token w set r query)
  unfolding unregister_token
  Keeps-unregister_token r query =
      search
        (
          keeps_rules,
          λ (id : String).
              Keeps-on_engine (λ e. remove_deception_token e id)
                (λ e. remove_deception_token-history e id),
          Keeps-if_removed,
          Keeps-record_audit w set st,
        )
        depth 14

  pub Keeps-handle_deception_tokens :
      (r : HttpRequest) (query : String) (body : DeceptionToken ⊎ String)
      → Keeps P (handle_deception_tokens w set r query body)
  unfolding handle_deception_tokens
  Keeps-handle_deception_tokens r query body =
      search (keeps_rules, Keeps-register_token, Keeps-unregister_token) depth 14

  Keeps-set_overlay :
      (r : HttpRequest) (body : TenantPolicy ⊎ String) → Keeps P (set_overlay w set r body)
  unfolding set_overlay
  Keeps-set_overlay r body =
      search
        (
          keeps_rules,
          λ (policy : TenantPolicy).
              Keeps-on_engine (λ e. set_tenant_policy e policy)
                (λ e. set_tenant_policy-history e policy),
          Keeps-record_audit w set st,
        )
        depth 14

  Keeps-drop_overlay : (r : HttpRequest) (query : String) → Keeps P (drop_overlay w set r query)
  unfolding drop_overlay
  Keeps-drop_overlay r query =
      search
        (
          keeps_rules,
          λ (id : String).
              Keeps-on_engine (λ e. remove_tenant_policy e id)
                (λ e. remove_tenant_policy-history e id),
          Keeps-overlay_gone,
          Keeps-record_audit w set st,
        )
        depth 14

  pub Keeps-handle_tenant_policies :
      (r : HttpRequest) (query : String) (body : TenantPolicy ⊎ String)
      → Keeps P (handle_tenant_policies w set r query body)
  unfolding handle_tenant_policies
  Keeps-handle_tenant_policies r query body =
      search (keeps_rules, Keeps-set_overlay, Keeps-drop_overlay) depth 14
