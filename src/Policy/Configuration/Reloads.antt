-- ===== src/Policy/Configuration/Reloads.antt =====
-- What a reload changes, and what it leaves alone.
use open_agentic_threat_defe.Domain.{DeceptionToken, ToolCallRequest, deny}
use open_agentic_threat_defe.Go.Maps.{lookup}
use open_agentic_threat_defe.Go.Runtime.{Platform}
use open_agentic_threat_defe.Go.Strings.{elem, trim_space}
use open_agentic_threat_defe.Policy.Configuration.{Config, new_engine, reload, with_defaults}
use open_agentic_threat_defe.Policy.Deception.{normalize_deception_token, token_hits}
use open_agentic_threat_defe.Policy.Engine.{Engine, TenantPolicy}
use open_agentic_threat_defe.Policy.Gateway.Alerts.{scanned}
use open_agentic_threat_defe.Policy.Gateway.Decisions.{decision, registered_canary_denied}
use open_agentic_threat_defe.Policy.Gateway.Gate.{gate_tool_call}
use open_agentic_threat_defe.Policy.History.{HistoryLimits, record_gateway_history}
use open_agentic_threat_defe.Policy.Registry.{
  add_deception_token, named_token, set_deception_tokens, set_tokens, store_token,
}
use open_agentic_threat_defe.Policy.Registry.Fresh.{add_deception_token-IsStored}
use open_agentic_threat_defe.Policy.Tenants.{
  compile_list, is_tool_approved, normalize_tool, overlay, remove_tenant_policy, set_tenant_policy,
  tool_approved_for_tenant, tools_decision,
}
use open_agentic_threat_defe.Policy.Tenants.Overlays.{compile_list-elem}
use open_agentic_threat_defe.Policy.Text.{gateway_text_variants}
use open_agentic_threat_defe.Prelude.{
  Bool-cases, List, String, [], any, ap, arith, eq_refl, false, inl, inr, refl, some, subst, suc,
  true, ℕ, ◌==◌, ◌∙◌, ◌∷◌, ◌≡◌,
}

module _ ⦃p : Platform⦄ where
  store_token-tools :
      (e : Engine) (t : DeceptionToken) → (store_token e t).0.approved_tools ≡ e.approved_tools
  unfolding store_token named_token
  store_token-tools e t = ground arith

  set_tokens-tools :
      (clock : ℕ → ℕ) (i : ℕ) (e : Engine) (tokens : List DeceptionToken)
      → (set_tokens clock i e tokens).approved_tools ≡ e.approved_tools
  unfolding set_tokens
  set_tokens-tools clock i e [] = refl
  set_tokens-tools clock i e (token ∷ tokens) =
      set_tokens-tools clock (suc i) _ tokens
      ∙ ground (arith, store_token-tools e (normalize_deception_token (clock i) token))

  new_engine-tools :
      (clock : ℕ → ℕ) (config : Config)
      → (new_engine clock config).approved_tools
        ≡ compile_list normalize_tool [] (with_defaults config).approved_tools
  unfolding new_engine set_deception_tokens
  new_engine-tools clock config = set_tokens-tools clock 0 _ (with_defaults config).deception_tokens

  -- After a reload a tool is approved for a tenant as the tenant's overlay of before decides it, and
  -- where it does not decide, exactly if the tool is the normal form of one that the new
  -- configuration lists, or of a default tool where it lists none. The canaries, the tenants' overlays
  -- and the history of sessions are those of before. (The tool is not blank.)
  pub reload_decides_tools :
      (clock : ℕ → ℕ) (e : Engine) (config : Config) (tenant tool : String)
      → (tool == "") ≡ false
      → (tool_approved_for_tenant (reload clock e config) tenant tool
          ≡ tools_decision
              (overlay e tenant)
              tool
              (any (λ x. normalize_tool x == tool) (with_defaults config).approved_tools))
        × ((reload clock e config).deception ≡ e.deception)
        × ((reload clock e config).tenant_policies ≡ e.tenant_policies)
        × ((reload clock e config).history ≡ e.history)
  unfolding tool_approved_for_tenant is_tool_approved overlay reload
  reload_decides_tools clock e config tenant tool h = (
    ap (λ b. tools_decision (overlay e tenant) tool b)
        (ap (elem tool) (new_engine-tools clock config)
          ∙ compile_list-elem normalize_tool [] (with_defaults config).approved_tools tool h),
    refl,
    refl,
    refl,
  )

-- The engine after any number of reloads, changes of overlays and decisions.
pub data Evolves ⦃p : Platform⦄ (e : Engine) : Engine → Type 0 where
  unchanged : Evolves e e
  reloaded :
      {e' : Engine}
      → Evolves e e'
      → (clock : ℕ → ℕ) (config : Config) → Evolves e (reload clock e' config)
  overlay_set :
      {e' : Engine}
      → Evolves e e'
      → (policy : TenantPolicy) → Evolves e (set_tenant_policy e' policy).0
  overlay_removed :
      {e' : Engine}
      → Evolves e e'
      → (tenant : String) → Evolves e (remove_tenant_policy e' tenant).0
  decided :
      {e' : Engine}
      → Evolves e e'
      → (limits : HistoryLimits) (r : ToolCallRequest) (now seen : ℕ)
      → Evolves e (gate_tool_call limits e' r now seen).0

module _ ⦃p : Platform⦄ where
  set_tenant_policy-deception :
      (e : Engine) (policy : TenantPolicy) → (set_tenant_policy e policy).0.deception ≡ e.deception
  unfolding set_tenant_policy
  set_tenant_policy-deception e policy = ground arith

  remove_tenant_policy-deception :
      (e : Engine) (tenant : String) → (remove_tenant_policy e tenant).0.deception ≡ e.deception
  unfolding remove_tenant_policy
  remove_tenant_policy-deception e tenant = ground arith

  gate_tool_call-deception :
      (limits : HistoryLimits) (e : Engine) (r : ToolCallRequest) (now seen : ℕ)
      → (gate_tool_call limits e r now seen).0.deception ≡ e.deception
  unfolding gate_tool_call record_gateway_history
  gate_tool_call-deception limits e r now seen = ground arith

  -- What was added is found.
  stored-lookup :
      (e : Engine) (now : ℕ) (given stored : DeceptionToken)
      → (add_deception_token e now given).1 ≡ inl stored
      → lookup stored.id (add_deception_token e now given).0.deception ≡ some stored
  unfolding add_deception_token
  stored-lookup e now given stored h = elim (Bool-cases (trim_space given.value == "")) [
    | inl c ↦ absurd (ground arith)
    | inr c ↦
        let (t, a, s) = add_deception_token-IsStored e now given c in
        let same : t ≡ stored = cc in
        subst
          (λ (x : DeceptionToken).
            lookup x.id (add_deception_token e now given).0.deception ≡ some x)
          same (s.lookup_after t.id ∙ rw (eq_refl t.id) refl)
  ]

  deception_kept : {e e' : Engine} → Evolves e e' → e'.deception ≡ e.deception
  unfolding reload
  deception_kept unchanged = refl
  deception_kept (reloaded s clock config) = deception_kept s
  deception_kept (overlay_set s policy) = set_tenant_policy-deception _ policy ∙ deception_kept s
  deception_kept (overlay_removed s tenant) =
      remove_tenant_policy-deception _ tenant ∙ deception_kept s
  deception_kept (decided s limits r now seen) =
      gate_tool_call-deception limits _ r now seen ∙ deception_kept s

  -- Once a canary was added, every call whose text contains it is denied, however often the
  -- configuration was reloaded, overlays were changed and calls were decided in between.
  pub added_canary_denied :
      (limits : HistoryLimits) (e e' : Engine) (given stored : DeceptionToken) (r : ToolCallRequest)
      (added now seen : ℕ)
      → (add_deception_token e added given).1 ≡ inl stored
      → Evolves (add_deception_token e added given).0 e'
      → token_hits (gateway_text_variants (scanned e' r)) stored ≡ true
      → (decision limits e' r now seen).verdict ≡ deny
  added_canary_denied limits e e' given stored r added now seen a s h =
      registered_canary_denied limits e' r now seen stored.id stored
        (ap (lookup stored.id) (deception_kept s) ∙ stored-lookup e added given stored a) h
