-- ===== src/Store/Isolation.antt =====
-- What a tenant sees of a store.
use open_agentic_threat_defe.Domain.{Alert, AuditEvent, Event, ResponseAction}
use open_agentic_threat_defe.Go.Runtime.{Platform}
use open_agentic_threat_defe.Go.Strings.{trim_space}
use open_agentic_threat_defe.Go.Strings.Trim.{trim-trim}
use open_agentic_threat_defe.Prelude.{
  Bool, List, String, any, any-filter, any-sort, arith, false, sort, ◌&&◌, ◌==◌, ◌∙◌, ◌≡◌,
}
use open_agentic_threat_defe.Store.Operations.{
  list_actions, list_actions_for_tenant, list_alerts, list_alerts_for_tenant, list_audits,
  list_audits_for_tenant, list_events, list_events_for_tenant,
}
use open_agentic_threat_defe.Store.State.{Store}
use open_agentic_threat_defe.Store.Tenant.{filter_by_tenant, same_tenant, tenant_or_default}

module _ ⦃p : Platform⦄ where
  -- No letter of the name of the default tenant is a space.
  abbrev pub DefaultIsTrimmed : Type 0
  DefaultIsTrimmed = trim_space "default" ≡ "default"

  pub tenant_or_default_idem :
      DefaultIsTrimmed
      → (t : String) → tenant_or_default (tenant_or_default t) ≡ tenant_or_default t
  unfolding tenant_or_default
  tenant_or_default_idem d t = ground (arith, trim-trim t)

  -- The records of one tenant, tested one by one.
  any-filter_by_tenant {ℓ} :
      {A : Type ℓ} (tenant_of : A → String) (q : A → Bool) (before : A → A → Bool) (xs : List A)
      (tenant : String)
      → DefaultIsTrimmed
      → (tenant == "") ≡ false
      → any q (filter_by_tenant tenant_of (sort before xs) tenant)
        ≡ any (λ x. same_tenant (tenant_of x) tenant && q x) xs
  unfolding filter_by_tenant same_tenant
  any-filter_by_tenant tenant_of q before xs tenant d named =
      rw (named, tenant_or_default_idem d tenant)
        (any-filter (λ x. tenant_or_default (tenant_of x) == tenant_or_default tenant) q
            (sort before xs)
          ∙ any-sort before
              (λ x. (tenant_or_default (tenant_of x) == tenant_or_default tenant) && q x) xs)

  -- The lists of a named tenant hold exactly the store's records of that tenant: a test passes for some
  -- listed event, alert, action or audit record if and only if it passes for some record of the
  -- store that belongs to the tenant. (A record without a tenant belongs to the default one.)
  -- (No letter of the word "default" is taken to be a space.)
  pub tenant_lists_exact :
      (s : Store) (tenant : String)
      → DefaultIsTrimmed
      → (tenant == "") ≡ false
      → ((q : Event → Bool)
          → any q (list_events_for_tenant s tenant)
            ≡ any (λ x. same_tenant x.tenant tenant && q x) s.events)
        × ((q : Alert → Bool)
            → any q (list_alerts_for_tenant s tenant)
              ≡ any (λ x. same_tenant x.tenant tenant && q x) s.alerts)
        × ((q : ResponseAction → Bool)
            → any q (list_actions_for_tenant s tenant)
              ≡ any (λ x. same_tenant x.tenant tenant && q x) s.actions)
        × ((q : AuditEvent → Bool)
            → any q (list_audits_for_tenant s tenant)
              ≡ any (λ x. same_tenant x.tenant tenant && q x) s.audits)
  unfolding list_events_for_tenant list_alerts_for_tenant list_actions_for_tenant
      list_audits_for_tenant list_events list_alerts list_actions list_audits
  tenant_lists_exact s tenant d named = (
    λ q. any-filter_by_tenant (λ (x : Event). x.tenant) q _ s.events tenant d named,
    λ q. any-filter_by_tenant (λ (x : Alert). x.tenant) q _ s.alerts tenant d named,
    λ q. any-filter_by_tenant (λ (x : ResponseAction). x.tenant) q _ s.actions tenant d named,
    λ q. any-filter_by_tenant (λ (x : AuditEvent). x.tenant) q _ s.audits tenant d named,
  )
