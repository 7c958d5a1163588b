-- ===== src/Examples/Store.antt =====
-- The theorems about the store at concrete records.
use open_agentic_threat_defe.Domain.{Alert, AuditEvent, Event, ResponseAction}
use open_agentic_threat_defe.Examples.Fixtures.{host_alert, host_event, sample_store}
use open_agentic_threat_defe.Go.Ascii.{ascii}
use open_agentic_threat_defe.Go.Maps.{lookup}
use open_agentic_threat_defe.Go.Strings.{trim_space}
use open_agentic_threat_defe.Prelude.{Bool, [], any, filter, none, not, refl, ◌&&◌, ◌==◌, ◌∷◌, ◌≡◌}
use open_agentic_threat_defe.Store.Approval.{approve_action-keeps_blocked, approved, is_blocked}
use open_agentic_threat_defe.Store.AssetTenants.{assets_of_other_tenants}
use open_agentic_threat_defe.Store.Assets.{asset_key, raise_asset_risk, upsert_asset}
use open_agentic_threat_defe.Store.Fingerprints.{IsDeduplicated, add_alerts-IsDeduplicated}
use open_agentic_threat_defe.Store.Isolation.{tenant_lists_exact}
use open_agentic_threat_defe.Store.Operations.{
  add_alerts, list_actions_for_tenant, list_alerts_for_tenant, list_audits_for_tenant,
  list_events_for_tenant,
}
use open_agentic_threat_defe.Store.Persistence.{enforce_retention, rebuild_fingerprints}
use open_agentic_threat_defe.Store.Retention.{enforce_retention_exact, is_fresh}
use open_agentic_threat_defe.Store.Tenant.{same_tenant, tenant_or_default}

add_alerts-IsDeduplicated_example :
    IsDeduplicated (add_alerts ⦃p = ascii⦄ 9 none sample_store (host_alert ∷ host_alert ∷ [])).0
unfolding rebuild_fingerprints
add_alerts-IsDeduplicated_example =
    add_alerts-IsDeduplicated ⦃p = ascii⦄ 9 none sample_store (host_alert ∷ host_alert ∷ [])
      (record { agrees = λ f. refl; distinct = (refl, tt) })

approve_action-keeps_blocked_example :
    (filter is_blocked (approved none sample_store "q-1" "bob" 9).0.actions
      ≡ filter is_blocked sample_store.actions)
    × (filter (λ a. not (a.id == "q-1")) (approved none sample_store "q-1" "bob" 9).0.actions
        ≡ filter (λ a. not (a.id == "q-1")) sample_store.actions)
approve_action-keeps_blocked_example = approve_action-keeps_blocked none sample_store "q-1" "bob" 9

enforce_retention_exact_example :
    ((enforce_retention ⦃p = ascii⦄ 20 (record sample_store { retention_window = 5 })).events
      ≡ filter (λ x. is_fresh 15 x.timestamp) sample_store.events)
    × ((enforce_retention ⦃p = ascii⦄ 20 (record sample_store { retention_window = 5 })).alerts
        ≡ filter (λ x. is_fresh 15 x.created_at) sample_store.alerts)
    × ((enforce_retention ⦃p = ascii⦄ 20 (record sample_store { retention_window = 5 })).actions
        ≡ filter (λ x. is_fresh 15 x.created_at) sample_store.actions)
    × ((enforce_retention ⦃p = ascii⦄ 20 (record sample_store { retention_window = 5 })).audits
        ≡ filter (λ x. is_fresh 15 x.timestamp) sample_store.audits)
enforce_retention_exact_example =
    enforce_retention_exact ⦃p = ascii⦄ 20 (record sample_store { retention_window = 5 }) refl

tenant_lists_exact_example :
    ((q : Event → Bool)
      → any q (list_events_for_tenant ⦃p = ascii⦄ sample_store "acme")
        ≡ any (λ x. same_tenant ⦃p = ascii⦄ x.tenant "acme" && q x) sample_store.events)
    × ((q : Alert → Bool)
        → any q (list_alerts_for_tenant ⦃p = ascii⦄ sample_store "acme")
          ≡ any (λ x. same_tenant ⦃p = ascii⦄ x.tenant "acme" && q x) sample_store.alerts)
    × ((q : ResponseAction → Bool)
        → any q (list_actions_for_tenant ⦃p = ascii⦄ sample_store "acme")
          ≡ any (λ x. same_tenant ⦃p = ascii⦄ x.tenant "acme" && q x) sample_store.actions)
    × ((q : AuditEvent → Bool)
        → any q (list_audits_for_tenant ⦃p = ascii⦄ sample_store "acme")
          ≡ any (λ x. same_tenant ⦃p = ascii⦄ x.tenant "acme" && q x) sample_store.audits)
unfolding trim_space
tenant_lists_exact_example = tenant_lists_exact ⦃p = ascii⦄ sample_store "acme" refl refl

assets_of_other_tenants_example :
    (lookup (asset_key ⦃p = ascii⦄ "beta" "host-a") (upsert_asset ⦃p = ascii⦄ host_event [])
      ≡ lookup (asset_key ⦃p = ascii⦄ "beta" "host-a") [])
    × (lookup (asset_key ⦃p = ascii⦄ "beta" "host-a") (raise_asset_risk ⦃p = ascii⦄ host_alert [])
        ≡ lookup (asset_key ⦃p = ascii⦄ "beta" "host-a") [])
unfolding trim_space tenant_or_default same_tenant
assets_of_other_tenants_example =
    assets_of_other_tenants ⦃p = ascii⦄ host_event host_alert "beta" "host-a" []
      (refl, (refl, (refl, (refl, tt)))) (refl, (refl, (refl, (refl, tt))))
      (refl, (refl, (refl, (refl, tt)))) refl refl
