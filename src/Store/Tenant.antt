-- ===== src/Store/Tenant.antt =====
-- tenant.go of internal/store: to whom a record belongs, and the lists of one tenant.
use open_agentic_threat_defe.Go.Runtime.{Platform}
use open_agentic_threat_defe.Go.Strings.{trim_space}
use open_agentic_threat_defe.Prelude.{Bool, List, String, filter, if◌then◌else◌, ◌==◌}

module _ ⦃p : Platform⦄ where
  unfoldable pub tenant_or_default : String → String
  tenant_or_default value = if trim_space value == "" then "default" else trim_space value

  unfoldable pub same_tenant : String → String → Bool
  same_tenant record_tenant tenant = tenant_or_default record_tenant == tenant_or_default tenant

  -- The five filters filterEventsByTenant, filterAlertsByTenant, filterActionsByTenant,
  -- filterAuditsByTenant and filterAssetsByTenant, which differ in the type of the records: an empty
  -- tenant selects all.
  unfoldable pub filter_by_tenant {ℓ} : {A : Type ℓ} → (A → String) → List A → String → List A
  filter_by_tenant tenant_of records tenant =
      if tenant == ""
      then records
      else filter (λ x. same_tenant (tenant_of x) (tenant_or_default tenant)) records
