-- ===== src/Server/Tenancy.antt =====
-- server.go: for which tenant a principal acts, and which tenants it administers.
use open_agentic_threat_defe.Auth.Roles.{Principal, admin, has_any}
use open_agentic_threat_defe.Go.Runtime.{Platform}
use open_agentic_threat_defe.Go.Strings.{trim_space}
use open_agentic_threat_defe.Prelude.{
  Bool, List, Option, String, [], any, false, get_or, if◌then◌else◌, not, true, ◌&&◌, ◌==◌, ◌∷◌,
}
use open_agentic_threat_defe.Store.Tenant.{tenant_or_default}

module _ ⦃p : Platform⦄ where
  unfoldable pub tenant_for_principal : Principal → String
  tenant_for_principal who = tenant_or_default who.tenant

  unfoldable pub is_platform_admin : Principal → Bool
  is_platform_admin who = has_any who (admin ∷ []) && tenant_or_default who.tenant == "default"

  -- canAdministerTenant: `admins` are those of the tenant's record, `none` where it has none.
  unfoldable pub can_administer_tenant : Principal → String → Option (List String) → Bool
  unfolding is_platform_admin
  can_administer_tenant who target admins =
      if not (has_any who (admin ∷ []))
      then false
      else if is_platform_admin who
      then true
      else if tenant_or_default who.tenant == tenant_or_default target
      then true
      else any (λ name. p.equal_fold (trim_space name) (trim_space who.name)) (get_or admins [])
