-- ===== src/Server/Tenants/Slugs.antt =====
-- Which tenants share a slug, and with it a store.
use open_agentic_threat_defe.Go.Maps.{lookup}
use open_agentic_threat_defe.Go.Runtime.{Platform}
use open_agentic_threat_defe.Go.Strings.{lower, trim_space}
use open_agentic_threat_defe.Go.Strings.Trim.{CaseLaws, lower-trim_idem, trim-trim}
use mathlib.Core.Option.{some-injective}
use open_agentic_threat_defe.Prelude.{
  Bool-cases, Option, String, ap, arith, false, inl, inr, none, some, sym, true, refl, ◌==◌, ◌∙◌,
  ◌≡◌, ◌⊎◌,
}
use open_agentic_threat_defe.Server.Tenants.{
  Backings, TenantBackend, TenantRegistry, default_backend_for_tenant, ensure_tenant_store,
  keep_store, open_and_keep, provision, provisioned, ready_store, slug_of, register_tenant_backend,
  sanitize_tenant_slug,
}
use open_agentic_threat_defe.Server.Tenants
use open_agentic_threat_defe.Store.Tenant.{tenant_or_default}

module _ ⦃p : Platform⦄ where
  -- A tenant of its own, of which the registry has neither a record nor an open store.
  pub record IsUnknown (r : TenantRegistry) (tenant : String) : Type 0 where
    pub named : (tenant_or_default tenant == "default") ≡ false
    pub no_store : lookup (tenant_or_default tenant) r.stores ≡ none
    pub no_backend : lookup (tenant_or_default tenant) r.backends ≡ none

  tenant_or_default-trim :
      (tenant : String) → tenant_or_default (trim_space tenant) ≡ tenant_or_default tenant
  unfolding tenant_or_default
  tenant_or_default-trim tenant = rw (trim-trim tenant) refl

  -- The name of a tenant of its own is its trimmed text.
  named_trimmed :
      (tenant : String)
      → (tenant_or_default tenant == "default") ≡ false
      → tenant_or_default tenant ≡ trim_space tenant
  unfolding tenant_or_default
  named_trimmed tenant h = elim (Bool-cases (trim_space tenant == "")) [
    | inl c ↦ let shut : true ≡ false = rw c at h in absurd (cc)
    | inr c ↦ rw c refl
  ]

  tenant_or_default-named :
      (tenant : String)
      → (tenant_or_default tenant == "default") ≡ false
      → tenant_or_default (tenant_or_default tenant) ≡ tenant_or_default tenant
  tenant_or_default-named tenant h =
      ap tenant_or_default (named_trimmed tenant h) ∙ tenant_or_default-trim tenant

  slug-lower :
      CaseLaws p
      → (t : String)
      → sanitize_tenant_slug (trim_space (lower (trim_space t)))
        ≡ sanitize_tenant_slug (trim_space t)
  unfolding sanitize_tenant_slug
  slug-lower laws t = ap slug_of (
      ap lower (trim-trim (lower (trim_space t)))
      ∙ lower-trim_idem laws t
      ∙ ap lower (sym (trim-trim t)))

  module _ (b : Backings) where
    keep_store-backing :
        (r r' : TenantRegistry) (t t' : String) (cfg : TenantBackend) (m : Tenants.Backing ⊎ String)
        → (keep_store b r t cfg m).1 ≡ (keep_store b r' t' cfg m).1
    unfolding keep_store
    keep_store-backing r r' t t' cfg (inl backing) = refl
    keep_store-backing r r' t t' cfg (inr err) = refl

    provisioned-backing :
        (t u : String) (cfg : TenantBackend) (x y : TenantRegistry × Option String)
        → x.1 ≡ y.1
        → x.0.physical_mode ≡ y.0.physical_mode
        → (provisioned b t cfg x).1 ≡ (provisioned b u cfg y).1
    unfolding provisioned open_and_keep
    provisioned-backing t u cfg (r, some e) (r', some e') same mode =
        ap inr (some-injective e e' same)
    provisioned-backing t u cfg (r, none) (r', none) same mode =
        keep_store-backing r r' t u cfg (ready_store b cfg r.physical_mode)
        ∙ ap (λ m. (keep_store b r' u cfg (ready_store b cfg m)).1) mode
    provisioned-backing t u cfg (r, some e) (r', none) same mode = absurd (cc)
    provisioned-backing t u cfg (r, none) (r', some e') same mode = absurd (cc)

    provision-backing :
        (r : TenantRegistry) (now : String) (written : Option String) (t u : String)
        (m : TenantBackend ⊎ String)
        → (tenant_or_default t == "default") ≡ false
        → (tenant_or_default u == "default") ≡ false
        → (provision b r now written t m).1 ≡ (provision b r now written u m).1
    unfolding provision register_tenant_backend
    provision-backing r now written t u (inr err) h k = refl
    provision-backing r now written t u (inl cfg) h k =
        provisioned-backing t u cfg (register_tenant_backend b r now written t cfg)
          (register_tenant_backend b r now written u cfg) (ground arith) (ground arith)

    ensure-unknown :
        (r : TenantRegistry) (now : String) (written : Option String) (t : String)
        → r.physical_mode ≡ true
        → IsUnknown r t
        → ensure_tenant_store b r now written t
          ≡ provision b r now written
              (tenant_or_default t)
              (default_backend_for_tenant b r now (tenant_or_default t))
    unfolding ensure_tenant_store
    ensure-unknown r now written t physical h =
        rw (h.named, h.no_store, h.no_backend, physical) refl

    default_backend-slug :
        (r : TenantRegistry) (now t u : String)
        → sanitize_tenant_slug t ≡ sanitize_tenant_slug u
        → default_backend_for_tenant b r now t ≡ default_backend_for_tenant b r now u
    unfolding default_backend_for_tenant
    default_backend-slug r now t u e = rw e refl

    -- In physical mode, a registry that knows neither yet opens for a tenant and for the one that is
    -- named by its lower-case letters the same file path or the same data source, or answers both with
    -- the same error; though they are different tenants wherever their names differ. (Neither is the
    -- default tenant. Lower case is taken to be stable and to keep spaces apart from other
    -- characters.)
    pub cases_share_store :
        (r : TenantRegistry) (now : String) (written : Option String) (t : String)
        → CaseLaws p
        → r.physical_mode ≡ true
        → IsUnknown r t
        → IsUnknown r (lower (trim_space t))
        → (ensure_tenant_store b r now written t).1
          ≡ (ensure_tenant_store b r now written (lower (trim_space t))).1
    cases_share_store r now written t laws physical at_t at_u =
        let u = lower (trim_space t) in
        let slugs : sanitize_tenant_slug (tenant_or_default u)
            ≡ sanitize_tenant_slug (tenant_or_default t) =
          ap sanitize_tenant_slug (named_trimmed u at_u.named)
          ∙ slug-lower laws t
          ∙ ap sanitize_tenant_slug (sym (named_trimmed t at_t.named)) in
        let own = tenant_or_default-named t at_t.named in
        let other = tenant_or_default-named u at_u.named in
        ap (λ x. x.1) (ensure-unknown r now written t physical at_t)
        ∙ provision-backing r now written (tenant_or_default t) (tenant_or_default u)
            (default_backend_for_tenant b r now (tenant_or_default t))
            (ap (λ n. n == "default") own ∙ at_t.named)
            (ap (λ n. n == "default") other ∙ at_u.named)
        ∙ ap (λ m. (provision b r now written (tenant_or_default u) m).1)
            (default_backend-slug r now (tenant_or_default t) (tenant_or_default u) (sym slugs))
        ∙ sym (ap (λ x. x.1) (ensure-unknown r now written u physical at_u))
