-- ===== src/Store/AssetTenants.antt =====
-- Assets of one id in two tenants.
use Prim.Native.Char.{Char, code}
use Prim.Native.String.{◌++◌ as cat}
use text.Mathlib.TextLemmas.{cons-append, nil-append}
use open_agentic_threat_defe.Domain.{Alert, Asset, Event}
use open_agentic_threat_defe.Go.Maps.{Dict, lookup, lookup-put}
use open_agentic_threat_defe.Go.Runtime.{Platform}
use open_agentic_threat_defe.Go.Strings.{text_before}
use open_agentic_threat_defe.Prelude.{
  Bool-cases, String, ap, arith, eq_iff, false, get_or, inl, inr, nat_eq, sym, ◌==◌, ◌∙◌, ◌≡◌,
}
use open_agentic_threat_defe.Store.Assets.{
  asset_key, blank_asset, raise_asset_risk, raised_asset, seen_asset, upsert_asset,
}
use open_agentic_threat_defe.Store.Tenant.{same_tenant, tenant_or_default}

abbrev nul : Char
nul = "\0"

-- No character of the text is NUL.
abbrev pub NoNul : String → Type 0
NoNul String.[] = Unit
NoNul (String.◌∷◌ c s) = (nat_eq (code c) 0 ≡ false) × NoNul s

text_before-nul : (s t : String) → NoNul s → text_before nul (cat s (cat "\0" t)) ≡ s
unfolding text_before
text_before-nul String.[] t h =
    ap (text_before nul) (nil-append (cat "\0" t) ∙ cons-append nul "" t)
text_before-nul (String.◌∷◌ c s) t h =
    ap (text_before nul) (cons-append c s (cat "\0" t))
    ∙ rw h.0 (ap (String.◌∷◌ c) (text_before-nul s t h.1))

module _ ⦃p : Platform⦄ where
  asset_key_tenant :
      (t t' id id' : String)
      → NoNul (tenant_or_default t)
      → NoNul (tenant_or_default t')
      → asset_key t id ≡ asset_key t' id'
      → tenant_or_default t ≡ tenant_or_default t'
  unfolding asset_key
  asset_key_tenant t t' id id' h h' e =
      sym (text_before-nul (tenant_or_default t) id h)
      ∙ ap (text_before nul) e
      ∙ text_before-nul (tenant_or_default t') id' h'

  keys_apart :
      (t t' id id' : String)
      → NoNul (tenant_or_default t)
      → NoNul (tenant_or_default t')
      → same_tenant t t' ≡ false
      → (asset_key t id == asset_key t' id') ≡ false
  unfolding same_tenant
  keys_apart t t' id id' h h' d = elim (Bool-cases (asset_key t id == asset_key t' id')) [
    | inl e ↦
        let same : tenant_or_default t ≡ tenant_or_default t' =
          asset_key_tenant t t' id id' h h' ((eq_iff (asset_key t id) (asset_key t' id')).0 e) in
        ground (arith, eq_iff (tenant_or_default t) (tenant_or_default t'))
    | inr e ↦ e
  ]

  -- An event or an alert of one tenant leaves every asset of another tenant as it was, also an asset
  -- of the same id. (Neither tenant's name has a NUL character.)
  pub assets_of_other_tenants :
      (event : Event) (alert : Alert) (tenant id : String) (assets : Dict Asset)
      → NoNul (tenant_or_default tenant)
      → NoNul (tenant_or_default event.tenant)
      → NoNul (tenant_or_default alert.tenant)
      → same_tenant event.tenant tenant ≡ false
      → same_tenant alert.tenant tenant ≡ false
      → (lookup (asset_key tenant id) (upsert_asset event assets)
          ≡ lookup (asset_key tenant id) assets)
        × (lookup (asset_key tenant id) (raise_asset_risk alert assets)
            ≡ lookup (asset_key tenant id) assets)
  unfolding upsert_asset raise_asset_risk
  assets_of_other_tenants event alert tenant id assets n ne na de da = (
    ground (
      arith,
      keys_apart event.tenant tenant event.asset_id id ne n de,
      lookup-put (asset_key event.tenant event.asset_id) (asset_key tenant id)
          (seen_asset event
            (get_or (lookup (asset_key event.tenant event.asset_id) assets) blank_asset))
          assets,
    ),
    ground (
      arith,
      keys_apart alert.tenant tenant alert.asset_id id na n da,
      lookup-put (asset_key alert.tenant alert.asset_id) (asset_key tenant id)
          (raised_asset alert
            (get_or (lookup (asset_key alert.tenant alert.asset_id) assets) blank_asset))
          assets,
    ),
  )
