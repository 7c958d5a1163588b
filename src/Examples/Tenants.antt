-- ===== src/Examples/Tenants.antt =====
-- The theorems about tenant overlays at a concrete policy.
use Prim.Native.Char.{Char, code}
use Prim.Native.String.{◌++◌ as cat}
use open_agentic_threat_defe.Examples.Fixtures.{sample_engine}
use open_agentic_threat_defe.Go.Maps.{lookup}
use open_agentic_threat_defe.Go.Strings.Splits.{avoids}
use open_agentic_threat_defe.Server.Tenants.{
  Backings, TenantRegistry, ensure_tenant_store, redact_tenant_dsn,
}
use open_agentic_threat_defe.Server.Tenants.Redaction.{password_hidden}
use open_agentic_threat_defe.Server.Tenants.Slugs.{IsUnknown, cases_share_store}
use open_agentic_threat_defe.Store.Tenant.{tenant_or_default}
use open_agentic_threat_defe.Go.Ascii.{ascii}
use open_agentic_threat_defe.Go.Runtime.{Platform}
use open_agentic_threat_defe.Go.Strings.{lower, trim_space}
use open_agentic_threat_defe.Go.Strings.Trim.{CaseLaws}
use open_agentic_threat_defe.Policy.Engine.{TenantPolicy}
use open_agentic_threat_defe.Policy.Tenants.{normalize_tool, tool_approved_for_tenant}
use open_agentic_threat_defe.Policy.Tenants.Overlays.{overlay_decides_tools, updated}
use open_agentic_threat_defe.Prelude.{
  [], Bool-cases, any, arith, inl, inr, if◌then◌else◌, nat_eq, none, refl, true, ◌==◌, ◌∷◌, ◌≡◌,
}

abbrev acme_policy : TenantPolicy
acme_policy = record { tenant_id = "acme"; approved_tools = "rm" ∷ []; approved_egress = [] }

overlay_decides_tools_example :
    tool_approved_for_tenant ⦃p = ascii⦄ (updated ⦃p = ascii⦄ sample_engine acme_policy) "acme" "rm"
    ≡ any (λ x. normalize_tool ⦃p = ascii⦄ x == "rm") acme_policy.approved_tools
unfolding trim_space lower
overlay_decides_tools_example =
    overlay_decides_tools ⦃p = ascii⦄ sample_engine acme_policy "acme" "rm" refl refl refl refl

password_hidden_example :
    redact_tenant_dsn ⦃p = ascii⦄ "postgres://oadtd:pw@db/main" ≡ "postgres://oadtd:****@db/main"
unfolding trim_space avoids
password_hidden_example =
    password_hidden ⦃p = ascii⦄ "postgres://oadtd" "pw" "db/main" refl refl refl refl

-- Opening a file never fails, and the slug is put behind the template.
abbrev files : Backings
files = record {
  fill = λ template slug. cat template slug;
  opens = λ backing. none;
  set_retention = λ backing window. none;
  schema_version = λ backing. 1;
}

abbrev registry : TenantRegistry
registry = record {
  physical_mode = true;
  postgres_template = "";
  data_path_template = "data/";
  base_mode = "file";
  backends = [];
  stores = [];
}

-- Lower case of the letters of "ACME"; every other character is its own.
abbrev fold : Char → Char
fold c =
    if nat_eq (code c) b'A'
    then "a"
    else if nat_eq (code c) b'C'
    then "c"
    else if nat_eq (code c) b'E'
    then "e"
    else if nat_eq (code c) b'M'
    then "m"
    else c

abbrev folding : Platform
folding = record ascii { lower_char = fold }

-- Folding is stable, and keeps spaces apart from other characters.
fold_laws : (c : Char) → (fold (fold c) ≡ fold c) × (folding.is_space (fold c) ≡ folding.is_space c)
fold_laws c = elim (Bool-cases (nat_eq (code c) b'A')) [
  | inl h ↦ rw h (refl, ground arith)
  | inr h ↦ elim (Bool-cases (nat_eq (code c) b'C')) [
    | inl k ↦ rw (h, k) (refl, ground arith)
    | inr k ↦ elim (Bool-cases (nat_eq (code c) b'E')) [
      | inl l ↦ rw (h, k, l) (refl, ground arith)
      | inr l ↦ elim (Bool-cases (nat_eq (code c) b'M')) [
        | inl m ↦ rw (h, k, l, m) (refl, ground arith)
        | inr m ↦ rw (h, k, l, m) (rw (h, k, l, m) refl, refl)
      ]
    ]
  ]
]

folding-CaseLaws : CaseLaws folding
folding-CaseLaws = record {
  lower_stable = λ c. (fold_laws c).0;
  space_stable = λ c. (fold_laws c).1;
}

lower_acme : lower ⦃p = folding⦄ (trim_space ⦃p = folding⦄ "ACME") ≡ "acme"
unfolding lower trim_space
lower_acme = refl

acme-IsUnknown : IsUnknown ⦃p = folding⦄ registry "ACME"
unfolding trim_space tenant_or_default lookup
acme-IsUnknown = record { named = refl; no_store = refl; no_backend = refl }

lower_acme-IsUnknown :
    IsUnknown ⦃p = folding⦄ registry (lower ⦃p = folding⦄ (trim_space ⦃p = folding⦄ "ACME"))
unfolding trim_space tenant_or_default lookup lower
lower_acme-IsUnknown = record { named = refl; no_store = refl; no_backend = refl }

cases_share_store_example :
    (ensure_tenant_store ⦃p = folding⦄ files registry "now" none "ACME").1
    ≡ (ensure_tenant_store ⦃p = folding⦄ files registry "now" none "acme").1
unfolding lower trim_space
cases_share_store_example =
    cases_share_store ⦃p = folding⦄ files registry "now" none "ACME" folding-CaseLaws refl
      acme-IsUnknown lower_acme-IsUnknown
