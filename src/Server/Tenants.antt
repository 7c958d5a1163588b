-- ===== src/Server/Tenants.antt =====
-- tenants.go: which store each tenant's records go to, and how its settings are shown.
pub mod Slugs
pub mod Redaction
use Prim.Native.Char.{Char, code}
use Prim.Native.String.{◌++◌ as cat}
use open_agentic_threat_defe.Go.Maps.{Dict, lookup, put}
use open_agentic_threat_defe.Go.Results.{◌>>=◌}
use open_agentic_threat_defe.Go.Runtime.{Platform}
use open_agentic_threat_defe.Go.Strings.{cut_at, elem, lower, map_chars, strip, trim_space}
use open_agentic_threat_defe.Prelude.{
  Bool, List, Option, String, [], false, if◌then◌else◌, inl, inr, leb, nat_eq, none, not, some,
  true, ℕ, ◌&&◌, ◌==◌, ◌||◌, ◌∷◌, ◌⊎◌,
}
use open_agentic_threat_defe.Store.Tenant.{tenant_or_default}

pub record TenantBackend : Type 0 where
  pub mode : String
  pub postgres_dsn : String
  pub data_path : String
  pub admins : List String
  pub policy_profile : String
  pub retention_window : String
  pub sso_profile : String
  pub backup_target : String
  pub labels : List String
  pub notes : String
  pub created_at : String
  pub updated_at : String
  pub active : Bool
  pub schema_version : ℕ

-- A store, by where its records are kept.
pub data Backing : Type 0 where
  base_store : Backing
  postgres_store file_store : String → Backing

-- What the registry uses of other packages: strings.ReplaceAll(template, "{tenant}", slug), what
-- opening a store or setting its retention window fails with, and the schema version of a store.
pub record Backings : Type 0 where
  pub fill : String → String → String
  pub opens : Backing → Option String
  pub set_retention : Backing → String → Option String
  pub schema_version : Backing → ℕ

pub record TenantRegistry : Type 0 where
  pub physical_mode : Bool
  pub postgres_template : String
  pub data_path_template : String
  -- the PersistenceMode of the base store
  pub base_mode : String
  pub backends : Dict TenantBackend
  pub stores : Dict Backing

abbrev blank_backend : TenantBackend
blank_backend = record {
  mode = "";
  postgres_dsn = "";
  data_path = "";
  admins = [];
  policy_profile = "";
  retention_window = "";
  sso_profile = "";
  backup_target = "";
  labels = [];
  notes = "";
  created_at = "";
  updated_at = "";
  active = false;
  schema_version = 0;
}

-- The characters that sanitizeTenantSlug keeps, and those that it trims.
abbrev is_slug_char : Char → Bool
is_slug_char c =
    (leb b'a' (code c) && leb (code c) b'z')
    || ((leb b'0' (code c) && leb (code c) b'9')
        || (nat_eq (code c) b'-' || (nat_eq (code c) b'_' || nat_eq (code c) b'.')))

abbrev is_slug_mark : Char → Bool
is_slug_mark c = nat_eq (code c) b'-' || (nat_eq (code c) b'_' || nat_eq (code c) b'.')

-- The text before the last of a character, with it.
unfoldable pub through_last : Char → String → Option String
through_last d String.[] = none
through_last d (String.◌∷◌ c s) = elim (through_last d s) [
  | some t ↦ some (String.◌∷◌ c t)
  | none ↦ if nat_eq (code c) (code d) then some (String.◌∷◌ c "") else none
]

module _ ⦃p : Platform⦄ where
  unfoldable pub parse_physical_mode : String → Bool
  parse_physical_mode value = lower (trim_space value) == "physical"

  unfoldable pub normalize_tenant_mode : String → String
  normalize_tenant_mode value =
      let mode = lower (trim_space value) in if mode == "" then "logical" else mode

  -- The loop of normalizeTenantValues: the lower-case forms that were seen.
  unfoldable pub normalize_tenant_values : List String → List String → List String
  normalize_tenant_values seen [] = []
  normalize_tenant_values seen (x ∷ xs) =
      let value = trim_space x in
      let rest = normalize_tenant_values seen xs in
      let kept = value ∷ normalize_tenant_values (lower value ∷ seen) xs in
      if value == "" || elem (lower value) seen then rest else kept

  -- The slug of a text in lower case.
  unfoldable pub slug_of : String → String
  slug_of value =
      let slug = strip is_slug_mark (map_chars (λ c. if is_slug_char c then c else "-") value) in
      if value == "" then "default" else if slug == "" then "tenant" else slug

  unfoldable pub sanitize_tenant_slug : String → String
  unfolding slug_of
  sanitize_tenant_slug given = slug_of (lower (trim_space given))

  -- The end of redactTenantDSN: what is kept of the text before the first "@", if it has a ":", and
  -- what follows the "@".
  unfoldable pub starred : String → String → Option String → String
  starred value back none = value
  starred value back (some kept) = cat kept (cat "****" (String.◌∷◌ "@" back))

  -- The two parts around the first "@", if there is one.
  unfoldable pub hide_password : String → Option (String × String) → String
  unfolding starred through_last
  hide_password value none = value
  hide_password value (some (front, back)) = starred value back (through_last ":" front)

  unfoldable pub redact_tenant_dsn : String → String
  unfolding hide_password
  redact_tenant_dsn given = hide_password (trim_space given) (cut_at "@" (trim_space given))

  module _ (b : Backings) where
    -- defaultBackendForTenant
    unfoldable pub default_backend_for_tenant :
        TenantRegistry → String → String → TenantBackend ⊎ String
    unfolding sanitize_tenant_slug
    default_backend_for_tenant r now tenant =
        let slug = sanitize_tenant_slug tenant in
        let stamped : TenantBackend = record blank_backend { created_at = now; updated_at = now } in
        if r.base_mode == "postgres"
        then (if r.postgres_template == ""
            then inr "tenant physical isolation requires --tenant-postgres-dsn-template"
            else inl (record stamped {
              mode = "postgres";
              postgres_dsn = b.fill r.postgres_template slug;
            }))
        else if r.base_mode == "file"
        then (if r.data_path_template == ""
            then inr "tenant physical isolation requires --tenant-data-path-template"
            else inl
                (record stamped { mode = "file"; data_path = b.fill r.data_path_template slug }))
        else inr (cat "unsupported base backend " (p.quote r.base_mode))

    opened : Backing → Backing ⊎ String
    opened backing = elim (b.opens backing) [ none ↦ inl backing | some err ↦ inr err ]

    -- openBackend
    unfoldable pub open_backend : TenantBackend → Backing ⊎ String
    unfolding opened normalize_tenant_mode
    open_backend cfg =
        let mode = normalize_tenant_mode cfg.mode in
        if mode == "logical"
        then inl base_store
        else if mode == "postgres"
        then (if trim_space cfg.postgres_dsn == ""
            then inr "tenant postgres dsn is required"
            else opened (postgres_store cfg.postgres_dsn))
        else if mode == "file"
        then (if trim_space cfg.data_path == ""
            then inr "tenant data path is required"
            else opened (file_store cfg.data_path))
        else inr (cat "unsupported tenant backend mode " (p.quote cfg.mode))

    -- applyTenantSettings: the store, or what setting its retention fails with.
    unfoldable pub apply_tenant_settings : Backing → TenantBackend → Bool → Backing ⊎ String
    apply_tenant_settings backing cfg apply =
        if not apply then inl backing else elim (b.set_retention backing cfg.retention_window) [
          | none ↦ inl backing
          | some err ↦ inr err
        ]

    -- registerTenantBackend. `written` is the outcome of writing the registry file.
    unfoldable pub register_tenant_backend :
        TenantRegistry
        → String
        → Option String
        → String
        → TenantBackend
        → TenantRegistry × Option String
    register_tenant_backend r now written given cfg =
        let tenant = tenant_or_default given in
        let kept : TenantBackend = record cfg {
          active = false;
          created_at = if cfg.created_at == "" then now else cfg.created_at;
          updated_at = now;
        } in
        if tenant == "default"
        then (r, some "default tenant is reserved")
        else (record r { backends = put tenant kept r.backends }, written)

    -- The end of ensureTenantStore: the store is opened and remembered.
    unfoldable pub keep_store :
        TenantRegistry
        → String
        → TenantBackend
        → Backing ⊎ String
        → TenantRegistry × (Backing ⊎ String)
    keep_store r tenant cfg (inr err) = (r, inr err)
    keep_store r tenant cfg (inl backing) = (
      record r {
        stores = put tenant backing r.stores;
        backends =
            put tenant (record cfg { active = true; schema_version = b.schema_version backing })
              r.backends;
      },
      inl backing,
    )

    -- A store that is opened and given its settings.
    unfoldable pub ready_store : TenantBackend → Bool → Backing ⊎ String
    unfolding open_backend apply_tenant_settings normalize_tenant_mode
    ready_store cfg physical = do
      backing ← open_backend cfg
      apply_tenant_settings backing cfg
          (physical || not (normalize_tenant_mode cfg.mode == "logical"))

    unfoldable pub open_and_keep :
        TenantRegistry → String → TenantBackend → TenantRegistry × (Backing ⊎ String)
    unfolding ready_store keep_store
    open_and_keep r tenant cfg = keep_store r tenant cfg (ready_store cfg r.physical_mode)

    -- What follows the registration of a tenant.
    unfoldable pub provisioned :
        String
        → TenantBackend
        → TenantRegistry × Option String
        → TenantRegistry × (Backing ⊎ String)
    unfolding open_and_keep
    provisioned tenant cfg (registered, some err) = (registered, inr err)
    provisioned tenant cfg (registered, none) = open_and_keep registered tenant cfg

    -- A tenant without a record in physical mode: it is given the default one.
    unfoldable pub provision :
        TenantRegistry
        → String
        → Option String
        → String
        → TenantBackend ⊎ String
        → TenantRegistry × (Backing ⊎ String)
    unfolding provisioned register_tenant_backend
    provision r now written tenant (inr err) = (r, inr err)
    provision r now written tenant (inl cfg) =
        provisioned tenant cfg (register_tenant_backend r now written tenant cfg)

    -- ensureTenantStore
    unfoldable pub ensure_tenant_store :
        TenantRegistry → String → Option String → String → TenantRegistry × (Backing ⊎ String)
    unfolding provision default_backend_for_tenant
    ensure_tenant_store r now written given =
        let tenant = tenant_or_default given in
        if tenant == "default" && not r.physical_mode
        then (r, inl base_store)
        else elim (lookup tenant r.stores) [
          | some backing ↦ (r, inl backing)
          | none ↦ elim (lookup tenant r.backends) [
            | some cfg ↦ open_and_keep r tenant cfg
            | none ↦
                if not r.physical_mode
                then (r, inl base_store)
                else provision r now written tenant (default_backend_for_tenant r now tenant)
          ]
        ]
