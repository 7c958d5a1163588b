-- ===== src/Auth/Roles.antt =====
-- auth.go: roles, users and the roles that a path requires.
use open_agentic_threat_defe.Go.Runtime.{Platform}
use open_agentic_threat_defe.Go.Strings.{elem, has_prefix, lower, trim_space}
use open_agentic_threat_defe.Prelude.{
  Bool, List, Option, String, [], any, get_or, if◌then◌else◌, is_empty, none, not, some, ◌++◌, ◌==◌,
  ◌||◌, ◌∷◌,
}

pub record UserConfig : Type 0 where
  pub name : String
  pub tenant : String
  pub token_hash : String
  pub roles : List String

pub record Principal : Type 0 where
  pub name : String
  pub tenant : String
  pub roles : List String

abbrev pub viewer : String
viewer = "viewer"

abbrev pub ingestor : String
ingestor = "ingestor"

abbrev pub analyst : String
analyst = "analyst"

abbrev pub operator : String
operator = "operator"

abbrev pub admin : String
admin = "admin"

abbrev pub known_roles : List String
known_roles = viewer ∷ ingestor ∷ analyst ∷ operator ∷ admin ∷ []

-- Principal.HasAny
unfoldable pub has_any : Principal → List String → Bool
has_any p roles = any (λ have. any (λ want. have == admin || have == want) roles) p.roles

-- http.MethodGet, http.MethodHead, http.MethodOptions
abbrev pub is_safe_method : String → Bool
is_safe_method method = method == "GET" || (method == "HEAD" || method == "OPTIONS")

-- Surfaces that want the administrator for every method.
abbrev pub is_admin_surface : String → Bool
is_admin_surface path =
    path == "/api/tenants"
    || (has_prefix path "/api/tenants/"
        || (path == "/api/policy/tenants" || path == "/api/policy/reload"))

abbrev pub intake : List String
intake = ingestor ∷ analyst ∷ operator ∷ []

-- The paths that are decided by name before the administrator's.
unfoldable pub named_roles : String → Option (List String)
named_roles path =
    if path == "/api/audit" || path == "/api/audit/chain"
    then some (analyst ∷ operator ∷ [])
    else if path == "/api/gateway/decide" || path == "/api/gateway/execute"
    then some intake
    else if path == "/api/gateway/proxy" || path == "/api/mcp/proxy"
    then some intake
    else if path == "/api/gateway/queue" || has_prefix path "/api/gateway/actions/"
    then some (analyst ∷ operator ∷ [])
    else if has_prefix path "/api/deception"
    then some (operator ∷ [])
    else none

-- All other paths.
unfoldable pub other_roles : String → String → List String
other_roles method path =
    if is_admin_surface path
    then admin ∷ []
    else if is_safe_method method
    then viewer ∷ analyst ∷ operator ∷ ingestor ∷ []
    else if path == "/api/events" || path == "/api/demo"
    then intake
    else if has_prefix path "/api/responses/approve"
    then operator ∷ []
    else if has_prefix path "/api/responses"
    then analyst ∷ operator ∷ []
    else admin ∷ []

unfoldable pub required_roles : String → String → List String
required_roles method path = get_or (named_roles path) (other_roles method path)

module _ ⦃p : Platform⦄ where
  -- The loop of `normalizeRoles`.
  unfoldable pub add_roles : List String → List String → List String
  add_roles done [] = done
  add_roles done (role0 ∷ roles) =
      let role = lower (trim_space role0) in
      add_roles
        (if role == "" || (not (elem role known_roles) || elem role done)
          then done
          else done ++ role ∷ [])
        roles

  unfoldable pub normalize_roles : List String → List String
  unfolding add_roles
  normalize_roles roles = add_roles [] roles

  abbrev or_viewer : List String → List String
  or_viewer roles = if is_empty roles then viewer ∷ [] else roles

  abbrev or_default : String → String
  or_default tenant = if trim_space tenant == "" then "default" else trim_space tenant

  unfoldable pub normalize_users : List UserConfig → List UserConfig
  unfolding normalize_roles
  normalize_users [] = []
  normalize_users (user ∷ users) =
      let rest = normalize_users users in
      let name = trim_space user.name in
      let token_hash = lower (trim_space user.token_hash) in
      if name == "" || token_hash == ""
      then rest
      else (record {
        name = name;
        tenant = or_default user.tenant;
        token_hash = token_hash;
        roles = or_viewer (normalize_roles user.roles);
      }
          ∷ rest)

  -- The principal of `MintSession`, before the session is signed.
  unfoldable pub session_principal : Principal → Principal
  unfolding normalize_roles
  session_principal principal = record principal {
    tenant = or_default principal.tenant;
    roles = or_viewer (normalize_roles principal.roles);
  }
