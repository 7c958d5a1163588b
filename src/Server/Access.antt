-- ===== src/Server/Access.antt =====
-- server.go: the middleware `withAuth`, which lets a request through to its handler or refuses it.
use open_agentic_threat_defe.Auth.Roles.{Principal, has_any, intake, named_roles, required_roles}
use open_agentic_threat_defe.Go.Strings.{has_prefix}
use open_agentic_threat_defe.Prelude.{
  Bool, Bool-cases, Option, String, ap, arith, eq_iff, false, if◌then◌else◌, inl, inr, none, not,
  refl, some, sym, true, ◌&&◌, ◌==◌, ◌||◌, ◌↔◌, ◌≡◌, ◌⊎◌,
}

-- How the middleware ends: the handler runs with a principal, or one of three refusals.
pub data Passage : Type 0 where
  served : Option Principal → Passage
  unconfigured unauthenticated : Passage
  forbidden : Principal → Passage

-- requiresAuthEvenInOpenMode
unfoldable pub requires_auth_even_in_open_mode : String → Bool
requires_auth_even_in_open_mode path = path == "/api/gateway/proxy" || path == "/api/mcp/proxy"

-- The paths that withAuth passes on without looking for a principal.
unfoldable pub is_open_path : String → Bool
is_open_path path =
    not (has_prefix path "/api/") || (path == "/api/session" || has_prefix path "/api/sso/")

unfoldable pub authorize : String → String → Option Principal → Passage
authorize method path none = unauthenticated
authorize method path (some who) =
    if has_any who (required_roles method path) then served (some who) else forbidden who

-- withAuth: `configured` is authenticationConfigured(), `who` what Authenticate finds.
unfoldable pub with_auth : Bool → String → String → Option Principal → Passage
unfolding requires_auth_even_in_open_mode is_open_path authorize
with_auth configured method path who =
    if not configured && requires_auth_even_in_open_mode path
    then unconfigured
    else if is_open_path path || not configured
    then served none
    else authorize method path who

abbrev principal_of : Passage → Option Principal
principal_of (served who) = who
principal_of unconfigured = none
principal_of unauthenticated = none
principal_of (forbidden who) = none

-- A request is served for a principal that has one of the required roles.
abbrev pub Authorized : String → String → Option Principal → Option Principal → Type 0
Authorized method path who q =
    (pr : Principal) × (who ≡ some pr)
    × (q ≡ some pr)
    × (has_any pr (required_roles method path) ≡ true)

authorize-served :
    (method path : String) (who q : Option Principal)
    → authorize method path who ≡ served q
    → Authorized method path who q
unfolding authorize
authorize-served method path none q h = absurd (cc)
authorize-served method path (some pr) q h =
    elim (Bool-cases (has_any pr (required_roles method path))) [
      | inl e ↦ (pr, refl, sym (ap principal_of (rw e at h)), e)
      | inr e ↦ absurd (ground arith)
    ]

authorize-Authorized :
    (method path : String) (who q : Option Principal)
    → Authorized method path who q
    → authorize method path who ≡ served q
unfolding authorize
authorize-Authorized method path who q (pr, a, b, c) = rw (a, b, c) refl

-- The paths that need no login, as they are meant: all that are not under /api/, the session's, and
-- those of single sign-on.
abbrev pub NeedsNoLogin : String → Type 0
NeedsNoLogin path =
    (has_prefix path "/api/" ≡ false)
    ⊎ ((path ≡ "/api/session") ⊎ (has_prefix path "/api/sso/" ≡ true))

open-NeedsNoLogin : (path : String) → is_open_path path ≡ true → NeedsNoLogin path
unfolding is_open_path
open-NeedsNoLogin path h = elim (Bool-cases (has_prefix path "/api/")) [
  | inr e ↦ inl e
  | inl e ↦ elim (Bool-cases (path == "/api/session")) [
    | inl f ↦ inr (inl ((eq_iff path "/api/session").0 f))
    | inr f ↦ inr (inr (ground arith))
  ]
]

NeedsNoLogin-open : (path : String) → NeedsNoLogin path → is_open_path path ≡ true
unfolding is_open_path
NeedsNoLogin-open path (inl e) = rw e refl
NeedsNoLogin-open path (inr (inl e)) =
    let same = (eq_iff path "/api/session").1 e in ground (arith, same)
NeedsNoLogin-open path (inr (inr e)) = ground (arith, e)

shut : (path : String) → is_open_path path ≡ false → ¬ NeedsNoLogin path
shut path e h = let skips : is_open_path path ≡ true = NeedsNoLogin-open path h in absurd (cc)

-- With authentication configured, a request reaches its handler exactly in two ways: its path is not
-- under /api/, or is /api/session, or is under /api/sso/, and the handler has no principal; or its
-- path is none of these and it is authenticated, the handler has that principal, and the principal has
-- one of the roles that its method and path require. All other requests are refused.
pub with_auth-served_iff :
    (method path : String) (who q : Option Principal)
    → (with_auth true method path who ≡ served q)
      ↔ ((NeedsNoLogin path × (q ≡ none)) ⊎ ((¬ NeedsNoLogin path) × Authorized method path who q))
unfolding with_auth
with_auth-served_iff method path who q = (
  λ h. elim (Bool-cases (is_open_path path)) [
    | inl e ↦ inl (open-NeedsNoLogin path e, sym (ap principal_of (rw e at h)))
    | inr e ↦ inr (shut path e, authorize-served method path who q (rw e at h))
  ],
  λ c. elim c [
    | inl (e, n) ↦ rw (NeedsNoLogin-open path e, n) refl
    | inr (e, a) ↦ elim (Bool-cases (is_open_path path)) [
      | inl o ↦ absurd (e (open-NeedsNoLogin path o))
      | inr o ↦ rw o (authorize-Authorized method path who q a)
    ]
  ],
)

proxy_paths :
    (path : String)
    → requires_auth_even_in_open_mode path ≡ true
    → (path ≡ "/api/gateway/proxy") ⊎ (path ≡ "/api/mcp/proxy")
unfolding requires_auth_even_in_open_mode
proxy_paths path h = elim (Bool-cases (path == "/api/gateway/proxy")) [
  | inl e ↦ inl ((eq_iff path "/api/gateway/proxy").0 e)
  | inr e ↦ inr ((eq_iff path "/api/mcp/proxy").0 (ground arith))
]

-- The roles of the two proxies are those of intake, for every method, and neither path is open.
proxy_roles :
    (method path : String)
    → (path ≡ "/api/gateway/proxy") ⊎ (path ≡ "/api/mcp/proxy")
    → (is_open_path path ≡ false) × (required_roles method path ≡ intake)
unfolding is_open_path required_roles named_roles has_prefix
proxy_roles method path (inl e) = rw e (refl, refl)
proxy_roles method path (inr e) = rw e (refl, refl)

-- The two endpoints that forward requests are served only where authentication is configured, and to
-- an authenticated principal with the role ingestor, analyst, operator or admin. In particular they
-- are not served in open mode, in which every other path is.
pub proxies_want_role :
    (configured : Bool) (method path : String) (who q : Option Principal)
    → requires_auth_even_in_open_mode path ≡ true
    → with_auth configured method path who ≡ served q
    → (configured ≡ true)
      × (pr : Principal) × (who ≡ some pr)
      × (q ≡ some pr)
      × (has_any pr intake ≡ true)
unfolding with_auth
proxies_want_role false method path who q r h = absurd (ground arith)
proxies_want_role true method path who q r h =
    let (shut, roles) = proxy_roles method path (proxy_paths path r) in
    let (pr, a, b, c) = authorize-served method path who q (rw shut at h) in
    (refl, pr, a, b, rw roles at c)
