-- ===== src/Auth/Access.antt =====
-- What a role may call.
use open_agentic_threat_defe.Auth.Roles.{
  Principal, admin, analyst, has_any, ingestor, intake, is_admin_surface, is_safe_method,
  named_roles, operator, other_roles, required_roles, viewer,
}
use open_agentic_threat_defe.Go.Strings.{elem, has_prefix}
use open_agentic_threat_defe.Prelude.{
  Bool, List, Option, String, [], any, arith, false, get_or, if◌then◌else◌, is_empty, none, refl,
  some, true, ◌==◌, ◌||◌, ◌∷◌, ◌≡◌,
}

-- What holds in each case of a chain of five tests.
module _ {ℓ κ} {A : Type ℓ} (P : A → Type κ) (v w x y z u : A) where
  chain_elim :
      (a b c d e : Bool)
      → P v
      → (b ≡ true → P w)
      → P x
      → P y
      → P z
      → P u
      → P (if a then v else if b then w else if c then x else if d then y else if e then z else u)
  chain_elim true b c d e pv pw px py pz pu = pv
  chain_elim false true c d e pv pw px py pz pu = pw refl
  chain_elim false false true d e pv pw px py pz pu = px
  chain_elim false false false true e pv pw px py pz pu = py
  chain_elim false false false false true pv pw px py pz pu = pz
  chain_elim false false false false false pv pw px py pz pu = pu

-- The roles of a named path satisfy what the roles of all its cases do.
named_roles_elim {κ} :
    (P : Option (List String) → Type κ) (path : String)
    → P (some (analyst ∷ operator ∷ []))
    → P (some intake)
    → P (some (operator ∷ []))
    → P none
    → P (named_roles path)
unfolding named_roles
named_roles_elim P path a i o n =
    chain_elim P (some (analyst ∷ operator ∷ [])) (some intake) (some intake)
      (some (analyst ∷ operator ∷ [])) (some (operator ∷ [])) none
      (path == "/api/audit" || path == "/api/audit/chain")
      (path == "/api/gateway/decide" || path == "/api/gateway/execute")
      (path == "/api/gateway/proxy" || path == "/api/mcp/proxy")
      (path == "/api/gateway/queue" || has_prefix path "/api/gateway/actions/")
      (has_prefix path "/api/deception") a (λ h. i) i a o n

other_roles_elim {κ} :
    (P : List String → Type κ) (method path : String)
    → P (admin ∷ [])
    → (is_safe_method method ≡ true → P (viewer ∷ analyst ∷ operator ∷ ingestor ∷ []))
    → P intake
    → P (operator ∷ [])
    → P (analyst ∷ operator ∷ [])
    → P (other_roles method path)
unfolding other_roles
other_roles_elim P method path a v i o n =
    chain_elim P (admin ∷ []) (viewer ∷ analyst ∷ operator ∷ ingestor ∷ []) intake (operator ∷ [])
      (analyst ∷ operator ∷ []) (admin ∷ []) (is_admin_surface path) (is_safe_method method)
      (path == "/api/events" || path == "/api/demo") (has_prefix path "/api/responses/approve")
      (has_prefix path "/api/responses") a v i o n a

-- The principal's test against a list of roles.
abbrev passes : List String → List String → Bool
passes haves wants = any (λ have. any (λ want. have == admin || have == want) wants) haves

abbrev ViewerReads : String → List String → Type 0
ViewerReads method roles = passes (viewer ∷ []) roles ≡ true → is_safe_method method ≡ true

-- A principal with no role but viewer calls nothing but GET, HEAD and OPTIONS.
pub viewer_reads_only :
    (pr : Principal) (method path : String)
    → pr.roles ≡ viewer ∷ []
    → has_any pr (required_roles method path) ≡ true
    → is_safe_method method ≡ true
unfolding has_any required_roles
viewer_reads_only pr method path v h =
    let other : ViewerReads method (other_roles method path) =
      other_roles_elim (ViewerReads method) method path (λ g. absurd (cc)) (λ safe g. safe)
        (λ g. absurd (cc)) (λ g. absurd (cc)) (λ g. absurd (cc)) in
    named_roles_elim (λ o. ViewerReads method (get_or o (other_roles method path))) path
      (λ g. absurd (cc)) (λ g. absurd (cc)) (λ g. absurd (cc)) other (rw v at h)

required_roles_some : (method path : String) → is_empty (required_roles method path) ≡ false
unfolding required_roles
required_roles_some method path =
    named_roles_elim (λ o. is_empty (get_or o (other_roles method path)) ≡ false) path refl refl
      refl (other_roles_elim (λ r. is_empty r ≡ false) method path refl (λ h. refl) refl refl refl)

any_admin :
    (haves wants : List String)
    → is_empty wants ≡ false
    → elem admin haves ≡ true
    → passes haves wants ≡ true
any_admin haves [] h k = absurd (cc)
any_admin [] (w ∷ wants) h k = cc
any_admin (x ∷ haves) (w ∷ wants) h k = ground (arith, any_admin haves (w ∷ wants))

-- An administrator may call every method of every path.
pub admin_calls_all :
    (pr : Principal) (method path : String)
    → elem admin pr.roles ≡ true
    → has_any pr (required_roles method path) ≡ true
unfolding has_any
admin_calls_all pr method path h =
    any_admin pr.roles (required_roles method path) (required_roles_some method path) h
