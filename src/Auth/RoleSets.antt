-- ===== src/Auth/RoleSets.antt =====
-- Which roles a principal has after normalization.
use open_agentic_threat_defe.Auth.Roles.{add_roles, known_roles, normalize_roles}
use open_agentic_threat_defe.Go.Runtime.{Platform}
use open_agentic_threat_defe.Go.Strings.{elem, lower, trim_space}
use open_agentic_threat_defe.Go.Strings.Sets.{Distinct, Distinct-push, elem_push, same_text}
use open_agentic_threat_defe.Prelude.{
  Bool, Bool-cases, List, String, [], any, arith, false, inl, inr, not, ◌&&◌, ◌++◌, ◌==◌, ◌||◌, ◌∷◌,
  ◌≡◌,
}

module _ ⦃p : Platform⦄ where
  -- A role as normalizeRoles reads it.
  abbrev pub named : String → String → Bool
  named role written = lower (trim_space written) == role

  add_roles-elem :
      (done roles : List String) (role : String)
      → (role == "") ≡ false
      → elem role (add_roles done roles)
        ≡ (elem role done || (elem role known_roles && any (named role) roles))
  unfolding add_roles
  add_roles-elem done [] role h = ground arith
  add_roles-elem done (w ∷ roles) role h =
      let r = lower (trim_space w) in
      elim (Bool-cases (r == "" || (not (elem r known_roles) || elem r done))) [
        | inl c ↦ rw c (
            ground (
              arith,
              add_roles-elem done roles role h,
              same_text r role done,
              same_text r role known_roles,
            ))
        | inr c ↦ rw c (
            ground (
              arith,
              add_roles-elem (done ++ r ∷ []) roles role h,
              same_text r role done,
              same_text r role known_roles,
              elem_push role r done,
            ))
      ]

  add_roles-Distinct : (done roles : List String) → Distinct done → Distinct (add_roles done roles)
  unfolding add_roles
  add_roles-Distinct done [] d = d
  add_roles-Distinct done (w ∷ roles) d =
      elim (Bool-cases (
        lower (trim_space w) == ""
        || (not (elem (lower (trim_space w)) known_roles) || elem (lower (trim_space w)) done))) [
          | inl h ↦ rw h (add_roles-Distinct done roles d)
          | inr h ↦ rw h (
              add_roles-Distinct (done ++ lower (trim_space w) ∷ []) roles
                (Distinct-push (lower (trim_space w)) done d (ground arith)))
        ]

  -- Normal roles hold no role twice, and hold a role exactly if it is one of the five known roles and
  -- some given role names it, up to case and surrounding space.
  pub normalize_roles_exact :
      (roles : List String) (role : String)
      → (role == "") ≡ false
      → Distinct (normalize_roles roles)
        × (elem role (normalize_roles roles) ≡ (elem role known_roles && any (named role) roles))
  unfolding normalize_roles
  normalize_roles_exact roles role h =
      (add_roles-Distinct [] roles tt, add_roles-elem [] roles role h)
