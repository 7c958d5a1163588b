-- ===== src/Policy/Tenants/Overlays.antt =====
-- What a tenant's overlay decides.
use open_agentic_threat_defe.Go.Maps.{lookup-put}
use open_agentic_threat_defe.Go.Runtime.{Platform}
use open_agentic_threat_defe.Go.Strings.{elem, trim_space}
use open_agentic_threat_defe.Go.Strings.Sets.{elem_push, same_text}
use open_agentic_threat_defe.Policy.Engine.{Engine, TenantPolicy}
use open_agentic_threat_defe.Policy.Hosts.{normalize_host}
use open_agentic_threat_defe.Policy.Tenants.{
  compile_list, compile_tenant_policy, egress_approved_for_tenant, egress_decision,
  is_approved_egress, is_tool_approved, normalize_tool, overlay, set_tenant_policy,
  tool_approved_for_tenant, tools_decision,
}
use open_agentic_threat_defe.Prelude.{
  Bool-cases, List, String, [], any, ap, arith, eq_iff, false, if◌then◌else◌, inl, inr, is_empty,
  is_empty_push, not, refl, some, true, ◌++◌, ◌==◌, ◌||◌, ◌∙◌, ◌∷◌, ◌≡◌,
}

pub compile_list-elem :
    (normal : String → String) (done xs : List String) (k : String)
    → (k == "") ≡ false
    → elem k (compile_list normal done xs) ≡ (elem k done || any (λ x. normal x == k) xs)
unfolding compile_list
compile_list-elem normal done [] k h = ground arith
compile_list-elem normal done (x ∷ xs) k h =
    elim (Bool-cases (normal x == "" || elem (normal x) done)) [
      | inl c ↦
          rw c (ground (arith, compile_list-elem normal done xs k h, same_text (normal x) k done))
      | inr c ↦ rw c (
          ground (
            arith,
            compile_list-elem normal (done ++ normal x ∷ []) xs k h,
            same_text (normal x) k done,
            elem_push k (normal x) done,
          ))
    ]

compile_list-keeps :
    (normal : String → String) (done xs : List String)
    → is_empty done ≡ false
    → is_empty (compile_list normal done xs) ≡ false
unfolding compile_list
compile_list-keeps normal done [] h = h
compile_list-keeps normal done (x ∷ xs) h =
    elim (Bool-cases (normal x == "" || elem (normal x) done)) [
      | inl c ↦ rw c (compile_list-keeps normal done xs h)
      | inr c ↦
          rw c
            (compile_list-keeps normal (done ++ normal x ∷ []) xs (is_empty_push done (normal x)))
    ]

-- A text whose normal form is not empty is kept.
compile_list-some :
    (normal : String → String) (xs : List String)
    → any (λ x. not (normal x == "")) xs ≡ true
    → is_empty (compile_list normal [] xs) ≡ false
unfolding compile_list
compile_list-some normal [] h = absurd (cc)
compile_list-some normal (x ∷ xs) h = elim (Bool-cases (normal x == "")) [
  | inl c ↦ rw c (compile_list-some normal xs (ground arith))
  | inr c ↦ rw c (compile_list-keeps normal (normal x ∷ []) xs refl)
]

module _ ⦃p : Platform⦄ (e : Engine) (policy : TenantPolicy) where
  abbrev pub updated : Engine
  updated = (set_tenant_policy e policy).0

  overlay-updated :
      (t : String)
      → overlay updated t ≡ (
          if trim_space policy.tenant_id == "" || trim_space t == ""
          then overlay e t
          else if trim_space policy.tenant_id == trim_space t
          then some (compile_tenant_policy policy)
          else overlay e t)
  unfolding set_tenant_policy overlay
  overlay-updated t = ground (
    arith,
    lookup-put (trim_space policy.tenant_id) (trim_space t) (compile_tenant_policy policy)
        e.tenant_policies,
  )

  -- The global lists stay.
  lists_same :
      (updated.approved_tools ≡ e.approved_tools)
      × (updated.approved_egress_hosts ≡ e.approved_egress_hosts)
  unfolding set_tenant_policy
  lists_same = ground arith

  -- Installing an overlay for one tenant changes no decision for another, neither on tools nor on
  -- destinations.
  pub other_tenants_unchanged :
      (t : String)
      → (trim_space policy.tenant_id == trim_space t) ≡ false
      → ((tool : String)
          → tool_approved_for_tenant updated t tool ≡ tool_approved_for_tenant e t tool)
        × ((destination : String)
            → egress_approved_for_tenant updated t destination
              ≡ egress_approved_for_tenant e t destination)
  unfolding tool_approved_for_tenant egress_approved_for_tenant is_tool_approved is_approved_egress
  other_tenants_unchanged t h =
      let same : overlay updated t ≡ overlay e t = ground (arith, overlay-updated t) in
      (
        λ tool.
            ap (λ o. tools_decision o tool (is_tool_approved updated tool)) same
            ∙ ap (λ l. tools_decision (overlay e t) tool (elem tool l)) lists_same.0,
        λ destination.
            ap (λ o. egress_decision o destination (is_approved_egress updated destination)) same
            ∙ ap
                (λ (l : List String). egress_decision (overlay e t) destination (
                  if normalize_host destination == ""
                  then false
                  else elem (normalize_host destination) l))
                lists_same.1,
      )

  -- An overlay that names tools replaces the global manifest for its tenant: a tool is approved
  -- exactly if it is the normal form of one of the tools that the policy lists.
  -- (The tenant id and the tool are not blank.)
  pub overlay_decides_tools :
      (t tool : String)
      → (trim_space policy.tenant_id == "") ≡ false
      → trim_space policy.tenant_id ≡ trim_space t
      → (tool == "") ≡ false
      → any (λ x. not (normalize_tool x == "")) policy.approved_tools ≡ true
      → tool_approved_for_tenant updated t tool
        ≡ any (λ x. normalize_tool x == tool) policy.approved_tools
  unfolding tool_approved_for_tenant compile_tenant_policy tools_decision
  overlay_decides_tools t tool h same visible some_tool =
      let own : overlay updated t ≡ some (compile_tenant_policy policy) =
        ground (arith, overlay-updated t, eq_iff (trim_space policy.tenant_id) (trim_space t)) in
      let kept = compile_list-some normalize_tool policy.approved_tools some_tool in
      ap (λ o. tools_decision o tool (is_tool_approved updated tool)) own
      ∙ rw kept (compile_list-elem normalize_tool [] policy.approved_tools tool visible)
