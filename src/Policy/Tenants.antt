-- ===== src/Policy/Tenants.antt =====
-- tenant.go: the org-scoped overlays of the approved-tool and approved-egress lists.
pub mod Overlays
use open_agentic_threat_defe.Go.Maps.{Dict, delete, has_key, keys, lookup, put}
use open_agentic_threat_defe.Go.Runtime.{Platform}
use open_agentic_threat_defe.Go.Strings.{elem, lower, sort_texts, trim_space}
use open_agentic_threat_defe.Policy.Engine.{CompiledTenantPolicy, Engine, TenantPolicy}
use open_agentic_threat_defe.Policy.Hosts.{normalize_host}
use open_agentic_threat_defe.Prelude.{
  Bool, List, Option, String, [], false, if◌then◌else◌, is_empty, none, not, some, true, ◌++◌, ◌==◌,
  ◌||◌, ◌∷◌,
}

abbrev pub has_tools : CompiledTenantPolicy → Bool
has_tools c = not (is_empty c.approved_tools)

abbrev pub has_egress : CompiledTenantPolicy → Bool
has_egress c = not (is_empty c.approved_egress)

-- The loop that fills one dimension: the normal forms, without blanks and repetitions.
unfoldable pub compile_list : (String → String) → List String → List String → List String
compile_list normal done [] = done
compile_list normal done (x ∷ xs) =
    let t = normal x in
    compile_list normal (if t == "" || elem t done then done else done ++ t ∷ []) xs

unfoldable pub tenant_policy_view : String → CompiledTenantPolicy → TenantPolicy
tenant_policy_view tenant_id c = record {
  tenant_id = tenant_id;
  approved_tools = c.tools;
  approved_egress = c.egress;
}

module _ ⦃p : Platform⦄ where
  abbrev pub normalize_tool : String → String
  normalize_tool tool = lower (trim_space tool)

  unfoldable pub compile_tenant_policy : TenantPolicy → CompiledTenantPolicy
  unfolding compile_list
  compile_tenant_policy policy =
      let tools = compile_list normalize_tool [] policy.approved_tools in
      let egress = compile_list normalize_host [] policy.approved_egress in
      record {
        approved_tools = tools;
        approved_egress = egress;
        tools = sort_texts tools;
        egress = sort_texts egress;
      }

  -- SetTenantPolicy: `none` where the tenant id is blank, and then nothing changes.
  unfoldable pub set_tenant_policy : Engine → TenantPolicy → Engine × Option TenantPolicy
  set_tenant_policy e policy =
      let tenant_id = trim_space policy.tenant_id in
      let compiled = compile_tenant_policy policy in
      if tenant_id == "" then (e, none) else (
        record e { tenant_policies = put tenant_id compiled e.tenant_policies },
        some (tenant_policy_view tenant_id compiled),
      )

  unfoldable pub remove_tenant_policy : Engine → String → Engine × Bool
  remove_tenant_policy e tenant_id =
      let id = trim_space tenant_id in
      if id == "" || not (has_key id e.tenant_policies)
      then (e, false)
      else (record e { tenant_policies = delete id e.tenant_policies }, true)

  unfoldable pub tenant_policy : Engine → String → Option TenantPolicy
  tenant_policy e tenant_id =
      let id = trim_space tenant_id in
      if id == "" then none else elim (lookup id e.tenant_policies) [
        | none ↦ none
        | some c ↦ some (tenant_policy_view id c)
      ]

  -- The overlay that a decision for a tenant consults; a blank tenant has none.
  unfoldable pub overlay : Engine → String → Option CompiledTenantPolicy
  overlay e tenant_id =
      let id = trim_space tenant_id in if id == "" then none else lookup id e.tenant_policies

  unfoldable pub is_tool_approved : Engine → String → Bool
  is_tool_approved e tool = elem tool e.approved_tools

  unfoldable pub is_approved_egress : Engine → String → Bool
  is_approved_egress e destination =
      let host = normalize_host destination in
      if host == "" then false else elem host e.approved_egress_hosts

  -- What an overlay, if there is one, makes of a tool and of a destination; `fallback` is the answer
  -- of the global list.
  unfoldable pub tools_decision : Option CompiledTenantPolicy → String → Bool → Bool
  tools_decision none tool fallback = fallback
  tools_decision (some c) tool fallback =
      if has_tools c then elem tool c.approved_tools else fallback

  unfoldable pub egress_decision : Option CompiledTenantPolicy → String → Bool → Bool
  egress_decision none destination fallback =
      if normalize_host destination == "" then false else fallback
  egress_decision (some c) destination fallback =
      let host = normalize_host destination in
      if host == "" then false else if has_egress c then elem host c.approved_egress else fallback

  unfoldable pub tool_approved_for_tenant : Engine → String → String → Bool
  unfolding tools_decision
  tool_approved_for_tenant e tenant_id tool =
      tools_decision (overlay e tenant_id) tool (is_tool_approved e tool)

  unfoldable pub egress_approved_for_tenant : Engine → String → String → Bool
  unfolding egress_decision
  egress_approved_for_tenant e tenant_id destination =
      egress_decision (overlay e tenant_id) destination (is_approved_egress e destination)

-- The loop of ListTenantPolicies over the sorted ids.
list_views : Dict CompiledTenantPolicy → List String → List TenantPolicy
list_views m [] = []
list_views m (id ∷ ids) =
    let rest = list_views m ids in
    elim (lookup id m) [ none ↦ rest | some c ↦ tenant_policy_view id c ∷ rest ]

unfoldable pub list_tenant_policies : Engine → List TenantPolicy
unfolding list_views
list_tenant_policies e = list_views e.tenant_policies (sort_texts (keys e.tenant_policies))
