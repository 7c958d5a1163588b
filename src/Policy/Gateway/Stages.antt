-- ===== src/Policy/Gateway/Stages.antt =====
-- What each stage of the assessment in gateway.go needs to allow or to deny a call.
use open_agentic_threat_defe.Domain.{
  Alert, Severity, ToolCallRequest, allow, deny, rank, require_approval, unset,
}
use open_agentic_threat_defe.Go.Runtime.{Platform}
use open_agentic_threat_defe.Go.Strings.{trim_space}
use open_agentic_threat_defe.Policy.Engine.{Engine, HistoryState}
use open_agentic_threat_defe.Policy.Gateway.Assess.{
  Assessment, alert_stage, has_alert_rule, max_severity, settle_assessment, switch_stage,
  taint_stage, term_stage,
}
use open_agentic_threat_defe.Policy.Identity.{
  AgentIdentityStatus, ProvenanceStatus, agent_mismatch, agent_not_required, agent_verified,
  check_agent_identity, check_tool_provenance, provenance_mismatch, provenance_not_required,
  provenance_verified,
}
use open_agentic_threat_defe.Policy.Taint.{TaintAnalysis, has_sink_prefix, has_source_prefix}
use open_agentic_threat_defe.Policy.Terms.{
  discovery_terms, impact_terms, injection_terms, lateral_movement_terms, secret_terms,
}
use open_agentic_threat_defe.Policy.Text.{gateway_contains_any}
use open_agentic_threat_defe.Prelude.{
  List, String, [], arith, false, is_empty, none, true, ◌==◌, ◌||◌, ◌↔◌, ◌≡◌, ◌≢◌, ◌⊎◌,
}

pub record TaintClean (t : TaintAnalysis) : Type 0 where
  pub no_canary : has_source_prefix t "canary:" ≡ false
  pub no_secret : has_source_prefix t "secret:" ≡ false
  pub no_external : has_sink_prefix t "external_destination:" ≡ false
  pub no_pair : (is_empty t.sinks || is_empty t.sources) ≡ true

pub taint_stage-allow :
    (t : TaintAnalysis) (risk : Severity) (rest : Assessment)
    → (taint_stage t risk rest).verdict ≡ allow
    → TaintClean t × (rest.verdict ≡ allow) × (taint_stage t risk rest ≡ rest)
unfolding taint_stage
taint_stage-allow t risk rest h = ground arith

pub taint_stage-clean :
    (t : TaintAnalysis) (risk : Severity) (rest : Assessment)
    → TaintClean t
    → taint_stage t risk rest ≡ rest
unfolding taint_stage
taint_stage-clean t risk rest h = ground arith

pub record TermsClean ⦃p : Platform⦄ (payload : List String) : Type 0 where
  pub no_injection : gateway_contains_any payload injection_terms ≡ none
  pub no_secret_term : gateway_contains_any payload secret_terms ≡ none
  pub no_discovery : gateway_contains_any payload discovery_terms ≡ none
  pub no_lateral : gateway_contains_any payload lateral_movement_terms ≡ none
  pub no_impact : gateway_contains_any payload impact_terms ≡ none

module _ ⦃p : Platform⦄ where
  pub term_stage-allow :
      (payload : List String) (risk : Severity) (findings : List String) (rest : Assessment)
      → (term_stage payload risk findings rest).verdict ≡ allow
      → TermsClean payload × (rest.verdict ≡ allow) × (term_stage payload risk findings rest ≡ rest)
  unfolding term_stage
  term_stage-allow payload risk findings rest h = ground arith

  pub term_stage-clean :
      (payload : List String) (risk : Severity) (findings : List String) (rest : Assessment)
      → TermsClean payload
      → term_stage payload risk findings rest ≡ rest
  unfolding term_stage
  term_stage-clean payload risk findings rest h = ground arith

-- A provenance that does not stand in the way of a call, and an agent identity that does not.
abbrev pub ProvenanceAccepted : ProvenanceStatus → Type 0
ProvenanceAccepted s = (s ≡ provenance_not_required) ⊎ (s ≡ provenance_verified)

abbrev pub AgentAccepted : AgentIdentityStatus → Type 0
AgentAccepted s = (s ≡ agent_not_required) ⊎ (s ≡ agent_verified)

module _ ⦃p : Platform⦄ (e : Engine) (r : ToolCallRequest) (tool : String) where
  -- Statuses on which the `switch` denies.
  abbrev pub Passes : Type 0
  Passes =
      (check_tool_provenance e tool r ≢ provenance_mismatch)
      × (check_agent_identity e r ≢ agent_mismatch)

  pub alert_stage-allow :
      (alerts : List Alert) (findings : List String)
      → Passes
      → (alert_stage e r tool alerts findings).verdict ≡ allow
      → (alerts ≡ [])
        × ProvenanceAccepted (check_tool_provenance e tool r)
        × AgentAccepted (check_agent_identity e r)
        × ((alert_stage e r tool alerts findings).findings ≡ findings)
  unfolding alert_stage
  alert_stage-allow alerts findings k h = ground arith

  pub alert_stage-clean :
      (findings : List String)
      → ProvenanceAccepted (check_tool_provenance e tool r)
      → AgentAccepted (check_agent_identity e r)
      → ((alert_stage e r tool [] findings).verdict ≡ allow)
        × ((alert_stage e r tool [] findings).findings ≡ findings)
  unfolding alert_stage has_alert_rule
  alert_stage-clean findings a b = ground arith

  pub alert_stage-ne-deny :
      (alerts : List Alert) (findings : List String)
      → (alert_stage e r tool alerts findings).verdict ≢ deny
  unfolding alert_stage
  alert_stage-ne-deny alerts findings h = ground arith

  -- The reasons for which the `switch` denies a call.
  abbrev pub Refused : List Alert → Type 0
  Refused alerts =
      ((trim_space r.tool_name == "") ≡ true)
      ⊎ (has_alert_rule alerts "deception.canary.hit" ≡ true)
      ⊎ (has_alert_rule alerts "agent.tool.unapproved" ≡ true)
      ⊎ (check_tool_provenance e tool r ≡ provenance_mismatch)
      ⊎ (check_agent_identity e r ≡ agent_mismatch)

  pub switch_stage-Refused :
      (alerts : List Alert) (rest : Assessment)
      → Refused alerts
      → (switch_stage e r tool alerts rest).verdict ≡ deny
  unfolding switch_stage
  switch_stage-Refused alerts rest h = ground arith

  pub switch_stage-cases :
      (alerts : List Alert) (rest : Assessment)
      → Refused alerts
        ⊎ (((trim_space r.tool_name == "") ≡ false)
            × Passes
            × (switch_stage e r tool alerts rest ≡ rest))
  unfolding switch_stage
  switch_stage-cases alerts rest = ground arith

  pub switch_stage-clean :
      (alerts : List Alert) (rest : Assessment)
      → (trim_space r.tool_name == "") ≡ false
      → has_alert_rule alerts "deception.canary.hit" ≡ false
      → has_alert_rule alerts "agent.tool.unapproved" ≡ false
      → ProvenanceAccepted (check_tool_provenance e tool r)
      → AgentAccepted (check_agent_identity e r)
      → switch_stage e r tool alerts rest ≡ rest
  unfolding switch_stage
  switch_stage-clean alerts rest a b c d f = ground arith

pub term_stage-ne-deny :
    ⦃p : Platform⦄
    → (payload : List String) (risk : Severity) (findings : List String) (rest : Assessment)
    → rest.verdict ≢ deny
    → (term_stage payload risk findings rest).verdict ≢ deny
unfolding term_stage
term_stage-ne-deny payload risk findings rest n h = ground arith

pub taint_stage-deny :
    (t : TaintAnalysis) (risk : Severity) (rest : Assessment)
    → rest.verdict ≢ deny
    → (taint_stage t risk rest).verdict ≡ deny
    → has_source_prefix t "canary:" ≡ true
unfolding taint_stage
taint_stage-deny t risk rest n h = ground arith

-- A canary source is denied at once, or found beside a secret and gated with critical risk.
pub taint_stage-canary :
    (t : TaintAnalysis) (risk : Severity) (rest : Assessment)
    → has_source_prefix t "canary:" ≡ true
    → ((taint_stage t risk rest).verdict ≡ deny)
      ⊎ (((taint_stage t risk rest).verdict ≡ require_approval)
          × (has_source_prefix t "secret:" ≡ true)
          × (rank (taint_stage t risk rest).risk ≡ 5))
unfolding taint_stage max_severity rank
taint_stage-canary t risk rest h = ground arith

-- What follows the `switch` leaves every verdict but allow, and allow only with no finding.
pub settle_assessment-deny :
    (h : HistoryState) (a : Assessment)
    → ((settle_assessment h a).verdict ≡ deny) ↔ (a.verdict ≡ deny)
unfolding settle_assessment
settle_assessment-deny h a = ground arith

pub settle_assessment-allow :
    (h : HistoryState) (a : Assessment)
    → ((settle_assessment h a).verdict ≡ allow) ↔ ((a.verdict ≡ allow) × (a.findings ≡ []))
unfolding settle_assessment
settle_assessment-allow h a = ground arith

pub settle_assessment-approval :
    (h : HistoryState) (a : Assessment)
    → a.verdict ≡ require_approval
    → ((settle_assessment h a).verdict ≡ require_approval)
      × (rank (settle_assessment h a).risk ≡ rank a.risk)
unfolding settle_assessment rank
settle_assessment-approval h a k = ground arith

-- No stage leaves the verdict unset.
pub taint_stage-set :
    (t : TaintAnalysis) (risk : Severity) (rest : Assessment)
    → rest.verdict ≢ unset
    → (taint_stage t risk rest).verdict ≢ unset
unfolding taint_stage
taint_stage-set t risk rest n h = ground arith

pub settle_assessment-set :
    (h : HistoryState) (a : Assessment)
    → a.verdict ≢ unset
    → (settle_assessment h a).verdict ≢ unset
unfolding settle_assessment
settle_assessment-set h a n k = ground arith

module _ ⦃p : Platform⦄ where
  pub term_stage-set :
      (payload : List String) (risk : Severity) (findings : List String) (rest : Assessment)
      → rest.verdict ≢ unset
      → (term_stage payload risk findings rest).verdict ≢ unset
  unfolding term_stage
  term_stage-set payload risk findings rest n h = ground arith

  pub alert_stage-set :
      (e : Engine) (r : ToolCallRequest) (tool : String) (alerts : List Alert)
      (findings : List String)
      → (alert_stage e r tool alerts findings).verdict ≢ unset
  unfolding alert_stage
  alert_stage-set e r tool alerts findings h = ground arith

  pub switch_stage-set :
      (e : Engine) (r : ToolCallRequest) (tool : String) (alerts : List Alert) (rest : Assessment)
      → rest.verdict ≢ unset
      → (switch_stage e r tool alerts rest).verdict ≢ unset
  unfolding switch_stage
  switch_stage-set e r tool alerts rest n h = ground arith
