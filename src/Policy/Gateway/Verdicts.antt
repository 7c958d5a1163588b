-- ===== src/Policy/Gateway/Verdicts.antt =====
-- When GateToolCall allows a call and when it denies one.
use open_agentic_threat_defe.Domain.{
  Alert, ToolCallRequest, allow, deny, rank, require_approval, unset,
}
use open_agentic_threat_defe.Go.Runtime.{Platform}
use open_agentic_threat_defe.Go.Strings.{trim_space}
use open_agentic_threat_defe.Policy.Engine.{Engine}
use open_agentic_threat_defe.Policy.Gateway.Assess.{
  Assessment, alert_stage, assess_gateway_request, default_stage, has_alert_rule, payload_variants,
  severity_for_alerts,
}
use open_agentic_threat_defe.Policy.Gateway.Gate.{
  command_of, escalate, final_assessment, first_assessment, gateway_alerts, score_of, taint_of,
}
use open_agentic_threat_defe.Policy.Gateway.ScoreBounds.{score_canary}
use open_agentic_threat_defe.Policy.Gateway.Stages.{
  AgentAccepted, Passes, ProvenanceAccepted, Refused, TaintClean, TermsClean, alert_stage-allow,
  alert_stage-clean, alert_stage-ne-deny, alert_stage-set, settle_assessment-allow,
  settle_assessment-approval, settle_assessment-deny, settle_assessment-set, switch_stage-Refused,
  switch_stage-cases, switch_stage-clean, switch_stage-set, taint_stage-allow, taint_stage-canary,
  taint_stage-clean, taint_stage-deny, taint_stage-set, term_stage-allow, term_stage-clean,
  term_stage-ne-deny, term_stage-set,
}
use open_agentic_threat_defe.Policy.Identity.{check_agent_identity, check_tool_provenance}
use open_agentic_threat_defe.Policy.Rules.{tool_of}
use open_agentic_threat_defe.Policy.Taint.{TaintAnalysis, has_source_prefix}
use open_agentic_threat_defe.Prelude.{
  List, String, [], ap, arith, false, inl, inr, refl, sym, true, ℕ, ◌<◌, ◌==◌, ◌↔◌, ◌∙◌, ◌≡◌, ◌≢◌,
  ◌≤◌, ◌⊎◌,
}

module _ ⦃p : Platform⦄ (e : Engine) (r : ToolCallRequest) where
  abbrev tool : String
  tool = tool_of r.tool_name

  abbrev alerts : List Alert
  alerts = gateway_alerts e r

  abbrev t : TaintAnalysis
  t = taint_of r

  -- All that the gateway looks at, but the score, is in order.
  pub record IsClean : Type 0 where
    pub named : (trim_space r.tool_name == "") ≡ false
    pub no_alerts : alerts ≡ []
    pub provenance : ProvenanceAccepted (check_tool_provenance e tool r)
    pub agent : AgentAccepted (check_agent_identity e r)
    pub taint : TaintClean t
    pub no_flows : t.flows ≡ []
    pub terms : TermsClean (payload_variants r (command_of r))

  default_stage-allow :
      Passes e r tool
      → (default_stage e r tool (command_of r) alerts t).verdict ≡ allow
      → (alerts ≡ [])
        × ProvenanceAccepted (check_tool_provenance e tool r)
        × AgentAccepted (check_agent_identity e r)
        × TaintClean t
        × TermsClean (payload_variants r (command_of r))
        × ((default_stage e r tool (command_of r) alerts t).findings ≡ t.flows)
  unfolding default_stage
  default_stage-allow k h =
      let (taint, h1, same1) = taint_stage-allow _ _ _ h in
      let (terms, h2, same2) = term_stage-allow _ _ _ _ h1 in
      let (none_left, provenance, agent, same3) = alert_stage-allow e r tool alerts t.flows k h2 in
      (
        none_left,
        provenance,
        agent,
        taint,
        terms,
        ap (λ (a : Assessment). a.findings) same1
            ∙ ap (λ (a : Assessment). a.findings) same2
            ∙ same3,
      )

  first_assessment-allow : (first_assessment e r).verdict ≡ allow → IsClean
  unfolding first_assessment assess_gateway_request
  first_assessment-allow h =
      let (v, f) = (settle_assessment-allow _ _).0 h in
      elim (switch_stage-cases e r tool alerts (default_stage e r tool (command_of r) alerts t)) [
        | inl refused ↦ absurd (cc (switch_stage-Refused e r tool alerts _ refused, v))
        | inr (named, passes, same) ↦
            let (a, b, c, d, g, i) =
              default_stage-allow passes (ap (λ (a : Assessment). a.verdict) (sym same) ∙ v) in
            record {
              named = named;
              no_alerts = a;
              provenance = b;
              agent = c;
              taint = d;
              no_flows = sym i ∙ ap (λ (a : Assessment). a.findings) (sym same) ∙ f;
              terms = g;
            }
      ]

  escalate-allow :
      (a : Assessment) (n : ℕ)
      → ((escalate t a n).verdict ≡ allow) ↔ ((a.verdict ≡ allow) × (n < 70))
  unfolding escalate
  escalate-allow a n = ground arith

  first_assessment-clean : IsClean → (first_assessment e r).verdict ≡ allow
  unfolding first_assessment assess_gateway_request default_stage has_alert_rule
  first_assessment-clean c =
      let (v, f) = alert_stage-clean e r tool t.flows c.provenance c.agent in
      let rest : Assessment = alert_stage e r tool alerts t.flows in
      let v' : rest.verdict ≡ allow = rw c.no_alerts v in
      let f' : rest.findings ≡ [] = rw c.no_alerts f ∙ c.no_flows in
      let same =
        taint_stage-clean t (severity_for_alerts alerts) _ c.taint
        ∙ term_stage-clean _ (severity_for_alerts alerts) t.flows rest c.terms in
      let same' =
        switch_stage-clean e r tool alerts _ c.named (rw c.no_alerts refl) (rw c.no_alerts refl)
          c.provenance c.agent
        ∙ same in
      (settle_assessment-allow _ _).1 (
        ap (λ (a : Assessment). a.verdict) same' ∙ v',
        ap (λ (a : Assessment). a.findings) same' ∙ f',
      )

  -- The gateway allows a call exactly when the tool is named, no alert is raised, provenance and
  -- agent identity are accepted, no taint source, sink or flow stands against it, the payload holds
  -- no injection, secret, discovery, lateral-movement or impact term, and the score is below 70.
  pub final_assessment-allow_iff :
      ((final_assessment e r).verdict ≡ allow) ↔ (IsClean × ((score_of e r).score < 70))
  unfolding final_assessment
  final_assessment-allow_iff = (
    λ h. let (v, n) = (escalate-allow _ _).0 h in (first_assessment-allow v, n),
    λ h. (escalate-allow _ _).1 (first_assessment-clean h.0, h.1),
  )

  escalate-deny :
      (a : Assessment) (n : ℕ)
      → (escalate t a n).verdict ≡ deny
      → (a.verdict ≡ deny) ⊎ (has_source_prefix t "canary:" ≡ true)
  unfolding escalate
  escalate-deny a n h = ground arith

  escalate_denied : (a : Assessment) (n : ℕ) → a.verdict ≡ deny → (escalate t a n).verdict ≡ deny
  unfolding escalate
  escalate_denied a n h = ground arith

  escalate_canary_lem :
      (a : Assessment) (n : ℕ)
      → a.verdict ≡ require_approval
      → 90 ≤ n
      → has_source_prefix t "canary:" ≡ true
      → (escalate t a n).verdict ≡ deny
  unfolding escalate
  escalate_canary_lem a n h k c = ground arith

  default_stage-deny :
      (default_stage e r tool (command_of r) alerts t).verdict ≡ deny
      → has_source_prefix t "canary:" ≡ true
  unfolding default_stage
  default_stage-deny h =
      taint_stage-deny t _ _
        (term_stage-ne-deny _ _ _ _ (alert_stage-ne-deny e r tool alerts t.flows)) h

  first_assessment-deny :
      (first_assessment e r).verdict ≡ deny
      → Refused e r tool alerts ⊎ (has_source_prefix t "canary:" ≡ true)
  unfolding first_assessment assess_gateway_request
  first_assessment-deny h =
      let v = (settle_assessment-deny _ _).0 h in
      elim (switch_stage-cases e r tool alerts (default_stage e r tool (command_of r) alerts t)) [
        | inl refused ↦ inl refused
        | inr (named, passes, same) ↦
            inr (default_stage-deny (ap (λ (a : Assessment). a.verdict) (sym same) ∙ v))
      ]

  first_assessment-Refused : Refused e r tool alerts → (first_assessment e r).verdict ≡ deny
  unfolding first_assessment assess_gateway_request
  first_assessment-Refused h =
      (settle_assessment-deny _ _).1 (switch_stage-Refused e r tool alerts _ h)

  -- What the first assessment says of a canary source.
  first_assessment-canary :
      has_source_prefix t "canary:" ≡ true
      → ((first_assessment e r).verdict ≡ deny)
        ⊎ (((first_assessment e r).verdict ≡ require_approval)
            × (has_source_prefix t "secret:" ≡ true)
            × (rank (first_assessment e r).risk ≡ 5))
  unfolding first_assessment assess_gateway_request default_stage
  first_assessment-canary c =
      elim (switch_stage-cases e r tool alerts (default_stage e r tool (command_of r) alerts t)) [
        | inl refused ↦ inl (first_assessment-Refused refused)
        | inr (named, passes, same) ↦ elim (taint_stage-canary t _ _ c) [
          | inl d ↦
              inl ((settle_assessment-deny _ _).1 (ap (λ (a : Assessment). a.verdict) same ∙ d))
          | inr (v, s, five) ↦
              let (v', same_rank) =
                settle_assessment-approval _ _ (ap (λ (a : Assessment). a.verdict) same ∙ v) in
              inr (v', s, same_rank ∙ ap (λ (a : Assessment). rank a.risk) same ∙ five)
        ]
      ]

  -- The gateway denies a call exactly when the tool has no name, a canary or unapproved-tool alert
  -- is raised, the provenance or the agent's token does not match, or a canary is among the taint
  -- sources.
  pub final_assessment-deny_iff :
      ((final_assessment e r).verdict ≡ deny)
      ↔ (Refused e r tool alerts ⊎ (has_source_prefix t "canary:" ≡ true))
  unfolding final_assessment score_of
  final_assessment-deny_iff = (
    λ h. elim (escalate-deny _ _ h) [ inl d ↦ first_assessment-deny d | inr c ↦ inr c ],
    elim [
      | inl refused ↦ escalate_denied _ _ (first_assessment-Refused refused)
      | inr c ↦ elim (first_assessment-canary c) [
        | inl d ↦ escalate_denied _ _ d
        | inr (v, s, five) ↦
            escalate_canary_lem _ _ v (score_canary r tool _ _ alerts t _ _ _ s c five) c
      ]
    ],
  )

  first_assessment-set : (first_assessment e r).verdict ≢ unset
  unfolding first_assessment assess_gateway_request default_stage
  first_assessment-set = settle_assessment-set _ _ (
      switch_stage-set e r tool alerts _
        (taint_stage-set t _ _ (term_stage-set _ _ _ _ (alert_stage-set e r tool alerts t.flows))))

  escalate-set : (a : Assessment) (n : ℕ) → a.verdict ≢ unset → (escalate t a n).verdict ≢ unset
  unfolding escalate
  escalate-set a n k h = ground arith

  pub final_assessment-set : (final_assessment e r).verdict ≢ unset
  unfolding final_assessment
  final_assessment-set = escalate-set _ _ first_assessment-set
