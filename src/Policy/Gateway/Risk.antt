-- ===== src/Policy/Gateway/Risk.antt =====
-- The risk of a decision against the severities of its alerts.
use native.Mathlib.Nat.{le_trans, le_refl}
use open_agentic_threat_defe.Domain.{Alert, Severity, ToolCallRequest, critical, high, info, rank}
use open_agentic_threat_defe.Go.Runtime.{Platform}
use open_agentic_threat_defe.Policy.Engine.{Engine, HistoryState}
use open_agentic_threat_defe.Policy.Gateway.Assess.{
  Assessment, alert_stage, assess_gateway_request, default_stage, max_severity, payload_variants,
  settle_assessment, severity_for_alerts, severity_from, switch_stage, taint_stage, term_stage,
}
use open_agentic_threat_defe.Policy.Gateway.Gate.{
  command_of, escalate, final_assessment, first_assessment, gateway_alerts, taint_of,
}
use open_agentic_threat_defe.Policy.Rules.{tool_of}
use open_agentic_threat_defe.Policy.Taint.{TaintAnalysis}
use open_agentic_threat_defe.Prelude.{
  All, All-map, List, String, [], ap, arith, if◌then◌else◌, ltb, subst, sym, ℕ, ◌∙◌, ◌∷◌, ◌≡◌, ◌≤◌,
}

max_severity-le : (a b : Severity) → rank a ≤ rank (max_severity a b)
unfolding max_severity
max_severity-le a b = ground arith

abbrev next : Severity → Alert → Severity
next risk a = if ltb (rank risk) (rank a.severity) then a.severity else risk

next_ge :
    (risk : Severity) (a : Alert)
    → (rank risk ≤ rank (next risk a)) × (rank a.severity ≤ rank (next risk a))
next_ge risk a = ground arith

severity_from-ge : (risk : Severity) (xs : List Alert) → rank risk ≤ rank (severity_from risk xs)
unfolding severity_from
severity_from-ge risk [] = le_refl (rank risk)
severity_from-ge risk (a ∷ xs) = le_trans (next_ge risk a).0 (severity_from-ge (next risk a) xs)

-- Every alert's severity has at most the rank.
abbrev pub Covers : ℕ → List Alert → Type 0
Covers n = All (λ (a : Alert). rank a.severity ≤ n)

severity_from-Covers :
    (risk : Severity) (xs : List Alert) → Covers (rank (severity_from risk xs)) xs
unfolding severity_from
severity_from-Covers risk [] = tt
severity_from-Covers risk (a ∷ xs) = (
  le_trans (next_ge risk a).1 (severity_from-ge (next risk a) xs),
  severity_from-Covers (next risk a) xs,
)

Covers-mono : {m n : ℕ} (xs : List Alert) → m ≤ n → Covers m xs → Covers n xs
Covers-mono xs h c = All-map _ _ xs (λ a k. le_trans k h) c

taint_stage-risk :
    (t : TaintAnalysis) (risk : Severity) (rest : Assessment)
    → rank risk ≤ rank rest.risk
    → rank risk ≤ rank (taint_stage t risk rest).risk
unfolding taint_stage
taint_stage-risk t risk rest h =
    ground (arith, max_severity-le risk critical, max_severity-le risk high)

settle_assessment-risk :
    (h : HistoryState) (a : Assessment) → rank (settle_assessment h a).risk ≡ rank a.risk
unfolding settle_assessment rank
settle_assessment-risk h a = ground arith

module _ ⦃p : Platform⦄ where
  term_stage-risk :
      (payload : List String) (risk : Severity) (findings : List String) (rest : Assessment)
      → rank risk ≤ rank rest.risk
      → rank risk ≤ rank (term_stage payload risk findings rest).risk
  unfolding term_stage
  term_stage-risk payload risk findings rest h =
      ground (arith, max_severity-le risk critical, max_severity-le risk high)

  module _ (e : Engine) (r : ToolCallRequest) (tool : String) (alerts : List Alert) where
    abbrev risk : Severity
    risk = severity_for_alerts alerts

    alert_stage-risk :
        (findings : List String) → rank risk ≤ rank (alert_stage e r tool alerts findings).risk
    unfolding alert_stage
    alert_stage-risk findings =
        ground (arith, max_severity-le risk high, max_severity-le risk risk, le_refl (rank risk))

    switch_stage-risk :
        (rest : Assessment)
        → rank risk ≤ rank rest.risk
        → rank risk ≤ rank (switch_stage e r tool alerts rest).risk
    unfolding switch_stage
    switch_stage-risk rest h =
        ground (arith, max_severity-le risk critical, max_severity-le risk high)

  escalate-risk : (t : TaintAnalysis) (a : Assessment) (n : ℕ) → (escalate t a n).risk ≡ a.risk
  unfolding escalate
  escalate-risk t a n = ground arith

  -- The rank of the risk is at least that of every alert of the call.
  pub final_assessment-Covers :
      (e : Engine) (r : ToolCallRequest)
      → Covers (rank (final_assessment e r).risk) (gateway_alerts e r)
  unfolding final_assessment first_assessment assess_gateway_request default_stage
      severity_for_alerts
  final_assessment-Covers e r =
      let alerts = gateway_alerts e r in
      let tool = tool_of r.tool_name in
      let t = taint_of r in
      let staged = switch_stage-risk e r tool alerts _ (
        taint_stage-risk t (severity_for_alerts alerts) _ (
          term_stage-risk (payload_variants r (command_of r)) (severity_for_alerts alerts) t.flows _
            (alert_stage-risk e r tool alerts t.flows))) in
      Covers-mono alerts
        (subst (λ n. rank (severity_for_alerts alerts) ≤ n)
          (sym (settle_assessment-risk _ _) ∙ ap rank (sym (escalate-risk t _ _))) staged)
        (severity_from-Covers info alerts)
