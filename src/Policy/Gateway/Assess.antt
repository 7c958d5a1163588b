-- ===== src/Policy/Gateway/Assess.antt =====
-- assessGatewayRequest of gateway.go: verdict, reason, risk and findings. The `switch` and the
-- `else if` chain of its default case are split into stages; each hands on to the next.
use Prim.Native.String.{◌++◌ as cat}
use open_agentic_threat_defe.Domain.{
  Alert, GatewayVerdict, Severity, ToolCallRequest, allow, critical, deny, high, info, rank,
  require_approval, unnamed_severity,
}
use open_agentic_threat_defe.Go.Runtime.{Platform}
use open_agentic_threat_defe.Go.Strings.{itoa, join_with, trim_space}
use open_agentic_threat_defe.Policy.Engine.{Engine, HistoryState}
use open_agentic_threat_defe.Policy.History.{HistorySnapshot}
use open_agentic_threat_defe.Policy.Identity.{
  agent_mismatch, agent_unidentified, agent_unknown, check_agent_identity, check_tool_provenance,
  provenance_mismatch, provenance_missing,
}
use open_agentic_threat_defe.Policy.Rules.{metadata_text}
use open_agentic_threat_defe.Policy.Taint.{
  TaintAnalysis, has_signal_prefix, has_sink_prefix, has_source_prefix,
}
use open_agentic_threat_defe.Policy.Terms.{
  discovery_terms, impact_terms, injection_terms, lateral_movement_terms, secret_terms,
}
use open_agentic_threat_defe.Policy.Text.{TermMatch, gateway_contains_any, gateway_text_variants}
use open_agentic_threat_defe.Prelude.{
  Bool, List, Option, String, [], any, filter, if◌then◌else◌, is_empty, leb, ltb, none, not, some,
  ◌&&◌, ◌++◌, ◌==◌, ◌||◌, ◌∷◌,
}

pub record Assessment : Type 0 where
  pub verdict : GatewayVerdict
  pub reason : String
  pub risk : Severity
  pub findings : List String

unfoldable pub max_severity : Severity → Severity → Severity
max_severity a b = if leb (rank b) (rank a) then a else b

-- The loop of `severityForAlerts` from a severity on.
unfoldable pub severity_from : Severity → List Alert → Severity
severity_from risk [] = risk
severity_from risk (alert ∷ alerts) =
    severity_from (if ltb (rank risk) (rank alert.severity) then alert.severity else risk) alerts

unfoldable pub severity_for_alerts : List Alert → Severity
unfolding severity_from
severity_for_alerts alerts = severity_from info alerts

unfoldable pub has_alert_rule : List Alert → String → Bool
has_alert_rule alerts rule_id = any (λ a. a.rule_id == rule_id) alerts

unfoldable pub filter_out_alert_rule : List Alert → String → List Alert
filter_out_alert_rule alerts rule_id = filter (λ a. not (a.rule_id == rule_id)) alerts

module _ ⦃p : Platform⦄ where
  -- The tests of the default case on alerts, provenance and agent identity; what passes them all
  -- is allowed.
  unfoldable pub alert_stage :
      Engine → ToolCallRequest → String → List Alert → List String → Assessment
  alert_stage e r tool alerts findings =
      let risk = severity_for_alerts alerts in
      let approve : String → Severity → List String → Assessment = λ reason s more. record {
        verdict = require_approval;
        reason = reason;
        risk = max_severity risk s;
        findings = findings ++ more;
      } in
      if has_alert_rule alerts "network.egress.unknown"
        || (has_alert_rule alerts "process.discovery.chain"
            || has_alert_rule alerts "model.runtime.suspicious")
      then approve "tool call requires operator approval" (severity_for_alerts alerts) []
      else if not (is_empty alerts)
      then approve "tool call produced security alerts and requires review"
          (severity_for_alerts alerts) []
      else elim (check_tool_provenance e tool r) [
        | provenance_missing ↦
            approve
              (cat "tool "
                (cat (p.quote tool) " is missing required provenance and needs operator approval"))
              high ("provenance=missing" ∷ [])
        | _ ↦ elim (check_agent_identity e r) [
          | agent_unknown ↦
              approve
                (cat "unregistered agent identity "
                  (cat (p.quote r.agent_id) " requires operator approval"))
                high ("agent_identity=unknown" ∷ [])
          | agent_unidentified ↦
              approve "unidentified agent requires operator approval" high
                ("agent_identity=unidentified" ∷ [])
          | _ ↦ record {
            verdict = allow;
            reason = cat "tool " (cat (p.quote tool) " matched the approved manifest");
            risk = risk;
            findings = findings;
          }
        ]
      ]

-- A stage that looks for terms: `hit` where one is found, else `rest`.
abbrev on_match : Option TermMatch → (TermMatch → Assessment) → Assessment → Assessment
on_match none hit rest = rest
on_match (some m) hit rest = hit m

abbrev plain : TermMatch → Bool
plain m = m.variant == m.term

-- The findings of a term, with the variant where it is not the term itself.
term_findings : String → TermMatch → List String
term_findings label m =
    let found = cat label m.term in
    if plain m then found ∷ [] else found ∷ cat "variant=" m.variant ∷ []

-- The branches of the default case on injection, secret, discovery, lateral-movement and impact
-- terms in the payload.
unfoldable pub term_stage :
    ⦃p : Platform⦄ → List String → Severity → List String → Assessment → Assessment
unfolding term_findings
term_stage payload risk findings rest =
    let approve : String → Severity → List String → Assessment = λ reason s more. record {
      verdict = require_approval;
      reason = reason;
      risk = max_severity risk s;
      findings = findings ++ more;
    } in
    on_match (gateway_contains_any payload injection_terms)
      (λ m.
        approve
          (if plain m
            then "prompt-injection-like instruction requires approval"
            else "obfuscated prompt-injection-like instruction requires approval")
          high (term_findings "injection_term=" m))
      (on_match (gateway_contains_any payload secret_terms)
        (λ m.
          approve
            (if plain m
              then "sensitive material referenced by the tool call"
              else "obfuscated sensitive material referenced by the tool call")
            critical (term_findings "secret_term=" m))
        (on_match (gateway_contains_any payload discovery_terms)
          (λ m.
            approve
              (if plain m
                then "discovery-style tool usage requires approval"
                else "obfuscated discovery-style tool usage requires approval")
              high (cat "discovery_term=" m.term ∷ []))
          (on_match (gateway_contains_any payload lateral_movement_terms)
            (λ m.
              approve
                (if plain m
                  then "lateral-movement tooling requires approval"
                  else "obfuscated lateral-movement tooling requires approval")
                high (cat "lateral_term=" m.term ∷ []))
            (on_match (gateway_contains_any payload impact_terms)
              (λ m.
                approve
                  (if plain m
                    then "destructive/impact action requires approval"
                    else "obfuscated destructive/impact action requires approval")
                  critical (cat "impact_term=" m.term ∷ []))
              rest))))

-- The branches of the default case on the taint analysis.
unfoldable pub taint_stage : TaintAnalysis → Severity → Assessment → Assessment
taint_stage t risk rest =
    let settle : GatewayVerdict → String → Severity → Assessment = λ verdict reason s. record {
      verdict = verdict;
      reason = reason;
      risk = max_severity risk s;
      findings = t.flows;
    } in
    let obfuscated_source = has_signal_prefix t "obfuscated_source:" in
    let obfuscated = obfuscated_source || has_signal_prefix t "obfuscated_sink:" in
    if has_source_prefix t "canary:" && not (is_empty t.sinks)
    then settle deny "canary source reached a sink and must be contained" critical
    else if has_source_prefix t "secret:" && not (is_empty t.sinks)
    then settle require_approval
        (if obfuscated
          then "obfuscated sensitive source may flow to a sink and requires approval"
          else "sensitive source may flow to a sink and requires approval")
        critical
    else if has_source_prefix t "secret:"
    then settle require_approval
        (if obfuscated_source
          then "obfuscated sensitive material referenced by the tool call"
          else "sensitive material referenced by the tool call")
        critical
    else if has_source_prefix t "canary:"
    then settle deny "canary source detected" critical
    else if has_sink_prefix t "external_destination:"
    then settle require_approval "tool call targets an external sink and requires operator approval"
        high
    else if not (is_empty t.sinks) && not (is_empty t.sources)
    then settle require_approval "source-to-sink flow requires operator approval" high
    else rest

module _ ⦃p : Platform⦄ where
  unfoldable pub payload_variants : ToolCallRequest → String → List String
  payload_variants r command =
      gateway_text_variants (
        command ∷ r.signal ∷ r.destination ∷ join_with " " r.labels ∷ metadata_text r.metadata ∷ [])

  -- The default case of the `switch`.
  unfoldable pub default_stage :
      Engine → ToolCallRequest → String → String → List Alert → TaintAnalysis → Assessment
  default_stage e r tool command alerts t =
      let risk = severity_for_alerts alerts in
      taint_stage t risk
        (term_stage (payload_variants r command) risk t.flows (alert_stage e r tool alerts t.flows))

  -- The cases of the `switch` that deny before the default case is tried.
  unfoldable pub switch_stage :
      Engine → ToolCallRequest → String → List Alert → Assessment → Assessment
  switch_stage e r tool alerts rest =
      let refuse : String → Severity → List String → Assessment = λ reason s findings. record {
        verdict = deny;
        reason = reason;
        risk = max_severity (severity_for_alerts alerts) s;
        findings = findings;
      } in
      if trim_space r.tool_name == ""
      then refuse "tool name is required" high []
      else if has_alert_rule alerts "deception.canary.hit"
      then refuse "deception asset touched or canary signal detected" critical []
      else if has_alert_rule alerts "agent.tool.unapproved"
      then refuse (cat "tool " (cat (p.quote tool) " is not on the approved manifest")) high []
      else elim (check_tool_provenance e tool r) [
        | provenance_mismatch ↦
            refuse
              (cat "tool "
                (cat (p.quote tool) " provenance mismatch — possible tool spoofing or tampering"))
              critical ("provenance=mismatch" ∷ [])
        | _ ↦ elim (check_agent_identity e r) [
          | agent_mismatch ↦
              refuse
                (cat "agent identity verification failed for "
                  (cat (p.quote r.agent_id) " — possible impersonation"))
                critical ("agent_identity=mismatch" ∷ [])
          | _ ↦ rest
        ]
      ]

-- What follows the `switch`. The risk that is the empty text becomes info.
unfoldable pub settle_assessment : HistoryState → Assessment → Assessment
settle_assessment h a =
    let risk : Severity = elim a.risk [
      | unnamed_severity s ↦ if s == "" then info else a.risk
      | _ ↦ a.risk
    ] in
    elim a.verdict [
      | allow ↦
          if not (is_empty a.findings)
          then record a { verdict = require_approval; risk = risk }
          else if ltb 0 h.approval_count
          then record a {
            risk = risk;
            findings = cat "history_prior_approvals=" (itoa h.approval_count) ∷ [];
          }
          else record a { risk = risk }
      | _ ↦ record a { risk = risk }
    ]

unfoldable pub assess_gateway_request :
    ⦃p : Platform⦄
    → Engine
    → ToolCallRequest
    → String
    → String
    → List Alert
    → TaintAnalysis
    → HistorySnapshot
    → Assessment
assess_gateway_request e r tool command alerts t history =
    settle_assessment history.state
      (switch_stage e r tool alerts (default_stage e r tool command alerts t))
