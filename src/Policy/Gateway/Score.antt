-- ===== src/Policy/Gateway/Score.antt =====
-- scoreGatewayRequest of gateway.go: the risk score and its factors. No contribution is negative,
-- so the score is a number from the start and the source's test for a negative one never holds.
use Prim.Native.Nat.{min}
use Prim.Native.String.{◌++◌ as cat}
use open_agentic_threat_defe.Domain.{
  Alert, GatewayVerdict, Severity, ToolCallRequest, critical, high, info, low, medium, rank,
  unnamed_severity,
}
use open_agentic_threat_defe.Go.Runtime.{Platform}
use open_agentic_threat_defe.Go.Strings.{itoa, join_with, trim_space}
use open_agentic_threat_defe.Policy.Engine.{HistoryState}
use open_agentic_threat_defe.Policy.Gateway.Assess.{severity_for_alerts}
use open_agentic_threat_defe.Policy.History.{HistorySnapshot, verdict_text}
use open_agentic_threat_defe.Policy.Rules.{metadata_text}
use open_agentic_threat_defe.Policy.Taint.{
  TaintAnalysis, has_signal_prefix, has_sink_prefix, has_source_prefix,
}
use open_agentic_threat_defe.Policy.Terms.{injection_terms}
use open_agentic_threat_defe.Policy.Text.{TermMatch, gateway_contains_any, gateway_text_variants}
use open_agentic_threat_defe.Prelude.{
  Bool, List, Option, String, [], drop, if◌then◌else◌, is_empty, length, ltb, none, not, some, true,
  ℕ, ◌*◌, ◌++◌, ◌+◌, ◌-◌, ◌/◌, ◌==◌, ◌||◌, ◌∷◌,
}

pub record Scored : Type 0 where
  pub score : ℕ
  pub factors : List String

unfoldable pub severity_text : Severity → String
severity_text info = "info"
severity_text low = "low"
severity_text medium = "medium"
severity_text high = "high"
severity_text critical = "critical"
severity_text (unnamed_severity s) = s

-- One `if` of the source: points and a factor where the condition holds.
abbrev add_if : Bool → ℕ → String → Scored → Scored
add_if c points factor s =
    if c then record { score = s.score + points; factors = s.factors ++ factor ∷ [] } else s

-- The contributions of alerts and taint.
unfoldable pub score_content : List Alert → TaintAnalysis → Scored → Scored
score_content alerts t s0 =
    let s1 =
      add_if (not (is_empty alerts)) (rank (severity_for_alerts alerts) * 8)
        (cat "alerts=" (itoa (length alerts))) s0 in
    let s2 = add_if (has_source_prefix t "secret:") 20 "taint:secret_source" s1 in
    let s3 = add_if (has_source_prefix t "canary:") 35 "taint:canary_source" s2 in
    let s4 = add_if (has_sink_prefix t "external_destination:") 15 "taint:external_sink" s3 in
    add_if (has_signal_prefix t "obfuscated_source:" || has_signal_prefix t "obfuscated_sink:") 10
      "taint:obfuscated" s4

-- The contribution of an injection term.
unfoldable pub score_injection : Option TermMatch → Scored → Scored
score_injection none s = s
score_injection (some m) s =
    add_if true 18 (if m.variant == m.term then "injection:keyword" else "injection:obfuscated") s

-- The contributions of the history.
unfoldable pub score_history : HistoryState → Scored → Scored
score_history h s0 =
    let s1 =
      add_if (ltb 0 h.calls) (min (h.calls * 2) 12) (cat "history:calls=" (itoa h.calls)) s0 in
    let s2 =
      add_if (ltb 0 h.approval_count) (min (h.approval_count * 8) 24)
        (cat "history:approvals=" (itoa h.approval_count)) s1 in
    let s3 =
      add_if (ltb 0 h.deny_count) (min (h.deny_count * 10) 30)
        (cat "history:denies=" (itoa h.deny_count)) s2 in
    add_if (ltb 0 h.risk_score_max) (min (h.risk_score_max / 4) 20)
      (cat "history:max_risk=" (itoa h.risk_score_max)) s3

-- The contributions of the request itself.
unfoldable pub score_context : ⦃p : Platform⦄ → ToolCallRequest → String → Scored → Scored
score_context r tool s0 =
    let s1 = add_if (not (trim_space r.destination == "")) 5 "context:destination" s0 in
    let s2 = add_if (tool == "unknown") 10 "tool:unknown" s1 in
    add_if (not (is_empty r.labels)) (min (length r.labels * 2) 8)
      (cat "context:labels=" (itoa (length r.labels))) s2

-- The last ten factors, and at most 100.
unfoldable pub clamp_score : Scored → Scored
clamp_score s = record {
  score = if ltb 100 s.score then 100 else s.score;
  factors = if ltb 10 (length s.factors) then drop (length s.factors - 10) s.factors else s.factors;
}

unfoldable pub score_gateway_request :
    ⦃p : Platform⦄
    → ToolCallRequest
    → String
    → String
    → String
    → List Alert
    → TaintAnalysis
    → HistorySnapshot
    → GatewayVerdict
    → Severity
    → Scored
score_gateway_request r tool command signal alerts t history verdict risk =
    let start : Scored = record {
      score = rank risk * 10;
      factors = cat "risk=" (severity_text risk) ∷ cat "verdict=" (verdict_text verdict) ∷ [];
    } in
    let payload =
      gateway_text_variants (
        command
        ∷ signal
        ∷ r.destination
        ∷ join_with " " r.labels
        ∷ metadata_text r.metadata
        ∷ []) in
    clamp_score (
      score_context r tool (
        score_history history.state (
          score_injection (gateway_contains_any payload injection_terms)
            (score_content alerts t start))))
