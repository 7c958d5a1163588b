-- ===== src/Policy/Gateway/ScoreBounds.antt =====
-- Bounds of the risk score of gateway.go.
use native.Mathlib.Nat.{le_trans}
use open_agentic_threat_defe.Domain.{Alert, GatewayVerdict, Severity, ToolCallRequest, rank}
use open_agentic_threat_defe.Go.Runtime.{Platform}
use open_agentic_threat_defe.Policy.Engine.{HistoryState}
use open_agentic_threat_defe.Policy.Gateway.Score.{
  Scored, clamp_score, score_content, score_context, score_gateway_request, score_history,
  score_injection,
}
use open_agentic_threat_defe.Policy.History.{HistorySnapshot}
use open_agentic_threat_defe.Policy.Taint.{TaintAnalysis, has_source_prefix}
use open_agentic_threat_defe.Policy.Text.{TermMatch}
use open_agentic_threat_defe.Prelude.{
  List, Option, String, arith, length, length-drop, none, some, true, ℕ, ◌*◌, ◌+◌, ◌-◌, ◌≡◌, ◌≤◌,
}

score_content-le :
    (alerts : List Alert) (t : TaintAnalysis) (s : Scored)
    → s.score ≤ (score_content alerts t s).score
unfolding score_content
score_content-le alerts t s = ground arith

-- A secret source and a canary source are worth 55 points.
score_content-canary :
    (alerts : List Alert) (t : TaintAnalysis) (s : Scored)
    → has_source_prefix t "secret:" ≡ true
    → has_source_prefix t "canary:" ≡ true
    → s.score + 55 ≤ (score_content alerts t s).score
unfolding score_content
score_content-canary alerts t s h k = ground arith

score_injection-le : (m : Option TermMatch) (s : Scored) → s.score ≤ (score_injection m s).score
unfolding score_injection
score_injection-le none s = omega arith
score_injection-le (some m) s = omega arith

score_history-le : (h : HistoryState) (s : Scored) → s.score ≤ (score_history h s).score
unfolding score_history
score_history-le h s = ground arith

module _ ⦃p : Platform⦄ where
  score_context-le :
      (r : ToolCallRequest) (tool : String) (s : Scored) → s.score ≤ (score_context r tool s).score
  unfolding score_context
  score_context-le r tool s = ground arith

  rest-le :
      (h : HistoryState) (m : Option TermMatch) (r : ToolCallRequest) (tool : String) (s : Scored)
      → s.score ≤ (score_context r tool (score_history h (score_injection m s))).score
  rest-le h m r tool s =
      le_trans (score_injection-le m s)
        (le_trans (score_history-le h (score_injection m s)) (score_context-le r tool _))

clamp_score-bounds :
    (s : Scored)
    → ((clamp_score s).score ≤ 100)
      × (length (clamp_score s).factors ≤ 10)
      × ((s.score ≤ 100) → (clamp_score s).score ≡ s.score)
unfolding clamp_score
clamp_score-bounds s = ground (arith, length-drop (length s.factors - 10) s.factors)

clamp_score-ge : (s : Scored) (n : ℕ) → n ≤ 100 → n ≤ s.score → n ≤ (clamp_score s).score
unfolding clamp_score
clamp_score-ge s n h k = ground arith

module _ ⦃p : Platform⦄ (r : ToolCallRequest) (tool command signal : String) (alerts : List Alert)
    (t : TaintAnalysis) (history : HistorySnapshot) (verdict : GatewayVerdict)
    (risk : Severity) where
  abbrev scored : Scored
  scored = score_gateway_request r tool command signal alerts t history verdict risk

  -- The score is at most 100, and at most ten factors are kept.
  pub score_gateway_request-le : (scored.score ≤ 100) × (length scored.factors ≤ 10)
  unfolding score_gateway_request
  score_gateway_request-le = let b = clamp_score-bounds _ in (b.0, b.1)

  rank_le : rank risk * 10 ≤ 50
  unfolding rank
  rank_le = ground arith

  -- The score is at least ten times the rank of the risk.
  pub rank-le-score : rank risk * 10 ≤ scored.score
  unfolding score_gateway_request
  rank-le-score =
      clamp_score-ge _ _ (le_trans rank_le (omega arith))
        (le_trans (score_content-le alerts t _) (rest-le history.state _ r tool _))

  -- A critical call with a secret and a canary source passes the deny threshold of 90.
  pub score_canary :
      has_source_prefix t "secret:" ≡ true
      → has_source_prefix t "canary:" ≡ true
      → rank risk ≡ 5
      → 90 ≤ scored.score
  unfolding score_gateway_request
  score_canary h k e = clamp_score-ge _ 90 (omega arith) (
      le_trans (omega arith)
        (le_trans (score_content-canary alerts t _ h k) (rest-le history.state _ r tool _)))
