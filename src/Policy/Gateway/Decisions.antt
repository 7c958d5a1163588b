-- ===== src/Policy/Gateway/Decisions.antt =====
-- What GateToolCall decides, and what it leaves in the engine.
use open_agentic_threat_defe.Domain.{
  DeceptionToken, ToolCallDecision, ToolCallRequest, allow, deny, rank,
}
use open_agentic_threat_defe.Go.Maps.{lookup, lookup-put, lookup-put_if}
use open_agentic_threat_defe.Go.Runtime.{Platform}
use open_agentic_threat_defe.Go.Strings.{itoa, trim_space}
use open_agentic_threat_defe.Go.Strings.Trim.{CaseLaws}
use open_agentic_threat_defe.Policy.Deception.{match_deception, token_hits}
use open_agentic_threat_defe.Policy.Engine.{Engine}
use open_agentic_threat_defe.Policy.Gateway.Alerts.{
  find-lookup, gateway_alerts-canary, gateway_alerts-unapproved, scanned, tool_approved-trim,
  tool_of-tool_of,
}
use open_agentic_threat_defe.Policy.Gateway.Gate.{
  decision_metadata, final_assessment, gate_tool_call, gateway_alerts, score_of, taint_of,
}
use open_agentic_threat_defe.Policy.Gateway.Risk.{Covers, final_assessment-Covers}
use open_agentic_threat_defe.Policy.Gateway.ScoreBounds.{score_gateway_request-le}
use open_agentic_threat_defe.Policy.Gateway.Stages.{Refused}
use open_agentic_threat_defe.Policy.Gateway.Verdicts.{
  IsClean, final_assessment-allow_iff, final_assessment-deny_iff, final_assessment-set,
}
use open_agentic_threat_defe.Policy.History.{HistoryLimits, verdict_text}
use open_agentic_threat_defe.Policy.History.Bounds.{IsBounded, record_gateway_history-IsBounded}
use open_agentic_threat_defe.Policy.Rules.{tool_of}
use open_agentic_threat_defe.Policy.Taint.{has_source_prefix}
use open_agentic_threat_defe.Policy.Tenants.{tool_approved_for_tenant}
use open_agentic_threat_defe.Policy.Text.{gateway_text_variants}
use open_agentic_threat_defe.Prelude.{
  Bool-cases, String, arith, false, inl, inr, refl, some, true, ℕ, ◌<◌, ◌==◌, ◌↔◌, ◌∙◌, ◌≡◌, ◌⊎◌,
}

module _ ⦃p : Platform⦄ (limits : HistoryLimits) (e : Engine) (r : ToolCallRequest)
    (now seen : ℕ) where
  abbrev pub decision : ToolCallDecision
  decision = (gate_tool_call limits e r now seen).1

  decision-verdict : decision.verdict ≡ (final_assessment e r).verdict
  unfolding gate_tool_call
  decision-verdict = refl

  -- The gateway allows a call exactly when the tool is named, no alert is raised, provenance and
  -- agent identity are accepted, no taint source, sink or flow stands against it, the payload holds
  -- no injection, secret, discovery, lateral-movement or impact term, and the score is below 70.
  pub allow_iff_clean : (decision.verdict ≡ allow) ↔ (IsClean e r × ((score_of e r).score < 70))
  allow_iff_clean = rw decision-verdict (final_assessment-allow_iff e r)

  -- The gateway denies a call exactly when the tool has no name, a canary or unapproved-tool alert
  -- is raised, the provenance or the agent's token does not match, or a canary is among the taint
  -- sources.
  pub deny_iff_Refused : (decision.verdict ≡ deny) ↔ (
      Refused e r (tool_of r.tool_name) (gateway_alerts e r)
      ⊎ (has_source_prefix (taint_of r) "canary:" ≡ true))
  deny_iff_Refused = rw decision-verdict (final_assessment-deny_iff e r)

  -- A call is denied if a token of the deception registry has a value whose normal form occurs in a
  -- variant of the call's text, whatever else holds of the call.
  pub registered_canary_denied :
      (id : String) (token : DeceptionToken)
      → lookup id e.deception ≡ some token
      → token_hits (gateway_text_variants (scanned e r)) token ≡ true
      → decision.verdict ≡ deny
  unfolding match_deception
  registered_canary_denied id token h k = deny_iff_Refused.1 (
      inl (
        ground (
          arith,
          gateway_alerts-canary e r,
          find-lookup (token_hits (gateway_text_variants (scanned e r))) id e.deception token h k,
        )))

  -- A call of a tool that is not approved for the tenant is denied, unless it is a protocol
  -- operation. (Lower case is taken to be stable and to keep spaces apart from other characters.)
  pub unapproved_tool_denied :
      CaseLaws p
      → r.protocol_surface ≡ false
      → tool_approved_for_tenant e r.tenant (tool_of r.tool_name) ≡ false
      → decision.verdict ≡ deny
  unapproved_tool_denied laws h k = deny_iff_Refused.1 (
      inl (elim (Bool-cases (trim_space r.tool_name == "")) [
        | inl blank ↦ inl blank
        | inr named ↦ inr (
            inr (
              inl (
                gateway_alerts-unapproved e r
                ∙ ground (
                  arith,
                  tool_of-tool_of e r laws named,
                  tool_approved-trim e r (tool_of r.tool_name),
                ))))
      ]))

  -- A call leaves the history bounded: never more keys than the limit, at most eight recent factors
  -- and a risk of at most 100 for each, and counters of verdicts that add up to the calls.
  -- (The limit and the size of an eviction are positive, and the history was bounded before.)
  pub gate_tool_call-IsBounded :
      0 < limits.max_entries
      → 0 < limits.evict_batch
      → IsBounded limits e.history
      → IsBounded limits (gate_tool_call limits e r now seen).0.history
  unfolding gate_tool_call score_of
  gate_tool_call-IsBounded a b h =
      record_gateway_history-IsBounded limits e r _ _ _ _ seen a b (final_assessment-set e r)
        (score_gateway_request-le r _ _ _ _ _ _ _ _).0 h

  -- The metadata of a decision tells the true verdict, score and tool, whatever the request's own
  -- metadata says under these names.
  pub decision_metadata_true :
      (lookup "verdict" decision.metadata ≡ some (verdict_text decision.verdict))
      × (lookup "risk_score" decision.metadata ≡ some (itoa (score_of e r).score))
      × (lookup "tool" decision.metadata ≡ some decision.tool_name)
  unfolding gate_tool_call decision_metadata
  decision_metadata_true = (
    simp (lookup-put, lookup-put_if),
    simp (lookup-put, lookup-put_if),
    simp (lookup-put, lookup-put_if),
  )

  -- The risk of a decision is at least as severe as each of its alerts.
  pub decision-Covers : Covers (rank decision.risk) decision.alerts
  unfolding gate_tool_call
  decision-Covers = final_assessment-Covers e r
