-- ===== src/Examples/Correlation.antt =====
-- The theorem about sequences at a concrete event.
use open_agentic_threat_defe.Correlation.Correlator.{
  classify_sequence, is_discovery, is_egress, touches_credential,
}
use open_agentic_threat_defe.Correlation.Sequences.{classify_sequence_exact, marks}
use open_agentic_threat_defe.Examples.Fixtures.{host_event}
use open_agentic_threat_defe.Go.Ascii.{ascii}
use open_agentic_threat_defe.Go.Strings.Sets.{Distinct}
use open_agentic_threat_defe.Policy.Rules.{is_tool_call}
use open_agentic_threat_defe.Prelude.{[], any, not, ◌==◌, ◌∷◌, ◌≡◌}

classify_sequence_exact_example :
    (not ((classify_sequence ⦃p = ascii⦄ (host_event ∷ [])).discovery == "")
      ≡ any (marks ⦃p = ascii⦄ (is_discovery ⦃p = ascii⦄)) (host_event ∷ []))
    × (not ((classify_sequence ⦃p = ascii⦄ (host_event ∷ [])).credential == "")
        ≡ any (marks ⦃p = ascii⦄ (touches_credential ⦃p = ascii⦄)) (host_event ∷ []))
    × (not ((classify_sequence ⦃p = ascii⦄ (host_event ∷ [])).agent_tool == "")
        ≡ any (marks ⦃p = ascii⦄ (λ e. is_tool_call e.kind)) (host_event ∷ []))
    × (not ((classify_sequence ⦃p = ascii⦄ (host_event ∷ [])).egress == "")
        ≡ any (marks ⦃p = ascii⦄ (is_egress ⦃p = ascii⦄)) (host_event ∷ []))
    × Distinct (classify_sequence ⦃p = ascii⦄ (host_event ∷ [])).event_ids
classify_sequence_exact_example = classify_sequence_exact ⦃p = ascii⦄ (host_event ∷ [])
