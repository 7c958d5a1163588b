-- ===== src/Correlation/Sequences.antt =====
-- What a sequence tells of the events.
use open_agentic_threat_defe.Correlation.Correlator.{
  SequenceState, classify_event, classify_from, classify_sequence, is_discovery, is_egress,
  no_sequence, note_if, touches_credential,
}
use open_agentic_threat_defe.Domain.{Event}
use open_agentic_threat_defe.Go.Runtime.{Platform}
use open_agentic_threat_defe.Go.Strings.{elem}
use open_agentic_threat_defe.Go.Strings.Sets.{Distinct, Distinct-push}
use open_agentic_threat_defe.Policy.Rules.{is_tool_call}
use open_agentic_threat_defe.Prelude.{
  Bool, Bool-cases, List, String, [], any, arith, false, inl, inr, not, true, ◌&&◌, ◌==◌, ◌||◌, ◌∷◌,
  ◌≡◌,
}

module _ ⦃p : Platform⦄ where
  -- An event with an id that passes a test.
  abbrev pub marks : (Event → Bool) → Event → Bool
  marks q e = not (e.id == "") && q e

  classify_from_exact :
      (events : List Event) (s : SequenceState)
      → (not ((classify_from s events).discovery == "")
          ≡ (not (s.discovery == "") || any (marks is_discovery) events))
        × (not ((classify_from s events).credential == "")
            ≡ (not (s.credential == "") || any (marks touches_credential) events))
        × (not ((classify_from s events).agent_tool == "")
            ≡ (not (s.agent_tool == "") || any (marks (λ e. is_tool_call e.kind)) events))
        × (not ((classify_from s events).egress == "")
            ≡ (not (s.egress == "") || any (marks is_egress) events))
  unfolding classify_from classify_event
  classify_from_exact [] s = ground arith
  classify_from_exact (e ∷ events) s =
      ground (arith, classify_from_exact events (classify_event s e))

  note-Distinct :
      (c : Bool) (id : String) (ids : List String) → Distinct ids → Distinct (note_if c id ids)
  note-Distinct false id ids d = d
  note-Distinct true id ids d = elim (Bool-cases (elem id ids)) [
    | inl h ↦ rw h d
    | inr h ↦ rw h (Distinct-push id ids d h)
  ]

  classify_event-Distinct :
      (s : SequenceState) (e : Event)
      → Distinct s.event_ids
      → Distinct (classify_event s e).event_ids
  unfolding classify_event
  classify_event-Distinct s e d = elim (Bool-cases (e.id == "")) [
    | inl h ↦ rw h d
    | inr h ↦
        let is : List String = note_if (s.discovery == "" && is_discovery e) e.id s.event_ids in
        let js : List String = note_if (s.credential == "" && touches_credential e) e.id is in
        let ks : List String = note_if (s.agent_tool == "" && is_tool_call e.kind) e.id js in
        let di = note-Distinct (s.discovery == "" && is_discovery e) e.id s.event_ids d in
        let dj = note-Distinct (s.credential == "" && touches_credential e) e.id is di in
        let dk = note-Distinct (s.agent_tool == "" && is_tool_call e.kind) e.id js dj in
        rw h (note-Distinct (s.egress == "" && is_egress e) e.id ks dk)
  ]

  classify_from-Distinct :
      (events : List Event) (s : SequenceState)
      → Distinct s.event_ids
      → Distinct (classify_from s events).event_ids
  unfolding classify_from
  classify_from-Distinct [] s d = d
  classify_from-Distinct (e ∷ events) s d =
      classify_from-Distinct events (classify_event s e) (classify_event-Distinct s e d)

  -- A stage of a sequence is filled exactly if some event with an id is of its kind (discovery,
  -- credential touch, tool call, egress), and no event is listed twice.
  pub classify_sequence_exact :
      (events : List Event)
      → (not ((classify_sequence events).discovery == "") ≡ any (marks is_discovery) events)
        × (not ((classify_sequence events).credential == "")
            ≡ any (marks touches_credential) events)
        × (not ((classify_sequence events).agent_tool == "")
            ≡ any (marks (λ e. is_tool_call e.kind)) events)
        × (not ((classify_sequence events).egress == "") ≡ any (marks is_egress) events)
        × Distinct (classify_sequence events).event_ids
  unfolding classify_sequence
  classify_sequence_exact events =
      let (d, c, t, g) = classify_from_exact events no_sequence in
      (d, c, t, g, classify_from-Distinct events no_sequence tt)
