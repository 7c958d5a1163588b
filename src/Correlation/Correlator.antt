-- ===== src/Correlation/Correlator.antt =====
-- correlator.go: the sequence of an asset's events and the alerts that it raises.
use Prim.Native.String.{◌++◌ as cat}
use open_agentic_threat_defe.Domain.{Alert, Event, Severity, critical, high, open_alert}
use open_agentic_threat_defe.Go.Maps.{Dict, lookup, put}
use open_agentic_threat_defe.Go.Runtime.{Platform}
use open_agentic_threat_defe.Go.Strings.{add_text, contains, join_with, lower}
use open_agentic_threat_defe.Policy.Rules.{is_flow, is_tool_call}
use open_agentic_threat_defe.Prelude.{
  Bool, List, String, [], any, get_or, if◌then◌else◌, ltb, nat_eq, not, sort, ℕ, ◌&&◌, ◌*◌, ◌++◌,
  ◌-◌, ◌==◌, ◌∷◌,
}

pub record SequenceState : Type 0 where
  pub discovery : String
  pub credential : String
  pub agent_tool : String
  pub egress : String
  pub latest_id : String
  pub event_ids : List String

abbrev pub no_sequence : SequenceState
no_sequence = record {
  discovery = "";
  credential = "";
  agent_tool = "";
  egress = "";
  latest_id = "";
  event_ids = [];
}

abbrev discovery_words : List String
discovery_words =
    "scan" ∷ "discovery" ∷ "whoami" ∷ "ipconfig" ∷ "ifconfig" ∷ "netstat" ∷ "arp -a" ∷ "nmap" ∷ []

abbrev credential_words : List String
credential_words =
    "credential" ∷ "secret" ∷ "token" ∷ "password" ∷ "api_key" ∷ "ssh_key" ∷ "env" ∷ []

-- The id is noted once.
abbrev pub note_if : Bool → String → List String → List String
note_if c id ids = if c then add_text ids id else ids

module _ ⦃p : Platform⦄ where
  -- containsAny
  abbrev contains_any : String → List String → Bool
  contains_any value needles = any (λ n. contains value (lower n)) needles

  event_text : Event → String
  event_text e =
      lower (
        join_with " "
          (e.signal ∷ e.command ∷ e.process ∷ e.tool_name ∷ join_with " " e.labels ∷ []))

  -- What makes an event the discovery, the credential touch, the tool call and the egress of a
  -- sequence.
  unfoldable pub is_discovery : Event → Bool
  unfolding event_text
  is_discovery e = contains_any (event_text e) discovery_words

  unfoldable pub touches_credential : Event → Bool
  unfolding event_text
  touches_credential e = contains_any (event_text e) credential_words

  abbrev pub is_egress : Event → Bool
  is_egress e = is_flow e.kind && not (e.destination == "")

  -- The step of the loop of `classifySequence`.
  unfoldable pub classify_event : SequenceState → Event → SequenceState
  unfolding is_discovery touches_credential
  classify_event s e =
      let d = s.discovery == "" && is_discovery e in
      let c = s.credential == "" && touches_credential e in
      let t = s.agent_tool == "" && is_tool_call e.kind in
      let g = s.egress == "" && is_egress e in
      if e.id == "" then s else record {
        discovery = if d then e.id else s.discovery;
        credential = if c then e.id else s.credential;
        agent_tool = if t then e.id else s.agent_tool;
        egress = if g then e.id else s.egress;
        latest_id = e.id;
        event_ids = note_if g e.id (note_if t e.id (note_if c e.id (note_if d e.id s.event_ids)));
      }

  unfoldable pub classify_from : SequenceState → List Event → SequenceState
  unfolding classify_event
  classify_from s [] = s
  classify_from s (e ∷ events) = classify_from (classify_event s e) events

  -- classifySequence
  unfoldable pub classify_sequence : List Event → SequenceState
  unfolding classify_from
  classify_sequence events = classify_from no_sequence events

correlated : String → String → String → Severity → String → SequenceState → Dict String → Alert
correlated rule_id title description severity asset_id s evidence = record {
  id = "";
  fingerprint = cat rule_id (cat ":" (cat asset_id (cat ":" s.latest_id)));
  rule_id = rule_id;
  title = title;
  description = description;
  severity = severity;
  status = open_alert;
  asset_id = asset_id;
  tenant = "";
  created_at = 0;
  event_ids = s.event_ids;
  evidence = evidence;
  recommended_actions = [];
}

-- The alerts of one asset.
unfoldable pub sequence_alerts : String → SequenceState → List Alert
unfolding correlated
sequence_alerts asset_id s =
    let d = not (s.discovery == "") in
    let g = not (s.egress == "") in
    if d && (not (s.credential == "") && (not (s.agent_tool == "") && g))
    then correlated "correlation.agentic.sequence" "Correlated agentic threat sequence"
        "Discovery, credential-touch, agent-tool activity, and external egress appeared on the same asset inside the correlation window."
        critical asset_id s
        (("discovery_event", s.discovery)
          ∷ ("credential_event", s.credential)
          ∷ ("agent_tool_event", s.agent_tool)
          ∷ ("egress_event", s.egress)
          ∷ [])
      ∷ []
    else if d && g
    then correlated "correlation.discovery.egress" "Discovery followed by unexpected egress"
        "Discovery-like process activity was followed by outbound network flow from the same asset."
        high asset_id s (("discovery_event", s.discovery) ∷ ("egress_event", s.egress) ∷ [])
      ∷ []
    else []

abbrev pub default_window : ℕ
default_window = 30 * 60 * 1000000000

abbrev pub in_window : ℕ → Event → Bool
in_window cutoff e =
    not (e.asset_id == "") && not (not (nat_eq e.timestamp 0) && ltb e.timestamp cutoff)

-- The first loop of `Evaluate`.
unfoldable pub by_asset : ℕ → List Event → Dict (List Event) → Dict (List Event)
by_asset cutoff [] groups = groups
by_asset cutoff (e ∷ events) groups =
    let group = get_or (lookup e.asset_id groups) [] ++ e ∷ [] in
    by_asset cutoff events (if in_window cutoff e then put e.asset_id group groups else groups)

module _ ⦃p : Platform⦄ where
  unfoldable pub asset_alerts : Dict (List Event) → List Alert
  asset_alerts [] = []
  asset_alerts ((asset_id, events) ∷ groups) =
      sequence_alerts asset_id
        (classify_sequence (sort (λ (x : Event) (y : Event). ltb x.timestamp y.timestamp) events))
      ++ asset_alerts groups

  -- Correlator.Evaluate
  unfoldable pub correlate : ℕ → ℕ → List Event → List Alert
  correlate window now events =
      let w = if nat_eq window 0 then default_window else window in
      asset_alerts (by_asset (now - w) events [])
