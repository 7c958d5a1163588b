-- ===== src/Policy/Rules.antt =====
-- Evaluate of engine.go: the alerts that one event raises.
use Prim.Native.String.{◌++◌ as cat}
use open_agentic_threat_defe.Domain.{
  Alert, Event, EventKind, Severity, agent_tool_call, critical, deception_hit, high, medium,
  network_flow, open_alert, process_start,
}
use open_agentic_threat_defe.Go.Maps.{Dict, keys, lookup}
use open_agentic_threat_defe.Go.Runtime.{Platform}
use open_agentic_threat_defe.Go.Strings.{join_with, lower, sort_texts, trim_space}
use open_agentic_threat_defe.Policy.Deception.{match_deception}
use open_agentic_threat_defe.Policy.Engine.{Engine}
use open_agentic_threat_defe.Policy.Hosts.{is_external_destination}
use open_agentic_threat_defe.Policy.Tenants.{egress_approved_for_tenant, tool_approved_for_tenant}
use open_agentic_threat_defe.Policy.Terms.{discovery_terms, exposure_terms, model_runtime_terms}
use open_agentic_threat_defe.Policy.Text.{gateway_contains_any, gateway_text_variants}
use open_agentic_threat_defe.Prelude.{
  Bool, List, String, [], any, false, get_or, if◌then◌else◌, is_some, none, not, some, true, ◌&&◌,
  ◌++◌, ◌==◌, ◌||◌, ◌∷◌,
}

-- The "key=value" parts of `metadataText`, over the sorted keys.
key_values : Dict String → List String → List String
key_values m [] = []
key_values m (k ∷ ks) = cat k (cat "=" (get_or (lookup k m) "")) ∷ key_values m ks

unfoldable pub metadata_text : Dict String → String
unfolding key_values
metadata_text metadata = join_with " " (key_values metadata (sort_texts (keys metadata)))

unfoldable pub new_alert : String → String → String → Severity → Event → Dict String → Alert
new_alert rule_id title description severity event evidence = record {
  id = "";
  fingerprint = cat rule_id (cat ":" event.id);
  rule_id = rule_id;
  title = title;
  description = description;
  severity = severity;
  status = open_alert;
  asset_id = event.asset_id;
  tenant = "";
  created_at = 0;
  event_ids = event.id ∷ [];
  evidence = evidence;
  recommended_actions = [];
}

abbrev pub is_tool_call : EventKind → Bool
is_tool_call agent_tool_call = true
is_tool_call _ = false

abbrev pub is_flow : EventKind → Bool
is_flow network_flow = true
is_flow _ = false

abbrev pub is_process : EventKind → Bool
is_process process_start = true
is_process _ = false

abbrev pub is_hit : EventKind → Bool
is_hit deception_hit = true
is_hit _ = false

module _ ⦃p : Platform⦄ where
  -- The lower-case name of a tool, "unknown" for a blank one.
  unfoldable pub tool_of : String → String
  tool_of name = let t = lower (trim_space name) in if t == "" then "unknown" else t

  unfoldable pub has_label : List String → String → Bool
  has_label labels label = any (λ l. p.equal_fold l label) labels

  -- rule agent.tool.unapproved
  unfoldable pub unapproved_tool_alerts : Engine → Event → List Alert
  unapproved_tool_alerts e event =
      let tool = tool_of event.tool_name in
      if is_tool_call event.kind && not (tool_approved_for_tenant e event.tenant tool)
      then new_alert "agent.tool.unapproved" "Unapproved agent tool call"
          (cat "Agent invoked tool " (cat (p.quote tool) " outside the approved manifest.")) high
          event (("tool", tool) ∷ ("actor", event.actor) ∷ [])
        ∷ []
      else []

  -- rule agent.secret.exposure
  unfoldable pub secret_exposure_alerts : Event → List Alert
  secret_exposure_alerts event =
      let tool = tool_of event.tool_name in
      if is_tool_call event.kind
      then elim (gateway_contains_any
          (gateway_text_variants
            (event.command ∷ event.signal ∷ tool ∷ metadata_text event.metadata ∷ []))
          exposure_terms) [
            | none ↦ []
            | some m ↦
                new_alert "agent.secret.exposure" "Potential secret exposure through agent context"
                  "Agent activity referenced secrets, credentials, tokens, or environment material."
                  critical event
                  (("tool", tool) ∷ ("command", event.command) ∷ ("match", m.term) ∷ [])
                ∷ []
          ]
      else []

  -- rule network.egress.unknown
  unfoldable pub unknown_egress_alerts : Engine → Event → List Alert
  unknown_egress_alerts e event =
      if is_flow event.kind
        && (is_external_destination event.destination
            && not (egress_approved_for_tenant e event.tenant event.destination))
      then new_alert "network.egress.unknown" "Unknown outbound destination"
          "Asset opened outbound network flow to a non-private destination outside the approved egress list."
          medium event (("destination", event.destination) ∷ ("source_ip", event.source_ip) ∷ [])
        ∷ []
      else []

  -- rule process.discovery.chain
  unfoldable pub discovery_alerts : Event → List Alert
  discovery_alerts event =
      if is_process event.kind
        && is_some (
            gateway_contains_any
              (gateway_text_variants
                (event.command ∷ event.process ∷ event.signal ∷ metadata_text event.metadata ∷ []))
              discovery_terms)
      then new_alert "process.discovery.chain" "Suspicious discovery process"
          "Process activity matched discovery, credential-access, or lateral-movement telemetry patterns."
          high event (("process", event.process) ∷ ("command", event.command) ∷ [])
        ∷ []
      else []

  -- rule deception.canary.hit, for an event that says so itself
  unfoldable pub deception_label_alerts : Event → List Alert
  deception_label_alerts event =
      if is_hit event.kind
        || (has_label event.labels "canary" || has_label event.labels "deception")
      then new_alert "deception.canary.hit" "Canary or deception asset touched"
          "An asset interacted with a decoy token, honey credential, or instrumented deception service."
          critical event (("signal", event.signal) ∷ ("destination", event.destination) ∷ [])
        ∷ []
      else []

  -- rule deception.canary.hit, for an event that names a registered token
  unfoldable pub registry_alerts : Engine → Event → List Alert
  registry_alerts e event =
      elim (match_deception e (
        event.command
        ∷ event.signal
        ∷ event.tool_name
        ∷ event.destination
        ∷ join_with " " event.labels
        ∷ metadata_text event.metadata
        ∷ [])) [
          | none ↦ []
          | some token ↦
              new_alert "deception.canary.hit" "Canary or deception asset touched"
                "Activity referenced a registered deception/canary token from the registry."
                critical event
                (("deception_token", token.name)
                  ∷ ("deception_kind", token.kind)
                  ∷ ("deception_id", token.id)
                  ∷ [])
              ∷ []
        ]

  -- rule model.runtime.suspicious
  unfoldable pub model_runtime_alerts : Event → List Alert
  model_runtime_alerts event =
      if is_some (
          gateway_contains_any
            (gateway_text_variants (
              event.command
              ∷ event.process
              ∷ event.signal
              ∷ join_with " " event.labels
              ∷ metadata_text event.metadata
              ∷ []))
            model_runtime_terms)
        && (is_process event.kind || (is_flow event.kind || is_tool_call event.kind))
      then new_alert "model.runtime.suspicious" "Suspicious local model runtime behavior"
          "Local model runtime activity appeared together with shelling out, downloads, GPU use, or unexpected egress."
          high event (("process", event.process) ∷ ("destination", event.destination) ∷ [])
        ∷ []
      else []

  unfoldable pub evaluate : Engine → Event → List Alert
  evaluate e event =
      unapproved_tool_alerts e event
      ++ (secret_exposure_alerts event
          ++ (unknown_egress_alerts e event
              ++ (discovery_alerts event
                  ++ (deception_label_alerts event
                      ++ (registry_alerts e event ++ model_runtime_alerts event)))))
