-- ===== src/Policy/Taint.antt =====
-- taint.go: sources, sinks and flows of a tool call.
use Prim.Native.String.{◌++◌ as cat}
use open_agentic_threat_defe.Domain.{ToolCallRequest}
use open_agentic_threat_defe.Go.Maps.{Dict, keys, lookup}
use open_agentic_threat_defe.Go.Runtime.{Platform}
use open_agentic_threat_defe.Go.Strings.{elem, has_prefix, join_with, trim_space}
use open_agentic_threat_defe.Policy.Hosts.{is_external_destination, normalize_host}
use open_agentic_threat_defe.Policy.Rules.{metadata_text}
use open_agentic_threat_defe.Policy.Terms.{taint_sink_terms, taint_source_terms}
use open_agentic_threat_defe.Policy.Text.{gateway_contains_any, gateway_text_variants}
use open_agentic_threat_defe.Prelude.{
  Bool, List, String, [], any, get_or, if◌then◌else◌, is_empty, none, some, ◌++◌, ◌==◌, ◌||◌, ◌∷◌,
}

pub record TaintAnalysis : Type 0 where
  pub sources : List String
  pub sinks : List String
  pub flows : List String
  pub provenance : List String
  pub signals : List String

-- HasSourcePrefix, HasSinkPrefix, HasSignalPrefix
abbrev pub has_source_prefix : TaintAnalysis → String → Bool
has_source_prefix t start = any (λ v. has_prefix v start) t.sources

abbrev pub has_sink_prefix : TaintAnalysis → String → Bool
has_sink_prefix t start = any (λ v. has_prefix v start) t.sinks

abbrev pub has_signal_prefix : TaintAnalysis → String → Bool
has_signal_prefix t start = any (λ v. has_prefix v start) t.signals

unfoldable pub classify_taint_source : String → String
classify_taint_source term =
    if elem term ("canary" ∷ "honey" ∷ "decoy" ∷ [])
    then "canary"
    else if elem term (
        "secret" ∷ "token" ∷ "credential" ∷ "password" ∷ "api_key" ∷ "ssh_key" ∷ "bearer" ∷ "env"
        ∷ "vault" ∷ [])
    then "secret"
    else "source"

module _ ⦃p : Platform⦄ where
  unfoldable pub append_unique_string : List String → String → List String
  append_unique_string values value0 =
      let value = trim_space value0 in
      if value == "" || elem value values then values else values ++ value ∷ []

  -- The closure `appendField` of `collectGatewayProvenance`.
  append_field : String → String → List String → List String
  append_field key value0 provenance =
      let value = trim_space value0 in
      if value == "" then provenance else append_unique_string provenance (cat key (cat ":" value))

  -- The loop over the metadata keys of `collectGatewayProvenance`.
  append_metadata_fields : Dict String → List String → List String → List String
  unfolding append_field
  append_metadata_fields metadata [] provenance = provenance
  append_metadata_fields metadata (key ∷ keys) provenance =
      append_metadata_fields metadata keys
        (append_field key (get_or (lookup key metadata) "") provenance)

  unfoldable pub collect_gateway_provenance : ToolCallRequest → List String
  unfolding append_field append_metadata_fields append_unique_string
  collect_gateway_provenance r =
      append_metadata_fields r.metadata
        ("session_id" ∷ "conversation_id" ∷ "trace_id" ∷ "run_id" ∷ "agent_id" ∷ [])
        (append_field "request" r.id (
          append_field "actor" r.actor
            (append_field "host" r.hostname (append_field "asset" r.asset_id []))))

  -- One round of the loop over the source terms.
  unfoldable pub add_source : List String → TaintAnalysis → String → TaintAnalysis
  add_source pool a term = elim (gateway_contains_any pool (term ∷ [])) [
    | none ↦ a
    | some m ↦ record a {
      sources = append_unique_string a.sources (cat (classify_taint_source term) (cat ":" m.term));
      provenance = append_unique_string a.provenance (cat "source_variant:" m.variant);
      signals =
          if m.variant == term
          then a.signals
          else append_unique_string a.signals (cat "obfuscated_source:" m.term);
    }
  ]

  unfoldable pub add_sources : List String → List String → TaintAnalysis → TaintAnalysis
  add_sources pool [] a = a
  add_sources pool (term ∷ terms) a = add_sources pool terms (add_source pool a term)

  -- One round of the loop over the sink terms.
  unfoldable pub add_sink : List String → TaintAnalysis → String → TaintAnalysis
  add_sink pool a term = elim (gateway_contains_any pool (term ∷ [])) [
    | none ↦ a
    | some m ↦ record a {
      sinks = append_unique_string a.sinks (cat "sink:" m.term);
      provenance = append_unique_string a.provenance (cat "sink_variant:" m.variant);
      signals =
          if m.variant == term
          then a.signals
          else append_unique_string a.signals (cat "obfuscated_sink:" m.term);
    }
  ]

  unfoldable pub add_sinks : List String → List String → TaintAnalysis → TaintAnalysis
  add_sinks pool [] a = a
  add_sinks pool (term ∷ terms) a = add_sinks pool terms (add_sink pool a term)

  -- taintSinkFromDestination; both of its branches return the same text.
  unfoldable pub taint_sink_from_destination : String → String
  taint_sink_from_destination destination =
      let host = normalize_host destination in if host == "" then "" else cat "destination:" host

  -- The sinks that a destination gives.
  unfoldable pub destination_sinks : String → List String → List String
  destination_sinks destination sinks =
      let external =
        if is_external_destination destination
        then append_unique_string sinks (cat "external_destination:" (normalize_host destination))
        else sinks in
      let sink = taint_sink_from_destination destination in
      if destination == ""
      then sinks
      else if sink == ""
      then external
      else append_unique_string external sink

  -- The inner and the outer loop over the flows.
  flows_of_source : String → List String → List String → List String
  flows_of_source source [] flows = flows
  flows_of_source source (sink ∷ sinks) flows =
      flows_of_source source sinks (append_unique_string flows (cat source (cat "->" sink)))

  unfoldable pub all_flows : List String → List String → List String → List String
  unfolding flows_of_source append_unique_string
  all_flows [] sinks flows = flows
  all_flows (source ∷ sources) sinks flows =
      all_flows sources sinks (flows_of_source source sinks flows)

  unfoldable pub taint_pool : ToolCallRequest → String → String → List String
  taint_pool r tool command = gateway_text_variants (
      command
      ∷ r.signal
      ∷ r.destination
      ∷ join_with " " r.labels
      ∷ metadata_text r.metadata
      ∷ r.actor
      ∷ r.hostname
      ∷ tool
      ∷ [])

  unfoldable pub analyze_gateway_taint : ToolCallRequest → String → String → TaintAnalysis
  analyze_gateway_taint r tool command =
      let pool = taint_pool r tool command in
      let start : TaintAnalysis = record {
        sources = [];
        sinks = [];
        flows = [];
        provenance = collect_gateway_provenance r;
        signals = [];
      } in
      let sourced = add_sources pool taint_source_terms start in
      let placed : TaintAnalysis = record sourced {
        sinks = destination_sinks r.destination sourced.sinks;
      } in
      let sunk = add_sinks pool taint_sink_terms placed in
      if is_empty sunk.sources || is_empty sunk.sinks
      then sunk
      else record sunk { flows = all_flows sunk.sources sunk.sinks sunk.flows }
