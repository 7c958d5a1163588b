-- ===== src/Policy/Gateway/Gate.antt =====
-- GateToolCall of gateway.go: evaluate, assess, score, escalate, record, decide.
use Prim.Native.String.{◌++◌ as cat}
use open_agentic_threat_defe.Domain.{
  Alert, Event, ToolCallDecision, ToolCallRequest, agent_tool_call, allow, deny, medium,
  network_flow, require_approval,
}
use open_agentic_threat_defe.Go.Maps.{Dict, put, put_if}
use open_agentic_threat_defe.Go.Runtime.{Platform}
use open_agentic_threat_defe.Go.Strings.{itoa, join_with, trim_space}
use open_agentic_threat_defe.Policy.Engine.{Engine}
use open_agentic_threat_defe.Policy.Gateway.Assess.{
  Assessment, assess_gateway_request, filter_out_alert_rule,
}
use open_agentic_threat_defe.Policy.Gateway.Score.{Scored, score_gateway_request, severity_text}
use open_agentic_threat_defe.Policy.History.{
  HistoryLimits, context_string, gateway_history_snapshot, record_gateway_history, verdict_text,
}
use open_agentic_threat_defe.Policy.Hosts.{is_external_destination}
use open_agentic_threat_defe.Policy.Rules.{evaluate, metadata_text, new_alert, tool_of}
use open_agentic_threat_defe.Policy.Taint.{TaintAnalysis, analyze_gateway_taint, has_source_prefix}
use open_agentic_threat_defe.Policy.Tenants.{egress_approved_for_tenant}
use open_agentic_threat_defe.Prelude.{
  List, String, [], if◌then◌else◌, is_empty, leb, none, not, ℕ, ◌&&◌, ◌++◌, ◌==◌, ◌∷◌,
}

unfoldable pub decision_id : ⦃p : Platform⦄ → String → String
decision_id request_id = let id = trim_space request_id in if id == "" then "" else cat "dec-" id

module _ ⦃p : Platform⦄ where
  abbrev pub command_of : ToolCallRequest → String
  command_of r = trim_space (join_with " " (r.command ∷ r.arguments ∷ []))

  abbrev pub signal_of : ToolCallRequest → String
  signal_of r = trim_space (join_with " " (r.signal ∷ metadata_text r.metadata ∷ []))

  -- The event that a tool call is evaluated as.
  unfoldable pub event_of : ToolCallRequest → Event
  event_of r = record {
    id = r.id;
    timestamp = r.timestamp;
    tenant = trim_space r.tenant;
    kind = agent_tool_call;
    asset_id = r.asset_id;
    hostname = r.hostname;
    actor = r.actor;
    source_ip = "";
    destination = r.destination;
    process = "";
    tool_name = tool_of r.tool_name;
    command = command_of r;
    signal = signal_of r;
    labels = r.labels;
    metadata = r.metadata;
  }

  -- The alert that the gateway adds for a destination that is not approved.
  unfoldable pub gateway_egress_alerts : Engine → ToolCallRequest → List Alert
  gateway_egress_alerts e r =
      let event = event_of r in
      if not (r.destination == "")
        && (is_external_destination r.destination
            && not (egress_approved_for_tenant e r.tenant r.destination))
      then new_alert "network.egress.unknown" "Unknown outbound destination"
          "Tool call referenced an outbound destination outside the approved egress list." medium
          (record event {
            tenant = "";
            kind = network_flow;
            signal = r.signal;
            tool_name = "";
            command = "";
          })
          (("destination", r.destination) ∷ ("tool", tool_of r.tool_name) ∷ ("actor", r.actor) ∷ [])
        ∷ []
      else []

  -- The alerts on which the call is assessed.
  unfoldable pub gateway_alerts : Engine → ToolCallRequest → List Alert
  gateway_alerts e r =
      let raised = evaluate e (event_of r) in
      (if r.protocol_surface then filter_out_alert_rule raised "agent.tool.unapproved" else raised)
      ++ gateway_egress_alerts e r

-- The first escalation: an allowed call with a score of 70 or more wants approval.
abbrev escalate_allow : Assessment → ℕ → Assessment
escalate_allow a score = elim a.verdict [
  | allow ↦
      if leb 70 score
      then record a {
        verdict = require_approval;
        reason = "risk score exceeded the inline allow threshold";
      }
      else a
  | _ ↦ a
]

-- The second: a call that wants approval, with a score of 90 or more and a canary source, is denied.
abbrev escalate_canary : TaintAnalysis → Assessment → ℕ → Assessment
escalate_canary t a score = elim a.verdict [
  | require_approval ↦
      if leb 90 score && has_source_prefix t "canary:"
      then record a { verdict = deny; reason = "critical taint path exceeded the deny threshold" }
      else a
  | _ ↦ a
]

unfoldable pub escalate : TaintAnalysis → Assessment → ℕ → Assessment
escalate t a score = escalate_canary t (escalate_allow a score) score

-- The metadata of a decision.
unfoldable pub decision_metadata :
    ToolCallRequest → String → Assessment → TaintAnalysis → Scored → String → Dict String
decision_metadata r tool a t s context =
    let m1 = put "risk" (severity_text a.risk) (
      put "verdict" (verdict_text a.verdict) (
        put "hostname" r.hostname
          (put "asset_id" r.asset_id (put "actor" r.actor (put "tool" tool r.metadata))))) in
    let m2 = put_if (not (r.id == "")) "request_id" r.id (
      put_if (not (r.signal == "")) "signal" r.signal
        (put_if (not (r.destination == "")) "destination" r.destination m1)) in
    let m3 = put_if (not (is_empty t.provenance)) "taint_provenance" (join_with ";" t.provenance) (
      put_if (not (is_empty t.flows)) "taint_flows" (join_with ";" t.flows) (
        put_if (not (is_empty t.sinks)) "taint_sinks" (join_with ";" t.sinks)
          (put_if (not (is_empty t.sources)) "taint_sources" (join_with ";" t.sources) m2))) in
    put_if (not (is_empty s.factors)) "risk_factors" (join_with ";" s.factors) (
      put_if (not (is_empty a.findings)) "signals" (join_with ";" a.findings)
        (put "history_context" context (put "risk_score" (itoa s.score) m3)))

module _ ⦃p : Platform⦄ where
  abbrev pub taint_of : ToolCallRequest → TaintAnalysis
  taint_of r = analyze_gateway_taint r (tool_of r.tool_name) (command_of r)

  -- The assessment before the escalations.
  unfoldable pub first_assessment : Engine → ToolCallRequest → Assessment
  first_assessment e r =
      assess_gateway_request e r (tool_of r.tool_name) (command_of r) (gateway_alerts e r)
        (taint_of r) (gateway_history_snapshot e r)

  unfoldable pub score_of : Engine → ToolCallRequest → Scored
  score_of e r =
      let a = first_assessment e r in
      score_gateway_request r (tool_of r.tool_name) (command_of r) (signal_of r)
        (gateway_alerts e r) (taint_of r) (gateway_history_snapshot e r) a.verdict a.risk

  -- The verdict with its reason, after the escalations.
  unfoldable pub final_assessment : Engine → ToolCallRequest → Assessment
  final_assessment e r = escalate (taint_of r) (first_assessment e r) (score_of e r).score

  -- `now` is the clock on entry, `seen` the clock when the history is written.
  unfoldable pub gate_tool_call :
      HistoryLimits → Engine → ToolCallRequest → ℕ → ℕ → Engine × ToolCallDecision
  gate_tool_call limits e r now seen =
      let a = final_assessment e r in
      let s = score_of e r in
      let tool = tool_of r.tool_name in
      let (e', h) =
        record_gateway_history limits e r a.verdict s.score (a.findings ++ s.factors) tool seen in
      (
        e',
        record {
          id = decision_id r.id;
          request_id = r.id;
          tool_name = tool;
          verdict = a.verdict;
          reason = a.reason;
          risk = a.risk;
          created_at = now;
          action = none;
          alerts = gateway_alerts e r;
          recommended_actions = [];
          metadata = decision_metadata r tool a (taint_of r) s (context_string h);
        },
      )
