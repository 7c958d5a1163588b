-- ===== src/Response/Planner.antt =====
-- planner.go: Plan.
use open_agentic_threat_defe.Domain.{Alert, ResponseAction, high, rank}
use open_agentic_threat_defe.Go.Maps.{lookup}
use open_agentic_threat_defe.Go.Strings.{contains}
use open_agentic_threat_defe.Prelude.{
  Bool, List, String, [], get_or, if◌then◌else◌, leb, none, ◌++◌, ◌==◌, ◌||◌, ◌∷◌,
}

unfoldable pub first_non_empty : List String → String
first_non_empty [] = ""
first_non_empty (value ∷ values) = if value == "" then first_non_empty values else value

abbrev pub concerns_egress : Alert → Bool
concerns_egress alert =
    contains alert.rule_id "egress"
    || (contains alert.rule_id "sequence" || contains alert.rule_id "model.runtime")

abbrev pub concerns_secrets : Alert → Bool
concerns_secrets alert =
    contains alert.rule_id "secret"
    || (contains alert.rule_id "canary" || contains alert.rule_id "deception")

abbrev planned : String → Alert → String → String → String → String → ResponseAction
planned mode alert action_type target reason approval_status = record {
  id = "";
  action_type = action_type;
  mode = mode;
  asset_id = alert.asset_id;
  tenant = "";
  target = target;
  reason = reason;
  created_at = 0;
  approval_status = approval_status;
  approved_by = "";
  approved_at = none;
  execution_status = "";
  executed_at = none;
  execution_error = "";
  metadata = [];
}

abbrev evidence_of : Alert → String → String
evidence_of alert key = get_or (lookup key alert.evidence) ""

-- if c { actions = append(actions, action) }
unfoldable pub append_if : Bool → ResponseAction → List ResponseAction → List ResponseAction
append_if c action actions = if c then actions ++ action ∷ [] else actions

unfoldable pub plan : String → Alert → List ResponseAction
unfolding first_non_empty append_if
plan configured alert =
    let mode = if configured == "" then "dry-run" else configured in
    let ticket =
      planned mode alert "create_incident_ticket" alert.id
        "Create an audit trail and assign incident ownership." "not_required" in
    append_if (concerns_secrets alert)
      (planned mode alert "rotate_related_secrets" alert.asset_id
        "Invalidate credentials that may have been exposed or touched." "required")
      (append_if (contains alert.rule_id "agent.tool")
        (planned mode alert "disable_agent_tool"
          (first_non_empty (evidence_of alert "tool" ∷ "unknown" ∷ []))
          "Remove unapproved tool access from the agent runtime." "required")
        (append_if (concerns_egress alert)
          (planned mode alert "block_egress"
            (first_non_empty
              (evidence_of alert "destination" ∷ evidence_of alert "egress_event" ∷ "unknown" ∷ []))
            "Stop unexpected external communication while preserving evidence." "required")
          (append_if (leb (rank high) (rank alert.severity))
            (planned mode alert "isolate_host" alert.asset_id
              "Contain high-severity activity before lateral movement expands." "required")
            (ticket ∷ []))))
