-- ===== src/Examples/Fixtures.antt =====
-- An engine and some tool calls.
use open_agentic_threat_defe.Domain.{
  Alert, AuditEvent, DeceptionToken, Event, ResponseAction, ToolCallRequest, medium, network_flow,
  open_alert,
}
use open_agentic_threat_defe.Go.Ascii.{ascii}
use open_agentic_threat_defe.Go.Strings.Trim.{CaseLaws, trim_space_visible}
use open_agentic_threat_defe.Policy.Engine.{Engine}
use open_agentic_threat_defe.Prelude.{[], false, none, refl, ◌∷◌}
use open_agentic_threat_defe.Store.AuditChain.{Secrets}
use open_agentic_threat_defe.Store.Chain.{DigestsAreVisible}
use open_agentic_threat_defe.Store.State.{Store, new_store}

abbrev pub blank_request : ToolCallRequest
blank_request = record {
  id = "r1";
  timestamp = 1;
  tenant = "";
  asset_id = "host-a";
  hostname = "";
  actor = "agent-x";
  agent_id = "";
  agent_token = "";
  tool_name = "siem_search";
  tool_fingerprint = "";
  tool_publisher = "";
  protocol_surface = false;
  command = "";
  arguments = "";
  signal = "";
  destination = "";
  labels = [];
  metadata = [];
}

abbrev pub canary_token : DeceptionToken
canary_token = record {
  id = "dt-1";
  name = "secret-canary";
  kind = "secret";
  value = "zx81";
  created_at = 1;
  labels = [];
  metadata = [];
}

abbrev pub sample_engine : Engine
sample_engine = record {
  approved_tools = "siem_search" ∷ [];
  tool_provenance = [];
  agent_identities = [];
  approved_egress_hosts = [];
  pack = record {
    name = "builtin";
    version = "2026.06";
    approved_tools = [];
    approved_egress_hosts = [];
    rules = [];
  };
  deception = ("dt-1", canary_token) ∷ [];
  deception_seq = 1;
  tenant_policies = [];
  history = [];
}

abbrev pub canary_request : ToolCallRequest
canary_request = record blank_request { command = "read zx81" }

abbrev pub other_tool_request : ToolCallRequest
other_tool_request = record blank_request { tool_name = "rm" }

pub ascii-CaseLaws : CaseLaws ascii
ascii-CaseLaws = record { lower_stable = λ c. refl; space_stable = λ c. refl }

pub ascii-DigestsAreVisible : DigestsAreVisible ⦃p = ascii⦄
ascii-DigestsAreVisible t = trim_space_visible ⦃p = ascii⦄ "#" t refl

abbrev pub secrets : Secrets
secrets = record { audit_hmac_secret = "k"; session_secret = "" }

abbrev pub login_audit : AuditEvent
login_audit = record {
  id = "au-1";
  timestamp = 7;
  tenant = "acme";
  chain_index = 0;
  prev_hash = "";
  hash = "";
  actor = "alice";
  roles = "operator" ∷ [];
  action = "login";
  resource_type = "session";
  resource_id = "s-1";
  outcome = "ok";
  source_ip = "127.0.0.1";
  user_agent = "";
  metadata = [];
}

abbrev pub host_event : Event
host_event = record {
  id = "e-1";
  timestamp = 7;
  tenant = "acme";
  kind = network_flow;
  asset_id = "host-a";
  hostname = "";
  actor = "";
  source_ip = "10.0.0.1";
  destination = "10.0.0.2";
  process = "";
  tool_name = "";
  command = "";
  signal = "";
  labels = [];
  metadata = [];
}

abbrev pub host_alert : Alert
host_alert = record {
  id = "a-1";
  fingerprint = "f-1";
  rule_id = "network.egress.unknown";
  title = "";
  description = "";
  severity = medium;
  status = open_alert;
  asset_id = "host-a";
  tenant = "acme";
  created_at = 7;
  event_ids = [];
  evidence = [];
  recommended_actions = [];
}

abbrev pub queued_action : ResponseAction
queued_action = record {
  id = "q-1";
  action_type = "gateway_tool_call";
  mode = "live";
  asset_id = "host-a";
  tenant = "acme";
  target = "siem_search";
  reason = "";
  created_at = 7;
  approval_status = "required";
  approved_by = "";
  approved_at = none;
  execution_status = "pending";
  executed_at = none;
  execution_error = "";
  metadata = [];
}

-- A store with one record of each kind and a blocked action.
abbrev pub sample_store : Store
sample_store = record new_store {
  events = host_event ∷ [];
  alerts = host_alert ∷ [];
  actions = queued_action ∷ record queued_action { id = "q-2"; execution_status = "blocked" } ∷ [];
  audits = login_audit ∷ [];
  fingerprints = "f-1" ∷ [];
}
