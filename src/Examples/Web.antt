-- ===== src/Examples/Web.antt =====
-- An application, the world it runs in and some requests.
use open_agentic_threat_defe.Auth.Roles.{Principal, operator}
use open_agentic_threat_defe.Domain.{ToolCallRequest}
use open_agentic_threat_defe.Examples.Fixtures.{sample_engine, sample_store, secrets}
use open_agentic_threat_defe.Go.Ascii.{ascii}
use open_agentic_threat_defe.Go.Runtime.{Platform}
use open_agentic_threat_defe.Prelude.{String, [], false, if◌then◌else◌, inl, none, some, ◌==◌, ◌∷◌}
use open_agentic_threat_defe.Server.Approval.{ApprovalRequest}
use open_agentic_threat_defe.Server.Mcp.{McpCodec, McpRequest}
use open_agentic_threat_defe.Server.State.{App, HttpRequest, Settings, World}
use open_agentic_threat_defe.Server.Upstream.{Network}

-- The platform over ASCII with a base64 that codes a text as itself.
abbrev pub coding : Platform
coding = record ascii { base64_raw_url = λ s. some s; base64_std = λ s. some s }

abbrev pub world : World
world = record {
  clock = λ n. 100;
  random = λ n. some "0a";
  written = λ n. none;
  answer = λ n out. inl (record { status = 200; content_type = ""; body = "{}" });
  deliver = λ n name action. none;
  contains_addr = λ network host. false;
}

-- One host resolves, to one public address and one that is not.
abbrev pub network : Network
network = record {
  parse_url = λ s. inl (record { scheme = "https"; hostname = "up"; port = ""; text = s });
  without_user = λ s. none;
  lookup_ip_addr = λ n host. inl ("8.8.8.8" ∷ []);
  is_loopback = λ ip. ip == "127.0.0.1";
  is_link_local_unicast = λ ip. false;
  is_link_local_multicast = λ ip. false;
  is_private = λ ip. false;
  is_multicast = λ ip. false;
  is_unspecified = λ ip. false;
  in_cidr = λ cidr ip. false;
  new_request = λ s. none;
  canonical_header_key = λ s. s;
}

abbrev pub settings : Settings
settings = record {
  limits = record { max_entries = 100; evict_batch = 10 };
  secrets = secrets;
  planner_mode = "";
  correlation_window = 0;
  instance_name = "i";
  mcp_upstream_url = "https://up";
  mcp_upstream_token = "";
  proxy_allow_local_targets = false;
  trusted_proxies = [];
  ticket_connectors = [];
  response_connector = none;
}

abbrev pub app : App
app = record {
  store = sample_store;
  engine = sample_engine;
  counter = 0;
  gateway_limit = some 2;
  in_flight = 0;
  gateway_rejected = 0;
  ticks = 0;
  sent = [];
  dispatched = [];
}

abbrev pub alice : Principal
alice = record { name = "alice"; tenant = "acme"; roles = operator ∷ [] }

abbrev pub post_request : HttpRequest
post_request = record {
  method = "POST";
  path = "/api/mcp/proxy";
  remote_addr = "10.0.0.9:1";
  forwarded_for = "";
  user_agent = "";
  principal = alice;
}

abbrev pub codec : McpCodec
codec = record {
  decode_request = λ raw. inl (record { method = raw; params = "" });
  decode_params = λ s. none;
  encode_params = λ d. "";
}

abbrev pub rpc : McpRequest
rpc = record { method = "tools/call"; params = "" }

abbrev pub blocked_approval : ApprovalRequest
blocked_approval = record { action_id = "q-2"; approved_by = "bob" }

abbrev pub queued_approval : ApprovalRequest
queued_approval = record { action_id = "q-1"; approved_by = "bob" }

abbrev pub encode : ToolCallRequest → String
encode call = if call.id == "" then "{}" else call.id
