-- ===== src/Domain.antt =====
-- internal/domain/types.go: the records that the components exchange. A time.Time is the number of
-- nanoseconds since Go's zero time, so 0 is IsZero; a map[string]string is a `Dict String`.
use open_agentic_threat_defe.Go.Maps.{Dict}
use open_agentic_threat_defe.Prelude.{Bool, List, Option, String, ℕ}

pub data Severity : Type 0 where
  info low medium high critical : Severity
  -- any other text that a stored record may carry
  unnamed_severity : String → Severity

-- Severity.Rank
unfoldable pub rank : Severity → ℕ
rank critical = 5
rank high = 4
rank medium = 3
rank low = 2
rank _ = 1

pub data EventKind : Type 0 where
  host_observation network_flow process_start agent_tool_call auth_event : EventKind
  deception_hit finding : EventKind
  unnamed_kind : String → EventKind

pub record Event : Type 0 where
  pub id : String
  pub timestamp : ℕ
  pub tenant : String
  pub kind : EventKind
  pub asset_id : String
  pub hostname : String
  pub actor : String
  pub source_ip : String
  pub destination : String
  pub process : String
  pub tool_name : String
  pub command : String
  pub signal : String
  pub labels : List String
  pub metadata : Dict String

pub record DeceptionToken : Type 0 where
  pub id : String
  pub name : String
  pub kind : String
  pub value : String
  pub created_at : ℕ
  pub labels : List String
  pub metadata : Dict String

pub record ToolCallRequest : Type 0 where
  pub id : String
  pub timestamp : ℕ
  pub tenant : String
  pub asset_id : String
  pub hostname : String
  pub actor : String
  pub agent_id : String
  pub agent_token : String
  pub tool_name : String
  pub tool_fingerprint : String
  pub tool_publisher : String
  pub protocol_surface : Bool
  pub command : String
  pub arguments : String
  pub signal : String
  pub destination : String
  pub labels : List String
  pub metadata : Dict String

-- `unset` is the empty text that a new history entry holds.
pub data GatewayVerdict : Type 0 where
  allow deny require_approval unset : GatewayVerdict

pub record ResponseAction : Type 0 where
  pub id : String
  pub action_type : String
  pub mode : String
  pub asset_id : String
  pub tenant : String
  pub target : String
  pub reason : String
  pub created_at : ℕ
  pub approval_status : String
  pub approved_by : String
  pub approved_at : Option ℕ
  pub execution_status : String
  pub executed_at : Option ℕ
  pub execution_error : String
  pub metadata : Dict String

pub data AlertStatus : Type 0 where
  open_alert resolved_alert : AlertStatus

pub record Alert : Type 0 where
  pub id : String
  pub fingerprint : String
  pub rule_id : String
  pub title : String
  pub description : String
  pub severity : Severity
  pub status : AlertStatus
  pub asset_id : String
  pub tenant : String
  pub created_at : ℕ
  pub event_ids : List String
  pub evidence : Dict String
  pub recommended_actions : List ResponseAction

pub record ToolCallDecision : Type 0 where
  pub id : String
  pub request_id : String
  pub tool_name : String
  pub verdict : GatewayVerdict
  pub reason : String
  pub risk : Severity
  pub created_at : ℕ
  pub action : Option ResponseAction
  pub alerts : List Alert
  pub recommended_actions : List ResponseAction
  pub metadata : Dict String

pub record Asset : Type 0 where
  pub id : String
  pub tenant : String
  pub hostname : String
  pub os : String
  pub ips : List String
  pub agent_surface : List String
  pub risk_score : ℕ
  pub last_seen : ℕ
  pub labels : List String
  pub metadata : Dict String

pub record AuditEvent : Type 0 where
  pub id : String
  pub timestamp : ℕ
  pub tenant : String
  pub chain_index : ℕ
  pub prev_hash : String
  pub hash : String
  pub actor : String
  pub roles : List String
  pub action : String
  pub resource_type : String
  pub resource_id : String
  pub outcome : String
  pub source_ip : String
  pub user_agent : String
  pub metadata : Dict String

pub record RuleDescriptor : Type 0 where
  pub id : String
  pub name : String
  pub description : String
  pub severity : Severity
  pub signals : List String
  pub pack_name : String
  pub pack_version : String
