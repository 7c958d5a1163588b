-- ===== src/Policy/Engine.antt =====
-- The state of the policy engine: the records of engine.go, tenant.go, threatpack.go and
-- gateway_history.go. A map[string]struct{} is the list of its keys. A mutex guards each group of
-- fields and each operation takes it, so an operation is one step on the record.
use open_agentic_threat_defe.Domain.{DeceptionToken, GatewayVerdict, RuleDescriptor}
use open_agentic_threat_defe.Go.Maps.{Dict}
use open_agentic_threat_defe.Prelude.{List, String, ℕ}

pub record ToolProvenanceEntry : Type 0 where
  pub tool : String
  pub publisher : String
  pub fingerprint : String

pub record AgentIdentity : Type 0 where
  pub agent_id : String
  pub key_hash : String

pub record TenantPolicy : Type 0 where
  pub tenant_id : String
  pub approved_tools : List String
  pub approved_egress : List String

-- The set and the sorted list of each dimension.
pub record CompiledTenantPolicy : Type 0 where
  pub approved_tools : List String
  pub approved_egress : List String
  pub tools : List String
  pub egress : List String

pub record ThreatPack : Type 0 where
  pub name : String
  pub version : String
  pub approved_tools : List String
  pub approved_egress_hosts : List String
  pub rules : List RuleDescriptor

-- `gatewayHistoryState`. The counters are Go ints: each call adds one, so they stay far below 2^63.
pub record HistoryState : Type 0 where
  pub calls : ℕ
  pub allow_count : ℕ
  pub approval_count : ℕ
  pub deny_count : ℕ
  pub risk_score_max : ℕ
  pub last_seen : ℕ
  pub last_tool : String
  pub last_verdict : GatewayVerdict
  pub recent_factors : List String

pub record Engine : Type 0 where
  pub approved_tools : List String
  pub tool_provenance : Dict ToolProvenanceEntry
  pub agent_identities : Dict AgentIdentity
  pub approved_egress_hosts : List String
  pub pack : ThreatPack
  pub deception : Dict DeceptionToken
  pub deception_seq : ℕ
  pub tenant_policies : Dict CompiledTenantPolicy
  pub history : Dict HistoryState
