-- ===== src/Policy/Identity.antt =====
-- Tool provenance and agent identity, as engine.go verifies them.
use open_agentic_threat_defe.Domain.{ToolCallRequest}
use open_agentic_threat_defe.Go.Maps.{lookup}
use open_agentic_threat_defe.Go.Runtime.{Platform}
use open_agentic_threat_defe.Go.Strings.{lower, trim_space}
use open_agentic_threat_defe.Policy.Engine.{AgentIdentity, Engine, ToolProvenanceEntry}
use open_agentic_threat_defe.Prelude.{String, if◌then◌else◌, is_empty, none, not, some, ◌&&◌, ◌==◌}

pub data ProvenanceStatus : Type 0 where
  provenance_not_required provenance_verified provenance_missing : ProvenanceStatus
  provenance_mismatch : ProvenanceStatus

pub data AgentIdentityStatus : Type 0 where
  agent_not_required agent_verified agent_unidentified agent_unknown : AgentIdentityStatus
  agent_mismatch : AgentIdentityStatus

module _ ⦃p : Platform⦄ where
  -- The checks of `checkToolProvenance` once there is an entry.
  against_entry : ToolProvenanceEntry → ToolCallRequest → ProvenanceStatus
  against_entry entry request =
      let claimed = trim_space request.tool_fingerprint in
      if claimed == ""
      then provenance_missing
      else if not (p.equal_fold claimed entry.fingerprint)
      then provenance_mismatch
      else if not (entry.publisher == "")
          && not (p.equal_fold (trim_space request.tool_publisher) entry.publisher)
      then provenance_mismatch
      else provenance_verified

  unfoldable pub check_tool_provenance : Engine → String → ToolCallRequest → ProvenanceStatus
  unfolding against_entry
  check_tool_provenance e tool request = elim (lookup tool e.tool_provenance) [
    | none ↦ provenance_not_required
    | some entry ↦ against_entry entry request
  ]

  unfoldable pub hash_agent_token : String → String
  hash_agent_token token = p.sha256_hex (trim_space token)

  -- The checks of `checkAgentIdentity` on the token, once the agent is known.
  check_token : AgentIdentity → ToolCallRequest → AgentIdentityStatus
  check_token entry request =
      if trim_space request.agent_token == ""
      then agent_mismatch
      else if not (hash_agent_token request.agent_token == entry.key_hash)
      then agent_mismatch
      else agent_verified

  unfoldable pub check_agent_identity : Engine → ToolCallRequest → AgentIdentityStatus
  unfolding check_token hash_agent_token
  check_agent_identity e request =
      if is_empty e.agent_identities
      then agent_not_required
      else if trim_space request.agent_id == ""
      then agent_unidentified
      else elim (lookup (lower (trim_space request.agent_id)) e.agent_identities) [
        | none ↦ agent_unknown
        | some entry ↦ check_token entry request
      ]
