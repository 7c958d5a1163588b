-- ===== src/Policy/Configuration.antt =====
-- engine.go: building an engine from its configuration, and reloading the configuration.
pub mod Reloads
use open_agentic_threat_defe.Domain.{DeceptionToken, RuleDescriptor}
use open_agentic_threat_defe.Go.Maps.{Dict, put, put_if}
use open_agentic_threat_defe.Go.Runtime.{Platform}
use open_agentic_threat_defe.Go.Strings.{or_text, lower, trim_space}
use open_agentic_threat_defe.Policy.Engine.{AgentIdentity, Engine, ThreatPack, ToolProvenanceEntry}
use open_agentic_threat_defe.Policy.Hosts.{normalize_host}
use open_agentic_threat_defe.Policy.Packs.{
  default_egress_hosts, default_rule_descriptors, default_threat_pack, default_tools, or_list,
}
use open_agentic_threat_defe.Policy.Registry.{set_deception_tokens}
use open_agentic_threat_defe.Policy.Tenants.{compile_list, normalize_tool}
use open_agentic_threat_defe.Prelude.{
  List, String, [], if◌then◌else◌, is_empty, map, not, ℕ, ◌&&◌, ◌==◌, ◌∷◌,
}

pub record Config : Type 0 where
  pub approved_tools : List String
  pub approved_egress_hosts : List String
  pub threat_pack : ThreatPack
  pub deception_tokens : List DeceptionToken
  pub tool_provenance : List ToolProvenanceEntry
  pub agent_identities : List AgentIdentity

-- DefaultConfig
abbrev default_config : Config
unfolding default_threat_pack
default_config = record {
  approved_tools = default_tools;
  approved_egress_hosts = default_egress_hosts;
  threat_pack = default_threat_pack;
  deception_tokens = [];
  tool_provenance = [];
  agent_identities = [];
}

-- withDefaults
unfoldable pub with_defaults : Config → Config
unfolding default_threat_pack
with_defaults config = record config {
  approved_tools = or_list config.approved_tools default_tools;
  approved_egress_hosts = or_list config.approved_egress_hosts default_egress_hosts;
  threat_pack =
      if config.threat_pack.version == "" then default_threat_pack else config.threat_pack;
}

-- The pack of a new engine, after Validate: what is missing is filled in from the configuration.
unfoldable pub filled_pack : ThreatPack → List String → List String → ThreatPack
unfolding default_rule_descriptors
filled_pack pack tools hosts =
    let rules =
      if is_empty pack.rules then default_rule_descriptors pack.name pack.version else pack.rules in
    record pack {
      approved_tools = or_list pack.approved_tools tools;
      approved_egress_hosts = or_list pack.approved_egress_hosts hosts;
      rules =
          map {A = RuleDescriptor}
            (λ rule. record rule {
              pack_name = or_text rule.pack_name pack.name;
              pack_version = or_text rule.pack_version pack.version;
            })
            rules;
    }

module _ ⦃p : Platform⦄ where
  -- The loop over the provenance entries; an entry without a name or a fingerprint is passed over.
  unfoldable pub compile_provenance :
      Dict ToolProvenanceEntry → List ToolProvenanceEntry → Dict ToolProvenanceEntry
  compile_provenance done [] = done
  compile_provenance done (entry ∷ entries) =
      let name = normalize_tool entry.tool in
      let fingerprint = trim_space entry.fingerprint in
      compile_provenance
        (put_if (not (name == "") && not (fingerprint == "")) name
          (record {
            tool = name;
            publisher = trim_space entry.publisher;
            fingerprint = fingerprint;
          })
          done)
        entries

  -- The loop over the agents; one without an id or a hash is passed over.
  unfoldable pub compile_identities : Dict AgentIdentity → List AgentIdentity → Dict AgentIdentity
  compile_identities done [] = done
  compile_identities done (entry ∷ entries) =
      let id = lower (trim_space entry.agent_id) in
      let hash = lower (trim_space entry.key_hash) in
      compile_identities
        (put_if (not (id == "") && not (hash == "")) id (record { agent_id = id; key_hash = hash })
          done)
        entries

  -- Validate, and the pack that stands in for one that is not valid
  unfoldable pub valid_pack : ThreatPack → ThreatPack
  unfolding default_threat_pack
  valid_pack pack = if trim_space pack.version == "" then default_threat_pack else pack

  -- New: an engine without tenants and history.
  unfoldable pub new_engine : (ℕ → ℕ) → Config → Engine
  unfolding with_defaults filled_pack compile_provenance compile_identities valid_pack compile_list
      set_deception_tokens
  new_engine clock given =
      let config = with_defaults given in
      set_deception_tokens clock
        (record {
          approved_tools = compile_list normalize_tool [] config.approved_tools;
          tool_provenance = compile_provenance [] config.tool_provenance;
          agent_identities = compile_identities [] config.agent_identities;
          approved_egress_hosts = compile_list normalize_host [] config.approved_egress_hosts;
          pack =
              filled_pack (valid_pack config.threat_pack) config.approved_tools
                config.approved_egress_hosts;
          deception = [];
          deception_seq = 0;
          tenant_policies = [];
          history = [];
        })
        config.deception_tokens

  -- Reload
  unfoldable pub reload : (ℕ → ℕ) → Engine → Config → Engine
  unfolding new_engine
  reload clock e config =
      let rebuilt = new_engine clock config in
      record e {
        approved_tools = rebuilt.approved_tools;
        tool_provenance = rebuilt.tool_provenance;
        agent_identities = rebuilt.agent_identities;
        approved_egress_hosts = rebuilt.approved_egress_hosts;
        pack = rebuilt.pack;
      }
