-- ===== src/Examples/Policies.antt =====
-- The theorems about canaries, the configuration and threat packs at concrete inputs.
use open_agentic_threat_defe.Domain.{DeceptionToken, ToolCallRequest, deny}
use open_agentic_threat_defe.Examples.Fixtures.{blank_request, canary_token, sample_engine}
use open_agentic_threat_defe.Examples.Gateway.{program}
use open_agentic_threat_defe.Go.Ascii.{ascii}
use open_agentic_threat_defe.Go.Maps.{lookup}
use open_agentic_threat_defe.Go.Strings.{itoa, lower, trim_space}
use open_agentic_threat_defe.Policy.Configuration.{Config, reload, with_defaults}
use open_agentic_threat_defe.Policy.Configuration.Reloads.{
  added_canary_denied, reload_decides_tools, reloaded, unchanged,
}
use open_agentic_threat_defe.Policy.Engine.{Engine, ThreatPack}
use open_agentic_threat_defe.Policy.Gateway.Decisions.{decision}
use open_agentic_threat_defe.Policy.History.{default_limits}
use open_agentic_threat_defe.Policy.Packs.{PackFiles, load_threat_pack}
use open_agentic_threat_defe.Policy.Packs.Signed.{IsSigned, load_threat_pack-IsSigned_iff}
use open_agentic_threat_defe.Policy.Deception.{normalize_deception_token}
use open_agentic_threat_defe.Policy.Registry.{
  store_token, named_token, next_deception_seq, next_seq, add_deception_token,
}
use open_agentic_threat_defe.Policy.Registry.Fresh.{IsStored, add_deception_token-IsStored}
use open_agentic_threat_defe.Policy.Tenants.{
  normalize_tool, overlay, tool_approved_for_tenant, tools_decision,
}
use open_agentic_threat_defe.Prelude.{
  [], any, if◌then◌else◌, inl, none, refl, ◌==◌, ◌∷◌, ◌≡◌, ◌↔◌, ℕ,
}

-- A canary without an id.
abbrev new_canary : DeceptionToken
new_canary = record canary_token { id = ""; value = "zx99" }

-- The registry has "dt-1" already.
abbrev one_canary : Engine
one_canary = record sample_engine { deception_seq = 0 }

add_deception_token-IsStored_example :
    (stored : DeceptionToken) × ((add_deception_token ⦃p = ascii⦄ one_canary 5 new_canary).1
      ≡ inl stored)
    × IsStored ⦃p = ascii⦄ one_canary
        (add_deception_token ⦃p = ascii⦄ one_canary 5 new_canary).0
        new_canary
        stored
unfolding trim_space
add_deception_token-IsStored_example =
    add_deception_token-IsStored ⦃p = ascii⦄ one_canary 5 new_canary refl

abbrev one_tool : Config
one_tool = record {
  approved_tools = " RM " ∷ [];
  approved_egress_hosts = [];
  threat_pack = record {
    name = "";
    version = "";
    approved_tools = [];
    approved_egress_hosts = [];
    rules = [];
  };
  deception_tokens = [];
  tool_provenance = [];
  agent_identities = [];
}

abbrev clock : ℕ → ℕ
clock n = 7

reload_decides_tools_example :
    (tool_approved_for_tenant ⦃p = ascii⦄
        (reload ⦃p = ascii⦄ clock sample_engine one_tool)
        "acme"
        "rm"
      ≡ tools_decision ⦃p = ascii⦄
          (overlay ⦃p = ascii⦄ sample_engine "acme")
          "rm"
          (any (λ x. normalize_tool ⦃p = ascii⦄ x == "rm") (with_defaults one_tool).approved_tools))
    × ((reload ⦃p = ascii⦄ clock sample_engine one_tool).deception ≡ sample_engine.deception)
    × ((reload ⦃p = ascii⦄ clock sample_engine one_tool).tenant_policies
        ≡ sample_engine.tenant_policies)
    × ((reload ⦃p = ascii⦄ clock sample_engine one_tool).history ≡ sample_engine.history)
reload_decides_tools_example =
    reload_decides_tools ⦃p = ascii⦄ clock sample_engine one_tool "acme" "rm" refl

abbrev stored_canary : DeceptionToken
stored_canary = record new_canary { id = "dt-2" }

abbrev reloaded_engine : Engine
reloaded_engine =
    reload ⦃p = ascii⦄ clock (add_deception_token ⦃p = ascii⦄ one_canary 5 new_canary).0 one_tool

abbrev leaking_request : ToolCallRequest
leaking_request = record blank_request { command = "read zx99" }

new_canary-stored : (add_deception_token ⦃p = ascii⦄ one_canary 5 new_canary).1 ≡ inl stored_canary
unfolding add_deception_token store_token named_token next_deception_seq next_seq itoa
    normalize_deception_token trim_space lower lookup
new_canary-stored = refl

added_canary_denied_example :
    (decision ⦃p = ascii⦄ default_limits reloaded_engine leaking_request 8 9).verdict ≡ deny
unfolding program
added_canary_denied_example =
    added_canary_denied ⦃p = ascii⦄ default_limits one_canary reloaded_engine new_canary
      stored_canary leaking_request 5 8 9 new_canary-stored (reloaded unchanged clock one_tool) refl

abbrev custom_pack : ThreatPack
custom_pack = record {
  name = "";
  version = "7";
  approved_tools = [];
  approved_egress_hosts = [];
  rules = [];
}

abbrev signed_files : PackFiles
signed_files = record {
  getenv = λ name. if name == "OATD_MANIFEST_HMAC_SECRET" then "k" else "";
  read_file = λ path. inl (if path == "pack.json" then "{}" else "k#{}\n");
  write_file = λ path text. none;
  decode_pack = λ text. inl custom_pack;
}

load_threat_pack-IsSigned_iff_example :
    (load_threat_pack ⦃p = ascii⦄ signed_files "pack.json" ≡ inl custom_pack)
    ↔ IsSigned ⦃p = ascii⦄ signed_files "pack.json" custom_pack
unfolding trim_space
load_threat_pack-IsSigned_iff_example =
    load_threat_pack-IsSigned_iff ⦃p = ascii⦄ signed_files "pack.json" custom_pack refl refl
