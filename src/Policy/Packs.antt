-- ===== src/Policy/Packs.antt =====
-- threatpack.go: the built-in threat pack, and the loading of one from a signed manifest. Files, the
-- environment and the decoding of JSON are parameters.
pub mod Signed
use Prim.Native.String.{◌++◌ as cat}
use open_agentic_threat_defe.Domain.{RuleDescriptor, Severity, critical, high, medium}
use open_agentic_threat_defe.Go.Results.{◌>>=◌}
use open_agentic_threat_defe.Go.Runtime.{Platform}
use open_agentic_threat_defe.Go.Strings.{or_text, elem, lower, trim_space}
use open_agentic_threat_defe.Policy.Engine.{ThreatPack}
use open_agentic_threat_defe.Prelude.{
  Bool, List, Option, String, [], if◌then◌else◌, inl, inr, is_empty, map, none, some, ◌==◌, ◌∷◌,
  ◌⊎◌,
}

-- What LoadThreatPack and SignThreatPackFile use of packages os and encoding/json: a result is a text
-- or an error.
pub record PackFiles : Type 0 where
  pub getenv : String → String
  pub read_file : String → String ⊎ String
  -- what os.WriteFile fails with
  pub write_file : String → String → Option String
  pub decode_pack : String → ThreatPack ⊎ String

abbrev pub default_threat_pack_version : String
default_threat_pack_version = "2026.06"

abbrev pub default_tools : List String
default_tools = "asset_inventory" ∷ "ticket_create" ∷ "policy_read" ∷ "siem_search" ∷ []

abbrev pub default_egress_hosts : List String
default_egress_hosts = "api.openai.com" ∷ "github.com" ∷ "login.microsoftonline.com" ∷ []

abbrev descriptor :
    String → String → String → String → String → Severity → List String → RuleDescriptor
descriptor pack_name pack_version id name description severity signals = record {
  id = id;
  name = name;
  description = description;
  severity = severity;
  signals = signals;
  pack_name = pack_name;
  pack_version = pack_version;
}

-- defaultRuleDescriptors
unfoldable pub default_rule_descriptors : String → String → List RuleDescriptor
default_rule_descriptors n v =
    descriptor n v "agent.tool.unapproved" "Unapproved agent tool call"
      "Flags AI-agent or MCP tool calls outside the approved tool manifest." high
      ("agent_tool_call" ∷ "tool_manifest" ∷ [])
    ∷ descriptor n v "agent.secret.exposure" "Potential secret exposure through agent context"
        "Flags commands and tool calls that combine agent activity with token, secret, or environment access."
        critical ("agent_tool_call" ∷ "secret" ∷ "token" ∷ "environment" ∷ [])
    ∷ descriptor n v "network.egress.unknown" "Unknown outbound destination"
        "Flags non-private outbound network flows to destinations outside the approved egress list."
        medium ("network_flow" ∷ "egress" ∷ [])
    ∷ descriptor n v "process.discovery.chain" "Suspicious discovery process"
        "Flags process commands commonly seen during discovery, credential access, or lateral movement."
        high ("process_start" ∷ "discovery" ∷ "credential_access" ∷ [])
    ∷ descriptor n v "deception.canary.hit" "Canary or deception asset touched"
        "Flags interaction with a decoy token, honey credential, or instrumented deception service."
        critical ("deception_hit" ∷ "canary" ∷ [])
    ∷ descriptor n v "model.runtime.suspicious" "Suspicious local model runtime behavior"
        "Flags local model runtime activity combined with unexpected downloads, shelling out, or external egress."
        high ("model_runtime" ∷ "gpu" ∷ "download" ∷ "shell" ∷ [])
    ∷ []

-- DefaultThreatPack
unfoldable pub default_threat_pack : ThreatPack
unfolding default_rule_descriptors
default_threat_pack = record {
  name = "builtin";
  version = default_threat_pack_version;
  approved_tools = default_tools;
  approved_egress_hosts = default_egress_hosts;
  rules = default_rule_descriptors "builtin" default_threat_pack_version;
}

abbrev pub or_list {ℓ} : {A : Type ℓ} → List A → List A → List A
or_list xs ys = if is_empty xs then ys else xs

-- The rules of a pack that was loaded: its own, or the default ones, under its name and version.
unfoldable pub stamped_rules : String → String → List RuleDescriptor → List RuleDescriptor
unfolding default_rule_descriptors
stamped_rules name version rules =
    if is_empty rules
    then default_rule_descriptors name version
    else map {A = RuleDescriptor} (λ rule. record rule { pack_name = name; pack_version = version })
        rules

-- What LoadThreatPack fills in after decoding.
unfoldable pub completed_pack : ThreatPack → ThreatPack
unfolding stamped_rules
completed_pack pack =
    let name = or_text pack.name "custom" in
    let version = or_text pack.version default_threat_pack_version in
    record {
      name = name;
      version = version;
      approved_tools = or_list pack.approved_tools default_tools;
      approved_egress_hosts = or_list pack.approved_egress_hosts default_egress_hosts;
      rules = stamped_rules name version pack.rules;
    }

module _ ⦃p : Platform⦄ (os : PackFiles) where
  -- manifestHMACKey: blank where there is no key
  abbrev pub manifest_hmac_key : String
  manifest_hmac_key = trim_space (os.getenv "OATD_MANIFEST_HMAC_SECRET")

  unfoldable pub manifest_signature_required : Bool
  manifest_signature_required =
      elem (lower (trim_space (os.getenv "OATD_MANIFEST_REQUIRE_SIGNED")))
        ("1" ∷ "true" ∷ "yes" ∷ "on" ∷ [])

  abbrev pub signature_path : String → String
  signature_path path = cat path ".sig"

  -- The signature that was read, or the error, against the one that is expected.
  unfoldable pub compare_signature : String → String → String ⊎ String → String ⊎ String
  compare_signature path expected (inr err) = inr (
      cat "threat pack signature " (
        cat (p.quote (signature_path path))
          (cat " is missing but a signing key is configured: " err)))
  compare_signature path expected (inl sig) =
      if expected == trim_space sig
      then inl sig
      else inr (cat "threat pack signature mismatch for " (p.quote path))

  -- verifyThreatPackSignature: the data, or why it is not accepted.
  unfoldable pub verify_threat_pack_signature : String → String → String ⊎ String
  unfolding compare_signature manifest_signature_required
  verify_threat_pack_signature path text =
      if manifest_hmac_key == ""
      then (if manifest_signature_required
          then inr "signed manifest required but OATD_MANIFEST_HMAC_SECRET is not set"
          else inl text)
      else (do
        sig ←
            compare_signature path (p.hmac_hex manifest_hmac_key text)
              (os.read_file (signature_path path))
        inl text)

  -- LoadThreatPack
  unfoldable pub load_threat_pack : String → ThreatPack ⊎ String
  unfolding verify_threat_pack_signature completed_pack default_threat_pack
  load_threat_pack path = if trim_space path == "" then inl default_threat_pack else (do
    text ← os.read_file path
    checked ← verify_threat_pack_signature path text
    pack ← os.decode_pack checked
    inl (completed_pack pack))

  -- SignThreatPackFile: the path of the signature.
  unfoldable pub sign_threat_pack_file : String → String ⊎ String
  sign_threat_pack_file path =
      if manifest_hmac_key == ""
      then inr "OATD_MANIFEST_HMAC_SECRET is required to sign a manifest"
      else (do
        text ← os.read_file path
        elim (os.write_file (signature_path path) (cat (p.hmac_hex manifest_hmac_key text) "\n")) [
          | some err ↦ inr err
          | none ↦ inl (signature_path path)
        ])
