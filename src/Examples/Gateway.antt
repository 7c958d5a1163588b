-- ===== src/Examples/Gateway.antt =====
-- The theorems about the gateway at concrete calls.
use open_agentic_threat_defe.Domain.{allow, deny}
use open_agentic_threat_defe.Examples.Fixtures.{
  ascii-CaseLaws, blank_request, canary_request, canary_token, other_tool_request, sample_engine,
}
use open_agentic_threat_defe.Go.Ascii.{ascii}
use open_agentic_threat_defe.Go.Maps.{lookup, put}
use open_agentic_threat_defe.Go.Strings.{
  contains, fields_func, has_prefix, itoa, join_with, keep_chars, lower, trim_space,
}
use open_agentic_threat_defe.Policy.Deception.{token_hits}
use open_agentic_threat_defe.Policy.Gateway.Decisions.{
  allow_iff_clean, deny_iff_Refused, gate_tool_call-IsBounded, registered_canary_denied,
  unapproved_tool_denied,
}
use open_agentic_threat_defe.Policy.Gateway.Gate.{
  gate_tool_call, gateway_alerts, score_of, taint_of,
}
use open_agentic_threat_defe.Policy.Gateway.Stages.{Refused}
use open_agentic_threat_defe.Policy.Gateway.Verdicts.{IsClean}
use open_agentic_threat_defe.Policy.History.{default_limits}
use open_agentic_threat_defe.Policy.History.Bounds.{IsBounded}
use open_agentic_threat_defe.Policy.Rules.{metadata_text, tool_of}
use open_agentic_threat_defe.Policy.Taint.{has_source_prefix}
use open_agentic_threat_defe.Policy.Tenants.{is_tool_approved, overlay, tool_approved_for_tenant}
use open_agentic_threat_defe.Policy.Text.{
  add_decoded, add_variant, compact_gateway_text, decode_gateway_candidates,
  decode_gateway_candidates_depth, gateway_contains_any, gateway_text_variants, looks_base64_like,
  looks_hex_like, normalize_gateway_text, pad_base64, printable_gateway_bytes, term_variants,
  tokenize_gateway_text,
}
use open_agentic_threat_defe.Prelude.{arith, refl, true, ◌<◌, ◌↔◌, ◌≡◌, ◌⊎◌}

unfoldable pub program : Unit {0}
unfolding trim_space lower keep_chars fields_func join_with itoa contains has_prefix lookup put
    normalize_gateway_text compact_gateway_text tokenize_gateway_text printable_gateway_bytes
    looks_base64_like pad_base64 looks_hex_like add_decoded decode_gateway_candidates_depth
    decode_gateway_candidates add_variant gateway_text_variants term_variants gateway_contains_any
    token_hits overlay is_tool_approved tool_approved_for_tenant metadata_text tool_of
program = tt

allow_iff_clean_example :
    ((gate_tool_call ⦃p = ascii⦄ default_limits sample_engine blank_request 5 6).1.verdict ≡ allow)
    ↔ (IsClean ⦃p = ascii⦄ sample_engine blank_request
        × ((score_of ⦃p = ascii⦄ sample_engine blank_request).score < 70))
allow_iff_clean_example = allow_iff_clean ⦃p = ascii⦄ default_limits sample_engine blank_request 5 6

registered_canary_denied_example :
    (gate_tool_call ⦃p = ascii⦄ default_limits sample_engine canary_request 5 6).1.verdict ≡ deny
unfolding program
registered_canary_denied_example =
    registered_canary_denied ⦃p = ascii⦄ default_limits sample_engine canary_request 5 6 "dt-1"
      canary_token refl refl

unapproved_tool_denied_example :
    (gate_tool_call ⦃p = ascii⦄ default_limits sample_engine other_tool_request 5 6).1.verdict
    ≡ deny
unfolding program
unapproved_tool_denied_example =
    unapproved_tool_denied ⦃p = ascii⦄ default_limits sample_engine other_tool_request 5 6
      ascii-CaseLaws refl refl

deny_iff_Refused_example :
    ((gate_tool_call ⦃p = ascii⦄ default_limits sample_engine canary_request 5 6).1.verdict ≡ deny)
    ↔ (Refused ⦃p = ascii⦄ sample_engine canary_request
          (tool_of ⦃p = ascii⦄ "siem_search")
          (gateway_alerts ⦃p = ascii⦄ sample_engine canary_request)
        ⊎ (has_source_prefix (taint_of ⦃p = ascii⦄ canary_request) "canary:" ≡ true))
deny_iff_Refused_example =
    deny_iff_Refused ⦃p = ascii⦄ default_limits sample_engine canary_request 5 6

gate_tool_call-IsBounded_example :
    IsBounded default_limits
      (gate_tool_call ⦃p = ascii⦄ default_limits sample_engine canary_request 5 6).0.history
gate_tool_call-IsBounded_example =
    gate_tool_call-IsBounded ⦃p = ascii⦄ default_limits sample_engine canary_request 5 6
      (omega arith) (omega arith) (record { entries = tt; size = omega arith })
