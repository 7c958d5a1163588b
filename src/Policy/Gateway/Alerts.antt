-- ===== src/Policy/Gateway/Alerts.antt =====
-- Which of the gateway's alerts a call raises, by rule.
use open_agentic_threat_defe.Domain.{Alert, Event, ToolCallRequest}
use open_agentic_threat_defe.Go.Maps.{Dict, lookup}
use open_agentic_threat_defe.Go.Runtime.{Platform}
use open_agentic_threat_defe.Go.Strings.{join_with, trim_space}
use open_agentic_threat_defe.Go.Strings.Trim.{CaseLaws, lower-trim_idem, lower_empty, trim-trim}
use open_agentic_threat_defe.Policy.Deception.{match_deception}
use open_agentic_threat_defe.Policy.Engine.{Engine}
use open_agentic_threat_defe.Policy.Gateway.Assess.{filter_out_alert_rule, has_alert_rule}
use open_agentic_threat_defe.Policy.Gateway.Gate.{
  command_of, event_of, gateway_alerts, gateway_egress_alerts, signal_of,
}
use open_agentic_threat_defe.Policy.Rules.{
  deception_label_alerts, discovery_alerts, evaluate, has_label, is_hit, is_tool_call,
  metadata_text, model_runtime_alerts, new_alert, registry_alerts, secret_exposure_alerts, tool_of,
  unapproved_tool_alerts, unknown_egress_alerts,
}
use open_agentic_threat_defe.Policy.Tenants.{overlay, tool_approved_for_tenant}
use open_agentic_threat_defe.Prelude.{
  Bool, List, String, [], any-append, arith, eq_iff, false, find, is_some, map, not, refl, some,
  true, ◌&&◌, ◌++◌, ◌==◌, ◌||◌, ◌∙◌, ◌∷◌, ◌≡◌, ◌≢◌,
}

filter_out_self :
    (xs : List Alert) (id : String) → has_alert_rule (filter_out_alert_rule xs id) id ≡ false
unfolding has_alert_rule filter_out_alert_rule
filter_out_self [] id = refl
filter_out_self (a ∷ xs) id = ground (arith, filter_out_self xs id)

filter_out-other :
    (xs : List Alert) (id other : String)
    → id ≢ other
    → has_alert_rule (filter_out_alert_rule xs id) other ≡ has_alert_rule xs other
unfolding has_alert_rule filter_out_alert_rule
filter_out-other [] id other n = refl
filter_out-other (a ∷ xs) id other n =
    ground (arith, eq_iff a.rule_id id, eq_iff a.rule_id other, filter_out-other xs id other n)

has_alert_rule-append :
    (xs ys : List Alert) (id : String)
    → has_alert_rule (xs ++ ys) id ≡ (has_alert_rule xs id || has_alert_rule ys id)
unfolding has_alert_rule
has_alert_rule-append xs ys id = any-append (λ a. a.rule_id == id) xs ys

module _ ⦃p : Platform⦄ (e : Engine) where
  -- The rules of `evaluate`, one by one, against one rule id.
  evaluate-unapproved :
      (event : Event)
      → has_alert_rule (evaluate e event) "agent.tool.unapproved" ≡ (
          is_tool_call event.kind
          && not (tool_approved_for_tenant e event.tenant (tool_of event.tool_name)))
  unfolding evaluate unapproved_tool_alerts secret_exposure_alerts unknown_egress_alerts
      discovery_alerts deception_label_alerts registry_alerts model_runtime_alerts new_alert
      has_alert_rule
  evaluate-unapproved event = ground arith

  evaluate-deception :
      (event : Event)
      → has_alert_rule (evaluate e event) "deception.canary.hit" ≡ (
          is_hit event.kind
          || (has_label event.labels "canary"
              || (has_label event.labels "deception"
                  || is_some (
                      match_deception e (
                        event.command
                        ∷ event.signal
                        ∷ event.tool_name
                        ∷ event.destination
                        ∷ join_with " " event.labels
                        ∷ metadata_text event.metadata
                        ∷ [])))))
  unfolding evaluate unapproved_tool_alerts secret_exposure_alerts unknown_egress_alerts
      discovery_alerts deception_label_alerts registry_alerts model_runtime_alerts new_alert
      has_alert_rule
  evaluate-deception event = ground arith

-- A registered value that passes a test is found.
pub find-lookup {ℓ} :
    {V : Type ℓ} (f : V → Bool) (id : String) (m : Dict V) (v : V)
    → lookup id m ≡ some v
    → f v ≡ true
    → is_some (find f (map (λ (x : String × V). x.1) m)) ≡ true
unfolding lookup
find-lookup f id [] v h k = cc
find-lookup f id ((j, w) ∷ m) v h k = ground (arith, find-lookup f id m v)

module _ ⦃p : Platform⦄ (e : Engine) (r : ToolCallRequest) where
  egress_alerts-other :
      (id : String)
      → ("network.egress.unknown" == id) ≡ false
      → has_alert_rule (gateway_egress_alerts e r) id ≡ false
  unfolding gateway_egress_alerts new_alert has_alert_rule
  egress_alerts-other id h = ground arith

  -- The unapproved-tool alert is raised for a tool that is not approved, but for a protocol
  -- operation.
  pub gateway_alerts-unapproved : has_alert_rule (gateway_alerts e r) "agent.tool.unapproved" ≡ (
      not r.protocol_surface
      && not (tool_approved_for_tenant e (trim_space r.tenant) (tool_of (tool_of r.tool_name))))
  unfolding gateway_alerts event_of
  gateway_alerts-unapproved =
      has_alert_rule-append _ (gateway_egress_alerts e r) "agent.tool.unapproved"
      ∙ ground (
        arith,
        egress_alerts-other "agent.tool.unapproved" refl,
        evaluate-unapproved e (event_of r),
        filter_out_self (evaluate e (event_of r)) "agent.tool.unapproved",
      )

  -- The texts of a call that are matched against the deception registry.
  abbrev pub scanned : List String
  scanned =
      command_of r
      ∷ signal_of r
      ∷ tool_of r.tool_name
      ∷ r.destination
      ∷ join_with " " r.labels
      ∷ metadata_text r.metadata
      ∷ []

  unapproved-ne-canary : ◌≢◌ {A = String} "agent.tool.unapproved" "deception.canary.hit"
  unapproved-ne-canary = ground (arith, eq_iff "agent.tool.unapproved" "deception.canary.hit")

  pub gateway_alerts-canary : has_alert_rule (gateway_alerts e r) "deception.canary.hit" ≡ (
      has_label r.labels "canary"
      || (has_label r.labels "deception" || is_some (match_deception e scanned)))
  unfolding gateway_alerts event_of
  gateway_alerts-canary =
      has_alert_rule-append _ (gateway_egress_alerts e r) "deception.canary.hit"
      ∙ ground (
        arith,
        egress_alerts-other "deception.canary.hit" refl,
        evaluate-deception e (event_of r),
        filter_out-other (evaluate e (event_of r)) "agent.tool.unapproved" "deception.canary.hit"
            unapproved-ne-canary,
      )

  overlay-trim : overlay e (trim_space r.tenant) ≡ overlay e r.tenant
  unfolding overlay
  overlay-trim = rw trim-trim

  pub tool_approved-trim :
      (tool : String)
      → tool_approved_for_tenant e (trim_space r.tenant) tool
        ≡ tool_approved_for_tenant e r.tenant tool
  unfolding tool_approved_for_tenant
  tool_approved-trim tool = ground (arith, overlay-trim)

  pub tool_of-tool_of :
      CaseLaws p
      → (trim_space r.tool_name == "") ≡ false
      → tool_of (tool_of r.tool_name) ≡ tool_of r.tool_name
  unfolding tool_of
  tool_of-tool_of laws h =
      ground (arith, lower_empty (trim_space r.tool_name), lower-trim_idem laws r.tool_name)
