-- ===== src/Server/Stable.antt =====
-- What the parts of the handlers keep: a property of the application that no effect on the store, no
-- decision and no counter can break is kept by everything that does not send.
use open_agentic_threat_defe.Auth.Roles.{Principal}
use open_agentic_threat_defe.Domain.{Alert, AuditEvent, Event, ResponseAction, ToolCallRequest}
use open_agentic_threat_defe.Go.Exec
use open_agentic_threat_defe.Go.Exec.{go_on}
use open_agentic_threat_defe.Go.Exec.Keeps.{
  Keeps, Keeps-bind, Keeps-pure, Keeps-update, keeps_rules,
}
use open_agentic_threat_defe.Go.Maps.{Dict}
use open_agentic_threat_defe.Go.Runtime.{Platform}
use open_agentic_threat_defe.Policy.Engine.{Engine}
use open_agentic_threat_defe.Policy.Gateway.Gate.{gate_tool_call}
use open_agentic_threat_defe.Prelude.{
  Bool, List, Option, String, [], inl, inr, none, refl, some, ℕ, ◌+◌, ◌∷◌, ◌≡◌, ◌⊎◌,
}
use open_agentic_threat_defe.Server.Actions.{
  add_action, decide_call, gate, keep_action, ok_or_500, prepare_action, prepare_alerts,
  prepare_each, prepare_event, prepare_tool_call_request,
}
use open_agentic_threat_defe.Server.Gateway.{execute_gateway_tool_action, recorded_or_added, shared}
use open_agentic_threat_defe.Server.State.{
  App, HttpRequest, Settings, World, clock_now, next_count, next_id, on_store, or_500, record_audit,
  tick,
}
use open_agentic_threat_defe.Store.Operations.{
  add_actions, add_alerts, add_audit, add_event, record_action_execution,
}

-- A property that counting and appending an audit record keep.
pub record Recordable (w : World) (set : Settings) ⦃p : Platform⦄ (P : App → Type 0) : Type 0 where
  pub on_tick : (app : App) → P app → P (record app { ticks = app.ticks + 1 })
  pub on_count : (app : App) → P app → P (record app { counter = app.counter + 1 })
  pub on_audit :
      (event : AuditEvent)
      → Keeps P (on_store w (λ at written s. add_audit set.secrets at written s event))

-- A property that every effect but sending and the limiter keeps.
pub record Stable (w : World) (set : Settings) ⦃p : Platform⦄ (P : App → Type 0) : Type 0 where
  pub recorded : Recordable w set P
  pub on_gate :
      (app : App) (r : ToolCallRequest) (now seen : ℕ)
      → P app
      → P (record app { engine = (gate_tool_call set.limits app.engine r now seen).0 })
  pub on_alerts :
      (alerts : List Alert) → Keeps P (on_store w (λ at written s. add_alerts at written s alerts))
  pub on_actions :
      (actions : List ResponseAction)
      → Keeps P (on_store w (λ at written s. add_actions at written s actions))
  pub on_executed :
      (id status err : String) (now : ℕ)
      → Keeps P (on_store w (λ at written s. record_action_execution written s id now status err))
  pub on_event :
      (event : Event) → Keeps P (on_store w (λ at written s. add_event at written s event))
  -- a change of the engine that leaves its history alone
  pub on_configured :
      (app : App) (e : Engine)
      → e.history ≡ app.engine.history
      → P app
      → P (record app { engine = e })
  pub on_shared :
      (b : Bool) (id : String) (metadata : Dict String)
      → Keeps P (on_store w (λ at written s. shared b id metadata s))

module _ ⦃p : Platform⦄ (w : World) (set : Settings) where
  -- recordAudit never stops a handler.
  pub record_audit-answers :
      (r : HttpRequest) (who : Principal) (action kind id outcome : String) (metadata : Dict String)
      (app : App)
      → record_audit w set r who action kind id outcome metadata app
        ≡ (inl tt, (record_audit w set r who action kind id outcome metadata app).1)
  unfolding record_audit next_id clock_now tick next_count on_store Exec.◌>>=◌ Exec.pure go_on
  record_audit-answers r who action kind id outcome metadata app = refl

module _ ⦃p : Platform⦄ (w : World) (set : Settings) {P : App → Type 0}
    (rc : Recordable w set P) where
  pub tick-Keeps : Keeps P tick
  unfolding tick
  tick-Keeps = record { at = rc.on_tick }

  pub next_count-Keeps : Keeps P next_count
  unfolding next_count
  next_count-Keeps = record { at = rc.on_count }

  pub clock_now-Keeps : Keeps P (clock_now w)
  unfolding clock_now
  clock_now-Keeps = search (keeps_rules, tick-Keeps)

  pub next_id-Keeps : (prefix : String) → Keeps P (next_id w set prefix)
  unfolding next_id
  next_id-Keeps prefix = search (keeps_rules, tick-Keeps, next_count-Keeps)

  -- Counting and appending audit records is all that recordAudit does.
  pub record_audit-Keeps :
      (r : HttpRequest) (who : Principal) (action kind id outcome : String) (metadata : Dict String)
      → Keeps P (record_audit w set r who action kind id outcome metadata)
  unfolding record_audit
  record_audit-Keeps r who action kind id outcome metadata =
      search (keeps_rules, next_id-Keeps, clock_now-Keeps, rc.on_audit)

module _ ⦃p : Platform⦄ (w : World) (set : Settings) {P : App → Type 0} (st : Stable w set P) where
  pub Keeps-tick : Keeps P tick
  Keeps-tick = tick-Keeps w set st.recorded

  pub Keeps-clock_now : Keeps P (clock_now w)
  Keeps-clock_now = clock_now-Keeps w set st.recorded

  Keeps-next_id : (prefix : String) → Keeps P (next_id w set prefix)
  Keeps-next_id = next_id-Keeps w set st.recorded

  pub Keeps-record_audit :
      (r : HttpRequest) (who : Principal) (action kind id outcome : String) (metadata : Dict String)
      → Keeps P (record_audit w set r who action kind id outcome metadata)
  Keeps-record_audit = record_audit-Keeps w set st.recorded

  ruleset effect_rules = (keeps_rules, Keeps-tick, Keeps-next_id, Keeps-clock_now)

  pub Keeps-prepare_tool_call_request :
      (r : ToolCallRequest) → Keeps P (prepare_tool_call_request w set r)
  unfolding prepare_tool_call_request
  Keeps-prepare_tool_call_request r = search effect_rules

  pub Keeps-prepare_event :
      (tenant : String) (event : Event) → Keeps P (prepare_event w set tenant event)
  unfolding prepare_event
  Keeps-prepare_event tenant event = search effect_rules

  Keeps-prepare_each :
      (tenant : String) (now : ℕ) (alerts : List Alert)
      → Keeps P (prepare_each w set tenant now alerts)
  unfolding prepare_each
  Keeps-prepare_each tenant now [] = search effect_rules
  Keeps-prepare_each tenant now (alert ∷ alerts) =
      Keeps-bind _ _ (search effect_rules)
        (λ id. Keeps-bind _ _ (Keeps-prepare_each tenant now alerts) (λ rest. Keeps-pure _))

  pub Keeps-prepare_alerts :
      (alerts : List Alert) (tenant : String) → Keeps P (prepare_alerts w set alerts tenant)
  unfolding prepare_alerts
  Keeps-prepare_alerts alerts tenant = search (effect_rules, Keeps-prepare_each)

  pub Keeps-prepare_action :
      (action : ResponseAction) (tenant : String) → Keeps P (prepare_action w set action tenant)
  unfolding prepare_action
  Keeps-prepare_action action tenant = search effect_rules

  pub Keeps-ok_or_500 : (err : Option String) → Keeps P (ok_or_500 w set err)
  unfolding ok_or_500
  Keeps-ok_or_500 none = search keeps_rules
  Keeps-ok_or_500 (some err) = search keeps_rules

  pub Keeps-keep_action :
      (action : ResponseAction) (tenant : String) → Keeps P (keep_action w set action tenant)
  unfolding keep_action add_action
  Keeps-keep_action action tenant =
      search (keeps_rules, Keeps-prepare_action, st.on_actions, Keeps-ok_or_500)

  Keeps-gate : (r : ToolCallRequest) → Keeps P (gate w set r)
  unfolding gate
  Keeps-gate r = search (
    effect_rules,
    Keeps-update,
    λ (now seen : ℕ) (app : App) (h : P app). st.on_gate app r now seen h,
  )

  pub Keeps-or_500 : (a : List Alert × Option String) → Keeps P (or_500 a)
  unfolding or_500
  Keeps-or_500 (a, none) = search keeps_rules
  Keeps-or_500 (a, some err) = search keeps_rules

  pub Keeps-decide_call :
      (r : ToolCallRequest) (tenant : String) → Keeps P (decide_call w set r tenant)
  unfolding decide_call
  Keeps-decide_call r tenant =
      search (keeps_rules, Keeps-gate, Keeps-prepare_alerts, st.on_alerts, Keeps-or_500)

  Keeps-recorded_or_added :
      (action : ResponseAction) (o : Option (ResponseAction ⊎ String))
      → Keeps P (recorded_or_added w set action o)
  unfolding recorded_or_added
  Keeps-recorded_or_added action none = search (keeps_rules, st.on_actions)
  Keeps-recorded_or_added action (some (inl a)) = search keeps_rules
  Keeps-recorded_or_added action (some (inr err)) = search keeps_rules

  pub Keeps-execute_gateway_tool_action :
      (r : HttpRequest) (stored : Bool) (action : ResponseAction) (status : String)
      → Keeps P (execute_gateway_tool_action w set r stored action status)
  unfolding execute_gateway_tool_action
  Keeps-execute_gateway_tool_action r stored action status =
      search
        (
          keeps_rules, Keeps-clock_now, st.on_shared, st.on_executed, Keeps-recorded_or_added,
          Keeps-record_audit,
        )
        depth 12
