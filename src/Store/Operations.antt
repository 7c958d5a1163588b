-- ===== src/Store/Operations.antt =====
-- store.go: the operations of a store. `now` is the clock, `written` the outcome of writing the
-- snapshot file.
use open_agentic_threat_defe.Domain.{Alert, Asset, AuditEvent, Event, ResponseAction}
use open_agentic_threat_defe.Go.Runtime.{Platform}
use open_agentic_threat_defe.Go.Strings.{elem}
use open_agentic_threat_defe.Prelude.{
  Bool, List, Option, String, [], filter, find, if◌then◌else◌, inl, inr, is_empty, ltb, map, nat_eq,
  none, not, some, sort, ℕ, ◌&&◌, ◌++◌, ◌==◌, ◌||◌, ◌∷◌, ◌⊎◌,
}
use open_agentic_threat_defe.Store.Assets.{raise_asset_risk, upsert_asset}
use open_agentic_threat_defe.Store.AuditChain.{Secrets, prepare_audit_chain}
use open_agentic_threat_defe.Store.Persistence.{commit, persist}
use open_agentic_threat_defe.Store.State.{Store}
use open_agentic_threat_defe.Store.Tenant.{filter_by_tenant, same_tenant}

-- sort.Slice by a time, newest first. Go leaves open how it orders equal times.
abbrev pub newest_first {ℓ} : {A : Type ℓ} → (A → ℕ) → List A → List A
newest_first time_of = sort (λ x y. ltb (time_of y) (time_of x))

abbrev pub is_gateway_action : ResponseAction → Bool
is_gateway_action a = a.action_type == "gateway_tool_call" || a.action_type == "mcp_proxy"

-- GetAlert, GetAction
unfoldable pub get_alert : Store → String → Option Alert
get_alert s id = find (λ a. a.id == id) s.alerts

unfoldable pub get_action : Store → String → Option ResponseAction
get_action s id = find (λ a. a.id == id) s.actions

-- The loop over the actions that changes the first of an id, or fails on it: the actions after, and
-- the answer, `none` where no action has the id.
unfoldable pub change_first :
    (ResponseAction → ResponseAction ⊎ String)
    → String
    → List ResponseAction
    → List ResponseAction × Option (ResponseAction ⊎ String)
change_first f id [] = ([], none)
change_first f id (a ∷ actions) =
    let (rest, answer) = change_first f id actions in
    if a.id == id
    then elim (f a) [
      | inl b ↦ (b ∷ actions, some (inl b))
      | inr err ↦ (a ∷ actions, some (inr err))
    ]
    else (a ∷ rest, answer)

-- What ApproveAction does with the action it finds.
unfoldable pub approving : String → ℕ → ResponseAction → ResponseAction ⊎ String
approving approved_by approved_at a =
    if is_gateway_action a && a.execution_status == "blocked"
    then inr "blocked gateway actions cannot be approved"
    else inl (record a {
      approval_status = "approved";
      approved_by = approved_by;
      approved_at = some approved_at;
    })

unfoldable pub executing : ℕ → String → String → ResponseAction → ResponseAction ⊎ String
executing executed_at status err a =
    inl (record a {
      execution_status = status;
      executed_at = some executed_at;
      execution_error = err;
    })

-- What follows the loop: the file is written only after a change, and the answer is an error if that
-- fails.
unfoldable pub write_change :
    Option String
    → Store
    → List ResponseAction × Option (ResponseAction ⊎ String)
    → Store × Option (ResponseAction ⊎ String)
write_change written s (actions, none) = (s, none)
write_change written s (actions, some (inr err)) = (s, some (inr err))
write_change written s (actions, some (inl a)) =
    let (s', err) = persist written (record s { actions = actions }) in
    (s', some (elim err [ none ↦ inl a | some e ↦ inr e ]))

-- The common body of ApproveAction and RecordActionExecution. The answer is the action or an error,
-- `none` where there is no such action.
unfoldable pub change_action :
    Option String
    → Store
    → (ResponseAction → ResponseAction ⊎ String)
    → String
    → Store × Option (ResponseAction ⊎ String)
unfolding change_first write_change
change_action written s f id = write_change written s (change_first f id s.actions)

unfoldable pub approve_action :
    Option String → Store → String → String → ℕ → Store × Option (ResponseAction ⊎ String)
approve_action written s id approved_by approved_at =
    change_action written s (approving approved_by approved_at) id

unfoldable pub record_action_execution :
    Option String → Store → String → ℕ → String → String → Store × Option (ResponseAction ⊎ String)
record_action_execution written s id executed_at status err =
    change_action written s (executing executed_at status err) id

unfoldable pub list_actions : Store → List ResponseAction
list_actions s = newest_first (λ a. a.created_at) s.actions

unfoldable pub list_pending_gateway_actions : Store → List ResponseAction
list_pending_gateway_actions s =
    newest_first (λ a. a.created_at)
      (filter (λ a. is_gateway_action a && a.approval_status == "required") s.actions)

unfoldable pub list_events : Store → List Event
list_events s = newest_first (λ x. x.timestamp) s.events

unfoldable pub list_alerts : Store → List Alert
list_alerts s = newest_first (λ x. x.created_at) s.alerts

unfoldable pub list_audits : Store → List AuditEvent
list_audits s = newest_first (λ x. x.timestamp) s.audits

-- By risk, then by time.
abbrev riskier : Asset → Asset → Bool
riskier x y =
    if nat_eq x.risk_score y.risk_score
    then ltb y.last_seen x.last_seen
    else ltb y.risk_score x.risk_score

unfoldable pub list_assets : Store → List Asset
list_assets s = sort riskier (map (λ e. e.1) s.assets)

module _ ⦃p : Platform⦄ where
  unfoldable pub add_event : ℕ → Option String → Store → Event → Store × Option String
  add_event now written s event =
      commit now written
        (record s { events = s.events ++ event ∷ []; assets = upsert_asset event s.assets })

  -- The step of the loop of `AddAlerts` for an alert that is new.
  unfoldable pub take_alert : Store → Alert → Store
  take_alert s alert = record s {
    fingerprints =
        if alert.fingerprint == "" then s.fingerprints else alert.fingerprint ∷ s.fingerprints;
    alerts = s.alerts ++ alert ∷ [];
    assets = raise_asset_risk alert s.assets;
  }

  abbrev pub is_repeated : Store → Alert → Bool
  is_repeated s alert = not (alert.fingerprint == "") && elem alert.fingerprint s.fingerprints

  -- The loop of `AddAlerts`: the store after it and the alerts that were added.
  unfoldable pub take_alerts : Store → List Alert → Store × List Alert
  take_alerts s [] = (s, [])
  take_alerts s (alert ∷ alerts) =
      let skipped = take_alerts s alerts in
      let (s', added) = take_alerts (take_alert s alert) alerts in
      if is_repeated s alert then skipped else (s', alert ∷ added)

  unfoldable pub add_alerts :
      ℕ → Option String → Store → List Alert → Store × (List Alert × Option String)
  add_alerts now written s alerts =
      let (taken, added) = take_alerts s alerts in
      let (s', err) = commit now written taken in
      if is_empty added then (taken, (added, none)) else (s', (added, err))

  unfoldable pub add_actions :
      ℕ → Option String → Store → List ResponseAction → Store × Option String
  add_actions now written s actions =
      commit now written (record s { actions = s.actions ++ actions })

  unfoldable pub add_audit :
      Secrets → ℕ → Option String → Store → AuditEvent → Store × Option String
  add_audit env now written s event =
      let (s', linked) = prepare_audit_chain env s event in
      commit now written (record s' { audits = s.audits ++ linked ∷ [] })

  unfoldable pub get_alert_for_tenant : Store → String → String → Option Alert
  get_alert_for_tenant s id tenant = elim (get_alert s id) [
    | none ↦ none
    | some a ↦ if same_tenant a.tenant tenant then some a else none
  ]

  unfoldable pub get_action_for_tenant : Store → String → String → Option ResponseAction
  get_action_for_tenant s id tenant = elim (get_action s id) [
    | none ↦ none
    | some a ↦ if same_tenant a.tenant tenant then some a else none
  ]

  unfoldable pub list_events_for_tenant : Store → String → List Event
  list_events_for_tenant s tenant = filter_by_tenant (λ x. x.tenant) (list_events s) tenant

  unfoldable pub list_alerts_for_tenant : Store → String → List Alert
  list_alerts_for_tenant s tenant = filter_by_tenant (λ x. x.tenant) (list_alerts s) tenant

  unfoldable pub list_actions_for_tenant : Store → String → List ResponseAction
  list_actions_for_tenant s tenant = filter_by_tenant (λ x. x.tenant) (list_actions s) tenant

  unfoldable pub list_pending_gateway_actions_for_tenant : Store → String → List ResponseAction
  list_pending_gateway_actions_for_tenant s tenant =
      filter_by_tenant (λ x. x.tenant) (list_pending_gateway_actions s) tenant

  unfoldable pub list_audits_for_tenant : Store → String → List AuditEvent
  list_audits_for_tenant s tenant = filter_by_tenant (λ x. x.tenant) (list_audits s) tenant

  unfoldable pub list_assets_for_tenant : Store → String → List Asset
  list_assets_for_tenant s tenant = filter_by_tenant (λ x. x.tenant) (list_assets s) tenant
