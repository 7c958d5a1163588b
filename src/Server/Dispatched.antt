-- ===== src/Server/Dispatched.antt =====
-- What an approval hands to the response connector.

use open_agentic_threat_defe.Go.Exec
use open_agentic_threat_defe.Domain.{ResponseAction}
use open_agentic_threat_defe.Go.Exec.{Exec, go_on, or_stop}
use open_agentic_threat_defe.Go.Exec.Keeps.{Keeps, Keeps-bind, keeps_rules}
use open_agentic_threat_defe.Go.Runtime.{Platform}
use open_agentic_threat_defe.Prelude.{
  List, Option, String, ap, false, if◌then◌else◌, inl, inr, none, refl, some, true, ℕ, ◌+◌, ◌==◌,
  ◌∙◌, ◌∷◌, ◌≡◌, ◌⊎◌,
}
use open_agentic_threat_defe.Server.Approval.{
  ApprovalRequest, approve_named, approved_or_reply, connector_outcome, dispatch, execute_approved,
  execute_connected, finish_approval, record_outcome, recorded_or_own, run_connector,
}
use open_agentic_threat_defe.Server.Blocked.{granted_here, granted_in_store}
use open_agentic_threat_defe.Server.Stable.{Recordable, clock_now-Keeps, record_audit-Keeps}
use open_agentic_threat_defe.Server.State.{
  App, HttpRequest, Settings, World, clock_now, next_count, next_id, on_store, record_audit, tick,
}
use open_agentic_threat_defe.Server.Tenancy.{tenant_for_principal}
use open_agentic_threat_defe.Server.Upstream.{Network}
use open_agentic_threat_defe.Store.Approval.{is_blocked}
use open_agentic_threat_defe.Store.Operations.{get_action, record_action_execution}
use open_agentic_threat_defe.Store.Tenant.{same_tenant}

-- What was handed to connectors is this.
abbrev Dispatched : List (String × ResponseAction) → App → Type 0
Dispatched given app = app.dispatched ≡ given

-- The answer that follows a method has no part in the state.
go_on-pure {ℓ} :
    {S E A B : Type ℓ} (f : A → B) (x : A ⊎ E) (s : S)
    → (go_on {E = E} x (λ a. Exec.pure (f a)) s).1 ≡ s
unfolding go_on Exec.pure
go_on-pure f (inl a) s = refl
go_on-pure f (inr e) s = refl

module _ ⦃p : Platform⦄ (w : World) (net : Network) (set : Settings)
    (given : List (String × ResponseAction)) where
  Dispatched-Recordable : Recordable w set (Dispatched given)
  unfolding on_store
  Dispatched-Recordable = record {
    on_tick = λ app h. h;
    on_count = λ app h. h;
    on_audit = λ event. record { at = λ app h. h };
  }

  executed-Keeps :
      (id status err : String) (now : ℕ)
      → Keeps
          (Dispatched given)
          (on_store w (λ at written s. record_action_execution written s id now status err))
  unfolding on_store
  executed-Keeps id status err now = record { at = λ app h. h }

  connector_outcome-Keeps :
      (r : HttpRequest) (action : ResponseAction) (name : String) (failure : Option String)
      → Keeps (Dispatched given) (connector_outcome w net set r action name failure)
  unfolding connector_outcome
  connector_outcome-Keeps r action name none =
      search (keeps_rules, record_audit-Keeps w set Dispatched-Recordable)
  connector_outcome-Keeps r action name (some err) =
      search (keeps_rules, record_audit-Keeps w set Dispatched-Recordable)

  recorded_or_own-Keeps :
      (action : ResponseAction) (outcome : String × String) (now : ℕ)
      (o : Option (ResponseAction ⊎ String))
      → Keeps (Dispatched given) (recorded_or_own w net set action outcome now o)
  unfolding recorded_or_own
  recorded_or_own-Keeps action outcome now none = search keeps_rules
  recorded_or_own-Keeps action outcome now (some (inl a)) = search keeps_rules
  recorded_or_own-Keeps action outcome now (some (inr err)) = search keeps_rules

  record_outcome-Keeps :
      (action : ResponseAction) (outcome : String × String)
      → Keeps (Dispatched given) (record_outcome w net set action outcome)
  unfolding record_outcome
  record_outcome-Keeps action outcome =
      Keeps-bind (clock_now w) _ (clock_now-Keeps w set Dispatched-Recordable)
        (λ now. search (keeps_rules, executed-Keeps, recorded_or_own-Keeps))

module _ ⦃p : Platform⦄ (w : World) (net : Network) (set : Settings) where
  -- Where a connector is configured, it is handed the action.
  execute_connected-dispatches :
      (r : HttpRequest) (action : ResponseAction) (connector : String) (app : App)
      → set.response_connector ≡ some connector
      → (execute_connected w net set r action app).1.dispatched
        ≡ (connector, action) ∷ app.dispatched
  unfolding execute_connected run_connector dispatch Exec.◌>>=◌ go_on record_audit
  execute_connected-dispatches r action connector app configured =
      let given = (connector, action) ∷ app.dispatched in
      let rest =
        Keeps-bind
          (connector_outcome w net set r action connector (w.deliver app.ticks connector action))
          (record_outcome w net set action)
          (connector_outcome-Keeps w net set given r action connector
            (w.deliver app.ticks connector action))
          (record_outcome-Keeps w net set given action) in
      rw configured (rest.at (record app { dispatched = given; ticks = app.ticks + 1 }) refl)

  execute_approved-connected :
      (r : HttpRequest) (action : ResponseAction)
      → action.action_type ≡ "gateway_proxy"
      → execute_approved w net set r action ≡ execute_connected w net set r action
  unfolding execute_approved
  execute_approved-connected r action kind = rw kind refl

module _ ⦃p : Platform⦄ (w : World) (net : Network) (set : Settings) (r : HttpRequest)
    (req : ApprovalRequest) (app : App) where
  -- The request with the name that the execution is recorded under.
  abbrev caller : HttpRequest
  caller = record r {
    principal = record r.principal {
      name = if r.principal.name == "" then req.approved_by else r.principal.name;
    };
  }

  -- The approval of an action of the HTTP proxy, which has the type gateway_proxy, is granted whatever
  -- its execution status, "blocked" included, and the approved action is handed to the response
  -- connector. (The action is of the caller's tenant, the request was decoded and names it, writing
  -- the snapshot at the approval does not fail, and a connector is configured.)
  pub proxy_call_dispatched :
      (a : ResponseAction) (connector : String)
      → get_action app.store req.action_id ≡ some a
      → a.action_type ≡ "gateway_proxy"
      → w.written (app.ticks + 1) ≡ none
      → same_tenant a.tenant (tenant_for_principal r.principal) ≡ true
      → set.response_connector ≡ some connector
      → (approve_named w net set r req app).1.dispatched
        ≡ (connector, granted_here w net set r req app a) ∷ app.dispatched
  unfolding approve_named clock_now tick next_count next_id record_audit on_store or_stop
      approved_or_reply Exec.◌>>=◌ go_on Exec.pure finish_approval
  proxy_call_dispatched a connector h kind written own configured =
      let free : is_blocked a ≡ false = rw kind refl in
      let grant = granted_in_store w net set r req app a h free written in
      let connected =
        execute_approved-connected w net set caller (granted_here w net set r req app a) in
      rw (grant, own, connected kind)
        (ap (λ (u : App). u.dispatched) (go_on-pure _ _ _)
          ∙ execute_connected-dispatches w net set caller _ connector _ configured)
