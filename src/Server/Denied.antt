-- ===== src/Server/Denied.antt =====
-- What a call that is denied leaves behind.
use open_agentic_threat_defe.Go.Exec
use open_agentic_threat_defe.Domain.{
  AuditEvent, ResponseAction, ToolCallDecision, ToolCallRequest, deny,
}
use open_agentic_threat_defe.Go.Exec.{Exec, go_on}
use open_agentic_threat_defe.Go.Exec.Keeps.{Keeps}
use open_agentic_threat_defe.Go.Maps.{lookup, lookup-put}
use open_agentic_threat_defe.Go.Runtime.{Platform}
use open_agentic_threat_defe.Prelude.{
  Bool-cases, List, Option, String, [], ap, inl, inr, nat_eq, none, refl, some, true, ℕ, ◌++◌, ◌+◌,
  ◌==◌, ◌∙◌, ◌∷◌, ◌≡◌, ◌⊎◌,
}
use open_agentic_threat_defe.Server.Actions.{
  add_action, gateway_action_from_decision, id_or_new, keep_action, ok_or_500, prepare_action,
  time_or_now,
}
use open_agentic_threat_defe.Server.Gated.{settle_mcp-held}
use open_agentic_threat_defe.Server.Mcp.{McpCodec, McpRequest, audit_mcp, mcp_action, settle_mcp}
use open_agentic_threat_defe.Server.Stable.{Recordable, record_audit-Keeps, record_audit-answers}
use open_agentic_threat_defe.Server.State.{
  App, Handler, HttpRequest, Reply, Settings, World, clock_now, next_count, next_id, on_store,
  plain, reply_of, tick,
}
use open_agentic_threat_defe.Server.Upstream.{Network}
use open_agentic_threat_defe.Store.Approval.{is_blocked}
use open_agentic_threat_defe.Store.AuditChain.{Secrets, prepare_audit_chain}
use open_agentic_threat_defe.Store.Operations.{add_actions, add_audit}
use open_agentic_threat_defe.Store.Persistence.{commit, commit_plain, enforce_retention, persist}
use open_agentic_threat_defe.Store.State.{Store}
use open_agentic_threat_defe.Store.Tenant.{tenant_or_default}

module _ ⦃p : Platform⦄ where
  add_actions-memory :
      (now : ℕ) (written : Option String) (s : Store) (actions : List ResponseAction)
      → (s.path == "") ≡ true
      → nat_eq s.retention_window 0 ≡ true
      → add_actions now written s actions
        ≡ (record s { actions = s.actions ++ actions; last_err = "" }, none)
  unfolding add_actions commit enforce_retention persist
  add_actions-memory now written s actions path window = rw (window, path) refl

-- A new action that differs from the given one in its tenant, its id and its time at most.
pub record Kept (given kept : ResponseAction) : Type 0 where
  pub kind_kept : kept.action_type ≡ given.action_type
  pub approval_kept : kept.approval_status ≡ given.approval_status
  pub execution_kept : kept.execution_status ≡ given.execution_status
  pub metadata_kept : kept.metadata ≡ given.metadata

-- A method that answers goes on with its answer.
bind_runs :
    {A B : Type 0} (m : Handler A) (f : A → Handler B) (app app' : App) (a : A)
    → m app ≡ (inl a, app')
    → Exec.◌>>=◌ m f app ≡ f a app'
unfolding Exec.◌>>=◌ go_on
bind_runs m f app app' a h = ap (λ (x : (_ ⊎ Reply) × App). go_on x.0 f x.1) h

module _ ⦃p : Platform⦄ (w : World) (set : Settings) where
  id_or_new-lem :
      (prefix id : String) (app : App)
      → (x : String) × (app' : App) × (id_or_new w set prefix id app ≡ (inl x, app'))
        × (app'.store ≡ app.store)
  unfolding next_id tick next_count Exec.◌>>=◌ Exec.pure
  id_or_new-lem prefix id app = elim (Bool-cases (id == "")) [
    | inl e ↦ rw e (_, _, refl, refl)
    | inr e ↦ rw e (_, _, refl, refl)
  ]

  time_or_now-lem :
      (at : ℕ) (app : App)
      → (x : ℕ) × (app' : App) × (time_or_now w set at app ≡ (inl x, app'))
        × (app'.store ≡ app.store)
  unfolding clock_now tick Exec.◌>>=◌ Exec.pure
  time_or_now-lem at app = elim (Bool-cases (nat_eq at 0)) [
    | inl e ↦ rw e (_, _, refl, refl)
    | inr e ↦ rw e (_, _, refl, refl)
  ]

  prepare_action-lem :
      (action : ResponseAction) (tenant : String) (app : App)
      → (kept : ResponseAction) × (app' : App) × (prepare_action w set action tenant app
          ≡ (inl kept, app'))
        × (app'.store ≡ app.store)
        × Kept action kept
  unfolding prepare_action Exec.pure
  prepare_action-lem action tenant app =
      let (id, app1, ran1, same1) = id_or_new-lem "act" action.id app in
      let (at, app2, ran2, same2) = time_or_now-lem action.created_at app1 in
      (
        record action { tenant = tenant_or_default tenant; id = id; created_at = at },
        app2,
        bind_runs (id_or_new w set "act" action.id) _ app app1 id ran1
            ∙ bind_runs (time_or_now w set action.created_at) _ app1 app2 at ran2,
        same2 ∙ same1,
        record {
          kind_kept = refl;
          approval_kept = refl;
          execution_kept = refl;
          metadata_kept = refl;
        },
      )

  -- The application after an action was added.
  abbrev added_to : App → ResponseAction → App
  added_to app kept = record app {
    store = record app.store { actions = app.store.actions ++ kept ∷ []; last_err = "" };
    ticks = app.ticks + 1;
  }

  add_action-memory :
      (kept : ResponseAction) (app : App)
      → (app.store.path == "") ≡ true
      → nat_eq app.store.retention_window 0 ≡ true
      → add_action w set kept app ≡ (inl tt, added_to app kept)
  unfolding add_action ok_or_500 on_store Exec.◌>>=◌ Exec.pure go_on
  add_action-memory kept app path window =
      rw
        (add_actions-memory (w.clock app.ticks) (w.written app.ticks) app.store (kept ∷ []) path
          window)
        refl

  -- In memory and without a retention window, an action is kept: it is stored behind the others.
  keep_action-lem :
      (action : ResponseAction) (tenant : String) (app : App)
      → (app.store.path == "") ≡ true
      → nat_eq app.store.retention_window 0 ≡ true
      → (kept : ResponseAction) × (app' : App) × (keep_action w set action tenant app
          ≡ (inl kept, app'))
        × (app'.store.actions ≡ app.store.actions ++ kept ∷ [])
        × (nat_eq app'.store.retention_window 0 ≡ true)
        × Kept action kept
  unfolding keep_action Exec.pure
  keep_action-lem action tenant app path window =
      let (kept, app1, prepared, same, k) = prepare_action-lem action tenant app in
      let path1 : (app1.store.path == "") ≡ true = ap (λ (s : Store). s.path == "") same ∙ path in
      let window1 : nat_eq app1.store.retention_window 0 ≡ true =
        ap (λ (s : Store). nat_eq s.retention_window 0) same ∙ window in
      (
        kept,
        added_to app1 kept,
        bind_runs (prepare_action w set action tenant) _ app app1 kept prepared
            ∙ bind_runs (add_action w set kept) _ app1 (added_to app1 kept) tt
                (add_action-memory kept app1 path1 window1),
        ap (λ (s : Store). s.actions ++ kept ∷ []) same,
        window1,
        k,
      )

module _ ⦃p : Platform⦄ where
  add_audit-actions :
      (env : Secrets) (now : ℕ) (written : Option String) (s : Store) (event : AuditEvent)
      → nat_eq s.retention_window 0 ≡ true
      → ((add_audit env now written s event).0.actions ≡ s.actions)
        × (nat_eq (add_audit env now written s event).0.retention_window 0 ≡ true)
  unfolding add_audit prepare_audit_chain
  add_audit-actions env now written s event window =
      let (s1, a) = prepare_audit_chain env s event in
      let (err, e) = commit_plain now written (record s1 { audits = s.audits ++ a ∷ [] }) window in
      (ap (λ (x : Store). x.actions) e, ap (λ (x : Store). nat_eq x.retention_window 0) e ∙ window)

-- The store holds these actions, and keeps them whatever their age.
abbrev ActionsAre : List ResponseAction → App → Type 0
ActionsAre actions app =
    (app.store.actions ≡ actions) × (nat_eq app.store.retention_window 0 ≡ true)

module _ ⦃p : Platform⦄ (w : World) (set : Settings) where
  ActionsAre-Recordable : (actions : List ResponseAction) → Recordable w set (ActionsAre actions)
  unfolding on_store
  ActionsAre-Recordable actions = record {
    on_tick = λ app h. h;
    on_count = λ app h. h;
    on_audit = λ event. record {
      at = λ app h.
          let (same, window) =
            add_audit-actions set.secrets (w.clock app.ticks) (w.written app.ticks) app.store event
              h.1 in
          (same ∙ h.0, window);
    };
  }

  -- A call whose action is kept in memory and that is then recorded: the action is the last one.
  keep_action-recorded :
      {B : Type 0} (given : ResponseAction) (tenant : String) (app : App)
      (audit : ResponseAction → Handler (Unit {0})) (f : ResponseAction → B)
      → (app.store.path == "") ≡ true
      → nat_eq app.store.retention_window 0 ≡ true
      → ((kept : ResponseAction)
          → (actions : List ResponseAction) → Keeps (ActionsAre actions) (audit kept))
      → ((kept : ResponseAction) (x : App) → audit kept x ≡ (inl tt, (audit kept x).1))
      → (kept : ResponseAction) × (app' : App) × (Exec.◌>>=◌
            (keep_action w set given tenant)
            (λ k. Exec.◌>>=◌ (audit k) (λ u. Exec.pure (f k)))
            app
          ≡ (inl (f kept), app'))
        × (app'.store.actions ≡ app.store.actions ++ kept ∷ [])
        × Kept given kept
  unfolding Exec.pure
  keep_action-recorded given tenant app audit f path window keeps answers =
      let (kept, app1, ran, stored, window1, k) =
        keep_action-lem w set given tenant app path window in
      (
        kept,
        (audit kept app1).1,
        bind_runs (keep_action w set given tenant) _ app app1 kept ran
            ∙ bind_runs (audit kept) _ app1 (audit kept app1).1 tt (answers kept app1),
        ((keeps kept (app.store.actions ++ kept ∷ [])).at app1 (stored, window1)).0,
        k,
      )

module _ ⦃p : Platform⦄ (w : World) (net : Network) (set : Settings) (codec : McpCodec)
    (r : HttpRequest) (raw : String) (rpc : McpRequest) (call : ToolCallRequest)
    (d : ToolCallDecision) (tenant : String) (app : App) where
  abbrev pub refused_call : (Reply ⊎ Reply) × App
  refused_call = settle_mcp w net set codec deny r raw rpc call d tenant app

  -- The action that is kept of the call.
  abbrev blocked_action : ResponseAction
  blocked_action = mcp_action w net set codec raw rpc call d tenant "not_required" "blocked"

  abbrev refusal : ResponseAction → Reply
  refusal kept = record (plain 403) {
    error = "blocked by policy";
    decision = some (record d { action = some kept });
    action = some kept;
  }

  -- A call to the MCP proxy that is denied is answered with 403, and it leaves exactly one new action
  -- in the store, the last one: a blocked one, which waits for no approval and is one of those that
  -- ApproveAction refuses. The call does not reach the upstream server. (The store is in memory and
  -- has no retention window.)
  pub denied_call_blocked :
      (app.store.path == "") ≡ true
      → nat_eq app.store.retention_window 0 ≡ true
      → ((reply_of refused_call.0).status ≡ 403)
        × (refused_call.1.sent ≡ app.sent)
        × ((kept : ResponseAction) × (refused_call.1.store.actions ≡ app.store.actions ++ kept ∷ [])
            × (is_blocked kept ≡ true)
            × (kept.approval_status ≡ "not_required")
            × (lookup "mcp_raw_request" kept.metadata ≡ some (p.to_base64_raw_url raw)))
  unfolding settle_mcp gateway_action_from_decision
  denied_call_blocked path window =
      let (kept, app', ran, stored, k) =
        keep_action-recorded w set blocked_action tenant app
          (λ x. audit_mcp w net set codec r rpc d "blocked" x.id []) refusal path window
          (λ x actions.
            record_audit-Keeps w set (ActionsAre-Recordable w set actions) r r.principal "mcp.proxy"
              "tool_call" d.request_id "blocked" _)
          (λ x y.
            record_audit-answers w set r r.principal "mcp.proxy" "tool_call" d.request_id "blocked"
              _ y) in
      (
        ap (λ (x : (Reply ⊎ Reply) × App). (reply_of x.0).status) ran,
        (settle_mcp-held w net set codec r deny raw rpc call d tenant app.sent (inl refl)).at app
            refl,
        (
          kept,
          ap (λ (x : (Reply ⊎ Reply) × App). x.1.store.actions) ran ∙ stored,
          rw (k.kind_kept, k.execution_kept) refl,
          k.approval_kept,
          ap (lookup "mcp_raw_request") k.metadata_kept
              ∙ lookup-put "mcp_raw_request" "mcp_raw_request" (p.to_base64_raw_url raw) _,
        ),
      )
