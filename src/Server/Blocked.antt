-- ===== src/Server/Blocked.antt =====
-- What an approval does with blocked actions and with those of another tenant.

use open_agentic_threat_defe.Go.Exec
use open_agentic_threat_defe.Domain.{ResponseAction}
use open_agentic_threat_defe.Go.Exec.{Exec, or_stop}
use open_agentic_threat_defe.Go.Runtime.{Platform}
use open_agentic_threat_defe.Go.Strings.{contains}
use open_agentic_threat_defe.Prelude.{
  Option, String, ap, false, inl, inr, none, refl, some, subst, sym, true, ℕ, ◌+◌, ◌==◌, ◌∙◌, ◌≡◌,
  ◌⊎◌,
}
use open_agentic_threat_defe.Server.Approval.{
  ApprovalRequest, approve_decoded, approve_named, approved_or_reply, finish_approval,
  handle_response_approval, named_approval,
}
use open_agentic_threat_defe.Server.Limiter.{has_room, slot_taken, with_slot-room}
use open_agentic_threat_defe.Server.State.{
  App, HttpRequest, Reply, Settings, World, clock_now, on_store, put_back, release, reply_of, tick,
  with_slot, write_error,
}
use open_agentic_threat_defe.Server.Tenancy.{tenant_for_principal}
use open_agentic_threat_defe.Server.Upstream.{Network}
use open_agentic_threat_defe.Store.Approval.{
  approve_action-answer, approve_action-refuses, is_blocked,
}
use open_agentic_threat_defe.Store.Grants.{approve_action-grants, granted}
use open_agentic_threat_defe.Store.Operations.{approve_action, get_action}
use open_agentic_threat_defe.Store.State.{Store}
use open_agentic_threat_defe.Store.Tenant.{same_tenant}

-- The text of the error for a blocked action.
abbrev pub blocked_error : String
blocked_error = "blocked gateway actions cannot be approved"

module _ ⦃p : Platform⦄ (w : World) (net : Network) (set : Settings) where
  approve_named-refuses :
      (r : HttpRequest) (req : ApprovalRequest) (app : App) (a : ResponseAction)
      → get_action app.store req.action_id ≡ some a
      → is_blocked a ≡ true
      → approve_named w net set r req app
        ≡ (inr (write_error 409 blocked_error), record app { ticks = app.ticks + 1 + 1 })
  unfolding approve_named clock_now tick on_store or_stop approved_or_reply contains Exec.◌>>=◌
      write_error Exec.pure
  approve_named-refuses r req app a h b =
      rw
        (approve_action-refuses (w.written (app.ticks + 1)) app.store req.action_id req.approved_by
          (w.clock app.ticks) a h b)
        refl

  approve_decoded-refuses :
      (r : HttpRequest) (req : ApprovalRequest) (app : App) (a : ResponseAction)
      → (req.action_id == "") ≡ false
      → get_action app.store req.action_id ≡ some a
      → is_blocked a ≡ true
      → approve_decoded w net set r (inl req) app
        ≡ (inr (write_error 409 blocked_error), record app { ticks = app.ticks + 1 + 1 })
  unfolding approve_decoded named_approval or_stop Exec.◌>>=◌
  approve_decoded-refuses r req app a name h b = rw name (approve_named-refuses r _ app a h b)

slot_taken-store : (o : Option ℕ) (app : App) → (slot_taken o app).store ≡ app.store
slot_taken-store none app = refl
slot_taken-store (some limit) app = refl

slot_taken-sent :
    (o : Option ℕ) (app : App)
    → ((slot_taken o app).sent ≡ app.sent) × ((slot_taken o app).dispatched ≡ app.dispatched)
slot_taken-sent none app = (refl, refl)
slot_taken-sent (some limit) app = (refl, refl)

-- What a release leaves as it is.
release-keeps :
    (o : Option ℕ) (app : App)
    → ((put_back o app).store ≡ app.store)
      × ((put_back o app).sent ≡ app.sent)
      × ((put_back o app).dispatched ≡ app.dispatched)
unfolding put_back
release-keeps none app = (refl, refl, refl)
release-keeps (some limit) app = (refl, refl, refl)

module _ ⦃p : Platform⦄ (w : World) (net : Network) (set : Settings) (r : HttpRequest)
    (req : ApprovalRequest) (app : App) where
  abbrev pub approval : (Reply ⊎ Reply) × App
  approval = handle_response_approval w net set r (inl req) app

  approval-post :
      (r.method == "POST") ≡ true → approval ≡ with_slot (approve_decoded w net set r (inl req)) app
  unfolding handle_response_approval
  approval-post post = rw post refl

  -- Approving an action whose type is gateway_tool_call or mcp_proxy and whose execution status is
  -- "blocked" is answered with 409. Neither the store nor what was sent to upstream servers or handed
  -- to connectors changes. (The request is a POST that names the action, and the limiter has room for
  -- it. Blocked actions of the HTTP proxy have another type, gateway_proxy, and are not among these.)
  pub blocked_never_executed :
      (a : ResponseAction)
      → (r.method == "POST") ≡ true
      → (req.action_id == "") ≡ false
      → has_room app ≡ true
      → get_action app.store req.action_id ≡ some a
      → is_blocked a ≡ true
      → (reply_of approval.0 ≡ write_error 409 blocked_error)
        × (approval.1.store ≡ app.store)
        × (approval.1.sent ≡ app.sent)
        × (approval.1.dispatched ≡ app.dispatched)
  unfolding release
  blocked_never_executed a post name room h b =
      let held = slot_taken app.gateway_limit app in
      let same = slot_taken-store app.gateway_limit app in
      let quiet = slot_taken-sent app.gateway_limit app in
      let refused =
        approve_decoded-refuses w net set r req held a name
          (ap (λ s. get_action s req.action_id) same ∙ h) b in
      let run =
        approval-post post
        ∙ with_slot-room (approve_decoded w net set r (inl req)) app room
        ∙ ap (λ (x : (Reply ⊎ Reply) × App). (x.0, release x.1)) refused in
      let after = release-keeps held.gateway_limit (record held { ticks = held.ticks + 1 + 1 }) in
      subst
        (λ (x : (Reply ⊎ Reply) × App).
          (reply_of x.0 ≡ write_error 409 blocked_error)
          × (x.1.store ≡ app.store)
          × (x.1.sent ≡ app.sent)
          × (x.1.dispatched ≡ app.dispatched))
        (sym run) (refl, after.0 ∙ same, after.1 ∙ quiet.0, after.2 ∙ quiet.1)

module _ ⦃p : Platform⦄ (w : World) (net : Network) (set : Settings) (r : HttpRequest)
    (req : ApprovalRequest) (app : App) where
  -- The action with the approval that the handler writes, under the name that the body gives.
  abbrev pub granted_here : ResponseAction → ResponseAction
  granted_here a = granted a req.approved_by (w.clock app.ticks)

  -- ApproveAction, as the handler calls it on the shared store.
  abbrev approved_in_store : Store × Option (ResponseAction ⊎ String)
  approved_in_store =
      approve_action (w.written (app.ticks + 1)) app.store req.action_id req.approved_by
        (w.clock app.ticks)

  pub granted_in_store :
      (a : ResponseAction)
      → get_action app.store req.action_id ≡ some a
      → is_blocked a ≡ false
      → w.written (app.ticks + 1) ≡ none
      → approved_in_store.1 ≡ some (inl (granted_here a))
  granted_in_store a h b written =
      rw written
        (approve_action-grants app.store req.action_id req.approved_by (w.clock app.ticks) a h b)

  -- The approval of a stored action that belongs to another tenant than the caller's is answered with
  -- 404, as if there were no such action, and nothing is sent or handed to a connector. But the store
  -- then has the action as approved, under the name that the request's body gives. (The action is not
  -- a blocked one of type gateway_tool_call or mcp_proxy, the request was decoded and names it, and
  -- writing the snapshot does not fail.)
  pub foreign_approval :
      (a : ResponseAction)
      → get_action app.store req.action_id ≡ some a
      → is_blocked a ≡ false
      → w.written (app.ticks + 1) ≡ none
      → same_tenant a.tenant (tenant_for_principal r.principal) ≡ false
      → (reply_of (approve_named w net set r req app).0 ≡ write_error 404 "action not found")
        × ((approve_named w net set r req app).1.sent ≡ app.sent)
        × ((approve_named w net set r req app).1.dispatched ≡ app.dispatched)
        × (get_action (approve_named w net set r req app).1.store req.action_id
            ≡ some (granted_here a))
  unfolding approve_named clock_now tick on_store or_stop approved_or_reply Exec.◌>>=◌ Exec.pure
      finish_approval Exec.stop
  foreign_approval a h b written foreign =
      let grant = granted_in_store a h b written in
      let (found, status, by, time, rest) =
        approve_action-answer (w.written (app.ticks + 1)) app.store req.action_id req.approved_by
          (w.clock app.ticks) (granted_here a) grant in
      rw (grant, foreign) (refl, refl, refl, found)
