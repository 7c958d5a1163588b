-- ===== src/Response/Plans.antt =====
-- What a plan holds.
use open_agentic_threat_defe.Domain.{Alert, ResponseAction, high, rank}
use open_agentic_threat_defe.Go.Strings.{contains}
use open_agentic_threat_defe.Prelude.{
  All, All-append, Bool, List, String, [], ap, false, if◌then◌else◌, leb, refl, true, ◌++◌, ◌==◌,
  ◌∷◌, ◌≡◌,
}
use open_agentic_threat_defe.Response.Planner.{append_if, concerns_egress, concerns_secrets, plan}

-- The shape that every step of the plan keeps: a ticket that needs no approval, then actions that do.
abbrev IsPlan : String → List ResponseAction → Type 0
IsPlan mode actions =
    (ticket : ResponseAction) × (rest : List ResponseAction) × (actions ≡ ticket ∷ rest)
    × (ticket.action_type ≡ "create_incident_ticket")
    × (ticket.approval_status ≡ "not_required")
    × All (λ (a : ResponseAction). a.approval_status ≡ "required") rest
    × All (λ (a : ResponseAction). a.mode ≡ mode) actions

append_if-IsPlan :
    (mode : String) (c : Bool) (a : ResponseAction) (actions : List ResponseAction)
    → a.approval_status ≡ "required"
    → a.mode ≡ mode
    → IsPlan mode actions
    → IsPlan mode (append_if c a actions)
unfolding append_if
append_if-IsPlan mode false a actions h m s = s
append_if-IsPlan mode true a actions h m (ticket, rest, e, t, n, r, k) = (
  ticket,
  rest ++ a ∷ [],
  ap (λ l. l ++ a ∷ []) e,
  t,
  n,
  All-append _ rest (a ∷ []) r (h, tt),
  All-append _ actions (a ∷ []) k (m, tt),
)

-- A plan opens with an incident ticket, the only action that needs no approval, and all its actions
-- are in the planner's mode, which is "dry-run" where none is configured.
pub plan_approvals :
    (configured : String) (alert : Alert)
    → (ticket : ResponseAction) × (rest : List ResponseAction) × (plan configured alert
        ≡ ticket ∷ rest)
      × (ticket.action_type ≡ "create_incident_ticket")
      × (ticket.approval_status ≡ "not_required")
      × All (λ (a : ResponseAction). a.approval_status ≡ "required") rest
      × All
          (λ (a : ResponseAction). a.mode ≡ (if configured == "" then "dry-run" else configured))
          (plan configured alert)
unfolding plan
plan_approvals configured alert =
    let mode = if configured == "" then "dry-run" else configured in
    append_if-IsPlan mode (concerns_secrets alert) _ _ refl refl (
      append_if-IsPlan mode (contains alert.rule_id "agent.tool") _ _ refl refl (
        append_if-IsPlan mode (concerns_egress alert) _ _ refl refl (
          append_if-IsPlan mode (leb (rank high) (rank alert.severity)) _ _ refl refl
            (_, [], refl, refl, refl, tt, (refl, tt)))))
