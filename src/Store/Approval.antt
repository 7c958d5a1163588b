-- ===== src/Store/Approval.antt =====
-- What approving and executing an action changes.
use mathlib.Core.Option.{some-injective}
use open_agentic_threat_defe.Domain.{ResponseAction}
use open_agentic_threat_defe.Prelude.{
  Bool, Bool-cases, List, Option, Option-cases, String, [], ap, arith, false, filter, find,
  if◌then◌else◌, inl, inr, none, not, refl, result-cases, some, sym, true, ℕ, ◌&&◌, ◌==◌, ◌∙◌, ◌∷◌,
  ◌≡◌, ◌⊎◌,
}
use open_agentic_threat_defe.Store.Operations.{
  approve_action, approving, change_action, change_first, get_action, is_gateway_action,
  write_change,
}
use open_agentic_threat_defe.Store.Persistence.{persist, persist-cases}
use open_agentic_threat_defe.Store.State.{Store}

-- What ApproveAction refuses: a blocked action of type gateway_tool_call or mcp_proxy. A blocked call
-- of the HTTP proxy is of type gateway_proxy, and is not refused.
abbrev pub is_blocked : ResponseAction → Bool
is_blocked a = is_gateway_action a && a.execution_status == "blocked"

change_first-kept :
    (q : ResponseAction → Bool) (f : ResponseAction → ResponseAction ⊎ String) (id : String)
    (actions : List ResponseAction)
    → ((a b : ResponseAction) → a.id == id ≡ true → f a ≡ inl b → (q a ≡ false) × (q b ≡ false))
    → filter q (change_first f id actions).0 ≡ filter q actions
unfolding change_first
change_first-kept q f id [] h = refl
change_first-kept q f id (a ∷ actions) h = elim (Bool-cases (a.id == id)) [
  | inl e ↦ elim (result-cases (f a)) [
    | inl (b, k) ↦ let (x, y) = h a b e k in rw (e, k) (rw (x, y) refl)
    | inr (err, k) ↦ rw (e, k) refl
  ]
  | inr e ↦ rw e (ap (λ r. if q a then a ∷ r else r) (change_first-kept q f id actions h))
]

-- The loop changes only the first action of the id.
change_first-get :
    (f : ResponseAction → ResponseAction ⊎ String) (id : String) (actions : List ResponseAction)
    (b : ResponseAction)
    → ((a c : ResponseAction) → f a ≡ inl c → c.id ≡ a.id)
    → (change_first f id actions).1 ≡ some (inl b)
    → (b.id == id ≡ true)
      × (find (λ a. a.id == id) (change_first f id actions).0 ≡ some b)
      × ((a : ResponseAction) × (find (λ a. a.id == id) actions ≡ some a) × (f a ≡ inl b))
unfolding change_first
change_first-get f id [] b k h = absurd (cc)
change_first-get f id (a ∷ actions) b k h = elim (Bool-cases (a.id == id)) [
  | inl e ↦ elim (result-cases (f a)) [
    | inl (c, g) ↦
        let h' : some (inl c) ≡ some (inl b) = rw (e, g) at h in
        let same : c ≡ b = cc in
        let named : b.id == id ≡ true =
          ground (arith, e, k a c g, ap (λ (u : ResponseAction). u.id) same) in
        rw (e, g)
          (
            named,
            rw (ap (λ (u : ResponseAction). u.id == id) same, named, same) refl,
            (a, refl, g ∙ ap inl same),
          )
    | inr (err, g) ↦ let h' : some (inr err) ≡ some (inl b) = rw (e, g) at h in absurd (cc)
  ]
  | inr e ↦ let (x, y, z) = change_first-get f id actions b k (rw e at h) in rw (e, e) (x, y, z)
]

persist_actions : (written : Option String) (s : Store) → (persist written s).0.actions ≡ s.actions
persist_actions written s = elim (persist-cases written s) [
  | inl e ↦ rw e refl
  | inr (err, e) ↦ rw e refl
]

write_change_actions :
    (written : Option String) (s : Store)
    (c : List ResponseAction × Option (ResponseAction ⊎ String))
    → ((write_change written s c).0.actions ≡ c.0) ⊎ ((write_change written s c).0 ≡ s)
unfolding write_change
write_change_actions written s (actions, none) = inr refl
write_change_actions written s (actions, some (inr err)) = inr refl
write_change_actions written s (actions, some (inl a)) =
    inl (persist_actions written (record s { actions = actions }))

-- An answer that is an action is the one that the loop changed, and the loop's actions are stored.
write_change_answer :
    (written : Option String) (s : Store)
    (c : List ResponseAction × Option (ResponseAction ⊎ String)) (a : ResponseAction)
    → (write_change written s c).1 ≡ some (inl a)
    → (c.1 ≡ some (inl a)) × ((write_change written s c).0.actions ≡ c.0)
unfolding write_change
write_change_answer written s (actions, none) a h = absurd (cc)
write_change_answer written s (actions, some (inr err)) a h = absurd (cc)
write_change_answer written s (actions, some (inl b)) a h =
    elim (Option-cases (persist written (record s { actions = actions })).1) [
      | inl g ↦
          let h' : some (inl b) ≡ some (inl a) = rw g at h in
          (h', persist_actions written (record s { actions = actions }))
      | inr (e, g) ↦ let h' : some (inr e) ≡ some (inl a) = rw g at h in absurd (cc)
    ]

change_action-kept :
    (q : ResponseAction → Bool) (written : Option String) (s : Store)
    (f : ResponseAction → ResponseAction ⊎ String) (id : String)
    → ((a b : ResponseAction) → a.id == id ≡ true → f a ≡ inl b → (q a ≡ false) × (q b ≡ false))
    → filter q (change_action written s f id).0.actions ≡ filter q s.actions
unfolding change_action
change_action-kept q written s f id h =
    elim (write_change_actions written s (change_first f id s.actions)) [
      | inl e ↦ ap (filter q) e ∙ change_first-kept q f id s.actions h
      | inr e ↦ ap (λ (u : Store). filter q u.actions) e
    ]

-- An action that can be approved was not blocked, and only the approval changes.
approving_result :
    (by : String) (at : ℕ) (a b : ResponseAction)
    → approving by at a ≡ inl b
    → (is_blocked a ≡ false)
      × (record a { approval_status = "approved"; approved_by = by; approved_at = some at } ≡ b)
unfolding approving
approving_result by at a b h = elim (Bool-cases (is_blocked a)) [
  | inl e ↦
      let r : ResponseAction ⊎ String = inr "blocked gateway actions cannot be approved" in
      let h' : r ≡ inl b = rw e at h in absurd (cc)
  | inr e ↦
      let c : ResponseAction = record a {
        approval_status = "approved";
        approved_by = by;
        approved_at = some at;
      } in
      let h' : inl c ≡ inl b = rw e at h in (e, cc)
]

approving-id :
    (by : String) (at : ℕ) (a b : ResponseAction) → approving by at a ≡ inl b → b.id ≡ a.id
approving-id by at a b h = ap (λ (u : ResponseAction). u.id) (sym (approving_result by at a b h).1)

module _ (written : Option String) (s : Store) (id by : String) (at : ℕ) where
  abbrev pub approved : Store × Option (ResponseAction ⊎ String)
  approved = approve_action written s id by at

  -- Approving an action changes neither the actions of other ids nor any action whose type is
  -- gateway_tool_call or mcp_proxy and whose execution status is "blocked", under whatever id: these
  -- stay as they were, in their order. (Blocked actions of the HTTP proxy have another type,
  -- gateway_proxy, and are not among them.)
  pub approve_action-keeps_blocked :
      (filter is_blocked approved.0.actions ≡ filter is_blocked s.actions)
      × (filter (λ a. not (a.id == id)) approved.0.actions
          ≡ filter (λ a. not (a.id == id)) s.actions)
  unfolding approve_action approving
  approve_action-keeps_blocked = (
    change_action-kept is_blocked written s (approving by at) id
        (λ a b e h. let r = approving_result by at a b h in (r.0, ap is_blocked (sym r.1) ∙ r.0)),
    change_action-kept (λ a. not (a.id == id)) written s (approving by at) id
        (λ a b e h. (
          ground arith,
          ground (arith, ap (λ (u : ResponseAction). u.id) (approving_result by at a b h).1),
        )),
  )

  -- An approval that is answered with an action is of an action of that id that is not refused as
  -- blocked; the answer is approved in the given name and time, and is what the store then
  -- has under the id.
  pub approve_action-answer :
      (b : ResponseAction)
      → approved.1 ≡ some (inl b)
      → (get_action approved.0 id ≡ some b)
        × (b.approval_status ≡ "approved")
        × (b.approved_by ≡ by)
        × (b.approved_at ≡ some at)
        × ((a : ResponseAction) × (get_action s id ≡ some a)
            × (is_blocked a ≡ false)
            × (b.execution_status ≡ a.execution_status))
  unfolding approve_action approving change_action get_action
  approve_action-answer b h =
      let c = change_first (approving by at) id s.actions in
      let w = write_change_answer written s c b h in
      let (named, found, (a, was, k)) =
        change_first-get (approving by at) id s.actions b (approving-id by at) w.0 in
      let r = approving_result by at a b k in
      (
        ap (find (λ x. x.id == id)) w.1 ∙ found,
        ap (λ (u : ResponseAction). u.approval_status) (sym r.1),
        ap (λ (u : ResponseAction). u.approved_by) (sym r.1),
        ap (λ (u : ResponseAction). u.approved_at) (sym r.1),
        (a, was, r.0, ap (λ (u : ResponseAction). u.execution_status) (sym r.1)),
      )

-- The loop ends at the first action of the id, unchanged, where that action is refused.
change_first-stops :
    (f : ResponseAction → ResponseAction ⊎ String) (id err : String) (actions : List ResponseAction)
    (a : ResponseAction)
    → find (λ x. x.id == id) actions ≡ some a
    → f a ≡ inr err
    → change_first f id actions ≡ (actions, some (inr err))
unfolding change_first
change_first-stops f id err [] a h k = absurd (cc)
change_first-stops f id err (x ∷ actions) a h k = elim (Bool-cases (x.id == id)) [
  | inl e ↦
      let same : x ≡ a = some-injective x a (rw e at h) in
      let refused : f x ≡ inr err = ap f same ∙ k in rw (e, refused) refl
  | inr e ↦ let rest = change_first-stops f id err actions a (rw e at h) k in rw (e, rest) refl
]

-- Approving an action that is refused as blocked is an error, and the store stays as it is.
pub approve_action-refuses :
    (written : Option String) (s : Store) (id by : String) (at : ℕ) (a : ResponseAction)
    → get_action s id ≡ some a
    → is_blocked a ≡ true
    → approve_action written s id by at
      ≡ (s, some (inr "blocked gateway actions cannot be approved"))
unfolding get_action approve_action change_action write_change approving
approve_action-refuses written s id by at a h b =
    rw
      (change_first-stops (approving by at) id "blocked gateway actions cannot be approved"
        s.actions a h (rw b refl))
      refl
