-- ===== src/Policy/History/Bounds.antt =====
-- Bounds of the gateway's call history.
-- The counters of an entry agree, and its bounded fields are within their bounds.
use open_agentic_threat_defe.Domain.{GatewayVerdict, ToolCallRequest, unset}
use open_agentic_threat_defe.Go.Maps.{
  All-delete, All-lookup, All-put, Dict, delete, delete-lt, has_key, keys, keys_present,
  length-delete, length-put, lookup,
}
use open_agentic_threat_defe.Go.Runtime.{Platform}
use open_agentic_threat_defe.Policy.Engine.{Engine, HistoryState}
use open_agentic_threat_defe.Policy.History.{
  HistoryLimits, append_history_values, append_values, by_last_seen, delete_all, empty_state,
  evict_oldest, gateway_history_key, make_room, record_gateway_history, update_state,
}
use open_agentic_threat_defe.Prelude.{
  All, All-sort, Bool-cases, List, Option-cases, String, [], arith, get_or, inl, inr, leb, length,
  length-drop, length-sort, ltb, sort, suc, take, true, zero, ℕ, ◌&&◌, ◌+◌, ◌-◌, ◌<◌, ◌∷◌, ◌≡◌, ◌≢◌,
  ◌≤◌, ◌⊎◌,
}

pub record IsCounted (s : HistoryState) : Type 0 where
  pub counted : s.calls ≡ s.allow_count + s.approval_count + s.deny_count
  pub factors_bounded : length s.recent_factors ≤ 8
  pub risk_bounded : s.risk_score_max ≤ 100

pub record IsBounded (limits : HistoryLimits) (history : Dict HistoryState) : Type 0 where
  pub entries : All (λ (x : String × HistoryState). IsCounted x.1) history
  pub size : length history ≤ limits.max_entries

module _ ⦃p : Platform⦄ where
  length-append_history_values :
      (existing incoming : List String) → length (append_history_values existing incoming 8) ≤ 8
  unfolding append_history_values
  length-append_history_values existing incoming =
      let all_values = append_values existing incoming in
      ground (arith, length-drop (length all_values - 8) all_values)

  update_state-IsCounted :
      (s : HistoryState) (verdict : GatewayVerdict) (score : ℕ) (factors : List String)
      (tool : String) (now : ℕ)
      → IsCounted s
      → verdict ≢ unset
      → score ≤ 100
      → IsCounted (update_state s verdict score factors tool now)
  unfolding update_state
  update_state-IsCounted s verdict score factors tool now c n b =
      ground (arith, length-append_history_values s.recent_factors factors)

empty_state-IsCounted : IsCounted empty_state
empty_state-IsCounted = omega arith

pub delete_all-All {κ} :
    (P : String × HistoryState → Type κ) (ks : List String) (m : Dict HistoryState)
    → All P m
    → All P (delete_all ks m)
unfolding delete_all
delete_all-All P [] m a = a
delete_all-All P (k ∷ ks) m a = delete_all-All P ks (delete k m) (All-delete P k m a)

length-delete_all : (ks : List String) (m : Dict HistoryState) → length (delete_all ks m) ≤ length m
unfolding delete_all
length-delete_all [] m = omega arith
length-delete_all (k ∷ ks) m = omega (arith, length-delete_all ks (delete k m), length-delete k m)

-- An eviction from a map that is not empty makes it smaller.
pub evict_oldest-lt :
    (n : ℕ) (m : Dict HistoryState)
    → 0 < n
    → 0 < length m
    → suc (length (evict_oldest n m)) ≤ length m
unfolding evict_oldest delete_all
evict_oldest-lt zero m h k = absurd (omega arith)
evict_oldest-lt (suc n) m h k =
    go (sort by_last_seen m) (length-sort by_last_seen m) (
      All-sort (λ (x : String × HistoryState). has_key x.0 m ≡ true) by_last_seen m
        (keys_present m))
  where
    go :
        (xs : Dict HistoryState)
        → length xs ≡ length m
        → All (λ (x : String × HistoryState). has_key x.0 m ≡ true) xs
        → suc (length (delete_all (keys (take (suc n) xs)) m)) ≤ length m
    go [] e a = absurd (omega arith)
    go (x ∷ xs) e a =
        omega (arith, length-delete_all (keys (take n xs)) (delete x.0 m), delete-lt x.0 m a.0)

make_room-le :
    (limits : HistoryLimits) (key : String) (history : Dict HistoryState)
    → 0 < limits.max_entries
    → 0 < limits.evict_batch
    → length history ≤ limits.max_entries
    → (has_key key (make_room limits key history) ≡ true
        × (length (make_room limits key history) ≤ limits.max_entries))
      ⊎ (suc (length (make_room limits key history)) ≤ limits.max_entries)
unfolding make_room
make_room-le limits key history a b c = ground (arith, evict_oldest-lt limits.evict_batch history)

make_room-All {κ} :
    (P : String × HistoryState → Type κ) (limits : HistoryLimits) (key : String)
    (history : Dict HistoryState)
    → All P history
    → All P (make_room limits key history)
unfolding make_room evict_oldest
make_room-All P limits key history a = elim (Bool-cases (has_key key history)) [
  | inl e ↦ rw e a
  | inr e ↦
      elim (Bool-cases (ltb 0 limits.max_entries && leb limits.max_entries (length history))) [
        | inl f ↦ rw (e, f) (delete_all-All P _ history a)
        | inr f ↦ rw (e, f) a
      ]
]

module _ ⦃p : Platform⦄ (limits : HistoryLimits) (e : Engine) (r : ToolCallRequest) where
  -- Recording a call keeps the history bounded: never more keys than the limit, at most eight
  -- recent factors and a risk of at most 100 for each, and counters of verdicts that add up to the
  -- number of calls.
  pub record_gateway_history-IsBounded :
      (verdict : GatewayVerdict) (score : ℕ) (factors : List String) (tool : String) (now : ℕ)
      → 0 < limits.max_entries
      → 0 < limits.evict_batch
      → verdict ≢ unset
      → score ≤ 100
      → IsBounded limits e.history
      → IsBounded limits
          (record_gateway_history limits e r verdict score factors tool now).0.history
  unfolding record_gateway_history
  record_gateway_history-IsBounded verdict score factors tool now a b n c h =
      let key = gateway_history_key r in
      let before = get_or (lookup key e.history) empty_state in
      let before_counted : IsCounted before = elim (Option-cases (lookup key e.history)) [
        | inl miss ↦ rw miss empty_state-IsCounted
        | inr (s, hit) ↦ rw hit (All-lookup IsCounted key e.history s h.entries hit)
      ] in
      let state = update_state before verdict score factors tool now in
      record {
        entries =
            All-put (λ (x : String × HistoryState). IsCounted x.1) key state _
              (update_state-IsCounted before verdict score factors tool now before_counted n c)
              (make_room-All (λ (x : String × HistoryState). IsCounted x.1) limits key e.history
                h.entries);
        size = ground (
          arith,
          make_room-le limits key e.history a b h.size,
          length-put key state (make_room limits key e.history),
        );
      }
