-- ===== src/Policy/History.antt =====
-- gateway_history.go: what the gateway remembers of the calls of a session, run or actor.
pub mod Bounds
pub mod Eviction
use Prim.Native.String.{◌++◌ as cat}
use open_agentic_threat_defe.Domain.{
  GatewayVerdict, ToolCallRequest, allow, deny, require_approval, unset,
}
use open_agentic_threat_defe.Go.Maps.{Dict, delete, has_key, keys, lookup, put}
use open_agentic_threat_defe.Go.Runtime.{Platform}
use open_agentic_threat_defe.Go.Strings.{itoa, join_with, lower, trim_space}
use open_agentic_threat_defe.Policy.Engine.{Engine, HistoryState}
use open_agentic_threat_defe.Prelude.{
  Bool, List, Option, String, [], drop, get_or, if◌then◌else◌, leb, length, ltb, nat_eq, none, not,
  some, sort, take, ℕ, ◌&&◌, ◌++◌, ◌+◌, ◌-◌, ◌==◌, ◌∷◌,
}

-- The package variables `maxGatewayHistoryEntries` and `gatewayHistoryEvictBatch`.
pub record HistoryLimits : Type 0 where
  pub max_entries : ℕ
  pub evict_batch : ℕ

abbrev pub default_limits : HistoryLimits
default_limits = record { max_entries = 50000; evict_batch = 5000 }

pub record HistorySnapshot : Type 0 where
  pub key : String
  pub state : HistoryState

abbrev pub empty_state : HistoryState
empty_state = record {
  calls = 0;
  allow_count = 0;
  approval_count = 0;
  deny_count = 0;
  risk_score_max = 0;
  last_seen = 0;
  last_tool = "";
  last_verdict = unset;
  recent_factors = [];
}

unfoldable pub verdict_text : GatewayVerdict → String
verdict_text allow = "allow"
verdict_text deny = "deny"
verdict_text require_approval = "require_approval"
verdict_text unset = ""

-- delete for each key in turn
unfoldable pub delete_all {ℓ} : {V : Type ℓ} → List String → Dict V → Dict V
delete_all [] m = m
delete_all (k ∷ ks) m = delete_all ks (delete k m)

abbrev pub by_last_seen : String × HistoryState → String × HistoryState → Bool
by_last_seen a b = ltb a.1.last_seen b.1.last_seen

-- evictOldestHistoryLocked: the n entries that were seen least recently go. The order of the map
-- decides between entries of the same time.
unfoldable pub evict_oldest : ℕ → Dict HistoryState → Dict HistoryState
evict_oldest n history = delete_all (keys (take n (sort by_last_seen history))) history

-- The entries before a new key is put in: the oldest go if the map is full.
unfoldable pub make_room : HistoryLimits → String → Dict HistoryState → Dict HistoryState
make_room limits key history =
    if has_key key history
    then history
    else if ltb 0 limits.max_entries && leb limits.max_entries (length history)
    then evict_oldest limits.evict_batch history
    else history

part_if : Bool → String → List String
part_if c part = if c then part ∷ [] else []

module _ ⦃p : Platform⦄ where
  -- The loop over the metadata keys of `gatewayHistoryKey`.
  metadata_key : Dict String → List String → Option String
  metadata_key metadata [] = none
  metadata_key metadata (key ∷ keys) =
      let value = trim_space (get_or (lookup key metadata) "") in
      let rest = metadata_key metadata keys in
      if value == "" then rest else some (cat key (cat ":" (lower value)))

  -- The key of a request that no metadata key identifies.
  actor_key : ToolCallRequest → String
  actor_key r =
      if trim_space r.actor == ""
      then (if trim_space r.asset_id == ""
          then "global"
          else cat "asset:" (lower (trim_space r.asset_id)))
      else cat "actor:" (lower (trim_space r.actor))

  unfoldable pub gateway_history_key : ToolCallRequest → String
  unfolding metadata_key actor_key
  gateway_history_key r =
      get_or
        (metadata_key r.metadata
          ("session_id" ∷ "conversation_id" ∷ "run_id" ∷ "agent_id" ∷ "trace_id" ∷ []))
        (actor_key r)

  unfoldable pub gateway_history_snapshot : Engine → ToolCallRequest → HistorySnapshot
  gateway_history_snapshot e r =
      let key = gateway_history_key r in
      record { key = key; state = get_or (lookup key e.history) empty_state }

  -- The loop of `appendHistoryValues`.
  append_values : List String → List String → List String
  append_values existing [] = existing
  append_values existing (value0 ∷ incoming) =
      let value = trim_space value0 in
      append_values (if value == "" then existing else existing ++ value ∷ []) incoming

  -- The last `limit` values stay; a limit of 0 keeps all.
  unfoldable pub append_history_values : List String → List String → ℕ → List String
  unfolding append_values
  append_history_values existing incoming limit =
      let all_values = append_values existing incoming in
      if ltb 0 limit && ltb limit (length all_values)
      then drop (length all_values - limit) all_values
      else all_values

  -- The updates of one entry by `recordGatewayHistory`.
  unfoldable pub update_state :
      HistoryState → GatewayVerdict → ℕ → List String → String → ℕ → HistoryState
  update_state s verdict risk_score factors tool now = record {
    calls = s.calls + 1;
    allow_count = elim verdict [ allow ↦ s.allow_count + 1 | _ ↦ s.allow_count ];
    approval_count = elim verdict [
      | require_approval ↦ s.approval_count + 1
      | _ ↦ s.approval_count
    ];
    deny_count = elim verdict [ deny ↦ s.deny_count + 1 | _ ↦ s.deny_count ];
    risk_score_max = if ltb s.risk_score_max risk_score then risk_score else s.risk_score_max;
    last_seen = now;
    last_tool = tool;
    last_verdict = verdict;
    recent_factors = append_history_values s.recent_factors factors 8;
  }

  unfoldable pub record_gateway_history :
      HistoryLimits
      → Engine
      → ToolCallRequest
      → GatewayVerdict
      → ℕ
      → List String
      → String
      → ℕ
      → Engine × HistorySnapshot
  record_gateway_history limits e r verdict risk_score factors tool now =
      let key = gateway_history_key r in
      let before = get_or (lookup key e.history) empty_state in
      let state = update_state before verdict risk_score factors tool now in
      (
        record e { history = put key state (make_room limits key e.history) },
        record { key = key; state = state },
      )

  unfoldable pub context_string : HistorySnapshot → String
  unfolding part_if
  context_string h = join_with ";" (
      cat "calls=" (itoa h.state.calls)
      ∷ cat "allow=" (itoa h.state.allow_count)
      ∷ cat "approval=" (itoa h.state.approval_count)
      ∷ cat "deny=" (itoa h.state.deny_count)
      ∷ cat "max_risk=" (itoa h.state.risk_score_max)
      ∷ (part_if (not (h.state.last_tool == "")) (cat "last_tool=" h.state.last_tool)
          ++ (part_if (not (verdict_text h.state.last_verdict == ""))
                (cat "last_verdict=" (verdict_text h.state.last_verdict))
              ++ part_if (not (nat_eq h.state.last_seen 0))
                  (cat "last_seen=" (p.rfc3339 h.state.last_seen)))))
