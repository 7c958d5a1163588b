-- ===== src/Store/State.antt =====
-- The state of a store (store.go), without a database: a store of mode "memory" or "file".
use open_agentic_threat_defe.Domain.{Alert, Asset, AuditEvent, Event, ResponseAction}
use open_agentic_threat_defe.Go.Maps.{Dict}
use open_agentic_threat_defe.Go.Runtime.{Platform}
use open_agentic_threat_defe.Go.Strings.{trim_space}
use open_agentic_threat_defe.Prelude.{
  Bool, List, String, [], arith, length, not, refl, suc, true, ℕ, ◌++◌, ◌+◌, ◌==◌, ◌∷◌, ◌≡◌,
}

-- A time.Duration, which may be negative.
pub data ℤ : Type 0 where
  pos : ℕ → ℤ
  negsuc : ℕ → ℤ

pub record Store : Type 0 where
  pub mode : String
  pub events : List Event
  pub alerts : List Alert
  pub actions : List ResponseAction
  pub audits : List AuditEvent
  pub audit_chain_head : String
  pub audit_chain_valid : Bool
  pub audit_chain_anchor : String
  pub assets : Dict Asset
  -- a set: the order and repetitions do not matter
  pub fingerprints : List String
  pub path : String
  pub last_err : String
  pub schema_version : ℕ
  pub retention_window : ℕ

-- New
abbrev pub new_store : Store
new_store = record {
  mode = "memory";
  events = [];
  alerts = [];
  actions = [];
  audits = [];
  audit_chain_head = "";
  audit_chain_valid = true;
  audit_chain_anchor = "";
  assets = [];
  fingerprints = [];
  path = "";
  last_err = "";
  schema_version = 0;
  retention_window = 0;
}

-- An audit record is linked when it carries a hash that is not blank.
abbrev pub is_linked : ⦃p : Platform⦄ → AuditEvent → Bool
is_linked audit = not (trim_space audit.hash == "")

-- The hash of the last record, or the text that was there before the first.
abbrev pub head_after : String → List AuditEvent → String
head_after previous [] = previous
head_after previous (a ∷ audits) = head_after a.hash audits

-- Chain indices that count from `n` on.
abbrev pub Numbered : ℕ → List AuditEvent → Type 0
Numbered n [] = Unit
Numbered n (a ∷ audits) = (a.chain_index ≡ n) × Numbered (suc n) audits

pub head_after_push :
    (previous : String) (audits : List AuditEvent) (a : AuditEvent)
    → head_after previous (audits ++ a ∷ []) ≡ a.hash
head_after_push previous [] a = refl
head_after_push previous (b ∷ audits) a = head_after_push b.hash audits a

pub Numbered-push :
    (n : ℕ) (audits : List AuditEvent) (a : AuditEvent)
    → Numbered n audits
    → a.chain_index ≡ n + length audits
    → Numbered n (audits ++ a ∷ [])
Numbered-push n [] a h k = (omega arith, tt)
Numbered-push n (b ∷ audits) a h k = (h.0, Numbered-push (suc n) audits a h.1 (omega arith))
