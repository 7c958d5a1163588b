-- ===== src/Store/Persistence.antt =====
-- persistence.go: the snapshot file, loading, restoring and retention. What encoding/json and the
-- file system answer is an argument.
use open_agentic_threat_defe.Domain.{Alert, Asset, AuditEvent, Event, ResponseAction}
use open_agentic_threat_defe.Go.Maps.{Dict}
use open_agentic_threat_defe.Go.Runtime.{Platform}
use open_agentic_threat_defe.Go.Strings.{contains, lower, trim_space}
use open_agentic_threat_defe.Prelude.{
  Bool, Bool-cases, List, Option, String, [], filter, get_or, if◌then◌else◌, inl, inr, length, ltb,
  nat_eq, none, not, refl, some, true, ℕ, ◌&&◌, ◌-◌, ◌==◌, ◌||◌, ◌∷◌, ◌≡◌, ◌⊎◌,
}
use open_agentic_threat_defe.Store.Assets.{rebuild_assets}
use open_agentic_threat_defe.Store.AuditChain.{Secrets, rebuild_audit_chain}
use open_agentic_threat_defe.Store.State.{Store, negsuc, new_store, pos, ℤ}

pub record Snapshot : Type 0 where
  pub version : ℕ
  pub saved_at : ℕ
  pub events : List Event
  pub alerts : List Alert
  pub actions : List ResponseAction
  pub audits : List AuditEvent
  -- `none` where the map is nil
  pub assets : Option (Dict Asset)

-- encoding/json, as it writes and reads snapshots: the text, and the snapshot or the error.
pub record SnapshotCodec : Type 0 where
  pub encode : Snapshot → String
  pub decode : String → Snapshot ⊎ String

-- What os.ReadFile answers: the file is not there, cannot be read, or has this content.
pub data FileRead : Type 0 where
  absent : FileRead
  unreadable content : String → FileRead

abbrev pub snapshot_version : ℕ
snapshot_version = 1

abbrev version_error : String
version_error = "snapshot version is newer than this binary supports"

-- snapshotLocked
unfoldable pub snapshot : Store → ℕ → Snapshot
snapshot s now = record {
  version = snapshot_version;
  saved_at = now;
  events = s.events;
  alerts = s.alerts;
  actions = s.actions;
  audits = s.audits;
  assets = some s.assets;
}

-- persistLocked: `written` is the error of encoding the snapshot or of writing the file, if any.
unfoldable pub persist : Option String → Store → Store × Option String
persist written s =
    let saved = record s { last_err = "" } in
    if s.path == "" || s.mode == "postgres"
    then (saved, none)
    else elim written [ none ↦ (saved, none) | some err ↦ (record s { last_err = err }, some err) ]

pub persist-cases :
    (written : Option String) (s : Store)
    → ((persist written s).0 ≡ record s { last_err = "" })
      ⊎ ((err : String) × ((persist written s).0 ≡ record s { last_err = err }))
unfolding persist
persist-cases none s = elim (Bool-cases (s.path == "" || s.mode == "postgres")) [
  | inl h ↦ inl (rw h refl)
  | inr h ↦ inl (rw h refl)
]
persist-cases (some err) s = elim (Bool-cases (s.path == "" || s.mode == "postgres")) [
  | inl h ↦ inl (rw h refl)
  | inr h ↦ inr (err, rw h refl)
]

-- rebuildFingerprintsLocked
unfoldable pub rebuild_fingerprints : List Alert → List String
rebuild_fingerprints [] = []
rebuild_fingerprints (alert ∷ alerts) =
    let rest = rebuild_fingerprints alerts in
    if alert.fingerprint == "" then rest else alert.fingerprint ∷ rest

-- The four filters filterEventsByCutoff, filterAlertsByCutoff, filterActionsByCutoff and
-- filterAuditsByCutoff: a record without a time stays.
unfoldable pub filter_by_cutoff {ℓ} : {A : Type ℓ} → (A → ℕ) → ℕ → List A → List A
filter_by_cutoff time_of cutoff =
    filter (λ x. not (not (nat_eq (time_of x) 0) && ltb (time_of x) cutoff))

module _ ⦃p : Platform⦄ where
  -- retainedSnapshotLocked, with the assets and fingerprints rebuilt from what is retained
  unfoldable pub retained : Store → ℕ → Store
  retained s cutoff =
      let events = filter_by_cutoff (λ (x : Event). x.timestamp) cutoff s.events in
      let alerts = filter_by_cutoff (λ (x : Alert). x.created_at) cutoff s.alerts in
      record s {
        events = events;
        alerts = alerts;
        actions = filter_by_cutoff (λ (x : ResponseAction). x.created_at) cutoff s.actions;
        audits = filter_by_cutoff (λ (x : AuditEvent). x.timestamp) cutoff s.audits;
        assets = rebuild_assets events alerts;
        fingerprints = rebuild_fingerprints alerts;
      }

  unfoldable pub same_sizes : Store → Store → Bool
  same_sizes r s =
      nat_eq (length r.events) (length s.events)
      && (nat_eq (length r.alerts) (length s.alerts)
          && (nat_eq (length r.actions) (length s.actions)
              && (nat_eq (length r.audits) (length s.audits)
                  && nat_eq (length r.assets) (length s.assets))))

  -- enforceRetentionLocked, which does not fail without a database
  unfoldable pub enforce_retention : ℕ → Store → Store
  enforce_retention now s =
      let r = retained s (now - s.retention_window) in
      if nat_eq s.retention_window 0
      then s
      else if same_sizes r s
      then record s { last_err = "" }
      else record r { last_err = "" }

  -- The common end of the operations that write.
  unfoldable pub commit : ℕ → Option String → Store → Store × Option String
  commit now written s = persist written (enforce_retention now s)

  -- Without a retention window the end of an operation changes the last error only.
  pub commit_plain :
      (now : ℕ) (written : Option String) (s : Store)
      → nat_eq s.retention_window 0 ≡ true
      → (err : String) × ((commit now written s).0 ≡ record s { last_err = err })
  unfolding commit enforce_retention
  commit_plain now written s w = elim (persist-cases written s) [
    | inl e ↦ ("", rw w e)
    | inr (err, e) ↦ (err, rw w e)
  ]

  -- SetRetention
  unfoldable pub set_retention : ℕ → Option String → Store → ℤ → Store × Option String
  set_retention now written s (negsuc n) = (record s { retention_window = 0 }, none)
  set_retention now written s (pos window) =
      let s' = record s { retention_window = window } in
      if nat_eq window 0 then (s', none) else commit now written s'

  assets_of : Snapshot → Dict Asset
  assets_of snap = get_or snap.assets (rebuild_assets snap.events snap.alerts)

  unfoldable pub loaded : String → Snapshot → Store
  unfolding assets_of
  loaded path snap = record new_store {
    path = path;
    mode = "file";
    events = snap.events;
    alerts = snap.alerts;
    actions = snap.actions;
    audits = snap.audits;
    assets = assets_of snap;
    fingerprints = rebuild_fingerprints snap.alerts;
  }

  -- A snapshot that was decoded, unless it is of a version that is not read.
  unfoldable pub load_decoded : Secrets → String → Snapshot ⊎ String → Store ⊎ String
  unfolding loaded
  load_decoded env path (inr err) = inr err
  load_decoded env path (inl snap) =
      if ltb snapshot_version snap.version
      then inr version_error
      else inl (rebuild_audit_chain env (loaded path snap))

  -- NewWithPath: the store, or the error that opening it ends with.
  unfoldable pub load : SnapshotCodec → Secrets → String → FileRead → Store ⊎ String
  unfolding load_decoded
  load codec env path read =
      let empty_store : Store = record new_store { path = path; mode = "file" } in
      if path == "" then inl (record new_store { path = path }) else elim read [
        | absent ↦ inl empty_store
        | unreadable err ↦ inr err
        | content text ↦ load_decoded env path (codec.decode text)
      ]

  unfoldable pub restored : Store → Snapshot → Store
  unfolding assets_of
  restored s snap = record s {
    events = snap.events;
    alerts = snap.alerts;
    actions = snap.actions;
    audits = snap.audits;
    assets = assets_of snap;
    fingerprints = rebuild_fingerprints snap.alerts;
    last_err = "";
  }

  -- RestoreSnapshot
  unfoldable pub restore_snapshot : ℕ → Option String → Store → Snapshot → Store × Option String
  restore_snapshot now written s snap =
      if ltb snapshot_version snap.version
      then (s, some version_error)
      else commit now written (restored s snap)

  unfoldable pub redact_persistence_error : String → String
  redact_persistence_error err0 =
      let err = trim_space err0 in
      let l = lower err in
      if err == ""
      then ""
      else if contains l "postgres"
      then "postgres persistence error"
      else if contains l ".json" || contains l "snapshot"
      then "snapshot persistence error"
      else if contains l "permission denied" || contains l "operation not permitted"
      then "filesystem persistence error"
      else "persistence error"
