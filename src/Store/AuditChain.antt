-- ===== src/Store/AuditChain.antt =====
-- audit_chain.go: the hash chain of the audit records and its anchor.
use Prim.Native.String.{◌++◌ as cat}
use open_agentic_threat_defe.Domain.{AuditEvent}
use open_agentic_threat_defe.Go.Maps.{Dict, keys, lookup}
use open_agentic_threat_defe.Go.Runtime.{Platform}
use open_agentic_threat_defe.Go.Strings.{itoa, join_with, sort_texts, trim_space}
use open_agentic_threat_defe.Prelude.{
  Bool, List, String, [], false, filter, get_or, if◌then◌else◌, is_empty, length, ltb, nat_eq, not,
  true, ℕ, ◌&&◌, ◌+◌, ◌-◌, ◌==◌, ◌||◌, ◌∷◌,
}
use open_agentic_threat_defe.Store.State.{Store, is_linked}
use open_agentic_threat_defe.Store.Tenant.{same_tenant, tenant_or_default}

-- The variables OATD_AUDIT_HMAC_SECRET and OATD_SESSION_SECRET of the environment.
pub record Secrets : Type 0 where
  pub audit_hmac_secret : String
  pub session_secret : String

pub record AuditChainSnapshot : Type 0 where
  pub total : ℕ
  pub linked : ℕ
  pub unlinked : ℕ
  pub head : String
  pub previous : String
  pub valid : Bool
  pub anchor : String
  pub anchored : Bool
  pub last_audit_id : String
  pub last_timestamp : ℕ

-- finalizeAuditChainSnapshot; a native number is not below 0
unfoldable pub finalize_audit_chain_snapshot : AuditChainSnapshot → AuditChainSnapshot
finalize_audit_chain_snapshot snap =
    let linked = if ltb snap.total snap.linked then snap.total else snap.linked in
    record snap {
      linked = linked;
      unlinked = snap.total - linked;
      valid = if ltb 0 (snap.total - linked) then false else snap.valid;
    }

abbrev bool_text : Bool → String
bool_text true = "true"
bool_text false = "false"

-- "key=value" for each key
equations_of : Dict String → List String → List String
equations_of metadata [] = []
equations_of metadata (key ∷ keys) =
    cat key (cat "=" (get_or (lookup key metadata) "")) ∷ equations_of metadata keys

unfoldable pub canonical_metadata : Dict String → String
unfolding equations_of
canonical_metadata metadata = join_with ";" (equations_of metadata (sort_texts (keys metadata)))

module _ ⦃p : Platform⦄ where
  -- auditChainAnchorKey: "" where there is no key
  unfoldable pub audit_chain_anchor_key : Secrets → String
  audit_chain_anchor_key env =
      if not (trim_space env.audit_hmac_secret == "")
      then trim_space env.audit_hmac_secret
      else if not (trim_space env.session_secret == "")
      then p.hmac_bytes (trim_space env.session_secret) "oatd-audit-chain-anchor-v1"
      else ""

  unfoldable pub audit_chain_anchor_value : Secrets → String → ℕ → Bool → String
  audit_chain_anchor_value env head chain_index valid =
      let key = audit_chain_anchor_key env in
      if key == ""
      then ""
      else p.hmac_hex key (join_with "|" (head ∷ itoa chain_index ∷ bool_text valid ∷ []))

  -- What auditEventHash digests.
  unfoldable pub audit_event_text : AuditEvent → String → String
  audit_event_text event prev_hash = join_with "|" (
      prev_hash
      ∷ event.id
      ∷ p.rfc3339_nano event.timestamp
      ∷ event.actor
      ∷ join_with "," event.roles
      ∷ event.action
      ∷ event.resource_type
      ∷ event.resource_id
      ∷ event.outcome
      ∷ event.source_ip
      ∷ event.user_agent
      ∷ canonical_metadata event.metadata
      ∷ [])

  unfoldable pub audit_event_hash : AuditEvent → String → String
  audit_event_hash event prev_hash = p.sha256_hex (audit_event_text event prev_hash)

  -- prepareAuditChainLocked: the store with its new head, and the record that is to be appended
  unfoldable pub prepare_audit_chain : Secrets → Store → AuditEvent → Store × AuditEvent
  prepare_audit_chain env s event =
      let index = length s.audits + 1 in
      let hash = audit_event_hash event s.audit_chain_head in
      let anchor = audit_chain_anchor_value env hash index true in
      (
        record s {
          audit_chain_head = hash;
          audit_chain_anchor = anchor;
          audit_chain_valid = not (anchor == "");
        },
        record event { chain_index = index; prev_hash = s.audit_chain_head; hash = hash },
      )

  -- The loop of `rebuildAuditChainLocked`: the hash of the last linked record, the count of
  -- linked records, and whether no link was found broken.
  unfoldable pub rebuild_loop : List AuditEvent → String → ℕ → Bool → String × (ℕ × Bool)
  rebuild_loop [] previous linked valid = (previous, (linked, valid))
  rebuild_loop (audit ∷ audits) previous linked valid =
      let skipped = rebuild_loop audits previous linked valid in
      let next =
        rebuild_loop audits audit.hash
          (if nat_eq audit.chain_index 0 then linked + 1 else audit.chain_index)
          (valid
            && (audit.prev_hash == previous
                && audit.hash == audit_event_hash audit audit.prev_hash)) in
      if is_linked audit then next else skipped

  -- rebuildAuditChainLocked
  unfoldable pub rebuild_audit_chain : Secrets → Store → Store
  rebuild_audit_chain env s =
      let (head, (linked, valid)) = rebuild_loop s.audits "" 0 true in
      let anchor = audit_chain_anchor_value env head linked valid in
      record s {
        audit_chain_head = head;
        audit_chain_anchor = anchor;
        audit_chain_valid = valid && (is_empty s.audits || not (anchor == ""));
      }

  -- The loop of `auditChainSnapshotLocked`.
  unfoldable pub snapshot_step : String → AuditEvent → AuditChainSnapshot → AuditChainSnapshot
  snapshot_step head audit snap =
      let counted = record snap { linked = snap.linked + 1 } in
      let found = record counted {
        last_audit_id = audit.id;
        last_timestamp = audit.timestamp;
        previous = audit.prev_hash;
      } in
      if is_linked audit then (if audit.hash == head then found else counted) else snap

  unfoldable pub snapshot_loop : String → List AuditEvent → AuditChainSnapshot → AuditChainSnapshot
  snapshot_loop head [] snap = snap
  snapshot_loop head (audit ∷ audits) snap =
      snapshot_loop head audits (snapshot_step head audit snap)

  -- The snapshot before the loop.
  abbrev pub snapshot_start : Store → AuditChainSnapshot
  snapshot_start s = record {
    total = length s.audits;
    linked = 0;
    unlinked = 0;
    head = s.audit_chain_head;
    previous = "";
    valid = s.audit_chain_valid;
    anchor = s.audit_chain_anchor;
    anchored = not (s.audit_chain_anchor == "");
    last_audit_id = "";
    last_timestamp = 0;
  }

  unfoldable pub audit_chain_snapshot : Store → AuditChainSnapshot
  audit_chain_snapshot s =
      let snap = snapshot_loop s.audit_chain_head s.audits (snapshot_start s) in
      if snap.head == ""
      then record snap { valid = nat_eq snap.total 0; anchored = false }
      else snap

  -- AuditChain
  unfoldable pub audit_chain : Store → AuditChainSnapshot
  audit_chain s = finalize_audit_chain_snapshot (audit_chain_snapshot s)

  -- The loop of `auditChainSnapshotForTenantLocked`.
  unfoldable pub tenant_loop : List AuditEvent → String → AuditChainSnapshot → AuditChainSnapshot
  tenant_loop [] previous snap = snap
  tenant_loop (audit ∷ audits) previous snap =
      let skipped = tenant_loop audits previous snap in
      let next = tenant_loop audits audit.hash (record snap {
        linked = snap.linked + 1;
        valid =
            snap.valid
            && (audit.prev_hash == previous
                && audit.hash == audit_event_hash audit audit.prev_hash);
        head = audit.hash;
        last_audit_id = audit.id;
        last_timestamp = audit.timestamp;
      }) in
      if is_linked audit then next else skipped

  unfoldable pub audit_chain_snapshot_for_tenant : Secrets → Store → String → AuditChainSnapshot
  audit_chain_snapshot_for_tenant env s tenant =
      let filtered = filter (λ x. same_tenant x.tenant (tenant_or_default tenant)) s.audits in
      let snap = tenant_loop filtered "" (record {
        total = length filtered;
        linked = 0;
        unlinked = 0;
        head = "";
        previous = "";
        valid = true;
        anchor = "";
        anchored = false;
        last_audit_id = "";
        last_timestamp = 0;
      }) in
      let valid = if snap.head == "" then nat_eq snap.total 0 else snap.valid in
      let anchor = audit_chain_anchor_value env snap.head snap.linked valid in
      let anchored = not (anchor == "") in
      record snap {
        anchor = anchor;
        anchored = anchored;
        valid = if ltb 0 snap.total then valid && anchored else valid;
      }

  -- AuditChainForTenant
  unfoldable pub audit_chain_for_tenant : Secrets → Store → String → AuditChainSnapshot
  audit_chain_for_tenant env s tenant =
      finalize_audit_chain_snapshot (audit_chain_snapshot_for_tenant env s tenant)
