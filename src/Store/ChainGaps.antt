-- ===== src/Store/ChainGaps.antt =====
-- Where the chain is reported as broken although nobody changed a record.
use open_agentic_threat_defe.Domain.{AuditEvent}
use open_agentic_threat_defe.Go.Runtime.{Platform}
use open_agentic_threat_defe.Go.Strings.{trim_space}
use open_agentic_threat_defe.Prelude.{
  All, Bool, Bool-cases, List, Option, String, [], ap, arith, eq_iff, eq_refl, false, filter,
  filter-append, if◌then◌else◌, inl, inr, ltb, nat_eq, refl, subst, true, ℕ, ◌++◌, ◌+◌, ◌==◌, ◌∙◌,
  ◌∷◌, ◌≡◌,
}
use open_agentic_threat_defe.Store.AuditChain.{
  AuditChainSnapshot, Secrets, audit_chain, audit_chain_for_tenant, audit_chain_snapshot,
  audit_chain_snapshot_for_tenant, finalize_audit_chain_snapshot, prepare_audit_chain,
  rebuild_audit_chain, rebuild_loop, snapshot_loop, snapshot_start, snapshot_step, tenant_loop,
}
use open_agentic_threat_defe.Store.Chain.{IsChain, IsChained}
use open_agentic_threat_defe.Store.Isolation.{DefaultIsTrimmed, tenant_or_default_idem}
use open_agentic_threat_defe.Store.Operations.{add_audit}
use open_agentic_threat_defe.Store.Persistence.{
  Snapshot, SnapshotCodec, commit_plain, content, enforce_retention, load, load_decoded, loaded,
  restore_snapshot, restored, snapshot, snapshot_version,
}
use open_agentic_threat_defe.Store.Retention.{enforce_retention_exact, is_fresh, retention_cutoff}
use open_agentic_threat_defe.Store.State.{Store, is_linked}
use open_agentic_threat_defe.Store.Tenant.{same_tenant, tenant_or_default}

module _ ⦃p : Platform⦄ where
  rebuild_loop_broken :
      (audits : List AuditEvent) (previous : String) (n : ℕ)
      → (rebuild_loop audits previous n false).1.1 ≡ false
  unfolding rebuild_loop
  rebuild_loop_broken [] previous n = refl
  rebuild_loop_broken (a ∷ audits) previous n = elim (Bool-cases (is_linked a)) [
    | inl l ↦ rw l (rebuild_loop_broken audits a.hash _)
    | inr l ↦ rw l (rebuild_loop_broken audits previous n)
  ]

  rebuild_truncated :
      (env : Secrets) (s : Store) (a : AuditEvent) (audits : List AuditEvent)
      → s.audits ≡ a ∷ audits
      → is_linked a ≡ true
      → (a.prev_hash == "") ≡ false
      → (rebuild_audit_chain env s).audit_chain_valid ≡ false
  unfolding rebuild_audit_chain rebuild_loop
  rebuild_truncated env s a audits h l k =
      rw (h, l, k)
        (ground (
          arith,
          rebuild_loop_broken audits a.hash
              (if nat_eq a.chain_index 0 then 0 + 1 else a.chain_index),
        ))

  linked_hash : (x : AuditEvent) → is_linked x ≡ true → (x.hash == "") ≡ false
  unfolding trim_space
  linked_hash x h = elim (Bool-cases (x.hash == "")) [
    | inl e ↦
        let blank : x.hash ≡ "" = (eq_iff x.hash "").0 e in
        let shut : false ≡ true = rw blank at h in absurd (cc)
    | inr e ↦ e
  ]

  -- The first record that a selection keeps of those after `x` names the hash of a record before it.
  first_kept :
      (q : AuditEvent → Bool) (x : AuditEvent) (xs : List AuditEvent) (a : AuditEvent)
      (rest : List AuditEvent)
      → is_linked x ≡ true
      → IsChain x.hash xs
      → All (λ y. is_linked y ≡ true) xs
      → filter q xs ≡ a ∷ rest
      → (is_linked a ≡ true) × ((a.prev_hash == "") ≡ false)
  first_kept q x [] a rest l c k h = absurd (cc)
  first_kept q x (y ∷ ys) a rest l c k h = elim (Bool-cases (q y)) [
    | inl e ↦
        let h' : y ∷ filter q ys ≡ a ∷ rest = rw e at h in
        let same : y ≡ a = cc in
        (
          subst (λ u. is_linked u ≡ true) same k.0,
          subst (λ u. (u.prev_hash == "") ≡ false) same (rw c.0 (linked_hash x l)),
        )
    | inr e ↦ first_kept q y ys a rest k.0 c.2 k.1 (rw e at h)
  ]

  module _ (codec : SnapshotCodec) (env : Secrets) (now saved : ℕ) (path : String) (s : Store) where
    -- The snapshot of the store after retention.
    abbrev pub pruned_snapshot : Snapshot
    pruned_snapshot = snapshot (enforce_retention now s) saved

    -- A store whose chain is whole loses its validity by retention and a restart: where the first
    -- audit record has aged out and a later one has not, the snapshot that is written after retention
    -- loads with an invalid chain, although nobody changed a record. (There is a retention window, the
    -- path is not empty, and decoding gives back the snapshot that was encoded.)
    pub retained-load_invalid :
        (first kept : AuditEvent) (later rest : List AuditEvent)
        → (path == "") ≡ false
        → codec.decode (codec.encode pruned_snapshot) ≡ inl pruned_snapshot
        → nat_eq s.retention_window 0 ≡ false
        → IsChained env s
        → s.audits ≡ first ∷ later
        → is_fresh (retention_cutoff now s) first.timestamp ≡ false
        → filter (λ x. is_fresh (retention_cutoff now s) x.timestamp) later ≡ kept ∷ rest
        → (s' : Store) × (load codec env path (content (codec.encode pruned_snapshot)) ≡ inl s')
          × (s'.audit_chain_valid ≡ false)
    unfolding load load_decoded loaded snapshot
    retained-load_invalid first kept later rest named decodes on c records aged left =
        let fresh : AuditEvent → Bool = λ x. is_fresh (retention_cutoff now s) x.timestamp in
        let remains : (enforce_retention now s).audits ≡ kept ∷ rest =
          (enforce_retention_exact now s on).3 ∙ ap (filter fresh) records ∙ rw aged left in
        let links : IsChain "" (first ∷ later) = subst (IsChain "") records c.links in
        let linked = subst (All (λ y. is_linked y ≡ true)) records c.linked in
        let gap = first_kept fresh first later kept rest linked.0 links.2 linked.1 left in
        let store = loaded path pruned_snapshot in
        (
          rebuild_audit_chain env store,
          rw (named, decodes) refl,
          rebuild_truncated env store kept rest remains gap.0 gap.1,
        )

  snapshot_step_head :
      (head : String) (a : AuditEvent) (snap : AuditChainSnapshot)
      → ((snapshot_step head a snap).head ≡ snap.head)
        × ((snapshot_step head a snap).total ≡ snap.total)
  unfolding snapshot_step
  snapshot_step_head head a snap = ground arith

  snapshot_loop_head :
      (head : String) (audits : List AuditEvent) (snap : AuditChainSnapshot)
      → ((snapshot_loop head audits snap).head ≡ snap.head)
        × ((snapshot_loop head audits snap).total ≡ snap.total)
  unfolding snapshot_loop
  snapshot_loop_head head [] snap = (refl, refl)
  snapshot_loop_head head (a ∷ audits) snap =
      let next = snapshot_loop_head head audits (snapshot_step head a snap) in
      let step = snapshot_step_head head a snap in (next.0 ∙ step.0, next.1 ∙ step.1)

  -- Without a head the snapshot of a store with records is not valid.
  snapshot_headless :
      (s : Store) (a : AuditEvent) (audits : List AuditEvent)
      → s.audit_chain_head ≡ ""
      → s.audits ≡ a ∷ audits
      → (audit_chain s).valid ≡ false
  unfolding audit_chain audit_chain_snapshot finalize_audit_chain_snapshot
  snapshot_headless s a audits h k =
      let kept = snapshot_loop_head s.audit_chain_head s.audits (snapshot_start s) in
      let blank : (snapshot_loop s.audit_chain_head s.audits (snapshot_start s)).head ≡ "" =
        kept.0 ∙ h in
      let some_records : nat_eq (snapshot_loop s.audit_chain_head s.audits (snapshot_start s)).total
            0
          ≡ false =
        rw kept.1 (rw k (ground arith)) in
      rw blank (rw some_records (ground arith))

  -- A snapshot with audit records that is restored into a store that had none is reported as an
  -- invalid chain, however well its records are linked. (No retention window.)
  -- (The snapshot is of a version that is read.)
  pub restore_unlinked :
      (now : ℕ) (written : Option String) (s : Store) (snap : Snapshot) (a : AuditEvent)
      (audits : List AuditEvent)
      → s.audit_chain_head ≡ ""
      → nat_eq s.retention_window 0 ≡ true
      → ltb snapshot_version snap.version ≡ false
      → snap.audits ≡ a ∷ audits
      → (audit_chain (restore_snapshot now written s snap).0).valid ≡ false
  unfolding restore_snapshot restored
  restore_unlinked now written s snap a audits h w v k =
      let (err, e) = commit_plain now written (restored s snap) w in
      rw (v, e) (snapshot_headless (record (restored s snap) { last_err = err }) a audits h k)

  tenant_single :
      (env : Secrets) (s : Store) (tenant : String) (a : AuditEvent)
      → filter (λ x. same_tenant x.tenant (tenant_or_default tenant)) s.audits ≡ a ∷ []
      → (a.prev_hash == "") ≡ false
      → (audit_chain_for_tenant env s tenant).valid ≡ false
  unfolding audit_chain_for_tenant audit_chain_snapshot_for_tenant finalize_audit_chain_snapshot
      tenant_loop
  tenant_single env s tenant a h k = rw (h, k) (ground arith)

  -- The first audit record of a tenant, in a store where other tenants have records: the tenant's
  -- chain is reported as invalid, although the record was linked as all are. (No retention window.)
  -- (No letter of the word "default" is taken to be a space.)
  pub second_tenant_invalid :
      (env : Secrets) (now : ℕ) (written : Option String) (s : Store) (event : AuditEvent)
      → DefaultIsTrimmed
      → nat_eq s.retention_window 0 ≡ true
      → (s.audit_chain_head == "") ≡ false
      → filter (λ x. same_tenant x.tenant (tenant_or_default event.tenant)) s.audits ≡ []
      → (audit_chain_for_tenant env (add_audit env now written s event).0 event.tenant).valid
        ≡ false
  unfolding add_audit prepare_audit_chain same_tenant
  second_tenant_invalid env now written s event d w h none_yet =
      let (s1, a) = prepare_audit_chain env s event in
      let s2 : Store = record s1 { audits = s.audits ++ a ∷ [] } in
      let (err, e) = commit_plain now written s2 w in
      let mine : AuditEvent → Bool = λ x. same_tenant x.tenant (tenant_or_default event.tenant) in
      let own : mine a ≡ true =
        rw (tenant_or_default_idem d event.tenant) (eq_refl (tenant_or_default event.tenant)) in
      rw e (
        tenant_single env (record s2 { last_err = err }) event.tenant a
          (filter-append mine s.audits (a ∷ []) ∙ rw (none_yet, own) refl) h)
