-- ===== src/Store/Chain.antt =====
-- The audit chain: what appending keeps, and what rebuilding checks.
use open_agentic_threat_defe.Domain.{AuditEvent}
use open_agentic_threat_defe.Go.Runtime.{Platform}
use open_agentic_threat_defe.Go.Strings.{trim_space}
use open_agentic_threat_defe.Prelude.{
  All, All-append, Bool, Bool-cases, List, Option, String, [], ap, arith, eq_iff, false, filter,
  if◌then◌else◌, inl, inr, is_empty, is_empty_push, length, length-append, nat_eq, not, refl, subst,
  suc, sym, true, ℕ, ◌&&◌, ◌++◌, ◌+◌, ◌==◌, ◌||◌, ◌↔◌, ◌∙◌, ◌∷◌, ◌≡◌,
}
use open_agentic_threat_defe.Store.AuditChain.{
  Secrets, audit_chain_anchor_value, audit_event_hash, audit_event_text, prepare_audit_chain,
  rebuild_audit_chain, rebuild_loop,
}
use open_agentic_threat_defe.Store.Operations.{add_audit}
use open_agentic_threat_defe.Store.Persistence.{
  SnapshotCodec, commit_plain, content, load, load_decoded, loaded, snapshot,
}
use open_agentic_threat_defe.Store.State.{
  Numbered, Numbered-push, Store, head_after, head_after_push, is_linked,
}

module _ ⦃p : Platform⦄ where
  -- A digest is never blank.
  abbrev pub DigestsAreVisible : Type 0
  DigestsAreVisible = (t : String) → (trim_space (p.sha256_hex t) == "") ≡ false

  -- Each record carries the digest of its own text and names the hash of the record before it.
  abbrev pub IsChain : String → List AuditEvent → Type 0
  IsChain previous [] = Unit
  IsChain previous (a ∷ audits) =
      (a.prev_hash ≡ previous) × (a.hash ≡ audit_event_hash a previous) × IsChain a.hash audits

  IsChain-push :
      (previous : String) (audits : List AuditEvent) (a : AuditEvent)
      → IsChain previous audits
      → a.prev_hash ≡ head_after previous audits
      → a.hash ≡ audit_event_hash a (head_after previous audits)
      → IsChain previous (audits ++ a ∷ [])
  IsChain-push previous [] a c h k = (h, k, tt)
  IsChain-push previous (b ∷ audits) a c h k = (c.0, c.1, IsChain-push b.hash audits a c.2 h k)

  -- The chain of a store: linked from the first record on, numbered, and anchored at its end.
  pub record IsChained (env : Secrets) (s : Store) : Type 0 where
    pub links : IsChain "" s.audits
    pub linked : All (λ a. is_linked a ≡ true) s.audits
    pub numbers : Numbered 1 s.audits
    pub head : s.audit_chain_head ≡ head_after "" s.audits
    pub valid : s.audit_chain_valid ≡ (
        is_empty s.audits
        || not (audit_chain_anchor_value env s.audit_chain_head (length s.audits) true == ""))

  -- The test of one link.
  abbrev holds : AuditEvent → String → Bool
  holds a previous = a.prev_hash == previous && a.hash == audit_event_hash a a.prev_hash

  holds_iff :
      (a : AuditEvent) (previous : String) (ok : Bool)
      → ((ok && holds a previous) ≡ true)
        ↔ ((ok ≡ true) × (a.prev_hash ≡ previous) × (a.hash ≡ audit_event_hash a previous))
  holds_iff a previous ok = (
    λ h.
        let same : a.prev_hash ≡ previous = ground (arith, eq_iff a.prev_hash previous) in
        let digest : a.hash ≡ audit_event_hash a a.prev_hash =
          ground (arith, eq_iff a.hash (audit_event_hash a a.prev_hash)) in
        (ground arith, same, digest ∙ ap (audit_event_hash a) same),
    λ h.
        let digest : a.hash ≡ audit_event_hash a a.prev_hash =
          h.2 ∙ ap (audit_event_hash a) (sym h.1) in
        ground
          (arith, h.0, eq_iff a.prev_hash previous, eq_iff a.hash (audit_event_hash a a.prev_hash)),
  )

  next_count : AuditEvent → ℕ → ℕ
  next_count a n = if nat_eq a.chain_index 0 then n + 1 else a.chain_index

  -- What the loop finds: no broken link if and only if the linked records form a chain.
  rebuild_loop-valid :
      (audits : List AuditEvent) (previous : String) (n : ℕ) (ok : Bool)
      → ((rebuild_loop audits previous n ok).1.1 ≡ true)
        ↔ ((ok ≡ true) × IsChain previous (filter is_linked audits))
  unfolding rebuild_loop next_count
  rebuild_loop-valid [] previous n ok = (λ h. (h, tt), λ h. h.0)
  rebuild_loop-valid (a ∷ audits) previous n ok = elim (Bool-cases (is_linked a)) [
    | inl l ↦
        let ih = rebuild_loop-valid audits a.hash (next_count a n) (ok && holds a previous) in
        let iff = holds_iff a previous ok in
        rw l (
          λ h. let (x, y) = ih.0 h in let (o, q, r) = iff.0 x in (o, (q, r, y)),
          λ h. ih.1 (iff.1 (h.0, h.1.0, h.1.1), h.1.2),
        )
    | inr l ↦ rw l (rebuild_loop-valid audits previous n ok)
  ]

  -- Rebuilding the chain of stored records finds it valid if and only if the records that carry a
  -- hash form a chain from the empty hash on, each with the digest of its own text and the hash of
  -- the one before it, and there is an anchor or no record at all.
  pub rebuild_audit_chain_iff :
      (env : Secrets) (s : Store)
      → ((rebuild_audit_chain env s).audit_chain_valid ≡ true) ↔ (
          IsChain "" (filter is_linked s.audits)
          × ((is_empty s.audits || not ((rebuild_audit_chain env s).audit_chain_anchor == ""))
              ≡ true))
  unfolding rebuild_audit_chain
  rebuild_audit_chain_iff env s =
      let iff = rebuild_loop-valid s.audits "" 0 true in
      (λ h. ((iff.0 (ground arith)).1, ground arith), λ h. ground (arith, iff.1 (refl, h.0), h.1))

  -- On a chain whose indices count on, the loop ends at the last hash and the last index.
  rebuild_loop-chain :
      (audits : List AuditEvent) (previous : String) (n : ℕ)
      → IsChain previous audits
      → All (λ a. is_linked a ≡ true) audits
      → Numbered (suc n) audits
      → rebuild_loop audits previous n true
        ≡ (head_after previous audits, (n + length audits, true))
  unfolding rebuild_loop next_count
  rebuild_loop-chain [] previous n c l k = ap (λ m. (previous, (m, true))) (omega arith)
  rebuild_loop-chain (a ∷ audits) previous n c l k =
      let counted : next_count a n ≡ suc n = ground arith in
      let held : holds a previous ≡ true = (holds_iff a previous true).1 (refl, c.0, c.1) in
      rw (l.0, held, counted)
        (rebuild_loop-chain audits a.hash (suc n) c.2 l.1 k.1
          ∙ ap (λ m. (head_after a.hash audits, (m, true))) (omega arith))

  module _ (env : Secrets) (now : ℕ) (written : Option String) (s : Store) where
    -- Appending keeps the chain, with no retention: every record is linked to the one before it, the
    -- indices count the records, and the head is the last hash.
    -- (A digest is taken never to be blank.)
    pub add_audit-IsChained :
        (event : AuditEvent)
        → DigestsAreVisible
        → nat_eq s.retention_window 0 ≡ true
        → IsChained env s
        → IsChained env (add_audit env now written s event).0
    unfolding add_audit prepare_audit_chain audit_event_hash audit_event_text
    add_audit-IsChained event d w c =
        let (s1, a) = prepare_audit_chain env s event in
        let s2 : Store = record s1 { audits = s.audits ++ a ∷ [] } in
        let (err, e) = commit_plain now written s2 w in
        let size = length-append s.audits (a ∷ []) in
        subst (IsChained env) (sym e) (record {
          links = IsChain-push "" s.audits a c.links c.head (ap (audit_event_hash event) c.head);
          linked =
              All-append _ s.audits (a ∷ []) c.linked
                (rw (d (audit_event_text event s.audit_chain_head)) refl, tt);
          numbers = Numbered-push 1 s.audits a c.numbers (omega arith);
          head = sym (head_after_push "" s.audits a);
          valid = rw (size, is_empty_push s.audits a) refl;
        })

  module _ (env : Secrets) (now : ℕ) (s : Store) where
    -- A store whose chain is whole, and whose snapshot was written to a file, loads from that file
    -- with the same events, alerts, actions and audit records, the same head of the chain, and as valid
    -- as it was. (The path is not empty, and decoding gives back the snapshot that was encoded, as it
    -- does where all texts are valid UTF-8. The file is not written to in between.)
    pub load-IsChained :
        (codec : SnapshotCodec) (path : String)
        → (path == "") ≡ false
        → codec.decode (codec.encode (snapshot s now)) ≡ inl (snapshot s now)
        → IsChained env s
        → (s' : Store) × (load codec env path (content (codec.encode (snapshot s now))) ≡ inl s')
          × (s'.events ≡ s.events)
          × (s'.alerts ≡ s.alerts)
          × (s'.actions ≡ s.actions)
          × (s'.audits ≡ s.audits)
          × (s'.audit_chain_head ≡ s.audit_chain_head)
          × (s'.audit_chain_valid ≡ s.audit_chain_valid)
    unfolding load load_decoded loaded snapshot rebuild_audit_chain
    load-IsChained codec path named decodes c =
        let loop = rebuild_loop-chain s.audits "" 0 c.links c.linked c.numbers in
        (
          rebuild_audit_chain env (loaded path (snapshot s now)),
          rw (named, decodes) refl,
          refl,
          refl,
          refl,
          refl,
          rw loop (sym c.head),
          rw (loop, c.valid, c.head) (ground arith),
        )
