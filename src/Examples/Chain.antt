-- ===== src/Examples/Chain.antt =====
-- The theorems about the audit chain at concrete records.
use open_agentic_threat_defe.Domain.{AuditEvent}
use open_agentic_threat_defe.Examples.Fixtures.{
  ascii-DigestsAreVisible, login_audit, sample_store, secrets,
}
use open_agentic_threat_defe.Go.Ascii.{ascii}
use open_agentic_threat_defe.Go.Strings.{trim_space}
use open_agentic_threat_defe.Prelude.{
  [], false, filter, if◌then◌else◌, inl, inr, is_empty, none, not, refl, true, ◌==◌, ◌||◌, ◌↔◌, ◌∷◌,
  ◌≡◌,
}
use open_agentic_threat_defe.Store.AuditChain.{
  audit_chain, audit_chain_for_tenant, prepare_audit_chain, rebuild_audit_chain,
}
use open_agentic_threat_defe.Store.Chain.{
  IsChain, IsChained, add_audit-IsChained, load-IsChained, rebuild_audit_chain_iff,
}
use open_agentic_threat_defe.Store.ChainGaps.{
  restore_unlinked, retained-load_invalid, second_tenant_invalid,
}
use open_agentic_threat_defe.Store.Operations.{add_audit}
use open_agentic_threat_defe.Store.Persistence.{
  Snapshot, SnapshotCodec, commit, content, enforce_retention, load, persist, restore_snapshot,
  snapshot,
}
use open_agentic_threat_defe.Store.State.{Store, is_linked, new_store}
use open_agentic_threat_defe.Store.Tenant.{same_tenant, tenant_or_default}

-- A store with one record, appended.
abbrev chained_store : Store
chained_store = (add_audit ⦃p = ascii⦄ secrets 9 none new_store login_audit).0

new_store-IsChained : IsChained ⦃p = ascii⦄ secrets new_store
new_store-IsChained = record { links = tt; linked = tt; numbers = tt; head = refl; valid = refl }

chained_store-IsChained : IsChained ⦃p = ascii⦄ secrets chained_store
chained_store-IsChained =
    add_audit-IsChained ⦃p = ascii⦄ secrets 9 none new_store login_audit ascii-DigestsAreVisible
      refl new_store-IsChained

rebuild_audit_chain_iff_example :
    ((rebuild_audit_chain ⦃p = ascii⦄ secrets sample_store).audit_chain_valid ≡ true) ↔ (
      IsChain ⦃p = ascii⦄ "" (filter (is_linked ⦃p = ascii⦄) sample_store.audits)
      × ((is_empty sample_store.audits
            || not
                ((rebuild_audit_chain ⦃p = ascii⦄ secrets sample_store).audit_chain_anchor == ""))
          ≡ true))
rebuild_audit_chain_iff_example = rebuild_audit_chain_iff ⦃p = ascii⦄ secrets sample_store

add_audit-IsChained_example : IsChained ⦃p = ascii⦄ secrets chained_store
add_audit-IsChained_example =
    add_audit-IsChained ⦃p = ascii⦄ secrets 9 none new_store login_audit ascii-DigestsAreVisible
      refl new_store-IsChained

-- An encoding under which one snapshot has a text and every other text is refused.
abbrev codec_of : Snapshot → SnapshotCodec
codec_of snap = record {
  encode = λ other. "{}";
  decode = λ text. if text == "{}" then inl snap else inr "unexpected end of JSON input";
}

abbrev chained_codec : SnapshotCodec
chained_codec = codec_of (snapshot chained_store 9)

load-IsChained_example :
    (s : Store) × (load ⦃p = ascii⦄ chained_codec secrets "data.json" (content "{}") ≡ inl s)
    × (s.events ≡ chained_store.events)
    × (s.alerts ≡ chained_store.alerts)
    × (s.actions ≡ chained_store.actions)
    × (s.audits ≡ chained_store.audits)
    × (s.audit_chain_head ≡ chained_store.audit_chain_head)
    × (s.audit_chain_valid ≡ chained_store.audit_chain_valid)
load-IsChained_example =
    load-IsChained ⦃p = ascii⦄ secrets 9 chained_store chained_codec "data.json" refl refl
      chained_store-IsChained

-- The record that is second in its chain.
abbrev second_audit : AuditEvent
second_audit = record login_audit { hash = "x"; prev_hash = "y"; chain_index = 2 }

-- A store with two records that were appended, which keeps what is at most 50 old.
abbrev two_records : Store
two_records =
    (add_audit ⦃p = ascii⦄ secrets 100 none chained_store
      (record login_audit { id = "au-2"; timestamp = 100 })).0

-- The second of them, as it was appended.
abbrev second_record : AuditEvent
second_record =
    (prepare_audit_chain ⦃p = ascii⦄ secrets chained_store
      (record login_audit { id = "au-2"; timestamp = 100 })).1

abbrev keeping : Store
keeping = record two_records { retention_window = 50 }

keeping-IsChained : IsChained ⦃p = ascii⦄ secrets keeping
unfolding add_audit prepare_audit_chain commit enforce_retention persist
keeping-IsChained =
    let c =
      add_audit-IsChained ⦃p = ascii⦄ secrets 100 none chained_store
        (record login_audit { id = "au-2"; timestamp = 100 }) ascii-DigestsAreVisible refl
        chained_store-IsChained in
    record {
      links = c.links;
      linked = c.linked;
      numbers = c.numbers;
      head = c.head;
      valid = c.valid;
    }

abbrev keeping_codec : SnapshotCodec
keeping_codec = codec_of (snapshot (enforce_retention ⦃p = ascii⦄ 120 keeping) 120)

retained-load_invalid_example :
    (s : Store) × (load ⦃p = ascii⦄ keeping_codec secrets "data.json" (content "{}") ≡ inl s)
    × (s.audit_chain_valid ≡ false)
unfolding add_audit prepare_audit_chain commit enforce_retention persist
retained-load_invalid_example =
    retained-load_invalid ⦃p = ascii⦄ keeping_codec secrets 120 120 "data.json" keeping
      (prepare_audit_chain ⦃p = ascii⦄ secrets new_store login_audit).1 second_record
      (second_record ∷ []) [] refl refl refl keeping-IsChained refl refl refl

restore_unlinked_example :
    (audit_chain ⦃p = ascii⦄
      (restore_snapshot ⦃p = ascii⦄ 9 none new_store (snapshot chained_store 9)).0).valid
    ≡ false
unfolding snapshot add_audit commit enforce_retention persist prepare_audit_chain
restore_unlinked_example =
    restore_unlinked ⦃p = ascii⦄ 9 none new_store (snapshot chained_store 9)
      (prepare_audit_chain ⦃p = ascii⦄ secrets new_store login_audit).1 [] refl refl refl refl

second_tenant_invalid_example :
    (audit_chain_for_tenant ⦃p = ascii⦄ secrets
      (add_audit ⦃p = ascii⦄ secrets 9 none
        (record new_store {
          audits = record second_audit { tenant = "beta" } ∷ [];
          audit_chain_head = "x";
        })
        login_audit).0
      "acme").valid
    ≡ false
unfolding trim_space tenant_or_default same_tenant
second_tenant_invalid_example =
    second_tenant_invalid ⦃p = ascii⦄ secrets 9 none
      (record new_store {
        audits = record second_audit { tenant = "beta" } ∷ [];
        audit_chain_head = "x";
      })
      login_audit refl refl refl refl
