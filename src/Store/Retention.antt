-- ===== src/Store/Retention.antt =====
-- What retention keeps.
use open_agentic_threat_defe.Domain.{Alert, AuditEvent, Event, ResponseAction}
use open_agentic_threat_defe.Go.Runtime.{Platform}
use open_agentic_threat_defe.Prelude.{
  Bool, Bool-cases, List, arith, false, filter, filter_full, inl, inr, length, ltb, nat_eq, not,
  refl, sym, true, ℕ, ◌&&◌, ◌-◌, ◌≡◌,
}
use open_agentic_threat_defe.Store.Persistence.{
  enforce_retention, filter_by_cutoff, retained, same_sizes,
}
use open_agentic_threat_defe.Store.State.{Store}

-- A time that has not aged out: none, or at or after the cutoff.
abbrev pub is_fresh : ℕ → ℕ → Bool
is_fresh cutoff time = not (not (nat_eq time 0) && ltb time cutoff)

shortcut {ℓ} :
    {A : Type ℓ} (time_of : A → ℕ) (cutoff : ℕ) (xs : List A)
    → nat_eq (length (filter_by_cutoff time_of cutoff xs)) (length xs) ≡ true
    → xs ≡ filter_by_cutoff time_of cutoff xs
unfolding filter_by_cutoff
shortcut time_of cutoff xs h = sym (filter_full _ xs (ground arith))

module _ ⦃p : Platform⦄ (now : ℕ) (s : Store) where
  abbrev pub retention_cutoff : ℕ
  retention_cutoff = now - s.retention_window

  -- With a window, retention leaves exactly the records that have no time or are no older than the
  -- window, in their order, also where the code sees by the lengths that nothing aged out and skips
  -- the rewriting.
  pub enforce_retention_exact :
      nat_eq s.retention_window 0 ≡ false
      → ((enforce_retention now s).events
          ≡ filter (λ x. is_fresh retention_cutoff x.timestamp) s.events)
        × ((enforce_retention now s).alerts
            ≡ filter (λ x. is_fresh retention_cutoff x.created_at) s.alerts)
        × ((enforce_retention now s).actions
            ≡ filter (λ x. is_fresh retention_cutoff x.created_at) s.actions)
        × ((enforce_retention now s).audits
            ≡ filter (λ x. is_fresh retention_cutoff x.timestamp) s.audits)
  unfolding enforce_retention retained filter_by_cutoff same_sizes
  enforce_retention_exact on = elim (Bool-cases (same_sizes (retained s retention_cutoff) s)) [
    | inl h ↦
        rw (on, h)
          (
            shortcut (λ (x : Event). x.timestamp) retention_cutoff s.events (ground arith),
            shortcut (λ (x : Alert). x.created_at) retention_cutoff s.alerts (ground arith),
            shortcut (λ (x : ResponseAction). x.created_at) retention_cutoff s.actions
                (ground arith),
            shortcut (λ (x : AuditEvent). x.timestamp) retention_cutoff s.audits (ground arith),
          )
    | inr h ↦ rw (on, h) (refl, refl, refl, refl)
  ]
