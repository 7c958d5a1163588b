-- ===== src/Store/Fingerprints.antt =====
-- No two alerts of a store have the same fingerprint, and the set of fingerprints tells them.
use open_agentic_threat_defe.Domain.{Alert}
use open_agentic_threat_defe.Go.Runtime.{Platform}
use open_agentic_threat_defe.Go.Strings.{elem}
use open_agentic_threat_defe.Go.Strings.Sets.{Distinct, Distinct-push, elem_push}
use open_agentic_threat_defe.Prelude.{
  All, Bool, Bool-cases, List, Option, String, [], arith, eq_refl, false, filter, if◌then◌else◌,
  inl, inr, is_empty, nat_eq, refl, subst, sym, true, ℕ, ◌++◌, ◌-◌, ◌==◌, ◌∷◌, ◌≡◌,
}
use open_agentic_threat_defe.Store.Operations.{add_alerts, is_repeated, take_alert, take_alerts}
use open_agentic_threat_defe.Store.Persistence.{
  commit, enforce_retention, filter_by_cutoff, persist, persist-cases, rebuild_fingerprints,
  retained, same_sizes,
}
use open_agentic_threat_defe.Store.State.{Store}

pub record IsDeduplicated (s : Store) : Type 0 where
  pub agrees : (f : String) → elem f s.fingerprints ≡ elem f (rebuild_fingerprints s.alerts)
  pub distinct : Distinct (rebuild_fingerprints s.alerts)

rebuild_push :
    (alerts : List Alert) (a : Alert)
    → rebuild_fingerprints (alerts ++ a ∷ []) ≡ (
        if a.fingerprint == ""
        then rebuild_fingerprints alerts
        else rebuild_fingerprints alerts ++ a.fingerprint ∷ [])
unfolding rebuild_fingerprints
rebuild_push [] a = refl
rebuild_push (b ∷ alerts) a = ground (arith, rebuild_push alerts a)

rebuild-filter :
    (p : Alert → Bool) (alerts : List Alert) (f : String)
    → elem f (rebuild_fingerprints alerts) ≡ false
    → elem f (rebuild_fingerprints (filter p alerts)) ≡ false
unfolding rebuild_fingerprints
rebuild-filter p [] f h = refl
rebuild-filter p (a ∷ alerts) f h = ground (arith, rebuild-filter p alerts f)

Distinct-filter :
    (p : Alert → Bool) (alerts : List Alert)
    → Distinct (rebuild_fingerprints alerts)
    → Distinct (rebuild_fingerprints (filter p alerts))
unfolding rebuild_fingerprints
Distinct-filter p [] d = tt
Distinct-filter p (a ∷ alerts) d = elim (Bool-cases (a.fingerprint == "")) [
  | inl blank ↦
      let rest : Distinct (rebuild_fingerprints alerts) = rw blank at d in
      elim (Bool-cases (p a)) [
        | inl h ↦ rw (h, blank) (Distinct-filter p alerts rest)
        | inr h ↦ rw h (Distinct-filter p alerts rest)
      ]
  | inr named ↦
      let both : Distinct (a.fingerprint ∷ rebuild_fingerprints alerts) = rw named at d in
      elim (Bool-cases (p a)) [
        | inl h ↦
            rw (h, named)
              (rebuild-filter p alerts a.fingerprint both.0, Distinct-filter p alerts both.1)
        | inr h ↦ rw h (Distinct-filter p alerts both.1)
      ]
]

module _ ⦃p : Platform⦄ where
  take_alert-IsDeduplicated :
      (s : Store) (a : Alert)
      → is_repeated s a ≡ false
      → IsDeduplicated s
      → IsDeduplicated (take_alert s a)
  unfolding take_alert
  take_alert-IsDeduplicated s a h d = elim (Bool-cases (a.fingerprint == "")) [
    | inl blank ↦ record {
      agrees = λ f. ground (arith, blank, rebuild_push s.alerts a, d.agrees f);
      distinct = rw (rebuild_push s.alerts a, blank) d.distinct;
    }
    | inr named ↦ record {
      agrees = λ f. ground (
        arith,
        named,
        rebuild_push s.alerts a,
        d.agrees f,
        elem_push f a.fingerprint (rebuild_fingerprints s.alerts),
      );
      distinct =
          rw (rebuild_push s.alerts a, named)
            (Distinct-push a.fingerprint (rebuild_fingerprints s.alerts) d.distinct
              (ground (arith, named, d.agrees a.fingerprint)));
    }
  ]

  take_alerts-IsDeduplicated :
      (s : Store) (alerts : List Alert) → IsDeduplicated s → IsDeduplicated (take_alerts s alerts).0
  unfolding take_alerts
  take_alerts-IsDeduplicated s [] d = d
  take_alerts-IsDeduplicated s (a ∷ alerts) d = elim (Bool-cases (is_repeated s a)) [
    | inl h ↦ rw h (take_alerts-IsDeduplicated s alerts d)
    | inr h ↦
        rw h
          (take_alerts-IsDeduplicated (take_alert s a) alerts (take_alert-IsDeduplicated s a h d))
  ]

  pub persist-IsDeduplicated :
      (written : Option String) (s : Store)
      → IsDeduplicated s
      → IsDeduplicated (persist written s).0
  unfolding persist
  persist-IsDeduplicated written s d = elim (persist-cases written s) [
    | inl e ↦ rw e (record { agrees = d.agrees; distinct = d.distinct })
    | inr (err, e) ↦ rw e (record { agrees = d.agrees; distinct = d.distinct })
  ]

  enforce-IsDeduplicated :
      (now : ℕ) (s : Store) → IsDeduplicated s → IsDeduplicated (enforce_retention now s)
  unfolding enforce_retention retained filter_by_cutoff
  enforce-IsDeduplicated now s d = elim (Bool-cases (nat_eq s.retention_window 0)) [
    | inl off ↦ rw off d
    | inr on ↦ elim (Bool-cases (same_sizes (retained s (now - s.retention_window)) s)) [
      | inl h ↦ rw (on, h) (record { agrees = d.agrees; distinct = d.distinct })
      | inr h ↦
          rw (on, h)
            (record { agrees = λ f. refl; distinct = Distinct-filter _ s.alerts d.distinct })
    ]
  ]

  pub commit-IsDeduplicated :
      (now : ℕ) (written : Option String) (s : Store)
      → IsDeduplicated s
      → IsDeduplicated (commit now written s).0
  unfolding commit
  commit-IsDeduplicated now written s d =
      persist-IsDeduplicated written (enforce_retention now s) (enforce-IsDeduplicated now s d)

  -- Adding alerts keeps a store free of repeated fingerprints, whatever the alerts are, whether or not
  -- old alerts age out, and whether or not the file is written.
  pub add_alerts-IsDeduplicated :
      (now : ℕ) (written : Option String) (s : Store) (alerts : List Alert)
      → IsDeduplicated s
      → IsDeduplicated (add_alerts now written s alerts).0
  unfolding add_alerts
  add_alerts-IsDeduplicated now written s alerts d =
      let taken = take_alerts-IsDeduplicated s alerts d in
      elim (Bool-cases (is_empty (take_alerts s alerts).1)) [
        | inl h ↦ rw h taken
        | inr h ↦ rw h (commit-IsDeduplicated now written (take_alerts s alerts).0 taken)
      ]

  -- Alerts that are all known add nothing.
  take_alerts-known :
      (s : Store) (alerts : List Alert)
      → All (λ (a : Alert). is_repeated s a ≡ true) alerts
      → take_alerts s alerts ≡ (s, [])
  unfolding take_alerts
  take_alerts-known s [] h = refl
  take_alerts-known s (a ∷ alerts) h = rw h.0 (take_alerts-known s alerts h.1)

  -- What is known stays known.
  take_alerts-keeps :
      (s : Store) (alerts : List Alert) (f : String)
      → elem f s.fingerprints ≡ true
      → elem f (take_alerts s alerts).0.fingerprints ≡ true
  unfolding take_alerts take_alert
  take_alerts-keeps s [] f h = h
  take_alerts-keeps s (a ∷ alerts) f h = elim (Bool-cases (is_repeated s a)) [
    | inl r ↦ rw r (take_alerts-keeps s alerts f h)
    | inr r ↦ rw r (take_alerts-keeps (take_alert s a) alerts f (ground arith))
  ]

  take_alerts-learns :
      (s : Store) (alerts : List Alert)
      → All (λ (a : Alert). (a.fingerprint == "") ≡ false) alerts
      → All (λ (a : Alert). is_repeated (take_alerts s alerts).0 a ≡ true) alerts
  unfolding take_alerts take_alert
  take_alerts-learns s [] h = tt
  take_alerts-learns s (a ∷ alerts) h = elim (Bool-cases (is_repeated s a)) [
    | inl r ↦
        let e : (take_alerts s (a ∷ alerts)).0 ≡ (take_alerts s alerts).0 = rw r refl in
        subst (λ u. All (λ (b : Alert). is_repeated u b ≡ true) (a ∷ alerts)) (sym e)
          (
            ground (arith, h.0, take_alerts-keeps s alerts a.fingerprint),
            take_alerts-learns s alerts h.1,
          )
    | inr r ↦
        let s' = take_alert s a in
        let e : (take_alerts s (a ∷ alerts)).0 ≡ (take_alerts s' alerts).0 = rw r refl in
        subst (λ u. All (λ (b : Alert). is_repeated u b ≡ true) (a ∷ alerts)) (sym e)
          (
            ground (arith, h.0, eq_refl a.fingerprint, take_alerts-keeps s' alerts a.fingerprint),
            take_alerts-learns s' alerts h.1,
          )
  ]

  -- Alerts with fingerprints that were added a moment ago are not added again: the second call adds
  -- none and leaves the store as the first left it. (The loops of two calls of AddAlerts, with no
  -- retention between them.)
  pub take_alerts_idem :
      (s : Store) (alerts : List Alert)
      → All (λ (a : Alert). (a.fingerprint == "") ≡ false) alerts
      → take_alerts (take_alerts s alerts).0 alerts ≡ ((take_alerts s alerts).0, [])
  take_alerts_idem s alerts h =
      take_alerts-known (take_alerts s alerts).0 alerts (take_alerts-learns s alerts h)
