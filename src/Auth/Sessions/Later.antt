-- ===== src/Auth/Sessions/Later.antt =====
-- What happens to an authenticator after a logout, and what stays revoked through it.
use open_agentic_threat_defe.Auth.Authenticator.{
  Authenticator, is_revoked, login_retry_after, prune_revoked, record_login_attempt, revoke,
}
use open_agentic_threat_defe.Auth.Sessions.{
  PayloadCodec, Readings, SessionPayload, end_session, live_or_none, live_payload, logout,
  parse_session_payload, session, signed_payload,
}
use open_agentic_threat_defe.Go.Maps.{lookup, lookup-filter, lookup-put}
use open_agentic_threat_defe.Go.Runtime.{Platform}
use open_agentic_threat_defe.Go.Strings.{trim_space}
use open_agentic_threat_defe.Prelude.{
  Bool, Bool-cases, Option, String, arith, false, filter, if◌then◌else◌, inl, inr, ltb, nat_eq,
  none, refl, some, ℕ, ◌+◌, ◌<◌, ◌==◌, ◌∙◌, ◌≡◌, ◌≤◌,
}

module _ ⦃p : Platform⦄ (codec : PayloadCodec) (id : String) (limit : ℕ) where
  -- The authenticator after some operations: checks of sessions, logins that succeed or fail, and
  -- logouts of sessions with another id. No revocation is dropped by a clock past the limit.
  pub data Follows (start : Authenticator) : Authenticator → Type 0 where
    at_once : Follows start start
    then_check :
        (a : Authenticator) (cookie : String) (at : Readings)
        → at.pruned ≤ limit
        → Follows start a
        → Follows start (session codec a cookie at).0
    then_attempt :
        (a : Authenticator) (key : String) (success : Bool) (now : ℕ)
        → Follows start a
        → Follows start (record_login_attempt a key success now).0
    then_wait :
        (a : Authenticator) (key : String) (now later : ℕ)
        → Follows start a
        → Follows start (login_retry_after a key now later).0
    then_logout :
        (a : Authenticator) (cookie : String) (at : Readings) (now pruned : ℕ)
        → at.pruned ≤ limit
        → pruned ≤ limit
        → ((other : SessionPayload)
            → (parse_session_payload codec a (trim_space cookie) at).1 ≡ some other
            → (trim_space other.id == trim_space id) ≡ false)
        → Follows start a
        → Follows start (logout codec a cookie at now pruned).0

module _ ⦃p : Platform⦄ (key id : String) (limit until : ℕ) where
  -- The signing key is this one, and the id is revoked until the time, if that is past the limit.
  pub record IsRevoked (a : Authenticator) : Type 0 where
    pub same_key : a.session_key ≡ key
    pub entry : limit < until → lookup (trim_space id) a.revoked ≡ some until

  is_revoked-IsRevoked :
      (a : Authenticator) (other : String) (t u : ℕ)
      → t ≤ limit
      → IsRevoked a
      → IsRevoked (is_revoked a other t u).0
  unfolding is_revoked prune_revoked
  is_revoked-IsRevoked a other t u m h = elim (Bool-cases (trim_space other == "")) [
    | inl e ↦ rw e h
    | inr e ↦ rw e (record {
      same_key = h.same_key;
      entry = λ past.
          lookup-filter (λ x. ltb t x.1) (trim_space id) until a.revoked (h.entry past)
            (ground arith);
    })
  ]

  revoke-IsRevoked :
      (a : Authenticator) (other : String) (expiry t : ℕ)
      → t ≤ limit
      → (trim_space other == trim_space id) ≡ false
      → IsRevoked a
      → IsRevoked (revoke a other expiry t)
  unfolding revoke prune_revoked
  revoke-IsRevoked a other expiry t m apart h = elim (Bool-cases (trim_space other == "")) [
    | inl e ↦ rw e h
    | inr e ↦ rw e (record {
      same_key = h.same_key;
      entry = λ past.
          lookup-put (trim_space other) (trim_space id) expiry (filter (λ x. ltb t x.1) a.revoked)
          ∙ rw apart (
              lookup-filter (λ x. ltb t x.1) (trim_space id) until a.revoked (h.entry past)
                (ground arith));
    })
  ]

  module _ (codec : PayloadCodec) where
    live_or_none-IsRevoked :
        (a : Authenticator) (at : Readings) (o : Option SessionPayload)
        → at.pruned ≤ limit
        → IsRevoked a
        → IsRevoked (live_or_none codec a at o).0
    unfolding live_or_none live_payload
    live_or_none-IsRevoked a at none m h = h
    live_or_none-IsRevoked a at (some q) m h = is_revoked-IsRevoked a q.id at.pruned at.compared m h

    parse-IsRevoked :
        (a : Authenticator) (token : String) (at : Readings)
        → at.pruned ≤ limit
        → IsRevoked a
        → IsRevoked (parse_session_payload codec a token at).0
    unfolding parse_session_payload
    parse-IsRevoked a token at m h = live_or_none-IsRevoked a at (signed_payload codec a token) m h

    session-IsRevoked :
        (a : Authenticator) (cookie : String) (at : Readings)
        → at.pruned ≤ limit
        → IsRevoked a
        → IsRevoked (session codec a cookie at).0
    unfolding session
    session-IsRevoked a cookie at m h = elim (Bool-cases (trim_space cookie == "")) [
      | inl e ↦ rw e h
      | inr e ↦ rw e (parse-IsRevoked a (trim_space cookie) at m h)
    ]

    end_session-IsRevoked :
        (a : Authenticator) (now t : ℕ) (o : Option SessionPayload)
        → t ≤ limit
        → ((other : SessionPayload)
            → o ≡ some other
            → (trim_space other.id == trim_space id) ≡ false)
        → IsRevoked a
        → IsRevoked (end_session codec a now t o).0
    unfolding end_session
    end_session-IsRevoked a now t none m apart h = h
    end_session-IsRevoked a now t (some q) m apart h =
        revoke-IsRevoked a q.id
          (if nat_eq q.expires_at 0 then now + a.session_ttl else q.expires_at) t m (apart q refl) h

    logout-IsRevoked :
        (a : Authenticator) (cookie : String) (at : Readings) (now t : ℕ)
        → at.pruned ≤ limit
        → t ≤ limit
        → ((other : SessionPayload)
            → (parse_session_payload codec a (trim_space cookie) at).1 ≡ some other
            → (trim_space other.id == trim_space id) ≡ false)
        → IsRevoked a
        → IsRevoked (logout codec a cookie at now t).0
    unfolding logout
    logout-IsRevoked a cookie at now t m n apart h = elim (Bool-cases (trim_space cookie == "")) [
      | inl e ↦ rw e h
      | inr e ↦ rw e (
          end_session-IsRevoked (parse_session_payload codec a (trim_space cookie) at).0 now t
            (parse_session_payload codec a (trim_space cookie) at).1 n apart
            (parse-IsRevoked a (trim_space cookie) at m h))
    ]

    attempt-IsRevoked :
        (a : Authenticator) (name : String) (success : Bool) (now : ℕ)
        → IsRevoked a
        → IsRevoked (record_login_attempt a name success now).0
    unfolding record_login_attempt
    attempt-IsRevoked a name success now h = elim (Bool-cases (trim_space name == "")) [
      | inl e ↦ rw e h
      | inr e ↦ elim (Bool-cases success) [
        | inl g ↦ rw (e, g) (record { same_key = h.same_key; entry = h.entry })
        | inr g ↦ rw (e, g) (record { same_key = h.same_key; entry = h.entry })
      ]
    ]

    wait-IsRevoked :
        (a : Authenticator) (name : String) (now later : ℕ)
        → IsRevoked a
        → IsRevoked (login_retry_after a name now later).0
    unfolding login_retry_after
    wait-IsRevoked a name now later h = elim (Bool-cases (trim_space name == "")) [
      | inl e ↦ rw e h
      | inr e ↦ rw e (record { same_key = h.same_key; entry = h.entry })
    ]

    -- A revocation whose time is past the limit stays through all that follows, and the key always.
    pub Follows-IsRevoked :
        (start a : Authenticator) → Follows codec id limit start a → IsRevoked start → IsRevoked a
    Follows-IsRevoked start a at_once h = h
    Follows-IsRevoked start a (then_check b cookie at n f) h =
        session-IsRevoked b cookie at n (Follows-IsRevoked start b f h)
    Follows-IsRevoked start a (then_attempt b name success now f) h =
        attempt-IsRevoked b name success now (Follows-IsRevoked start b f h)
    Follows-IsRevoked start a (then_wait b name now later f) h =
        wait-IsRevoked b name now later (Follows-IsRevoked start b f h)
    Follows-IsRevoked start a (then_logout b cookie at now t n o apart f) h =
        logout-IsRevoked b cookie at now t n o apart (Follows-IsRevoked start b f h)
