-- ===== src/Auth/Sessions/Ends.antt =====
-- A session that is logged out is over.
use open_agentic_threat_defe.Auth.Authenticator.{Authenticator, is_revoked, prune_revoked, revoke}
use open_agentic_threat_defe.Auth.Sessions.{
  PayloadCodec, Readings, SessionPayload, end_session, live_or_none, live_payload, logout,
  parse_session_payload, session, signed_payload, unexpired,
}
use open_agentic_threat_defe.Auth.Sessions.Later.{Follows, Follows-IsRevoked, IsRevoked}
use open_agentic_threat_defe.Go.Maps.{lookup, lookup-filter, lookup-put}
use open_agentic_threat_defe.Go.Runtime.{Platform}
use open_agentic_threat_defe.Go.Strings.{trim_space}
use open_agentic_threat_defe.Prelude.{
  Bool, Bool-cases, Option, String, ap, arith, eq_refl, false, if◌then◌else◌, inl, inr, ltb, nat_eq,
  none, refl, some, subst, sym, true, ℕ, ◌+◌, ◌<◌, ◌==◌, ◌∙◌, ◌≡◌, ◌≤◌, ◌⊎◌,
}

module _ ⦃p : Platform⦄ where
  revoke-key :
      (a : Authenticator) (id : String) (until now : ℕ)
      → (revoke a id until now).session_key ≡ a.session_key
  unfolding revoke
  revoke-key a id until now = ground arith

  is_revoked-key :
      (a : Authenticator) (id : String) (t u : ℕ)
      → (is_revoked a id t u).0.session_key ≡ a.session_key
  unfolding is_revoked
  is_revoked-key a id t u = ground arith

  end_session-key :
      (codec : PayloadCodec) (a : Authenticator) (now pruned : ℕ) (o : Option SessionPayload)
      → (end_session codec a now pruned o).0.session_key ≡ a.session_key
  unfolding end_session
  end_session-key codec a now pruned none = refl
  end_session-key codec a now pruned (some q) =
      revoke-key a q.id (if nat_eq q.expires_at 0 then now + a.session_ttl else q.expires_at) pruned

  -- An entry whose time is not over is found by the check.
  is_revoked-entry :
      (a : Authenticator) (id : String) (until t u : ℕ)
      → (trim_space id == "") ≡ false
      → t ≤ u
      → u < until
      → lookup (trim_space id) a.revoked ≡ some until
      → (is_revoked a id t u).1 ≡ true
  unfolding is_revoked prune_revoked
  is_revoked-entry a id until t u visible m n entry =
      let kept : ltb t until ≡ true = ground arith in
      rw (visible, lookup-filter (λ e. ltb t e.1) (trim_space id) until a.revoked entry kept)
        (ground arith)

module _ ⦃p : Platform⦄ (codec : PayloadCodec) where
  live_or_none-key :
      (a : Authenticator) (at : Readings) (o : Option SessionPayload)
      → (live_or_none codec a at o).0.session_key ≡ a.session_key
  unfolding live_or_none live_payload
  live_or_none-key a at none = refl
  live_or_none-key a at (some q) = is_revoked-key a q.id at.pruned at.compared

  -- What parsing accepts is what the token was signed for.
  pub live_or_none-signed :
      (a : Authenticator) (at : Readings) (o : Option SessionPayload) (payload : SessionPayload)
      → (live_or_none codec a at o).1 ≡ some payload
      → o ≡ some payload
  unfolding live_or_none live_payload
  live_or_none-signed a at none payload h = absurd (cc)
  live_or_none-signed a at (some q) payload h = ground arith

  -- The signed payload depends on the key alone.
  signed_payload-key :
      (a b : Authenticator) (token : String)
      → a.session_key ≡ b.session_key
      → signed_payload codec a token ≡ signed_payload codec b token
  unfolding signed_payload
  signed_payload-key a b token h = rw h refl

  unexpired-late :
      (at : Readings) (o : Option SessionPayload) (payload : SessionPayload)
      → (o ≡ none) ⊎ (o ≡ some payload)
      → payload.expires_at < at.checked
      → unexpired codec at o ≡ none
  unfolding unexpired
  unexpired-late at none payload h k = refl
  unexpired-late at (some q) payload h k = ground arith

  live_payload-answer :
      (a : Authenticator) (at : Readings) (payload : SessionPayload)
      → ((live_payload codec a at payload).1 ≡ none)
        ⊎ ((live_payload codec a at payload).1 ≡ some payload)
  unfolding live_payload
  live_payload-answer a at payload = ground arith

  live_payload-revoked :
      (a : Authenticator) (at : Readings) (payload : SessionPayload)
      → (is_revoked a payload.id at.pruned at.compared).1 ≡ true
      → (live_payload codec a at payload).1 ≡ none
  unfolding live_payload
  live_payload-revoked a at payload h = rw h refl

  -- A session whose id is revoked until its expiry opens at no reading but the expiry itself.
  revoked_session :
      (a : Authenticator) (token : String) (at : Readings) (payload : SessionPayload)
      → signed_payload codec a token ≡ some payload
      → (at.compared < payload.expires_at
          → (is_revoked a payload.id at.pruned at.compared).1 ≡ true)
      → at.compared ≤ at.checked
      → nat_eq at.checked payload.expires_at ≡ false
      → unexpired codec at (parse_session_payload codec a token at).1 ≡ none
  unfolding parse_session_payload live_or_none unexpired
  revoked_session a token at payload signed gone m apart =
      subst (λ o. unexpired codec at (live_or_none codec a at o).1 ≡ none) (sym signed)
        (elim (Bool-cases (ltb at.compared payload.expires_at)) [
          | inl e ↦
              subst (λ o. unexpired codec at o ≡ none)
                (sym (live_payload-revoked a at payload (gone (ground arith)))) refl
          | inr e ↦
              unexpired-late at (live_payload codec a at payload).1 payload
                (live_payload-answer a at payload) (ground arith)
        ])

module _ ⦃p : Platform⦄ (codec : PayloadCodec) (a : Authenticator) (cookie : String)
    (payload : SessionPayload) (at : Readings) (now pruned : ℕ) where
  abbrev pub logged_out : Authenticator × Bool
  logged_out = logout codec a cookie at now pruned

  -- The authenticator after a session was found and before it is revoked.
  abbrev found_by : Authenticator
  found_by = (parse_session_payload codec a (trim_space cookie) at).0

  -- The time until which the logout revokes the session's id.
  abbrev revoked_time : ℕ
  revoked_time =
      if nat_eq payload.expires_at 0 then now + found_by.session_ttl else payload.expires_at

  -- The authenticator after the logout.
  abbrev revoked_by : Authenticator
  revoked_by = revoke found_by payload.id revoked_time pruned

  logout-revokes :
      (trim_space cookie == "") ≡ false
      → (parse_session_payload codec a (trim_space cookie) at).1 ≡ some payload
      → logged_out ≡ (revoked_by, true)
  unfolding logout end_session
  logout-revokes token opened =
      rw token (
        subst (λ o. end_session codec found_by now pruned o ≡ (revoked_by, true)) (sym opened) refl)

  logged_out-IsRevoked :
      (limit : ℕ)
      → (trim_space cookie == "") ≡ false
      → (parse_session_payload codec a (trim_space cookie) at).1 ≡ some payload
      → (trim_space payload.id == "") ≡ false
      → IsRevoked a.session_key payload.id limit revoked_time logged_out.0
  unfolding revoke live_or_none parse_session_payload
  logged_out-IsRevoked limit token opened visible =
      subst
        (λ (x : Authenticator × Bool). IsRevoked a.session_key payload.id limit revoked_time x.0)
        (sym (logout-revokes token opened))
        (record {
          same_key =
              revoke-key found_by payload.id revoked_time pruned
              ∙ live_or_none-key codec a at (signed_payload codec a (trim_space cookie));
          entry = λ past. rw visible (
              lookup-put (trim_space payload.id) (trim_space payload.id) revoked_time
                (prune_revoked pruned found_by.revoked)
              ∙ rw (eq_refl (trim_space payload.id)) refl);
        })

  -- Logging out of a session that was open, and whose id is not blank, succeeds; and the cookie then
  -- opens no session. This holds right after the logout and after any further checks of sessions,
  -- logins and logouts, if the later check reads clocks that do not go back (pruning the revocations,
  -- comparing with them, and checking the expiry, in that order), if no clock at which revocations are
  -- pruned in between is past its comparison, and if the sessions that are logged out of in between
  -- have other ids. One instant is excepted: that of the session's expiry, at which it is neither
  -- expired nor revoked.
  pub logout-ends_session :
      (later : Readings) (b : Authenticator)
      → (trim_space cookie == "") ≡ false
      → (parse_session_payload codec a (trim_space cookie) at).1 ≡ some payload
      → (trim_space payload.id == "") ≡ false
      → Follows codec payload.id later.compared logged_out.0 b
      → later.pruned ≤ later.compared
      → later.compared ≤ later.checked
      → nat_eq later.checked payload.expires_at ≡ false
      → (logged_out.1 ≡ true) × ((session codec b cookie later).1 ≡ none)
  unfolding session parse_session_payload
  logout-ends_session later b token opened visible follows m n apart =
      let kept =
        Follows-IsRevoked a.session_key payload.id later.compared revoked_time codec logged_out.0 b
          follows (logged_out-IsRevoked later.compared token opened visible) in
      let signed =
        signed_payload-key codec b a (trim_space cookie) kept.same_key
        ∙ live_or_none-signed codec a at (signed_payload codec a (trim_space cookie)) payload
            opened in
      let gone = λ (before : later.compared < payload.expires_at).
        is_revoked-entry b payload.id revoked_time later.pruned later.compared visible m
          (ground arith) (kept.entry (ground arith)) in
      (
        ap (λ (x : Authenticator × Bool). x.1) (logout-revokes token opened),
        rw token (revoked_session codec b (trim_space cookie) later payload signed gone n apart),
      )
