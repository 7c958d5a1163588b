-- ===== src/Auth/Sessions/Authentic.antt =====
-- Whom authentication lets in.
use mathlib.Core.Option.{some-injective}
use open_agentic_threat_defe.Go.Options.{>>=-some, unless_some}
use open_agentic_threat_defe.Auth.Authenticator.{
  Authenticator, constant_time_equal, is_revoked, principal_for_token,
}
use open_agentic_threat_defe.Auth.RoleSets.{named}
use open_agentic_threat_defe.Auth.Roles.{Principal, UserConfig, admin}
use open_agentic_threat_defe.Auth.Sessions.{
  Credentials, PayloadCodec, Readings, SessionInfo, SessionPayload, authenticate, live_or_none,
  live_payload, or_token, parse_session_payload, read_token, session, signed_payload, unexpired,
  verify_parts, verify_session,
}
use open_agentic_threat_defe.Auth.Sessions.Ends.{live_or_none-signed}
use open_agentic_threat_defe.Go.Runtime.{Platform}
use open_agentic_threat_defe.Go.Strings.{split_on, trim_space}
use open_agentic_threat_defe.Prelude.{
  Bool-cases, List, Option, String, [], ap, arith, eq_iff, false, find, if◌then◌else◌, inl, inr,
  ltb, nat_eq, none, refl, some, subst, sym, true, ℕ, ◌+◌, ◌==◌, ◌∙◌, ◌∷◌, ◌≡◌, ◌≤◌, ◌⊎◌,
}

module _ ⦃p : Platform⦄ where
  -- A text is verified from two parts: itself and its digest, coded.
  verify_parts-some :
      (key t : String) (parts : List String)
      → verify_parts key parts ≡ some t
      → (x : String) × (y : String) × (parts ≡ x ∷ y ∷ [])
        × (p.base64_raw_url x ≡ some t)
        × (p.base64_raw_url y ≡ some (p.hmac_bytes key t))
  unfolding verify_parts
  verify_parts-some key t [] h = absurd (cc)
  verify_parts-some key t (x ∷ []) h = absurd (cc)
  verify_parts-some key t (x ∷ y ∷ z ∷ parts) h = absurd (cc)
  verify_parts-some key t (x ∷ y ∷ []) h =
      let (u, ux, rest) = >>=-some _ _ t h in
      let (v, vy, test) = >>=-some _ _ t rest in
      let same = checked u v test in (x, y, refl, ux ∙ ap some same.0, vy ∙ ap some same.1)
    where
      checked :
          (u v : String)
          → (if p.hmac_bytes key u == v then some u else none) ≡ some t
          → (u ≡ t) × (v ≡ p.hmac_bytes key t)
      checked u v h = elim (Bool-cases (p.hmac_bytes key u == v)) [
        | inl e ↦
            let ut : u ≡ t = some-injective u t (ground arith) in
            (ut, sym ((eq_iff (p.hmac_bytes key u) v).0 e) ∙ ap (p.hmac_bytes key) ut)
        | inr e ↦ absurd (ground arith)
      ]

module _ ⦃p : Platform⦄ (codec : PayloadCodec) where
  -- A payload that was signed comes of a verified text.
  signed_payload-some :
      (a : Authenticator) (token : String) (payload : SessionPayload)
      → signed_payload codec a token ≡ some payload
      → ((a.session_key == "") ≡ false)
        × (t : String) × (verify_session a.session_key token ≡ some t)
        × (codec.unmarshal t ≡ some payload)
        × ((payload.principal.name == "") ≡ false)
  unfolding signed_payload
  signed_payload-some a token payload h =
      let (keyed, rest) = unless_some (a.session_key == "") _ payload h in
      let (t, verified, more) = >>=-some _ _ payload rest in
      let (q, read, last) = >>=-some _ _ payload more in
      let (named, same) = unless_some (q.principal.name == "") _ payload last in
      let e : q ≡ payload = some-injective q payload same in
      (
        keyed,
        t,
        verified,
        read ∙ ap some e,
        subst (λ (x : SessionPayload). (x.principal.name == "") ≡ false) e named,
      )

  live_payload-facts :
      (a : Authenticator) (at : Readings) (payload : SessionPayload)
      → (live_payload codec a at payload).1 ≡ some payload
      → ((is_revoked a payload.id at.pruned at.compared).1 ≡ false)
        × ((nat_eq payload.issued_at 0 ≡ true) ⊎ (at.aged ≤ payload.issued_at + a.session_ttl))
  unfolding live_payload
  live_payload-facts a at payload h = ground arith

  unexpired-some :
      (at : Readings) (o : Option SessionPayload) (s : SessionInfo)
      → unexpired codec at o ≡ some s
      → (payload : SessionPayload) × (o ≡ some payload)
        × (payload.principal ≡ s.principal)
        × (at.checked ≤ payload.expires_at)
  unfolding unexpired
  unexpired-some at none s h = absurd (cc)
  unexpired-some at (some q) s h =
      let (e, same) = unless_some (ltb q.expires_at at.checked) _ s h in
      (q, refl, ap (λ (x : SessionInfo). x.principal) (some-injective _ s same), ground arith)

  -- Checking a session leaves the users and the legacy token.
  is_revoked-users :
      (a : Authenticator) (id : String) (t u : ℕ)
      → ((is_revoked a id t u).0.users ≡ a.users)
        × ((is_revoked a id t u).0.legacy_hash ≡ a.legacy_hash)
  unfolding is_revoked
  is_revoked-users a id t u = ground arith

  live_or_none-users :
      (a : Authenticator) (at : Readings) (o : Option SessionPayload)
      → ((live_or_none codec a at o).0.users ≡ a.users)
        × ((live_or_none codec a at o).0.legacy_hash ≡ a.legacy_hash)
  unfolding live_or_none live_payload
  live_or_none-users a at none = (refl, refl)
  live_or_none-users a at (some q) = is_revoked-users a q.id at.pruned at.compared

  session-users :
      (a : Authenticator) (cookie : String) (at : Readings)
      → ((session codec a cookie at).0.users ≡ a.users)
        × ((session codec a cookie at).0.legacy_hash ≡ a.legacy_hash)
  unfolding session parse_session_payload
  session-users a cookie at =
      ground (arith, live_or_none-users a at (signed_payload codec a (trim_space cookie)))

  -- The token is looked up among the users and the legacy token alone.
  or_token-users :
      (a b : Authenticator) (r : Credentials)
      → b.users ≡ a.users
      → b.legacy_hash ≡ a.legacy_hash
      → or_token codec b r none ≡ or_token codec a r none
  unfolding or_token principal_for_token
  or_token-users a b r u l = rw (u, l) refl

module _ ⦃p : Platform⦄ (codec : PayloadCodec) (a : Authenticator) (r : Credentials)
    (at : Readings) where
  -- The cookie carries a session that this server signed, that has not expired, is not too old, is
  -- not revoked, and names the principal.
  pub record BySession (who : Principal) : Type 0 where
    pub coded : String
    pub coded_digest : String
    pub payload_text : String
    pub payload : SessionPayload
    pub parts : split_on "." (trim_space r.cookie) ≡ coded ∷ coded_digest ∷ []
    pub decoded : p.base64_raw_url coded ≡ some payload_text
    pub signed : p.base64_raw_url coded_digest ≡ some (p.hmac_bytes a.session_key payload_text)
    pub read : codec.unmarshal payload_text ≡ some payload
    pub keyed : (a.session_key == "") ≡ false
    pub has_name : (payload.principal.name == "") ≡ false
    pub names : payload.principal ≡ who
    pub live : (is_revoked a payload.id at.pruned at.compared).1 ≡ false
    pub young : (nat_eq payload.issued_at 0 ≡ true) ⊎ (at.aged ≤ payload.issued_at + a.session_ttl)
    pub in_time : at.checked ≤ payload.expires_at

  -- A header carries the token of a user, or the legacy token.
  pub data ByToken (who : Principal) : Type 0 where
    of_user :
        (user : UserConfig)
        → find (λ u. constant_time_equal (p.sha256_hex (read_token r)) u.token_hash) a.users
          ≡ some user
        → who ≡ record { name = user.name; tenant = user.tenant; roles = user.roles }
        → ByToken who
    of_legacy :
        constant_time_equal (p.sha256_hex (read_token r)) a.legacy_hash ≡ true
        → who ≡ record { name = "legacy-token"; tenant = "default"; roles = admin ∷ [] }
        → ByToken who

  -- A session that the cookie opens makes its principal authentic.
  session-BySession :
      (s : SessionInfo) → (session codec a r.cookie at).1 ≡ some s → BySession s.principal
  unfolding session parse_session_payload verify_session live_or_none
  session-BySession s h =
      let token = trim_space r.cookie in
      let (payload, parsed, same, fresh) =
        unexpired-some codec at (parse_session_payload codec a token at).1 s (ground arith) in
      let signed = live_or_none-signed codec a at (signed_payload codec a token) payload parsed in
      let (keyed, t, verified, read, name) = signed_payload-some codec a token payload signed in
      let (x, y, parts, dx, dy) = verify_parts-some a.session_key t (split_on "." token) verified in
      let (live, young) =
        live_payload-facts codec a at payload
          (subst (λ o. (live_or_none codec a at o).1 ≡ some payload) signed parsed) in
      record {
        coded = x;
        coded_digest = y;
        payload_text = t;
        payload = payload;
        parts = parts;
        decoded = dx;
        signed = dy;
        read = read;
        keyed = keyed;
        has_name = name;
        names = same;
        live = live;
        young = young;
        in_time = fresh;
      }

  token-ByToken : (who : Principal) → or_token codec a r none ≡ some who → ByToken who
  unfolding or_token principal_for_token
  token-ByToken who h =
      let (visible, found) = unless_some (read_token r == "") _ who h in
      go (find (λ u. constant_time_equal (p.sha256_hex (read_token r)) u.token_hash) a.users) refl
        found
    where
      go :
          (o : Option UserConfig)
          → find (λ u. constant_time_equal (p.sha256_hex (read_token r)) u.token_hash) a.users ≡ o
          → elim o [
            | some u ↦ some (record { name = u.name; tenant = u.tenant; roles = u.roles })
            | none ↦
                if constant_time_equal (p.sha256_hex (read_token r)) a.legacy_hash
                then some (record { name = "legacy-token"; tenant = "default"; roles = admin ∷ [] })
                else none
          ]
            ≡ some who
          → ByToken who
      go (some u) e h = of_user u e (sym (some-injective _ who h))
      go none e h =
          elim (Bool-cases (constant_time_equal (p.sha256_hex (read_token r)) a.legacy_hash)) [
            | inl t ↦ of_legacy t (sym (some-injective _ who (rw t at h)))
            | inr t ↦ absurd (ground arith)
          ]

  -- Whoever is let in is authentic: the cookie carries a session that was signed under the server's
  -- key for that principal, is not revoked, not older than a session lives and not past its expiry,
  -- or a header carries a token whose digest is that of a user, who is the principal, or that of the
  -- legacy token. All of it is judged at the readings of the clock that the check makes.
  pub authenticate-IsAuthentic :
      (who : Principal) → (authenticate codec a r at).1 ≡ some who → BySession who ⊎ ByToken who
  unfolding authenticate
  authenticate-IsAuthentic who h = go (session codec a r.cookie at).1 refl h
    where
      go :
          (o : Option SessionInfo)
          → (session codec a r.cookie at).1 ≡ o
          → or_token codec (session codec a r.cookie at).0 r o ≡ some who
          → BySession who ⊎ ByToken who
      go (some s) e h =
          inl (subst BySession (some-injective s.principal who h) (session-BySession s e))
      go none e h =
          let (users, legacy) = session-users codec a r.cookie at in
          inr (
            token-ByToken who
              (sym (or_token-users codec a (session codec a r.cookie at).0 r users legacy) ∙ h))
