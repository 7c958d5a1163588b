-- ===== src/Auth/Sessions.antt =====
-- auth.go: signed sessions, from the cookie to the principal, and how they end.
pub mod RoundTrip
pub mod Ends
pub mod Later
pub mod Authentic
use Prim.Native.String.{◌++◌ as cat}
use open_agentic_threat_defe.Go.Options.{◌>>=◌}
use open_agentic_threat_defe.Auth.Authenticator.{
  Authenticator, is_revoked, principal_for_credentials, principal_for_token, revoke, second,
}
use open_agentic_threat_defe.Auth.Roles.{Principal, UserConfig, normalize_users, session_principal}
use open_agentic_threat_defe.Go.Runtime.{Platform}
use open_agentic_threat_defe.Go.Strings.{drop_chars, has_prefix, lower, split_on, trim_space}
use open_agentic_threat_defe.Prelude.{
  Bool, List, Option, String, [], false, if◌then◌else◌, ltb, nat_eq, none, not, some, true, ℕ, ◌&&◌,
  ◌*◌, ◌+◌, ◌-◌, ◌==◌, ◌∷◌,
}

pub record SessionInfo : Type 0 where
  pub principal : Principal
  pub expires_at : ℕ

pub record SessionPayload : Type 0 where
  pub principal : Principal
  pub expires_at : ℕ
  pub issued_at : ℕ
  pub id : String

-- encoding/json on a `SessionPayload`.
pub record PayloadCodec : Type 0 where
  pub marshal : SessionPayload → String
  pub unmarshal : String → Option SessionPayload

-- The readings of the clock while a session is checked: at the pruning of the revoked ids, at the
-- comparison with the entry of the id, at the test of the age, and at the test of the expiry.
pub record Readings : Type 0 where
  pub pruned : ℕ
  pub compared : ℕ
  pub aged : ℕ
  pub checked : ℕ

-- What authentication reads of a request: the value of the cookie oatd_session ("" where there is
-- none) and the headers Authorization and X-OATD-Token.
pub record Credentials : Type 0 where
  pub cookie : String
  pub authorization : String
  pub token_header : String

module _ ⦃p : Platform⦄ where
  -- deriveSessionKey, where no key is the empty text
  unfoldable pub derive_session_key : String → String
  derive_session_key secret =
      if trim_space secret == "" then "" else p.sha256_bytes (trim_space secret)

  -- New, with the value of OATD_SESSION_SECRET
  unfoldable pub new_authenticator : List UserConfig → String → String → Authenticator
  unfolding derive_session_key
  new_authenticator users legacy_token secret = record {
    users = normalize_users users;
    legacy_hash = if legacy_token == "" then "" else p.sha256_hex legacy_token;
    session_ttl = 12 * 3600 * second;
    session_key = derive_session_key secret;
    logins = [];
    revoked = [];
  }

  unfoldable pub sign_session : String → String → String
  sign_session key payload =
      cat (p.to_base64_raw_url payload)
        (String.◌∷◌ "." (p.to_base64_raw_url (p.hmac_bytes key payload)))

  unfoldable pub verify_parts : String → List String → Option String
  verify_parts key (x ∷ y ∷ []) = do
    payload ← p.base64_raw_url x
    expected ← p.base64_raw_url y
    if p.hmac_bytes key payload == expected then some payload else none
  verify_parts key parts = none

  unfoldable pub verify_session : String → String → Option String
  unfolding verify_parts
  verify_session key token = verify_parts key (split_on "." token)

  -- readToken
  unfoldable pub read_token : Credentials → String
  read_token r =
      if has_prefix (lower r.authorization) "bearer "
      then trim_space (drop_chars 7 r.authorization)
      else trim_space r.token_header

module _ ⦃p : Platform⦄ (codec : PayloadCodec) where
  -- issueSession: `jti` is the new session id, `none` where no random bytes could be read. No key is
  -- an error.
  unfoldable pub issue_session : Authenticator → SessionInfo → Option String → ℕ → Option String
  issue_session a opened jti now = if a.session_key == "" then none else do
    id ← jti
    some (
        sign_session a.session_key (
          codec.marshal (record {
            principal = opened.principal;
            expires_at = opened.expires_at;
            issued_at = now;
            id = id;
          })))

  -- MintSession: `now` is the clock for the expiry, `later` the clock for the time of issue.
  unfoldable pub mint_session :
      Authenticator → Principal → Option String → ℕ → ℕ → Option (SessionInfo × String)
  unfolding issue_session
  mint_session a principal jti now later =
      let opened : SessionInfo = record {
        principal = session_principal principal;
        expires_at = now + a.session_ttl;
      } in
      do token ← issue_session a opened jti later; some (opened, token)

  unfoldable pub login :
      Authenticator → String → String → Option String → ℕ → ℕ → Option (SessionInfo × String)
  unfolding mint_session
  login a username token jti now later = do
    principal ← principal_for_credentials a username token
    mint_session a principal jti now later

  -- The part of parseSessionPayload before the test of the revoked ids: the signed payload of a
  -- token.
  unfoldable pub signed_payload : Authenticator → String → Option SessionPayload
  signed_payload a token = if a.session_key == "" then none else do
    data_text ← verify_session a.session_key token
    payload ← codec.unmarshal data_text
    if payload.principal.name == "" then none else some payload

  -- The rest of parseSessionPayload.
  unfoldable pub live_payload :
      Authenticator → Readings → SessionPayload → Authenticator × Option SessionPayload
  live_payload a at payload =
      let (a', gone) = is_revoked a payload.id at.pruned at.compared in
      (
        a',
        if gone
            then none
            else if not (nat_eq payload.issued_at 0)
                && ltb a.session_ttl (at.aged - payload.issued_at)
            then none
            else some payload,
      )

  unfoldable pub live_or_none :
      Authenticator → Readings → Option SessionPayload → Authenticator × Option SessionPayload
  unfolding live_payload
  live_or_none a at none = (a, none)
  live_or_none a at (some payload) = live_payload a at payload

  unfoldable pub parse_session_payload :
      Authenticator → String → Readings → Authenticator × Option SessionPayload
  unfolding live_or_none
  parse_session_payload a token at = live_or_none a at (signed_payload a token)

  unfoldable pub unexpired : Readings → Option SessionPayload → Option SessionInfo
  unexpired at none = none
  unexpired at (some payload) =
      if ltb payload.expires_at at.checked
      then none
      else some (record { principal = payload.principal; expires_at = payload.expires_at })

  -- Session
  unfoldable pub session : Authenticator → String → Readings → Authenticator × Option SessionInfo
  unfolding unexpired
  session a cookie at =
      let token = trim_space cookie in
      let (a', payload) = parse_session_payload a token at in
      if token == "" then (a, none) else (a', unexpired at payload)

  unfoldable pub end_session : Authenticator → ℕ → ℕ → Option SessionPayload → Authenticator × Bool
  end_session a now pruned none = (a, false)
  end_session a now pruned (some payload) =
      let until = if nat_eq payload.expires_at 0 then now + a.session_ttl else payload.expires_at in
      (revoke a payload.id until pruned, true)

  -- Logout: `now` is the clock for a session without expiry, `pruned` the clock of `revoke`.
  unfoldable pub logout : Authenticator → String → Readings → ℕ → ℕ → Authenticator × Bool
  unfolding end_session
  logout a cookie at now pruned =
      let token = trim_space cookie in
      let (a', payload) = parse_session_payload a token at in
      if token == "" then (a, false) else end_session a' now pruned payload

  unfoldable pub or_token : Authenticator → Credentials → Option SessionInfo → Option Principal
  or_token a r (some opened) = some opened.principal
  or_token a r none =
      let token = read_token r in
      if token == "" then none else principal_for_token a (p.sha256_hex token)

  -- Authenticate
  unfoldable pub authenticate :
      Authenticator → Credentials → Readings → Authenticator × Option Principal
  unfolding or_token
  authenticate a r at = let (a', opened) = session a r.cookie at in (a', or_token a' r opened)
