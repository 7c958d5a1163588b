-- ===== src/Auth/Sessions/RoundTrip.antt =====
-- A session that is minted is the one that its token opens.
use open_agentic_threat_defe.Auth.Authenticator.{Authenticator, is_revoked}
use open_agentic_threat_defe.Auth.Roles.{Principal, session_principal}
use open_agentic_threat_defe.Auth.Sessions.{
  PayloadCodec, Readings, SessionInfo, SessionPayload, issue_session, live_or_none, live_payload,
  mint_session, parse_session_payload, session, sign_session, signed_payload, unexpired,
  verify_parts, verify_session,
}
use open_agentic_threat_defe.Go.Exec.{stop}
use open_agentic_threat_defe.Go.Runtime.{Platform}
use open_agentic_threat_defe.Go.Strings.{split_on}
use open_agentic_threat_defe.Go.Strings.Splits.{
  IsCoded, cat_visible, is_solid, is_solid-cat, split_on-avoids, split_on-cat, trim_space-solid,
}
use open_agentic_threat_defe.Prelude.{
  String, [], arith, eq_refl, false, refl, some, subst, sym, true, ℕ, ◌+◌, ◌==◌, ◌∷◌, ◌≡◌, ◌≤◌,
}

module _ ⦃p : Platform⦄ where
  sign_session-parts :
      (key payload : String)
      → IsCoded payload
      → IsCoded (p.hmac_bytes key payload)
      → split_on "." (sign_session key payload)
        ≡ p.to_base64_raw_url payload ∷ p.to_base64_raw_url (p.hmac_bytes key payload) ∷ []
  unfolding sign_session
  sign_session-parts key payload c d =
      rw
        (
          split_on-cat "." (p.to_base64_raw_url payload)
              (p.to_base64_raw_url (p.hmac_bytes key payload)) c.no_stop,
          split_on-avoids "." (p.to_base64_raw_url (p.hmac_bytes key payload)) d.no_stop,
        )
        refl

  -- A payload that is signed under a key is what the signed text is verified to under that key,
  -- where base64 codes the payload and its digest.
  pub verify_session-sign_session :
      (key payload : String)
      → IsCoded payload
      → IsCoded (p.hmac_bytes key payload)
      → verify_session key (sign_session key payload) ≡ some payload
  unfolding verify_session verify_parts
  verify_session-sign_session key payload c d =
      rw
        (
          sign_session-parts key payload c d,
          c.decodes,
          d.decodes,
          eq_refl (p.hmac_bytes key payload),
        )
        refl

  pub sign_session-solid :
      (key payload : String)
      → IsCoded payload
      → IsCoded (p.hmac_bytes key payload)
      → p.is_space "." ≡ false
      → is_solid (sign_session key payload) ≡ true
  unfolding sign_session is_solid
  sign_session-solid key payload c d h =
      is_solid-cat (p.to_base64_raw_url payload)
        (String.◌∷◌ "." (p.to_base64_raw_url (p.hmac_bytes key payload))) c.no_space
        (ground (arith, d.no_space))

module _ ⦃p : Platform⦄ (codec : PayloadCodec) (a : Authenticator) (who : Principal) (id : String)
    (now later : ℕ) where
  -- The session of `MintSession`, and the payload that is signed for it.
  abbrev pub minted : SessionInfo
  minted = record { principal = session_principal who; expires_at = now + a.session_ttl }

  abbrev pub minted_payload : SessionPayload
  minted_payload = record {
    principal = session_principal who;
    expires_at = now + a.session_ttl;
    issued_at = later;
    id = id;
  }

  abbrev pub minted_token : String
  minted_token = sign_session a.session_key (codec.marshal minted_payload)

  -- The digest of the payload's text.
  abbrev pub minted_digest : String
  minted_digest = p.hmac_bytes a.session_key (codec.marshal minted_payload)

  minted_token-visible : (minted_token == "") ≡ false
  unfolding sign_session
  minted_token-visible =
      cat_visible (p.to_base64_raw_url (codec.marshal minted_payload)) "."
        (p.to_base64_raw_url minted_digest)

  minted_token-opens :
      (a.session_key == "") ≡ false
      → codec.unmarshal (codec.marshal minted_payload) ≡ some minted_payload
      → IsCoded (codec.marshal minted_payload)
      → IsCoded minted_digest
      → (who.name == "") ≡ false
      → signed_payload codec a minted_token ≡ some minted_payload
  unfolding signed_payload session_principal
  minted_token-opens key json c d name =
      rw
        (
          key,
          verify_session-sign_session a.session_key (codec.marshal minted_payload) c d,
          json,
          name,
        )
        refl

  minted_payload-live :
      (at : Readings)
      → (is_revoked a id at.pruned at.compared).1 ≡ false
      → at.aged ≤ later + a.session_ttl
      → (live_payload codec a at minted_payload).1 ≡ some minted_payload
  unfolding live_payload
  minted_payload-live at gone young = rw gone (ground arith)

  minted_token-parses :
      (at : Readings)
      → signed_payload codec a minted_token ≡ some minted_payload
      → (live_payload codec a at minted_payload).1 ≡ some minted_payload
      → (parse_session_payload codec a minted_token at).1 ≡ some minted_payload
  unfolding parse_session_payload live_or_none
  minted_token-parses at opens live =
      subst (λ o. (live_or_none codec a at o).1 ≡ some minted_payload) (sym opens) live

  -- With a session key, an authenticator mints a session for every principal that has a name. Its
  -- token opens that session, with the principal's normalized tenant and roles, at any later time up
  -- to the end of its life, as long as its id is not revoked. (The codecs give back what they were
  -- given for this payload, and a full stop is no space.)
  pub session-mint_session :
      (at : Readings)
      → (a.session_key == "") ≡ false
      → codec.unmarshal (codec.marshal minted_payload) ≡ some minted_payload
      → IsCoded (codec.marshal minted_payload)
      → IsCoded minted_digest
      → p.is_space "." ≡ false
      → (who.name == "") ≡ false
      → (is_revoked a id at.pruned at.compared).1 ≡ false
      → at.aged ≤ later + a.session_ttl
      → at.checked ≤ now + a.session_ttl
      → (mint_session codec a who (some id) now later ≡ some (minted, minted_token))
        × ((session codec a minted_token at).1 ≡ some minted)
  unfolding mint_session issue_session session unexpired
  session-mint_session at key json c d stop name gone young fresh =
      let solid = sign_session-solid a.session_key (codec.marshal minted_payload) c d stop in
      let opens = minted_token-opens key json c d name in
      let live = minted_payload-live at gone young in
      (
        rw key refl,
        rw
            (
              trim_space-solid minted_token solid,
              minted_token-visible,
              minted_token-parses at opens live,
            )
            (ground arith),
      )
