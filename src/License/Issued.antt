-- ===== src/License/Issued.antt =====
-- A license that was issued is the one that its token is evaluated to.
use Prim.Native.String.{◌++◌ as cat}
use open_agentic_threat_defe.Go.Exec.{stop}
use open_agentic_threat_defe.Go.Runtime.{Platform}
use open_agentic_threat_defe.Go.Strings.{cut_at, trim_space}
use open_agentic_threat_defe.Go.Strings.Splits.{
  IsCoded, cut_at-cat, is_solid, is_solid-cat, trim_space-solid,
}
use open_agentic_threat_defe.License.{
  License, Vendor, completed, decode_private_key, decode_public_key, evaluate, issue, judge, verify,
  verify_payload,
}
use open_agentic_threat_defe.Prelude.{
  String, arith, false, inl, ltb, nat_eq, not, refl, some, true, ℕ, ◌&&◌, ◌≡◌,
}

module _ ⦃p : Platform⦄ (vendor : Vendor) where
  -- Signing and verifying with a pair of keys: `private_key` and `public_key` are their texts, and
  -- base64 codes the license's text and its signature.
  pub record KeyPair (private_key public_key payload : String) : Type 0 where
    pub signing : String
    pub checking : String
    pub private_ok : decode_private_key vendor private_key ≡ inl signing
    pub public_ok : decode_public_key vendor public_key ≡ inl checking
    pub pair : vendor.verifies checking payload (vendor.sign signing payload) ≡ true
    pub payload_coded : IsCoded payload
    pub sig_coded : IsCoded (vendor.sign signing payload)

  -- The token that the license's text and its signature make.
  abbrev token_of : String → String → String
  token_of payload sig =
      cat (p.to_base64_raw_url payload) (String.◌∷◌ "." (p.to_base64_raw_url sig))

  token-cut :
      (payload sig : String)
      → IsCoded payload
      → IsCoded sig
      → p.is_space "." ≡ false
      → cut_at "." (trim_space (token_of payload sig))
        ≡ some (p.to_base64_raw_url payload, p.to_base64_raw_url sig)
  unfolding is_solid
  token-cut payload sig c d stop =
      let solid =
        is_solid-cat (p.to_base64_raw_url payload) (String.◌∷◌ "." (p.to_base64_raw_url sig))
          c.no_space (ground (arith, d.no_space)) in
      rw (trim_space-solid (token_of payload sig) solid)
        (cut_at-cat "." (p.to_base64_raw_url payload) (p.to_base64_raw_url sig) c.no_stop)

  verify-token :
      (private_key public_key payload : String) (l : License)
      → (k : KeyPair private_key public_key payload) → vendor.unmarshal payload ≡ inl l
      → p.is_space "." ≡ false
      → verify vendor (token_of payload (vendor.sign k.signing payload)) public_key ≡ inl l
  unfolding verify verify_payload
  verify-token private_key public_key payload l k u stop =
      rw
        (
          k.public_ok,
          token-cut payload (vendor.sign k.signing payload) k.payload_coded k.sig_coded stop,
          k.payload_coded.decodes,
          k.sig_coded.decodes,
          k.pair,
        )
        u

  judge-valid :
      (later : ℕ) (l : License)
      → (judge vendor later (inl l)).valid
        ≡ not (not (nat_eq l.expires_at 0) && ltb l.expires_at later)
  unfolding judge
  judge-valid later l = ground arith

  -- Issuing a license gives a token. Evaluating it with the key that belongs to the issuer's gives
  -- the license back, completed with its time of issue and edition, and it is valid unless it has an
  -- expiry that is past. (JSON gives back what it was given for this license, and a full stop is no
  -- space.)
  pub evaluate-issue :
      (now later : ℕ) (l : License) (private_key public_key payload : String)
      → vendor.marshal (completed now l) ≡ inl payload
      → vendor.unmarshal payload ≡ inl (completed now l)
      → KeyPair private_key public_key payload
      → p.is_space "." ≡ false
      → (token : String) × (issue vendor now l private_key ≡ inl token)
        × (evaluate vendor token public_key later ≡ judge vendor later (inl (completed now l)))
        × ((evaluate vendor token public_key later).valid
            ≡ not (not (nat_eq l.expires_at 0) && ltb l.expires_at later))
  unfolding evaluate issue completed
  evaluate-issue now later l private_key public_key payload m u k stop =
      let token = token_of payload (vendor.sign k.signing payload) in
      let verified = verify-token private_key public_key payload (completed now l) k u stop in
      (
        token,
        rw (k.private_ok, m) refl,
        rw verified refl,
        rw verified (judge-valid later (completed now l)),
      )
