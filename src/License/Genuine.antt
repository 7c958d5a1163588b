-- ===== src/License/Genuine.antt =====
-- Which tokens are valid.
use open_agentic_threat_defe.Go.Results.{>>=-inl, fail_if-inl, or_error-inl}
use open_agentic_threat_defe.Go.Runtime.{Platform}
use open_agentic_threat_defe.Go.Strings.{cut_at, trim_space}
use open_agentic_threat_defe.License.{
  License, Vendor, decode_public_key, evaluate, judge, verify, verify_payload,
}
use open_agentic_threat_defe.Prelude.{
  String, arith, inl, inr, nat_eq, not, refl, some, subst, sym, true, ℕ, ◌↔◌, ◌≡◌, ◌≤◌, ◌⊎◌,
}

module _ ⦃p : Platform⦄ (vendor : Vendor) (token public_key : String) (now : ℕ) where
  -- The token holds a license that carries a signature under the key, and has not expired.
  pub record Genuine : Type 0 where
    pub key : String
    pub coded : String
    pub coded_sig : String
    pub payload : String
    pub sig : String
    pub license : License
    pub key_decoded : decode_public_key vendor public_key ≡ inl key
    pub parts : cut_at "." (trim_space token) ≡ some (coded, coded_sig)
    pub decoded : p.base64_raw_url coded ≡ some payload
    pub sig_decoded : p.base64_raw_url coded_sig ≡ some sig
    pub signed : vendor.verifies key payload sig ≡ true
    pub read : vendor.unmarshal payload ≡ inl license
    pub in_time : (nat_eq license.expires_at 0 ≡ true) ⊎ (now ≤ license.expires_at)

  verify-some :
      (l : License)
      → verify vendor token public_key ≡ inl l
      → (nat_eq l.expires_at 0 ≡ true) ⊎ (now ≤ l.expires_at)
      → Genuine
  unfolding verify verify_payload
  verify-some l h fresh =
      let (key, k, h1) = >>=-inl _ _ l h in
      let ((x, y), c, h2) = >>=-inl _ _ l h1 in
      let (payload, dx, h3) = >>=-inl _ _ l h2 in
      let (sig, dy, h4) = >>=-inl _ _ l h3 in
      let (good, read) = fail_if-inl (not (vendor.verifies key payload sig)) _ _ l h4 in
      record {
        key = key;
        coded = x;
        coded_sig = y;
        payload = payload;
        sig = sig;
        license = l;
        key_decoded = k;
        parts = or_error-inl _ _ (x, y) c;
        decoded = or_error-inl _ _ payload dx;
        sig_decoded = or_error-inl _ _ sig dy;
        signed = ground arith;
        read = read;
        in_time = fresh;
      }

  Genuine-verifies : (g : Genuine) → verify vendor token public_key ≡ inl g.license
  unfolding verify verify_payload
  Genuine-verifies g = rw (g.key_decoded, g.parts, g.decoded, g.sig_decoded, g.signed) g.read

  judge-fresh :
      (l : License)
      → (nat_eq l.expires_at 0 ≡ true) ⊎ (now ≤ l.expires_at)
      → (judge vendor now (inl l)).valid ≡ true
  unfolding judge
  judge-fresh l h = ground arith

  judge-valid :
      (m : License ⊎ String)
      → (judge vendor now m).valid ≡ true
      → (l : License) × (m ≡ inl l) × ((nat_eq l.expires_at 0 ≡ true) ⊎ (now ≤ l.expires_at))
  unfolding judge
  judge-valid (inr e) h = absurd (cc)
  judge-valid (inl l) h = (l, refl, ground arith)

  -- A token is evaluated as valid exactly where it is genuine: its two parts are a license and a
  -- signature of that license's text which the public key verifies, and the license has no expiry or
  -- one that is not past. A token that fails any of these is not valid, whatever else it holds.
  pub evaluate-valid_iff : ((evaluate vendor token public_key now).valid ≡ true) ↔ Genuine
  unfolding evaluate
  evaluate-valid_iff = (
    λ h.
        let (l, verified, fresh) = judge-valid (verify vendor token public_key) h in
        verify-some l verified fresh,
    λ g.
        subst (λ m. (judge vendor now m).valid ≡ true) (sym (Genuine-verifies g))
          (judge-fresh g.license g.in_time),
  )
