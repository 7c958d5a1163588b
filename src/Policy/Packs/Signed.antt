-- ===== src/Policy/Packs/Signed.antt =====
-- Which manifests are loaded where a signing key is configured.
use open_agentic_threat_defe.Go.Results.{>>=-inl}
use open_agentic_threat_defe.Go.Runtime.{Platform}
use open_agentic_threat_defe.Go.Strings.{trim_space}
use open_agentic_threat_defe.Policy.Engine.{ThreatPack}
use open_agentic_threat_defe.Policy.Packs.{
  PackFiles, compare_signature, completed_pack, load_threat_pack, manifest_hmac_key, signature_path,
  verify_threat_pack_signature,
}
use open_agentic_threat_defe.Prelude.{
  Bool-cases, String, ap, sym, eq_refl, ◌∙◌, arith, eq_iff, false, inl, inr, refl, ◌==◌, ◌↔◌, ◌≡◌,
  ◌⊎◌,
}

module _ ⦃p : Platform⦄ (os : PackFiles) where
  -- The manifest has a signature beside it, the digest of its text under the configured key, and the
  -- pack is the one that the text decodes to, with its gaps filled.
  pub record IsSigned (path : String) (pack : ThreatPack) : Type 0 where
    pub manifest : String
    pub signature : String
    pub decoded : ThreatPack
    pub manifest_read : os.read_file path ≡ inl manifest
    pub signature_read : os.read_file (signature_path os path) ≡ inl signature
    pub signature_matches : p.hmac_hex (manifest_hmac_key os) manifest ≡ trim_space signature
    pub decodes : os.decode_pack manifest ≡ inl decoded
    pub is_completed : pack ≡ completed_pack decoded

  compare_signature-inl :
      (path expected s : String) (sig : String ⊎ String)
      → compare_signature os path expected sig ≡ inl s
      → (sig ≡ inl s) × (expected ≡ trim_space s)
  unfolding compare_signature
  compare_signature-inl path expected s (inr err) h = absurd (cc)
  compare_signature-inl path expected s (inl sig) h =
      elim (Bool-cases (expected == trim_space sig)) [
        | inr e ↦ absurd (ground arith)
        | inl e ↦
            let same : sig ≡ s = ground arith in
            (cc, (eq_iff expected (trim_space sig)).0 e ∙ ap (λ t. trim_space t) same)
      ]

  -- With a key, what passes the check is the text itself, and there is a signature that matches it.
  verified-inl :
      (path text c : String)
      → (manifest_hmac_key os == "") ≡ false
      → verify_threat_pack_signature os path text ≡ inl c
      → (c ≡ text)
        × (s : String) × (os.read_file (signature_path os path) ≡ inl s)
        × (p.hmac_hex (manifest_hmac_key os) text ≡ trim_space s)
  unfolding verify_threat_pack_signature
  verified-inl path text c key h =
      let expected = p.hmac_hex (manifest_hmac_key os) text in
      let (s, a, b) =
        >>=-inl (compare_signature os path expected (os.read_file (signature_path os path)))
          (λ s. inl text) c (rw key at h) in
      let (read, same) = compare_signature-inl path expected s _ a in (cc, s, read, same)

  verified-signed :
      (path text s : String)
      → (manifest_hmac_key os == "") ≡ false
      → os.read_file (signature_path os path) ≡ inl s
      → p.hmac_hex (manifest_hmac_key os) text ≡ trim_space s
      → verify_threat_pack_signature os path text ≡ inl text
  unfolding verify_threat_pack_signature compare_signature
  verified-signed path text s key a b = rw (key, a, b, eq_refl (trim_space s)) refl

  load_threat_pack-IsSigned :
      (path : String) (pack : ThreatPack)
      → (manifest_hmac_key os == "") ≡ false
      → (trim_space path == "") ≡ false
      → load_threat_pack os path ≡ inl pack
      → IsSigned path pack
  unfolding load_threat_pack
  load_threat_pack-IsSigned path pack key named h =
      let (text, read, h1) = >>=-inl (os.read_file path) _ pack (rw named at h) in
      let (c, checked, h2) = >>=-inl (verify_threat_pack_signature os path text) _ pack h1 in
      let (decoded, decodes, h3) = >>=-inl (os.decode_pack c) _ pack h2 in
      let (same, s, sig_read, matches) = verified-inl path text c key checked in
      record {
        manifest = text;
        signature = s;
        decoded = decoded;
        manifest_read = read;
        signature_read = sig_read;
        signature_matches = matches;
        decodes = ap (λ t. os.decode_pack t) (sym same) ∙ decodes;
        is_completed = cc;
      }

  load_threat_pack-loads :
      (path : String) (pack : ThreatPack)
      → (manifest_hmac_key os == "") ≡ false
      → (trim_space path == "") ≡ false
      → IsSigned path pack
      → load_threat_pack os path ≡ inl pack
  unfolding load_threat_pack
  load_threat_pack-loads path pack key named s =
      rw
        (
          named,
          s.manifest_read,
          verified-signed path s.manifest s.signature key s.signature_read s.signature_matches,
          s.decodes,
          s.is_completed,
        )
        refl

  -- With a signing key, a pack is loaded from a path exactly if it is signed. (The path is not blank:
  -- the built-in pack stands for a blank one.)
  pub load_threat_pack-IsSigned_iff :
      (path : String) (pack : ThreatPack)
      → (manifest_hmac_key os == "") ≡ false
      → (trim_space path == "") ≡ false
      → (load_threat_pack os path ≡ inl pack) ↔ IsSigned path pack
  load_threat_pack-IsSigned_iff path pack key named = (
    λ h. load_threat_pack-IsSigned path pack key named h,
    λ s. load_threat_pack-loads path pack key named s,
  )
