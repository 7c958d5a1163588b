-- ===== src/License.antt =====
-- internal/license/license.go: tokens that the vendor signs and a deployment verifies.
pub mod Genuine
pub mod Issued
use Prim.Native.String.{◌++◌ as cat}
use open_agentic_threat_defe.Go.Results.{◌>>=◌}
use open_agentic_threat_defe.Go.Results.{fail_if, or_error}
use open_agentic_threat_defe.Go.Runtime.{Platform}
use open_agentic_threat_defe.Go.Strings.{cut_at, lower, trim_space}
use open_agentic_threat_defe.Prelude.{
  Bool, List, String, [], any, false, if◌then◌else◌, inl, inr, ltb, nat_eq, not, true, ℕ, ◌&&◌,
  ◌==◌, ◌⊎◌,
}

pub record License : Type 0 where
  pub org : String
  pub edition : String
  pub features : List String
  pub issued_at : ℕ
  pub expires_at : ℕ

pub record Status : Type 0 where
  pub license : License
  pub valid : Bool
  pub reason : String

abbrev pub no_license : License
no_license = record { org = ""; edition = ""; features = []; issued_at = 0; expires_at = 0 }

-- What the package uses of crypto/ed25519 and encoding/json. Keys, texts and signatures are byte
-- strings.
pub record Vendor : Type 0 where
  -- len(raw) is ed25519.PrivateKeySize, or PublicKeySize
  pub is_private_key : String → Bool
  pub is_public_key : String → Bool
  -- Sign(priv, message), Verify(pub, message, sig)
  pub sign : String → String → String
  pub verifies : String → String → String → Bool
  -- json.Marshal and json.Unmarshal
  pub marshal : License → String ⊎ String
  pub unmarshal : String → License ⊎ String

-- Community
abbrev pub community : Status
community = record {
  license = record no_license { edition = "community" };
  valid = false;
  reason = "no commercial license configured";
}

module _ ⦃p : Platform⦄ where
  unfoldable pub has_feature : License → String → Bool
  has_feature l name = any (λ f. lower (trim_space f) == lower (trim_space name)) l.features

  -- The license that `Issue` signs: `now` is the clock.
  unfoldable pub completed : ℕ → License → License
  completed now l = record l {
    issued_at = if nat_eq l.issued_at 0 then now else l.issued_at;
    edition = if trim_space l.edition == "" then "commercial" else l.edition;
  }

module _ ⦃p : Platform⦄ (vendor : Vendor) where
  unfoldable pub decode_private_key : String → String ⊎ String
  decode_private_key text = do
    raw ← or_error (p.base64_std (trim_space text)) "invalid base64 private key"
    fail_if (not (vendor.is_private_key raw)) "invalid ed25519 private key size" (inl raw)

  unfoldable pub decode_public_key : String → String ⊎ String
  decode_public_key text = do
    raw ← or_error (p.base64_std (trim_space text)) "invalid base64 public key"
    fail_if (not (vendor.is_public_key raw)) "invalid ed25519 public key size" (inl raw)

  unfoldable pub issue : ℕ → License → String → String ⊎ String
  unfolding completed decode_private_key
  issue now l private_key = do
    key ← decode_private_key private_key
    payload ← vendor.marshal (completed now l)
    inl (
        cat (p.to_base64_raw_url payload)
          (String.◌∷◌ "." (p.to_base64_raw_url (vendor.sign key payload))))

  -- Verify, from the two parts of the token on.
  unfoldable pub verify_payload : String → String × String → License ⊎ String
  verify_payload key (x, y) = do
    payload ← or_error (p.base64_raw_url x) "malformed license payload"
    sig ← or_error (p.base64_raw_url y) "malformed license signature"
    fail_if (not (vendor.verifies key payload sig)) "license signature is invalid"
        (vendor.unmarshal payload)

  unfoldable pub verify : String → String → License ⊎ String
  unfolding decode_public_key verify_payload
  verify token public_key = do
    key ← decode_public_key public_key
    parts ← or_error (cut_at "." (trim_space token)) "malformed license token"
    verify_payload key parts

  unfoldable pub judge : ℕ → License ⊎ String → Status
  judge now (inr err) = record { license = no_license; valid = false; reason = err }
  judge now (inl l) =
      if not (nat_eq l.expires_at 0) && ltb l.expires_at now
      then record { license = l; valid = false; reason = "license expired" }
      else record { license = l; valid = true; reason = "" }

  unfoldable pub evaluate : String → String → ℕ → Status
  unfolding verify judge
  evaluate token public_key now = judge now (verify token public_key)
