-- ===== src/Server/Tenants/Redaction.antt =====
-- What the settings that are shown give away of a data source's password.
use Prim.Native.Char.{Char}
use Prim.Native.String.{◌++◌ as cat}
use Prim.Native.String.append
use text.Mathlib.TextLemmas.{append_assoc, cons-append, nil-append}
use open_agentic_threat_defe.Go.Runtime.{Platform}
use open_agentic_threat_defe.Go.Strings.{cut_at, trim_space}
use open_agentic_threat_defe.Go.Strings.Splits.{avoids, cut_at-cat}
use open_agentic_threat_defe.Prelude.{String, ap, arith, none, some, sym, true, refl, ◌∙◌, ◌≡◌}
use open_agentic_threat_defe.Server.Tenants.{
  hide_password, redact_tenant_dsn, starred, through_last,
}

through_last-avoids : (d : Char) (s : String) → avoids d s ≡ true → through_last d s ≡ none
unfolding through_last avoids
through_last-avoids d String.[] h = refl
through_last-avoids d (String.◌∷◌ c s) h = ground (arith, through_last-avoids d s)

-- The last of a character that the end avoids is the one in front of the end.
through_last-cat :
    (d : Char) (s t : String)
    → avoids d t ≡ true
    → through_last d (cat s (String.◌∷◌ d t)) ≡ some (cat s (String.◌∷◌ d ""))
unfolding through_last
through_last-cat d String.[] t h =
    rw (append.nil (String.◌∷◌ d t), append.nil (String.◌∷◌ d ""))
      (ground (arith, through_last-avoids d t h))
through_last-cat d (String.◌∷◌ c s) t h =
    rw (append.cons c s (String.◌∷◌ d t), append.cons c s (String.◌∷◌ d ""))
      (ground (arith, through_last-cat d s t h))

avoids-cat :
    (d : Char) (s t : String) → avoids d s ≡ true → avoids d t ≡ true → avoids d (cat s t) ≡ true
unfolding avoids
avoids-cat d String.[] t h k = rw (append.nil t) k
avoids-cat d (String.◌∷◌ c s) t h k = rw (append.cons c s t) (ground (arith, avoids-cat d s t))

avoids_colon : (s : String) → avoids "@" s ≡ true → avoids "@" (String.◌∷◌ ":" s) ≡ true
unfolding avoids
avoids_colon s h = h

module _ ⦃p : Platform⦄ where
  redact_tenant_dsn-cut :
      (value front back : String)
      → trim_space value ≡ value
      → cut_at "@" value ≡ some (front, back)
      → redact_tenant_dsn value ≡ hide_password value (some (front, back))
  unfolding redact_tenant_dsn
  redact_tenant_dsn-cut value front back whole h =
      ap (λ v. hide_password v (cut_at "@" v)) whole ∙ ap (hide_password value) h

  hide_password-last :
      (value front back kept : String)
      → through_last ":" front ≡ some kept
      → hide_password value (some (front, back)) ≡ cat kept (cat "****" (String.◌∷◌ "@" back))
  unfolding hide_password starred
  hide_password-last value front back kept h = ap (starred value back) h

  -- A data source of the form `front:password@back` is shown with stars for the password, whatever
  -- the password is. (Neither front nor password has an "@", the password has no ":", and the text
  -- has no space at its ends.)
  pub password_hidden :
      (front password back : String)
      → avoids "@" front ≡ true
      → avoids "@" password ≡ true
      → avoids ":" password ≡ true
      → trim_space (cat front (String.◌∷◌ ":" (cat password (String.◌∷◌ "@" back))))
        ≡ cat front (String.◌∷◌ ":" (cat password (String.◌∷◌ "@" back)))
      → redact_tenant_dsn (cat front (String.◌∷◌ ":" (cat password (String.◌∷◌ "@" back))))
        ≡ cat front (String.◌∷◌ ":" (cat "****" (String.◌∷◌ "@" back)))
  password_hidden front password back f q c whole =
      let stem = cat front (String.◌∷◌ ":" password) in
      let parts : cat front (String.◌∷◌ ":" (cat password (String.◌∷◌ "@" back)))
          ≡ cat stem (String.◌∷◌ "@" back) =
        ap (cat front) (sym (append.cons ":" password (String.◌∷◌ "@" back)))
        ∙ sym (append_assoc front (String.◌∷◌ ":" password) (String.◌∷◌ "@" back)) in
      let clean : avoids "@" stem ≡ true =
        avoids-cat "@" front (String.◌∷◌ ":" password) f (avoids_colon password q) in
      let stars = cat "****" (String.◌∷◌ "@" back) in
      redact_tenant_dsn-cut _ stem back whole
        (ap (cut_at "@") parts ∙ cut_at-cat "@" stem back clean)
      ∙ hide_password-last _ stem back (cat front ":") (through_last-cat ":" front password c)
      ∙ append_assoc front ":" stars
      ∙ ap (cat front) (cons-append ":" "" stars ∙ ap (String.◌∷◌ ":") (nil-append stars))
