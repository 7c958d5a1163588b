-- ===== src/Examples/Sessions.antt =====
-- The theorems about sessions and licences at concrete inputs.
use open_agentic_threat_defe.Go.Maps.{lookup}
use open_agentic_threat_defe.Auth.Authenticator.{
  Authenticator, is_revoked, prune_login_attempts, prune_revoked, record_login_attempt, second,
}
use open_agentic_threat_defe.Auth.Roles.{normalize_roles, session_principal}
use open_agentic_threat_defe.Auth.Sessions.{
  Credentials, PayloadCodec, Readings, SessionPayload, authenticate, mint_session,
  parse_session_payload, session, signed_payload, verify_session,
}
use open_agentic_threat_defe.Auth.Sessions.Authentic.{ByToken, BySession, authenticate-IsAuthentic}
use open_agentic_threat_defe.Auth.Sessions.Ends.{logged_out, logout-ends_session}
use open_agentic_threat_defe.Auth.Sessions.Later.{at_once, then_attempt, then_check}
use open_agentic_threat_defe.Auth.Sessions.RoundTrip.{minted, minted_token, session-mint_session}
use open_agentic_threat_defe.Examples.Web.{alice, coding}
use open_agentic_threat_defe.Go.Strings.{lower, split_on, trim_space}
use open_agentic_threat_defe.Go.Strings.Splits.{is_solid, avoids}
use open_agentic_threat_defe.License.{License, Vendor, evaluate}
use open_agentic_threat_defe.License.Genuine.{Genuine, evaluate-valid_iff}
use open_agentic_threat_defe.Prelude.{
  String, [], arith, false, inl, none, refl, some, true, ◌*◌, ◌+◌, ◌==◌, ◌↔◌, ◌≡◌, ◌⊎◌,
}

abbrev keyed : Authenticator
keyed = record {
  users = [];
  legacy_hash = "";
  session_ttl = 12 * 3600 * second;
  session_key = "k";
  logins = [];
  revoked = [];
}

abbrev alice_payload : SessionPayload
alice_payload = record {
  principal = session_principal ⦃p = coding⦄ alice;
  expires_at = 7 + 12 * 3600 * second;
  issued_at = 8;
  id = "j1";
}

-- A codec for which every payload is alice's.
abbrev payload_codec : PayloadCodec
payload_codec = record { marshal = λ payload. "P"; unmarshal = λ text. some alice_payload }

abbrev soon : Readings
soon = record { pruned = 20; compared = 20; aged = 20; checked = 20 }

abbrev at_23 : Readings
at_23 = record { pruned = 23; compared = 23; aged = 23; checked = 23 }

abbrev at_24 : Readings
at_24 = record { pruned = 24; compared = 24; aged = 24; checked = 24 }

session-mint_session_example :
    (mint_session ⦃p = coding⦄ payload_codec keyed alice (some "j1") 7 8
      ≡ some (
        minted ⦃p = coding⦄ payload_codec keyed alice "j1" 7 8,
        minted_token ⦃p = coding⦄ payload_codec keyed alice "j1" 7 8,
      ))
    × ((session ⦃p = coding⦄ payload_codec keyed
          (minted_token ⦃p = coding⦄ payload_codec keyed alice "j1" 7 8)
          soon).1
        ≡ some (minted ⦃p = coding⦄ payload_codec keyed alice "j1" 7 8))
unfolding session_principal normalize_roles trim_space is_revoked prune_login_attempts is_solid
    avoids lookup prune_revoked
session-mint_session_example =
    session-mint_session ⦃p = coding⦄ payload_codec keyed alice "j1" 7 8 soon refl refl
      (record { decodes = refl; no_stop = refl; no_space = refl })
      (record { decodes = refl; no_stop = refl; no_space = refl }) refl refl refl (omega arith)
      (omega arith)

-- The cookie of alice's session.
abbrev cookie : String
cookie = "P.k#P"

-- The authenticator after alice's logout, and after a failed login of bob's and a check of her cookie.
abbrev alice_out : Authenticator
alice_out = (logged_out ⦃p = coding⦄ payload_codec keyed cookie alice_payload soon 21 21).0

abbrev bob_failed : Authenticator
bob_failed = (record_login_attempt ⦃p = coding⦄ alice_out "bob" false 22).0

abbrev checked_again : Authenticator
checked_again = (session ⦃p = coding⦄ payload_codec bob_failed cookie at_23).0

logout-ends_session_example :
    ((logged_out ⦃p = coding⦄ payload_codec keyed cookie alice_payload soon 21 21).1 ≡ true)
    × ((session ⦃p = coding⦄ payload_codec checked_again cookie at_24).1 ≡ none)
unfolding trim_space parse_session_payload signed_payload verify_session split_on session_principal
    is_revoked lookup prune_revoked
logout-ends_session_example =
    logout-ends_session ⦃p = coding⦄ payload_codec keyed cookie alice_payload soon 21 21 at_24
      checked_again refl refl refl
      (then_check bob_failed cookie at_23 (omega arith)
        (then_attempt alice_out "bob" false 22 at_once))
      (omega arith) (omega arith) refl

abbrev with_cookie : Credentials
with_cookie = record { cookie = cookie; authorization = ""; token_header = "" }

authenticate-IsAuthentic_example :
    BySession ⦃p = coding⦄ payload_codec keyed with_cookie soon alice
    ⊎ ByToken ⦃p = coding⦄ payload_codec keyed with_cookie soon alice
unfolding authenticate session trim_space parse_session_payload signed_payload verify_session
    split_on session_principal is_revoked lookup prune_revoked lower
authenticate-IsAuthentic_example =
    authenticate-IsAuthentic ⦃p = coding⦄ payload_codec keyed with_cookie soon alice refl

abbrev acme_license : License
acme_license = record {
  org = "acme";
  edition = "gold";
  features = [];
  issued_at = 5;
  expires_at = 50;
}

-- A vendor whose signature of a text is the text itself.
abbrev vendor : Vendor
vendor = record {
  is_private_key = λ s. s == "key";
  is_public_key = λ s. s == "key";
  sign = λ key text. text;
  verifies = λ key text sig. text == sig;
  marshal = λ l. inl "L";
  unmarshal = λ text. inl acme_license;
}

evaluate-valid_iff_example :
    ((evaluate ⦃p = coding⦄ vendor "L.L" "key" 30).valid ≡ true)
    ↔ Genuine ⦃p = coding⦄ vendor "L.L" "key" 30
evaluate-valid_iff_example = evaluate-valid_iff ⦃p = coding⦄ vendor "L.L" "key" 30
