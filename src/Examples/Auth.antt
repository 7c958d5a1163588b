-- ===== src/Examples/Auth.antt =====
-- The theorems about authentication at concrete inputs.
use open_agentic_threat_defe.Auth.Authenticator.{
  Authenticator, login_retry_after, prune_login_attempts, second,
}
use open_agentic_threat_defe.Auth.Logins.{failed, failed_login_blocks}
use open_agentic_threat_defe.Go.Ascii.{ascii}
use open_agentic_threat_defe.Go.Maps.{lookup}
use open_agentic_threat_defe.Go.Strings.{trim_space}
use open_agentic_threat_defe.Prelude.{[], arith, refl, ℕ, ◌*◌, ◌+◌, ◌-◌, ◌≡◌}

abbrev empty_authenticator : Authenticator
empty_authenticator = record {
  users = [];
  legacy_hash = "";
  session_ttl = 12 * 3600 * second;
  session_key = "k";
  logins = [];
  revoked = [];
}

abbrev failed_once : Authenticator × ℕ
failed_once = failed ⦃p = ascii⦄ empty_authenticator "alice" 100

failed_login_blocks_example :
    (failed_once.1 ≡ 1000000000)
    × ((login_retry_after ⦃p = ascii⦄ failed_once.0 "alice" 150 150).1 ≡ 100 + failed_once.1 - 150)
unfolding trim_space prune_login_attempts lookup
failed_login_blocks_example =
    failed_login_blocks ⦃p = ascii⦄ empty_authenticator "alice" 100 150 refl (omega arith)
      (omega arith)
