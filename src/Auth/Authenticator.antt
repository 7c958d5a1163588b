-- ===== src/Auth/Authenticator.antt =====
-- auth.go: the state of an Authenticator, login backoff, revocation and the lookup of principals.
-- Times and durations are in nanoseconds.
use open_agentic_threat_defe.Auth.Roles.{Principal, UserConfig, admin}
use open_agentic_threat_defe.Go.Exec.{attempt}
use open_agentic_threat_defe.Go.Maps.{Dict, delete, lookup, put}
use open_agentic_threat_defe.Go.Runtime.{Platform}
use open_agentic_threat_defe.Go.Strings.{trim_space}
use open_agentic_threat_defe.Prelude.{
  Bool, List, Option, String, [], false, filter, find, get_or, if◌then◌else◌, ltb, nat_eq, none,
  not, some, ℕ, ◌&&◌, ◌*◌, ◌+◌, ◌-◌, ◌==◌, ◌^◌, ◌||◌, ◌∷◌,
}

pub record LoginAttempt : Type 0 where
  pub failures : ℕ
  pub blocked_until : ℕ
  pub last_seen : ℕ

pub record Authenticator : Type 0 where
  pub users : List UserConfig
  pub legacy_hash : String
  pub session_ttl : ℕ
  pub session_key : String
  pub logins : Dict LoginAttempt
  -- session id to the time after which the entry may go
  pub revoked : Dict ℕ

abbrev pub second : ℕ
second = 1000000000

abbrev pub login_backoff_cap : ℕ
login_backoff_cap = 60 * second

abbrev pub login_attempt_ttl : ℕ
login_attempt_ttl = 24 * 3600 * second

abbrev pub no_attempt : LoginAttempt
no_attempt = record { failures = 0; blocked_until = 0; last_seen = 0 }

-- An attempt that pruneLoginAttemptsLocked keeps.
abbrev pub is_recent : ℕ → LoginAttempt → Bool
is_recent now attempt =
    let seen = if nat_eq attempt.last_seen 0 then attempt.blocked_until else attempt.last_seen in
    nat_eq seen 0 || not (ltb login_attempt_ttl (now - seen))

-- pruneLoginAttemptsLocked
unfoldable pub prune_login_attempts : ℕ → Dict LoginAttempt → Dict LoginAttempt
prune_login_attempts now = filter (λ e. is_recent now e.1)

-- pruneRevokedLocked
unfoldable pub prune_revoked : ℕ → Dict ℕ → Dict ℕ
prune_revoked now = filter (λ e. ltb now e.1)

-- The delay after the nth failure in a row.
unfoldable pub backoff : ℕ → ℕ
backoff failures =
    let delay = second * 2 ^ (failures - 1) in
    if ltb login_backoff_cap delay then login_backoff_cap else delay

unfoldable pub next_attempt : ℕ → LoginAttempt → LoginAttempt
unfolding backoff
next_attempt now attempt =
    let failures = if ltb 8 (attempt.failures + 1) then 8 else attempt.failures + 1 in
    record { failures = failures; blocked_until = now + backoff failures; last_seen = now }

abbrev pub attempt_of : String → Dict LoginAttempt → LoginAttempt
attempt_of key logins = get_or (lookup key logins) no_attempt

-- subtle.ConstantTimeCompare of two texts, of which neither is empty
unfoldable pub constant_time_equal : String → String → Bool
constant_time_equal got want = not (got == "") && (not (want == "") && got == want)

module _ ⦃p : Platform⦄ where
  -- LoginRetryAfter: `now` is the clock on entry, `later` the clock of time.Until. Where the block
  -- ends between the two, Go's duration is negative and this one is 0.
  unfoldable pub login_retry_after : Authenticator → String → ℕ → ℕ → Authenticator × ℕ
  login_retry_after a key0 now later =
      let key = trim_space key0 in
      let logins = prune_login_attempts now a.logins in
      let attempt = attempt_of key logins in
      if key == "" then (a, 0) else (
        record a { logins = logins },
        if nat_eq attempt.blocked_until 0 || not (ltb now attempt.blocked_until)
            then 0
            else attempt.blocked_until - later,
      )

  unfoldable pub record_login_attempt : Authenticator → String → Bool → ℕ → Authenticator × ℕ
  unfolding next_attempt
  record_login_attempt a key0 success now =
      let key = trim_space key0 in
      let logins = prune_login_attempts now a.logins in
      let attempt = next_attempt now (attempt_of key logins) in
      if key == ""
      then (a, 0)
      else if success
      then (record a { logins = delete key logins }, 0)
      else (record a { logins = put key attempt logins }, backoff attempt.failures)

  unfoldable pub revoke : Authenticator → String → ℕ → ℕ → Authenticator
  revoke a id0 until now =
      let id = trim_space id0 in
      if id == "" then a else record a { revoked = put id until (prune_revoked now a.revoked) }

  -- isRevoked: `now` is the clock of the pruning, `later` that of the comparison.
  unfoldable pub is_revoked : Authenticator → String → ℕ → ℕ → Authenticator × Bool
  is_revoked a id0 now later =
      let id = trim_space id0 in
      let revoked = prune_revoked now a.revoked in
      if id == "" then (a, false) else (
        record a { revoked = revoked },
        elim (lookup id revoked) [ none ↦ false | some until ↦ ltb later until ],
      )

  unfoldable pub principal_for_token : Authenticator → String → Option Principal
  principal_for_token a token_hash =
      elim (find (λ u. constant_time_equal token_hash u.token_hash) a.users) [
        | some u ↦ some (record { name = u.name; tenant = u.tenant; roles = u.roles })
        | none ↦
            if constant_time_equal token_hash a.legacy_hash
            then some (record { name = "legacy-token"; tenant = "default"; roles = admin ∷ [] })
            else none
      ]

  unfoldable pub principal_for_credentials : Authenticator → String → String → Option Principal
  principal_for_credentials a username0 token0 =
      let token = trim_space token0 in
      let username = trim_space username0 in
      if token == "" then none else elim (principal_for_token a (p.sha256_hex token)) [
        | none ↦ none
        | some principal ↦
            if not (username == "")
              && (not (p.equal_fold username principal.name)
                  && not (principal.name == "legacy-token"))
            then none
            else some principal
      ]
