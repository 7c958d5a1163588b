-- ===== src/Auth/Logins.antt =====
-- Login backoff holds as long as it says.
use open_agentic_threat_defe.Auth.Authenticator.{
  Authenticator, LoginAttempt, attempt_of, backoff, is_recent, login_attempt_ttl, login_retry_after,
  next_attempt, prune_login_attempts, record_login_attempt,
}
use open_agentic_threat_defe.Go.Maps.{Dict, lookup, lookup-filter, lookup-put, put}
use open_agentic_threat_defe.Go.Runtime.{Platform}
use open_agentic_threat_defe.Go.Strings.{trim_space}
use open_agentic_threat_defe.Prelude.{
  String, arith, eq_refl, false, if◌then◌else◌, ltb, refl, some, suc, true, zero, ℕ, ◌*◌, ◌+◌, ◌-◌,
  ◌<◌, ◌==◌, ◌∙◌, ◌^◌, ◌≡◌, ◌≤◌,
}

backoff_capped :
    (n : ℕ)
    → 8 ≤ n
    → backoff (if ltb 8 (n + 1) then 8 else n + 1)
      ≡ (if ltb n 6 then 2 ^ n * 1000000000 else 60000000000)
unfolding backoff
backoff_capped n h =
    let late : ltb 8 (n + 1) ≡ true = ground arith in
    let past : ltb n 6 ≡ false = ground arith in rw (late, past) refl

-- The delay after so many failures in a row and one more.
backoff-doubles :
    (n : ℕ)
    → backoff (if ltb 8 (n + 1) then 8 else n + 1)
      ≡ (if ltb n 6 then 2 ^ n * 1000000000 else 60000000000)
unfolding backoff
backoff-doubles zero = refl
backoff-doubles (suc zero) = refl
backoff-doubles (suc (suc zero)) = refl
backoff-doubles (suc (suc (suc zero))) = refl
backoff-doubles (suc (suc (suc (suc zero)))) = refl
backoff-doubles (suc (suc (suc (suc (suc zero))))) = refl
backoff-doubles (suc (suc (suc (suc (suc (suc zero)))))) = refl
backoff-doubles (suc (suc (suc (suc (suc (suc (suc zero))))))) = refl
backoff-doubles (suc (suc (suc (suc (suc (suc (suc (suc n)))))))) = backoff_capped _ (omega arith)

-- The attempt that a failure writes survives the pruning for a day.
lookup-pruned :
    (key : String) (now t : ℕ) (before : LoginAttempt) (logins : Dict LoginAttempt)
    → 0 < now
    → t ≤ now + login_attempt_ttl
    → lookup key (prune_login_attempts t (put key (next_attempt now before) logins))
      ≡ some (next_attempt now before)
unfolding prune_login_attempts next_attempt
lookup-pruned key now t before logins started day =
    let v = next_attempt now before in
    lookup-filter (λ e. is_recent t e.1) key v (put key v logins)
      (lookup-put key key v logins ∙ rw (eq_refl key) refl) (ground arith)

module _ ⦃p : Platform⦄ (a : Authenticator) (key : String) (now : ℕ) where
  abbrev pub failed : Authenticator × ℕ
  failed = record_login_attempt a key false now

  -- The failures in a row that the key had before, at most a day old.
  abbrev pub failures_before : ℕ
  failures_before = (attempt_of (trim_space key) (prune_login_attempts now a.logins)).failures

  -- A failed login under a key that is not blank is answered with a delay of one second, doubled for
  -- each failure in a row before it (1, 2, 4, 8, 16, 32 seconds), and of a minute from the seventh
  -- failure on. For the day after, until there is another attempt, the key is told to wait for exactly
  -- what is left of the delay. (The clock, in nanoseconds, is past Go's zero time.)
  pub failed_login_blocks :
      (t : ℕ)
      → (trim_space key == "") ≡ false
      → 0 < now
      → t ≤ now + login_attempt_ttl
      → (failed.1
          ≡ (if ltb failures_before 6 then 2 ^ failures_before * 1000000000 else 60000000000))
        × ((login_retry_after failed.0 key t t).1 ≡ now + failed.1 - t)
  unfolding record_login_attempt login_retry_after next_attempt
  failed_login_blocks t h started day =
      let logins = prune_login_attempts now a.logins in
      let before = attempt_of (trim_space key) logins in
      rw h (
        backoff-doubles before.failures,
        rw (lookup-pruned (trim_space key) now t before logins started day) (ground arith),
      )
