-- ===== src/Auth/EmailVerification.antt =====
-- internal/auth/email_verification.go. Each handler is one transaction, which holds the database's
-- write lock from its begin. The hashes and the generated ids, codes and tokens are parameters, as is
-- whether the mail was sent.
pub mod Bound
pub mod OneLive
use gang_chat_server.Base.{
  ℕ, String, Bool, true, false, ◌&&◌, ◌||◌, not, if◌then◌else◌, ltb, List, [], ◌∷◌, Option, none,
  some,
}
use gang_chat_server.Base.Eq.{◌=?◌, string_eq}
use gang_chat_server.Auth.Challenges.{
  Challenge, max_attempts, is_null, by_id, update_row, consume_others, latest, retry_after,
  new_challenge, resent, wrong, verified, consumed, same_token, has_token, Reply, challenge, token,
  done, cooldown, expired, invalid_code, send_failed, internal_error,
}

-- emailVerificationChallengeCanContinue
unfoldable pub can_continue : Challenge → ℕ → Bool
can_continue c now =
    is_null c.consumed_at
    && is_null c.verified_at
    && ltb now c.expires_at
    && ltb c.attempts max_attempts

module _ (code_hash : String → String → String) (token_hash : String → String) where
  unfoldable pub create :
      ℕ → String → String → String → String → Bool → List Challenge → Reply × List Challenge
  unfolding by_id consume_others new_challenge retry_after
  create now id subject email code sent cs =
      let c = new_challenge now id subject email (code_hash id code) in
      if not (is_null (by_id id cs))
      then (internal_error, cs)
      else if not sent
      then (send_failed, cs)
      else (challenge id (retry_after c now), consume_others now subject id (c ∷ cs))

  -- startEmailVerification, of an address that may be used
  unfoldable pub start :
      ℕ → String → String → String → String → Bool → List Challenge → Reply × List Challenge
  unfolding create latest retry_after can_continue
  start now id subject email code sent cs = elim (latest subject cs) [
    | none ↦ create now id subject email code sent cs
    | some l ↦
        if ltb 0 (retry_after l now)
        then (if can_continue l now
            then (challenge l.id (retry_after l now), cs)
            else (cooldown (retry_after l now), cs))
        else create now id subject email code sent cs
  ]

  unfoldable pub resend : ℕ → String → String → Bool → List Challenge → Reply × List Challenge
  unfolding by_id can_continue retry_after update_row
  resend now id code sent cs = elim (by_id id cs) [
    | none ↦ (expired, cs)
    | some c ↦
        let after = resent now (code_hash id code) c in
        if not (can_continue c now)
        then (expired, cs)
        else if ltb 0 (retry_after c now)
        then (cooldown (retry_after c now), cs)
        else if not sent
        then (send_failed, cs)
        else (
          challenge id (retry_after after now),
          update_row id (resent now (code_hash id code)) cs,
        )
  ]

  unfoldable pub verify : ℕ → String → String → String → List Challenge → Reply × List Challenge
  unfolding by_id can_continue update_row has_token
  verify now id code secret cs = elim (by_id id cs) [
    | none ↦ (expired, cs)
    | some c ↦
        if not (can_continue c now)
        then (expired, cs)
        else if not (code_hash id code =? c.code_hash)
        then (invalid_code, update_row id (wrong now c.attempts) cs)
        else if has_token (token_hash secret) cs
        then (internal_error, cs)
        else (token, update_row id (verified now (token_hash secret)) cs)
  ]

  unfoldable pub redeemable : ℕ → String → String → Challenge → Bool
  redeemable now subject secret c =
      (c.subject =? subject)
      && same_token (token_hash secret) c.token_hash
      && not (is_null c.verified_at)
      && is_null c.consumed_at
      && ltb now c.token_expires_at

  unfoldable pub find_redeemable : ℕ → String → String → List Challenge → Option Challenge
  unfolding redeemable
  find_redeemable now subject secret [] = none
  find_redeemable now subject secret (c ∷ cs) =
      if redeemable now subject secret c then some c else find_redeemable now subject secret cs

  -- consumeEmailVerification; its error is `expired`.
  unfoldable pub consume : ℕ → String → String → List Challenge → Reply × List Challenge
  unfolding find_redeemable update_row
  consume now subject secret cs = elim (find_redeemable now subject secret cs) [
    | none ↦ (expired, cs)
    | some c ↦ (done, update_row c.id (consumed now) cs)
  ]
