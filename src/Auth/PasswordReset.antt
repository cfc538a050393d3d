-- ===== src/Auth/PasswordReset.antt =====
-- internal/auth/password_reset.go. `verifyPasswordResetCode` reads the challenge and writes to it in two
-- statements with no transaction around them: `verify` is what it decides from what it read, and
-- `write` the statement that it then runs. The users' status is a
-- parameter; the other columns of their rows and the grants of sessions are not kept here.
pub mod Late
pub mod Revived
use gang_chat_server.Base.{
  ℕ, ◌+◌, String, Bool, true, false, ◌&&◌, ◌||◌, not, if◌then◌else◌, ltb, List, [], ◌∷◌, Option,
  none, some,
}
use gang_chat_server.Base.Eq.{◌=?◌, string_eq}
use gang_chat_server.Auth.Challenges.{
  Challenge, max_attempts, is_null, by_id, update_row, consume_others, latest, retry_after,
  new_challenge, resent, wrong, verified, consumed, same_token, has_token, Reply, challenge, token,
  done, cooldown, expired, not_found, invalid_code, too_many_attempts, send_failed, internal_error,
}

-- What a code is checked into.
pub data Write : Type 0 where
  counts_wrong : (id : String) → (read : ℕ) → Write
  marks_verified : (id : String) → (secret : String) → Write

pub data Decision : Type 0 where
  answers : Reply → Decision
  writes : Write → Decision

-- A challenge that is neither used nor too old.
abbrev pub is_usable : Challenge → ℕ → Bool
is_usable c now = is_null c.consumed_at && is_null c.verified_at && ltb now c.expires_at

-- UPDATE … SET consumed_at = ? WHERE user_id = ? AND consumed_at IS NULL
unfoldable pub consume_subject : ℕ → String → List Challenge → List Challenge
consume_subject now subject [] = []
consume_subject now subject (c ∷ cs) =
    (if (c.subject =? subject) && is_null c.consumed_at then consumed now c else c)
    ∷ consume_subject now subject cs

module _ (code_hash : String → String → String) (token_hash : String → String)
    (same_email : String → String → Bool) where
  -- passwordResetChallengeCanContinue
  unfoldable pub can_continue : Challenge → String → ℕ → Bool
  can_continue c email now = is_usable c now && same_email c.email email

  unfoldable pub create :
      ℕ → String → String → String → String → Bool → List Challenge → Reply × List Challenge
  unfolding by_id consume_others new_challenge retry_after
  create now id user email code sent cs =
      let c = new_challenge now id user email (code_hash id code) in
      if not (is_null (by_id id cs))
      then (internal_error, cs)
      else if not sent
      then (send_failed, cs)
      else (challenge id (retry_after c now), consume_others now user id (c ∷ cs))

  -- startPasswordReset, with the address of the user where the account is active
  unfoldable pub start :
      ℕ → String → String → Option String → String → Bool → List Challenge → Reply × List Challenge
  unfolding create latest retry_after can_continue
  start now id user none code sent cs = (not_found, cs)
  start now id user (some email) code sent cs = elim (latest user cs) [
    | none ↦ create now id user email code sent cs
    | some l ↦
        if ltb now l.resend_available_at
        then (if can_continue l email now
            then (challenge l.id (retry_after l now), cs)
            else (cooldown (retry_after l now), cs))
        else create now id user email code sent cs
  ]

  -- resendPasswordResetCode, with the present address of an active account
  unfoldable pub resend :
      ℕ → String → Option String → String → Bool → List Challenge → Reply × List Challenge
  unfolding by_id retry_after update_row
  resend now id address code sent cs = elim (by_id id cs) [
    | none ↦ (not_found, cs)
    | some c ↦ elim address [
      | none ↦ (expired, cs)
      | some email ↦
          let after = resent now (code_hash id code) c in
          if not (is_usable c now)
          then (expired, cs)
          else if not (same_email c.email email)
          then (expired, cs)
          else if ltb now c.resend_available_at
          then (challenge id (retry_after c now), cs)
          else if not sent
          then (send_failed, cs)
          else (
            challenge id (retry_after after now),
            update_row id (resent now (code_hash id code)) cs,
          )
    ]
  ]

  -- The reads of verifyPasswordResetCode, of a code of six digits
  unfoldable pub verify : ℕ → String → String → String → List Challenge → Decision
  unfolding by_id
  verify now id code secret cs = elim (by_id id cs) [
    | none ↦ answers not_found
    | some c ↦
        if not (is_usable c now)
        then answers expired
        else if not (ltb c.attempts max_attempts)
        then answers too_many_attempts
        else if not (code_hash id code =? c.code_hash)
        then writes (counts_wrong id c.attempts)
        else writes (marks_verified id secret)
  ]

  -- Its statements
  unfoldable pub write : ℕ → Write → List Challenge → Reply × List Challenge
  unfolding by_id update_row has_token
  write now (counts_wrong id read) cs = (
    if ltb (read + 1) max_attempts then invalid_code else too_many_attempts,
    update_row id (wrong now read) cs,
  )
  write now (marks_verified id secret) cs = elim (by_id id cs) [
    | none ↦ (expired, cs)
    | some c ↦
        if not (is_null c.consumed_at && is_null c.verified_at)
        then (expired, cs)
        else if has_token (token_hash secret) cs
        then (internal_error, cs)
        else (token, update_row id (verified now (token_hash secret)) cs)
  ]

  unfoldable pub redeemable : ℕ → String → Challenge → Bool
  redeemable now secret c =
      same_token (token_hash secret) c.token_hash
      && not (is_null c.verified_at)
      && is_null c.consumed_at
      && ltb now c.token_expires_at

  unfoldable pub find_redeemable : ℕ → String → List Challenge → Option Challenge
  unfolding redeemable
  find_redeemable now secret [] = none
  find_redeemable now secret (c ∷ cs) =
      if redeemable now secret c then some c else find_redeemable now secret cs

  -- completePasswordReset: the answer, the user whose password is set, and the rows. The password is
  -- set only where the user's status is still active; the answer is the same where it is not.
  unfoldable pub complete :
      (String → Bool) → ℕ → String → List Challenge → Reply × Option String × List Challenge
  unfolding find_redeemable consume_subject
  complete active now secret cs = elim (find_redeemable now secret cs) [
    | none ↦ (expired, none, cs)
    | some c ↦
        (done, if active c.subject then some c.subject else none, consume_subject now c.subject cs)
  ]

  unfoldable pub find_of_user : ℕ → String → String → List Challenge → Option Challenge
  unfolding redeemable
  find_of_user now user secret [] = none
  find_of_user now user secret (c ∷ cs) =
      if (c.subject =? user) && redeemable now secret c
      then some c
      else find_of_user now user secret cs

  -- claimPasswordResetForSession, of a session that is alive: whether the session gets its grant
  unfoldable pub claim : ℕ → String → String → List Challenge → Bool × List Challenge
  unfolding find_of_user update_row
  claim now user secret cs = elim (find_of_user now user secret cs) [
    | none ↦ (false, cs)
    | some c ↦ (true, update_row c.id (consumed now) cs)
  ]
