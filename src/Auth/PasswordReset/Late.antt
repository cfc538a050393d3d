-- ===== src/Auth/PasswordReset/Late.antt =====
-- internal/auth/password_reset.go: wrong codes that are written after others have been.

use gang_chat_server.Base.{
  ℕ, ◌+◌, ◌<◌, String, Bool, true, false, ltb, List, [], ◌∷◌, Option, none, some, ◌≡◌, refl, arith,
}
use gang_chat_server.Base.Eq.{◌=?◌, string_eq}
use gang_chat_server.Auth.Challenges.{Challenge, max_attempts, by_id, wrong}
use gang_chat_server.Auth.Challenges.Rows.{by_id-update_row}
use gang_chat_server.Auth.PasswordReset.{counts_wrong, writes, verify, write, is_usable}

-- A challenge that is not consumed, after so many wrong codes.
abbrev pub HasAttempts : ℕ → Option Challenge → Type 0
HasAttempts n o = (c : Challenge) × (o ≡ some c) × (c.attempts ≡ n) × (c.consumed_at ≡ none)

module _ (code_hash : String → String → String) (token_hash : String → String)
    (same_email : String → String → Bool) where
  -- The statements of requests that had all read the same number of attempts, at their times.
  unfoldable pub late_writes : String → ℕ → List ℕ → List Challenge → List Challenge
  unfolding write
  late_writes id read [] cs = cs
  late_writes id read (now ∷ times) cs =
      late_writes id read times
        (write code_hash token_hash same_email now (counts_wrong id read) cs).1

  one_write :
      (id : String) (read now : ℕ) (cs : List Challenge) {c : Challenge}
      → read + 1 < max_attempts
      → by_id id cs ≡ some c
      → HasAttempts
          (read + 1)
          (by_id id (write code_hash token_hash same_email now (counts_wrong id read) cs).1)
  unfolding write
  one_write id read now cs {c} few e =
      let small : ltb (read + 1) max_attempts ≡ true = ground (arith, few) in
      (wrong now read c, by_id-update_row id (wrong now read) cs (λ d. refl) e, refl, rw small refl)

  many_writes :
      (id : String) (read : ℕ) (times : List ℕ) (cs : List Challenge)
      → read + 1 < max_attempts
      → HasAttempts (read + 1) (by_id id cs)
      → HasAttempts (read + 1) (by_id id (late_writes id read times cs))
  unfolding late_writes
  many_writes id read [] cs few h = h
  many_writes id read (now ∷ times) cs few (c, e, n, live) =
      many_writes id read times _ few (one_write id read now cs few e)

  -- On a usable password reset challenge that has at least two wrong codes left, a check of a
  -- wrong code goes on to write the number of attempts that it read plus one; and however many
  -- such checks have read the same number before the first of them writes, their writes together
  -- count one attempt, and the challenge is not consumed.
  pub guesses_at_once_count_once :
      (id : String) (now : ℕ) (times : List ℕ) (cs : List Challenge) (c : Challenge)
      → by_id id cs ≡ some c
      → is_usable c now ≡ true
      → c.attempts + 1 < max_attempts
      → ((code secret : String)
          → (code_hash id code =? c.code_hash) ≡ false
          → verify code_hash token_hash same_email now id code secret cs
            ≡ writes (counts_wrong id c.attempts))
        × HasAttempts (c.attempts + 1) (by_id id (late_writes id c.attempts (now ∷ times) cs))
  unfolding verify late_writes
  guesses_at_once_count_once id now times cs c e usable few =
      let below : ltb c.attempts max_attempts ≡ true = ground (arith, few) in
      (
        λ code secret bad. rw (verify, e) (rw (usable, below, bad) refl),
        many_writes id c.attempts times _ few (one_write id c.attempts now cs few e),
      )
