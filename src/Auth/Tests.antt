-- ===== src/Auth/Tests.antt =====
-- internal/auth: runs of the challenges.
use gang_chat_server.Base.{
  ℕ, ◌≤◌, String, Bool, true, false, List, [], ◌∷◌, none, some, if◌then◌else◌, ◌≡◌, refl, arith,
}
use gang_chat_server.Base.Eq.{◌=?◌, string_eq}
use gang_chat_server.Auth.Challenges.{
  Challenge, max_attempts, by_id, update_row, expired, done, verified,
}
use gang_chat_server.Auth.Challenges.Live.{live_count}
use gang_chat_server.Auth.EmailVerification.{verify, can_continue}
use gang_chat_server.Auth.EmailVerification.Bound.{
  Try, wrong_tries, after_tries, wrong_tries_bounded,
}
use gang_chat_server.Auth.EmailVerification.OneLive.{Request, serve_all, one_live_challenge}
use gang_chat_server.Auth.PasswordReset
use gang_chat_server.Auth.PasswordReset.Late.{late_writes, HasAttempts, guesses_at_once_count_once}
use gang_chat_server.Auth.PasswordReset.Revived.{late_guess_revives_token}

-- Stand-ins for the keyed hash of an id and a code, and for the hash of a token.
abbrev hash : String → String → String
hash id code = code

abbrev token_hash : String → String
token_hash t = t

abbrev row : String → Challenge
row subject = record {
  id = "c1";
  subject = subject;
  email = "ann@x";
  code_hash = "123456";
  expires_at = 700;
  resend_available_at = 160;
  attempts = 0;
  verified_at = none;
  token_hash = none;
  token_expires_at = 0;
  consumed_at = none;
  created_at = 100;
  updated_at = 100;
}

abbrev waiting : Challenge
waiting = row "ann@x"

abbrev asked : Challenge
asked = row "ann"

abbrev guess : Try
guess = (110, "000000", "t")

abbrev guesses : List Try
guesses = guess ∷ guess ∷ guess ∷ guess ∷ guess ∷ guess ∷ []

guesses_test : wrong_tries hash token_hash "c1" guesses (waiting ∷ []) ≡ 5
unfolding wrong_tries verify by_id can_continue update_row
guesses_test = refl

wrong_tries_bounded_example :
    (wrong_tries hash token_hash "c1" guesses (waiting ∷ []) ≤ max_attempts)
    × (wrong_tries hash token_hash "c1" guesses (waiting ∷ []) ≡ max_attempts
        → (now : ℕ) (code secret : String)
        → let after = after_tries hash token_hash "c1" guesses (waiting ∷ []) in
          verify hash token_hash now "c1" code secret after ≡ (expired, after))
wrong_tries_bounded_example = wrong_tries_bounded hash token_hash "c1" guesses (waiting ∷ [])

-- Two codes for one address, a minute apart, and a code that is verified and used.
abbrev registration : List Request
registration =
    Request.starts 100 "c1" "ann@x" "ann@x" "123456" true
    ∷ Request.starts 161 "c2" "ann@x" "ann@x" "654321" true
    ∷ Request.verifies 170 "c1" "123456" "t1"
    ∷ Request.verifies 171 "c2" "654321" "t2"
    ∷ []

one_live_challenge_example : live_count "ann@x" (serve_all hash token_hash registration []) ≤ 1
one_live_challenge_example = one_live_challenge hash token_hash registration "ann@x"

abbrev same : String → String → Bool
same a b = a =? b

guesses_at_once_count_once_example :
    ((code secret : String)
      → (code =? "123456") ≡ false
      → PasswordReset.verify hash token_hash same 110 "c1" code secret (asked ∷ [])
        ≡ PasswordReset.writes (PasswordReset.counts_wrong "c1" 0))
    × HasAttempts 1 (
        by_id "c1" (
          late_writes hash token_hash same "c1" 0
            (110 ∷ 110 ∷ 110 ∷ 110 ∷ 110 ∷ 110 ∷ [])
            (asked ∷ [])))
unfolding by_id
guesses_at_once_count_once_example =
    guesses_at_once_count_once hash token_hash same "c1" 110 (110 ∷ 110 ∷ 110 ∷ 110 ∷ 110 ∷ [])
      (asked ∷ []) asked refl refl (omega arith)

-- Verified at 120 with the token "t".
abbrev proven : Challenge
proven = verified 120 "t" asked

abbrev active : String → Bool
active user = user =? "ann"

late_guess_revives_token_example :
    let (first, user, after) =
      PasswordReset.complete hash token_hash same active 130 "t" (proven ∷ []) in
    let late =
      (PasswordReset.write hash token_hash same 131 (PasswordReset.counts_wrong "c1" 0) after).1 in
    let (reply, again, rows) = PasswordReset.complete hash token_hash same active 132 "t" late in
    (reply ≡ done) × (again ≡ (if active "ann" then some "ann" else none))
unfolding by_id PasswordReset.redeemable
late_guess_revives_token_example =
    late_guess_revives_token hash token_hash same active "c1" "t" 130 131 132 0 (proven ∷ []) proven
      refl ((λ h. refl), tt) refl (omega arith) (omega arith)
