-- ===== src/Auth/EmailVerification/Bound.antt =====
-- internal/auth/email_verification.go: how often a code can be guessed.
use gang_chat_server.Base.{
  ℕ, ◌+◌, ◌-◌, ◌≤◌, String, Bool, true, false, not, if◌then◌else◌, List, [], ◌∷◌, Option, none,
  some, ◌≡◌, refl, arith, Option-cases, inl, inr, if_cases,
}
use gang_chat_server.Base.Eq.{◌=?◌, string_eq}
use gang_chat_server.Auth.Challenges.{
  Challenge, max_attempts, by_id, update_row, wrong, verified, has_token, Reply, expired,
  invalid_code,
}
use gang_chat_server.Auth.Challenges.Rows.{by_id-update_row}
use gang_chat_server.Auth.EmailVerification.{can_continue, verify}

-- A try: its time, its code and the token that a right code would get.
abbrev pub Try : Type 0
Try = ℕ × String × String

abbrev pub is_invalid_code : Reply → Bool
is_invalid_code invalid_code = true
is_invalid_code _ = false

module _ (code_hash : String → String → String) (token_hash : String → String) where
  -- How many of the tries of a challenge are told that the code is wrong.
  unfoldable pub wrong_tries : String → List Try → List Challenge → ℕ
  unfolding verify
  wrong_tries id [] cs = 0
  wrong_tries id ((now, code, secret) ∷ tries) cs =
      let (reply, after) = verify code_hash token_hash now id code secret cs in
      (if is_invalid_code reply then 1 else 0) + wrong_tries id tries after

  -- The tries that a challenge has left.
  abbrev left : Option Challenge → ℕ
  left none = 0
  left (some c) = max_attempts - c.attempts

  left_max : (o : Option Challenge) → left o ≤ max_attempts
  left_max none = omega arith
  left_max (some c) = omega arith

  -- The rows after the tries.
  unfoldable pub after_tries : String → List Try → List Challenge → List Challenge
  unfolding verify
  after_tries id [] cs = cs
  after_tries id ((now, code, secret) ∷ tries) cs =
      after_tries id tries (verify code_hash token_hash now id code secret cs).1

  abbrev Spent : ℕ → String → Reply × List Challenge → Type 0
  Spent n id o = (if is_invalid_code o.0 then 1 else 0) + left (by_id id o.1) ≤ n

  same_left :
      (id : String) (cs : List Challenge) {c : Challenge}
      → by_id id cs ≡ some c
      → 0 + left (by_id id cs) ≤ max_attempts - c.attempts
  same_left id cs e = rw e (omega arith)

  wrong-left :
      (now : ℕ) (id : String) (cs : List Challenge) {c : Challenge}
      → by_id id cs ≡ some c
      → not (can_continue c now) ≡ false
      → 1 + left (by_id id (update_row id (wrong now c.attempts) cs)) ≤ max_attempts - c.attempts
  unfolding can_continue
  wrong-left now id cs {c} e live =
      rw (by_id-update_row id (wrong now c.attempts) cs (λ d. refl) e) (ground (arith, live))

  verified-left :
      (now : ℕ) (id secret : String) (cs : List Challenge) {c : Challenge}
      → by_id id cs ≡ some c
      → 0 + left (by_id id (update_row id (verified now secret) cs)) ≤ max_attempts - c.attempts
  verified-left now id secret cs {c} e =
      rw (by_id-update_row id (verified now secret) cs (λ d. refl) e) (omega arith)

  verify-Spent :
      (now : ℕ) (id code secret : String) (cs : List Challenge)
      → Spent (left (by_id id cs)) id (verify code_hash token_hash now id code secret cs)
  unfolding verify
  verify-Spent now id code secret cs = elim (Option-cases (by_id id cs)) [
    | inl e ↦ rw (verify, e) (rw e (omega arith))
    | inr (c, e) ↦
        rw (verify, e)
          (if_cases (Spent (max_attempts - c.attempts) id) (not (can_continue c now))
            (λ _. same_left id cs e)
            (λ live.
              if_cases (Spent (max_attempts - c.attempts) id)
                (not (code_hash id code =? c.code_hash)) (λ _. wrong-left now id cs e live)
                (λ _.
                  if_cases (Spent (max_attempts - c.attempts) id) (has_token (token_hash secret) cs)
                    (λ _. same_left id cs e) (λ _. verified-left now id (token_hash secret) cs e))))
  ]

  wrong_tries-left :
      (id : String) (tries : List Try) (cs : List Challenge)
      → wrong_tries id tries cs + left (by_id id (after_tries id tries cs)) ≤ left (by_id id cs)
  unfolding wrong_tries after_tries
  wrong_tries-left id [] cs = omega arith
  wrong_tries-left id ((now, code, secret) ∷ tries) cs =
      let (reply, after) = verify code_hash token_hash now id code secret cs in
      let one = verify-Spent now id code secret cs in
      let rest = wrong_tries-left id tries after in omega (arith, one, rest)

  exhausted :
      (now : ℕ) (id code secret : String) (cs : List Challenge)
      → left (by_id id cs) ≡ 0
      → verify code_hash token_hash now id code secret cs ≡ (expired, cs)
  unfolding verify can_continue
  exhausted now id code secret cs h = elim (Option-cases (by_id id cs)) [
    | inl e ↦ rw (verify, e) refl
    | inr (c, e) ↦
        let none_left : max_attempts - c.attempts ≡ 0 = rw e at h in
        let over : can_continue c now ≡ false = ground (arith, none_left) in
        rw (verify, e, over) refl
  ]

  -- Of the codes tried on one challenge of an address with no resend between, at most five are
  -- answered as wrong; after five of them every further code, the right one too, is answered as
  -- expired and changes nothing.
  pub wrong_tries_bounded :
      (id : String) (tries : List Try) (cs : List Challenge)
      → (wrong_tries id tries cs ≤ max_attempts)
        × (wrong_tries id tries cs ≡ max_attempts
            → (now : ℕ) (code secret : String)
            → let after = after_tries id tries cs in
              verify code_hash token_hash now id code secret after ≡ (expired, after))
  wrong_tries_bounded id tries cs =
      let spent = wrong_tries-left id tries cs in
      let most = left_max (by_id id cs) in
      (
        omega (arith, spent, most),
        λ all now code secret.
            exhausted now id code secret (after_tries id tries cs)
              (omega (arith, spent, most, all)),
      )
