-- ===== src/Auth/PasswordReset/Revived.antt =====
-- internal/auth/password_reset.go: a token that is good again after it has been used.
use mathlib.Core.Option.{some-injective}
use gang_chat_server.Base.{
  ℕ, ◌+◌, ◌<◌, String, Bool, true, ◌&&◌, not, ltb, List, [], ◌∷◌, none, some, ◌≡◌, ◌≢◌, refl, sym,
  arith, Bool-cases, Option-cases, inl, inr, if◌then◌else◌, ap, subst, ◌∙◌, All, if_cases,
}
use gang_chat_server.Base.Eq.{◌=?◌, string_eq}
use gang_chat_server.Auth.Challenges.{
  Challenge, done, max_attempts, is_null, by_id, update_row, wrong, consumed, same_token,
}
use gang_chat_server.Auth.Challenges.Rows.{by_id-update_row, All-update_row}
use gang_chat_server.Auth.PasswordReset.{
  counts_wrong, write, redeemable, find_redeemable, complete, consume_subject,
}

open_again : (a b c d : Bool) → (a && b && c && d) ≡ true → (a && b && true && true) ≡ true
open_again a b c d h = ground (arith, h)

module _ (code_hash : String → String → String) (token_hash : String → String)
    (same_email : String → String → Bool) where
  by_id-consume_subject :
      (id : String) (t : ℕ) (subject : String) (cs : List Challenge) {c : Challenge}
      → by_id id cs ≡ some c
      → by_id id (consume_subject t subject cs)
        ≡ some (if (c.subject =? subject) && is_null c.consumed_at then consumed t c else c)
  unfolding by_id consume_subject
  by_id-consume_subject id t subject [] e = cc
  by_id-consume_subject id t subject (d ∷ cs) {c} e = elim (Bool-cases (d.id =? id)) [
    | inl h ↦
        let found : d ≡ c = some-injective d c (rw (by_id, h) at e) in
        subst
          (λ x.
            by_id id (consume_subject t subject (d ∷ cs))
            ≡ some (if (x.subject =? subject) && is_null x.consumed_at then consumed t x else x))
          found
          (elim (Bool-cases ((d.subject =? subject) && is_null d.consumed_at)) [
            | inl k ↦ rw (by_id, consume_subject, k, h) refl
            | inr k ↦ rw (by_id, consume_subject, k, h) refl
          ])
    | inr g ↦ elim (Bool-cases ((d.subject =? subject) && is_null d.consumed_at)) [
      | inl k ↦
          rw (by_id, consume_subject, k, g)
            (by_id-consume_subject id t subject cs (rw (by_id, g) at e))
      | inr k ↦
          rw (by_id, consume_subject, k, g)
            (by_id-consume_subject id t subject cs (rw (by_id, g) at e))
    ]
  ]

  found :
      (id secret : String) (now : ℕ) (cs : List Challenge) {c : Challenge}
      → by_id id cs ≡ some c
      → redeemable code_hash token_hash same_email now secret c ≡ true
      → find_redeemable code_hash token_hash same_email now secret cs ≢ none
  unfolding by_id find_redeemable
  found id secret now [] e r n = cc
  found id secret now (d ∷ cs) {c} e r n =
      elim (Bool-cases (redeemable code_hash token_hash same_email now secret d)) [
        | inl k ↦ ground (arith, rw (find_redeemable, k) at n)
        | inr k ↦ elim (Bool-cases (d.id =? id)) [
          | inl h ↦
              let same : d ≡ c = some-injective d c (rw (by_id, h) at e) in
              ground (
                arith,
                k,
                r,
                ap (λ x. redeemable code_hash token_hash same_email now secret x) same,
              )
          | inr g ↦ found id secret now cs (rw (by_id, g) at e) r (rw (find_redeemable, k) at n)
        ]
      ]

  revived :
      (t now later read : ℕ) (secret : String) (b : Bool) (c : Challenge)
      → read + 1 < max_attempts
      → later < c.token_expires_at
      → redeemable code_hash token_hash same_email t secret c ≡ true
      → redeemable code_hash token_hash same_email later secret
          (wrong now read (if b then consumed t c else c))
        ≡ true
  unfolding redeemable
  revived t now later read secret b c few fresh r =
      let small : ltb (read + 1) max_attempts ≡ true = ground (arith, few) in
      let soon : ltb later c.token_expires_at ≡ true = ground (arith, fresh) in
      let again =
        open_again (same_token (token_hash secret) c.token_hash) (not (is_null c.verified_at))
          (is_null c.consumed_at) (ltb t c.token_expires_at) r in
      elim (Bool-cases b) [
        | inl k ↦ rw k (rw (redeemable, small, soon) again)
        | inr k ↦ rw k (rw (redeemable, small, soon) again)
      ]

  -- The rows with a token are those of one user.
  abbrev pub IsTokenOf : String → String → Challenge → Type 0
  IsTokenOf secret user d = same_token (token_hash secret) d.token_hash ≡ true → d.subject ≡ user

  All-consume_subject :
      (P : Challenge → Type 0) (t : ℕ) (subject : String) (cs : List Challenge)
      → ((c : Challenge) → P c → P (consumed t c))
      → All P cs
      → All P (consume_subject t subject cs)
  unfolding consume_subject
  All-consume_subject P t subject [] keeps h = tt
  All-consume_subject P t subject (c ∷ cs) keeps h = (
    if_cases P ((c.subject =? subject) && is_null c.consumed_at) (λ _. keeps c h.0) (λ _. h.0),
    All-consume_subject P t subject cs keeps h.1,
  )

  token_matches :
      (now : ℕ) (secret : String) (c : Challenge)
      → redeemable code_hash token_hash same_email now secret c ≡ true
      → same_token (token_hash secret) c.token_hash ≡ true
  unfolding redeemable
  token_matches now secret c h = elim (Bool-cases (same_token (token_hash secret) c.token_hash)) [
    | inl k ↦ k
    | inr k ↦ cc (rw k at h)
  ]

  find_redeemable-subject :
      (now : ℕ) (secret user : String) (cs : List Challenge) {d : Challenge}
      → All (IsTokenOf secret user) cs
      → find_redeemable code_hash token_hash same_email now secret cs ≡ some d
      → d.subject ≡ user
  unfolding find_redeemable redeemable
  find_redeemable-subject now secret user [] h e = cc
  find_redeemable-subject now secret user (c ∷ cs) {d} h e =
      elim (Bool-cases (redeemable code_hash token_hash same_email now secret c)) [
        | inl k ↦
            let same : c ≡ d = some-injective c d (rw (find_redeemable, k) at e) in
            ap (λ x. x.subject) (sym same) ∙ h.0 (token_matches now secret c k)
        | inr k ↦ find_redeemable-subject now secret user cs h.1 (rw (find_redeemable, k) at e)
      ]

  complete-some :
      (active : String → Bool) (now : ℕ) (secret user : String) (cs : List Challenge)
      → find_redeemable code_hash token_hash same_email now secret cs ≢ none
      → All (IsTokenOf secret user) cs
      → ((complete code_hash token_hash same_email active now secret cs).0 ≡ done)
        × ((complete code_hash token_hash same_email active now secret cs).1
            ≡ (if active user then some user else none))
  unfolding complete
  complete-some active now secret user cs h all =
      elim (Option-cases (find_redeemable code_hash token_hash same_email now secret cs)) [
        | inl e ↦ absurd (h e)
        | inr (c, e) ↦
            let same = find_redeemable-subject now secret user cs all e in
            rw (complete, e, same) (refl, refl)
      ]

  -- Where a password reset has been completed with a token, whose rows are those of one user, the
  -- late write of a wrong code for that challenge, which had read fewer than four attempts, makes
  -- the token good again until it expires: completing with it once more is answered as done, and
  -- sets the user's password again exactly if the user is still active.
  pub late_guess_revives_token :
      (active : String → Bool) (id secret : String) (t now later read : ℕ) (cs : List Challenge)
      (c : Challenge)
      → by_id id cs ≡ some c
      → All (IsTokenOf secret c.subject) cs
      → redeemable code_hash token_hash same_email t secret c ≡ true
      → read + 1 < max_attempts
      → later < c.token_expires_at
      → let (first, user, after) = complete code_hash token_hash same_email active t secret cs in
        let late = (write code_hash token_hash same_email now (counts_wrong id read) after).1 in
        let (reply, again, rows) =
          complete code_hash token_hash same_email active later secret late in
        (reply ≡ done) × (again ≡ (if active c.subject then some c.subject else none))
  unfolding complete write
  late_guess_revives_token active id secret t now later read cs c e all r few fresh =
      elim (Option-cases (find_redeemable code_hash token_hash same_email t secret cs)) [
        | inl n ↦ absurd (found id secret t cs e r n)
        | inr (d, f) ↦
            let b = (c.subject =? d.subject) && is_null c.consumed_at in
            let rows = consume_subject t d.subject cs in
            let late = update_row id (wrong now read) rows in
            let back =
              by_id-update_row id (wrong now read) rows (λ x. refl)
                (by_id-consume_subject id t d.subject cs e) in
            let kept =
              All-update_row (IsTokenOf secret c.subject) id (wrong now read) rows (λ x h. h)
                (All-consume_subject (IsTokenOf secret c.subject) t d.subject cs (λ x h. h) all) in
            let first : (complete code_hash token_hash same_email active t secret cs).2 ≡ rows =
              rw (complete, f) refl in
            rw first (
              complete-some active later secret c.subject late
                (found id secret later late back (revived t now later read secret b c few fresh r))
                kept)
      ]
