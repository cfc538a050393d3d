-- ===== src/Auth/EmailVerification/OneLive.antt =====
-- internal/auth/email_verification.go: the challenges of an address under any requests.
use gang_chat_server.Base.{
  ℕ, ◌≤◌, String, Bool, true, false, not, ltb, List, [], ◌∷◌, some, ◌≡◌, refl, arith, Option-cases,
  inl, inr, if_cases,
}
use gang_chat_server.Base.Eq.{◌=?◌, string_eq}
use gang_chat_server.Auth.Challenges.{
  Challenge, is_null, by_id, update_row, consume_others, latest, retry_after, new_challenge, resent,
  wrong, verified, consumed, has_token, Reply,
}
use gang_chat_server.Auth.Challenges.Live.{
  id_count, live_count, id_count-none, id_count-update_row, live_count-update_row,
  live_count-consumed, id_count-created, live_count-created,
}
use gang_chat_server.Auth.EmailVerification.{
  can_continue, create, start, resend, verify, find_redeemable, consume,
}

-- A request, with what the server draws for it and whether the mail was sent.
pub data Request : Type 0 where
  starts : (now : ℕ) → (id email_normalized email code : String) → (sent : Bool) → Request
  resends : (now : ℕ) → (id code : String) → (sent : Bool) → Request
  verifies : (now : ℕ) → (id code secret : String) → Request
  registers : (now : ℕ) → (email_normalized secret : String) → Request

-- The primary key, and that a subject has one challenge that is not consumed.
abbrev pub IsSingle : List Challenge → Type 0
IsSingle cs = ((id : String) → id_count id cs ≤ 1) × ((s : String) → live_count s cs ≤ 1)

live_row :
    (c : Challenge) (now : ℕ) → not (can_continue c now) ≡ false → is_null c.consumed_at ≡ true
unfolding can_continue
live_row c now h = ground (arith, h)

update-IsSingle :
    (id : String) (f : Challenge → Challenge) (cs : List Challenge) {c : Challenge} (now : ℕ)
    → ((d : Challenge) → (f d).id ≡ d.id)
    → ((d : Challenge) → (f d).subject ≡ d.subject)
    → by_id id cs ≡ some c
    → not (can_continue c now) ≡ false
    → IsSingle cs
    → IsSingle (update_row id f cs)
update-IsSingle id f cs {c} now same_id same e h (keyed, single) = (
  λ j. rw (id_count-update_row j id f cs same_id) (keyed j),
  λ s.
      let fewer = live_count-update_row s id f cs same (keyed id) e (live_row c now h) in
      let most = single s in omega (arith, fewer, most),
)

module _ (code_hash : String → String → String) (token_hash : String → String) where
  unfoldable pub serve : Request → List Challenge → Reply × List Challenge
  unfolding start resend verify consume
  serve (Request.starts now id subject email code sent) cs =
      start code_hash token_hash now id subject email code sent cs
  serve (Request.resends now id code sent) cs = resend code_hash token_hash now id code sent cs
  serve (Request.verifies now id code secret) cs = verify code_hash token_hash now id code secret cs
  serve (Request.registers now subject secret) cs =
      consume code_hash token_hash now subject secret cs

  unfoldable pub serve_all : List Request → List Challenge → List Challenge
  unfolding serve
  serve_all [] cs = cs
  serve_all (r ∷ rs) cs = serve_all rs (serve r cs).1

  abbrev P : Reply × List Challenge → Type 0
  P o = IsSingle o.1

  create-IsSingle :
      (now : ℕ) (id subject email code : String) (sent : Bool) (cs : List Challenge)
      → IsSingle cs
      → P (create code_hash token_hash now id subject email code sent cs)
  unfolding create consume_others new_challenge
  create-IsSingle now id subject email code sent cs (keyed, single) =
      if_cases P (not (is_null (by_id id cs))) (λ _. (keyed, single))
        (λ fresh.
          if_cases P (not sent) (λ _. (keyed, single))
            (λ _.
              let absent = id_count-none id cs (ground (arith, fresh)) in
              let c = new_challenge now id subject email (code_hash id code) in
              (
                λ j. id_count-created j now subject c cs absent (keyed j),
                λ s. live_count-created s now c cs absent (single s),
              )))

  start-IsSingle :
      (now : ℕ) (id subject email code : String) (sent : Bool) (cs : List Challenge)
      → IsSingle cs
      → P (start code_hash token_hash now id subject email code sent cs)
  unfolding start
  start-IsSingle now id subject email code sent cs h = elim (Option-cases (latest subject cs)) [
    | inl e ↦ rw (start, e) (create-IsSingle now id subject email code sent cs h)
    | inr (l, e) ↦
        rw (start, e)
          (if_cases P (ltb 0 (retry_after l now))
            (λ _. if_cases P (can_continue l now) (λ _. h) (λ _. h))
            (λ _. create-IsSingle now id subject email code sent cs h))
  ]

  resend-IsSingle :
      (now : ℕ) (id code : String) (sent : Bool) (cs : List Challenge)
      → IsSingle cs
      → P (resend code_hash token_hash now id code sent cs)
  unfolding resend
  resend-IsSingle now id code sent cs h = elim (Option-cases (by_id id cs)) [
    | inl e ↦ rw (resend, e) h
    | inr (c, e) ↦
        rw (resend, e)
          (if_cases P (not (can_continue c now)) (λ _. h)
            (λ live.
              if_cases P (ltb 0 (retry_after c now)) (λ _. h)
                (λ _.
                  if_cases P (not sent) (λ _. h)
                    (λ _.
                      update-IsSingle id (resent now (code_hash id code)) cs now (λ d. refl)
                        (λ d. refl) e live h))))
  ]

  verify-IsSingle :
      (now : ℕ) (id code secret : String) (cs : List Challenge)
      → IsSingle cs
      → P (verify code_hash token_hash now id code secret cs)
  unfolding verify
  verify-IsSingle now id code secret cs h = elim (Option-cases (by_id id cs)) [
    | inl e ↦ rw (verify, e) h
    | inr (c, e) ↦
        rw (verify, e)
          (if_cases P (not (can_continue c now)) (λ _. h)
            (λ live.
              if_cases P (not (code_hash id code =? c.code_hash))
                (λ _.
                  update-IsSingle id (wrong now c.attempts) cs now (λ d. refl) (λ d. refl) e live h)
                (λ _.
                  if_cases P (has_token (token_hash secret) cs) (λ _. h)
                    (λ _.
                      update-IsSingle id (verified now (token_hash secret)) cs now (λ d. refl)
                        (λ d. refl) e live h))))
  ]

  consume-IsSingle :
      (now : ℕ) (subject secret : String) (cs : List Challenge)
      → IsSingle cs
      → P (consume code_hash token_hash now subject secret cs)
  unfolding consume
  consume-IsSingle now subject secret cs (keyed, single) =
      elim (Option-cases (find_redeemable code_hash token_hash now subject secret cs)) [
        | inl e ↦ rw (consume, e) (keyed, single)
        | inr (c, e) ↦
            rw (consume, e)
              (
                λ j. rw (id_count-update_row j c.id (consumed now) cs (λ d. refl)) (keyed j),
                λ s.
                    let fewer = live_count-consumed s c.id (consumed now) cs (λ d. refl) in
                    let most = single s in omega (arith, fewer, most),
              )
      ]

  serve-IsSingle : (r : Request) (cs : List Challenge) → IsSingle cs → P (serve r cs)
  unfolding serve
  serve-IsSingle (Request.starts now id subject email code sent) cs h =
      start-IsSingle now id subject email code sent cs h
  serve-IsSingle (Request.resends now id code sent) cs h = resend-IsSingle now id code sent cs h
  serve-IsSingle (Request.verifies now id code secret) cs h =
      verify-IsSingle now id code secret cs h
  serve-IsSingle (Request.registers now subject secret) cs h =
      consume-IsSingle now subject secret cs h

  serve_all-IsSingle :
      (rs : List Request) (cs : List Challenge) → IsSingle cs → IsSingle (serve_all rs cs)
  unfolding serve_all
  serve_all-IsSingle [] cs h = h
  serve_all-IsSingle (r ∷ rs) cs h = serve_all-IsSingle rs (serve r cs).1 (serve-IsSingle r cs h)

  -- Whatever requests to start, resend, verify and register are served, one after the other from
  -- an empty table, an address has at most one challenge that is not consumed.
  pub one_live_challenge :
      (rs : List Request) (email_normalized : String)
      → live_count email_normalized (serve_all rs []) ≤ 1
  one_live_challenge rs email_normalized =
      (serve_all-IsSingle rs [] (λ id. omega arith, λ s. omega arith)).1 email_normalized
