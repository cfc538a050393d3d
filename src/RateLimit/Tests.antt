-- ===== src/RateLimit/Tests.antt =====
-- internal/auth/rate_limit.go and internal/gdmusic/ratelimit.go: the theorems at one client.
use gang_chat_server.Base.{
  ℕ, ◌+◌, ◌<◌, ◌≤◌, ltb, List, [], ◌∷◌, none, ◌≡◌, refl, arith, length, ◌||◌, ◌⊎◌, if◌then◌else◌,
}
use gang_chat_server.Base.Eq.{string_eq}
use gang_chat_server.Base.Dict.{lookup}
use gang_chat_server.RateLimit.FailedLogins.{Limiter, check, record_failures, check_after_failures}
use gang_chat_server.RateLimit.SlidingWindow.{
  RateLimiter, sleeps, granted, round, rounds, recent, last, rounds_within_limit, blocked, prune,
}
use gang_chat_server.RateLimit.SlidingWindow.Progress.{round-sleeps}

abbrev limiter : Limiter
limiter = record { window = 60; max_attempts = 2; attempts = [] }

abbrev times : List ℕ
times = 10 ∷ []

no_attempts : lookup "ann" limiter.attempts ≡ none
unfolding lookup
no_attempts = refl

check_after_failures_example :
    let failed = record_failures "ann" (0 ∷ times) limiter in
    ((check "ann" 30 failed).0 ≡ (ltb 60 30 || ltb (1 + length times) 2))
    × (lookup "ann" (check "ann" 30 failed).1.attempts
        ≡ (if ltb 60 30 then none else lookup "ann" failed.attempts))
check_after_failures_example =
    check_after_failures "ann" 0 30 times limiter no_attempts (omega arith, tt)

abbrev two_per_ten : RateLimiter
two_per_ten = record { limit = 2; window = 10; events = [] }

rounds_within_limit_example :
    length (recent 10 (last 0 (1 ∷ 2 ∷ 3 ∷ [])) (rounds (1 ∷ 2 ∷ 3 ∷ []) two_per_ten []).1) ≤ 2
rounds_within_limit_example =
    rounds_within_limit 2 10 0 (1 ∷ 2 ∷ 3 ∷ []) (omega arith, (omega arith, (omega arith, tt)))

abbrev used_up : RateLimiter
used_up = record { limit = 2; window = 10; events = 1 ∷ 2 ∷ [] }

has_to_wait : (round 3 used_up).0 ≡ sleeps 8
unfolding round blocked prune
has_to_wait = refl

round-sleeps_example :
    let (r', log) = rounds (5 ∷ 7 ∷ []) (round 3 used_up).1 [] in
    (0 < 8) × ((0 < length log) ⊎ ((round (3 + 8) r').0 ≡ granted))
round-sleeps_example = round-sleeps 3 8 used_up (5 ∷ 7 ∷ []) (omega arith) has_to_wait
