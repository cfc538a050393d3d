-- ===== src/RateLimit/SlidingWindow/Progress.antt =====
-- internal/gdmusic/ratelimit.go: what becomes of a caller that has to wait.
use gang_chat_server.Base.{
  ℕ, ◌+◌, ◌≤◌, ◌<◌, List, [], ◌∷◌, ltb, leb, length, length-append, ◌≡◌, arith, lt→ltb, Bool-cases,
  inl, inr, ◌⊎◌,
}
use gang_chat_server.RateLimit.SlidingWindow.{
  RateLimiter, Round, granted, sleeps, again, panics, prune, blocked, round, note, rounds,
  length-prune-le, limits_kept, rounds_limits,
}

blocked-sleeps :
    (window now d : ℕ) (kept : List ℕ)
    → blocked window now kept ≡ sleeps d
    → (0 < d) × (length (prune window (now + d) kept) < length kept)
unfolding blocked prune
blocked-sleeps window now d [] e = cc
blocked-sleeps window now d (x ∷ kept) e =
    let shorter = length-prune-le window (now + d) kept in (ground arith, ground (arith, shorter))

round_full :
    (now d : ℕ) (r : RateLimiter)
    → (round now r).0 ≡ sleeps d
    → let kept = prune r.window now r.events in
      (blocked r.window now kept ≡ sleeps d) × ((round now r).1 ≡ record r { events = kept })
unfolding round
round_full now d r e = elim (Bool-cases (ltb (length (prune r.window now r.events)) r.limit)) [
  | inl room ↦ cc (rw room at e)
  | inr full ↦ (rw full at e, rw full)
]

round_granted :
    (now : ℕ) (r : RateLimiter)
    → length (prune r.window now r.events) < r.limit
    → (round now r).0 ≡ granted
unfolding round
round_granted now r h = rw (lt→ltb _ _ h)

length-prune-prune :
    (window t u : ℕ) (events : List ℕ)
    → length (prune window u (prune window t events)) ≤ length (prune window u events)
unfolding prune
length-prune-prune window t u [] = omega arith
length-prune-prune window t u (e ∷ events) = elim (Bool-cases (leb (e + window) t)) [
  | inl old ↦
      let shorter = length-prune-prune window t u events in
      elim (Bool-cases (leb (e + window) u)) [
        | inl h ↦ rw (old, prune, h) shorter
        | inr h ↦
            let all = length-prune-le window u (prune window t events) in
            let kept = length-prune-le window t events in rw (old, prune, h) (omega arith)
      ]
  | inr new ↦ rw (new, prune) (omega arith)
]

-- A round that is not granted leaves no more events in any later window; a granted one is logged.
unlogged_round :
    (now u : ℕ) (r : RateLimiter) (log : List ℕ)
    → (0 < length (note (round now r).0 now log))
      ⊎ (length (prune r.window u (round now r).1.events) ≤ length (prune r.window u r.events))
unfolding round
unlogged_round now u r log =
    let kept = prune r.window now r.events in
    elim (Bool-cases (ltb (length kept) r.limit)) [
      | inl room ↦ rw room (inl (omega (arith, length-append log (now ∷ []))))
      | inr full ↦ rw full (inr (length-prune-prune r.window now u r.events))
    ]

logged_stays :
    (times : List ℕ) (r : RateLimiter) (log : List ℕ)
    → 0 < length log
    → 0 < length (rounds times r log).1
unfolding rounds
logged_stays [] r log h = h
logged_stays (now ∷ times) r log h =
    logged_stays times (round now r).1 _ (note_longer (round now r).0 now log h)
  where
    note_longer :
        (o : Round) (now : ℕ) (log : List ℕ) → 0 < length log → 0 < length (note o now log)
    note_longer granted now log h = omega (arith, length-append log (now ∷ []))
    note_longer (sleeps d) now log h = h
    note_longer again now log h = h
    note_longer panics now log h = h

unlogged_rounds :
    (times : List ℕ) (u : ℕ) (r : RateLimiter) (log : List ℕ)
    → (0 < length (rounds times r log).1)
      ⊎ (length (prune r.window u (rounds times r log).0.events)
          ≤ length (prune r.window u r.events))
unfolding rounds
unlogged_rounds [] u r log = inr (omega arith)
unlogged_rounds (now ∷ times) u r log =
    let r' = (round now r).1 in
    let log' = note (round now r).0 now log in
    let (l, w) = limits_kept now r in
    elim (unlogged_round now u r log) [
      | inl logged ↦ inl (logged_stays times r' log' logged)
      | inr fewer ↦ elim (unlogged_rounds times u r' log') [
        | inl logged ↦ inl logged
        | inr rest ↦ inr (omega (arith, fewer, rw w at rest))
      ]
    ]

-- A round that has to wait, of a limiter that holds no more events than its limit, waits for a
-- positive time; and whatever rounds other callers run meanwhile, either one of them is granted,
-- or the round at the end of the wait is.
pub round-sleeps :
    (now d : ℕ) (r : RateLimiter) (others : List ℕ)
    → length r.events ≤ r.limit
    → (round now r).0 ≡ sleeps d
    → let (r', log) = rounds others (round now r).1 [] in
      (0 < d) × ((0 < length log) ⊎ ((round (now + d) r').0 ≡ granted))
round-sleeps now d r others bounded e =
    let kept = prune r.window now r.events in
    let (b, s) = round_full now d r e in
    let (pos, shorter) = blocked-sleeps r.window now d kept b in
    let waiting : RateLimiter = record r { events = kept } in
    let (l, w) = rounds_limits others waiting [] in
    let short : length (prune r.window (now + d) kept) < r.limit =
      omega (arith, shorter, bounded, length-prune-le r.window now r.events) in
    (
      pos,
      rw s (elim (unlogged_rounds others (now + d) waiting []) [
        | inl logged ↦ inl logged
        | inr fewer ↦ inr (
            round_granted (now + d) (rounds others waiting []).0
              (rw (l, w) (omega (arith, fewer, short))))
      ]),
    )
