-- ===== src/RateLimit/SlidingWindow.antt =====
-- internal/gdmusic/ratelimit.go: at most `limit` requests in any `window`. One round of the loop of
-- `wait` runs under the limiter's lock at the time it reads; between rounds the caller sleeps, and
-- other callers may run. A cancelled context ends a call between rounds, with no request recorded.
pub mod Progress
use gang_chat_server.Base.{
  ℕ, ◌+◌, ◌-◌, ◌≤◌, ◌<◌, if◌then◌else◌, List, [], ◌∷◌, ◌++◌, ltb, leb, length, length-append,
  select, ◌≡◌, refl, ap, sym, ◌∙◌, arith, All, All-append, All-map, ltb→lt, lt→ltb,
  length-select-le, Bool-cases, inl, inr, ◌⊎◌,
}
use mathlib.Core.List.{append_assoc}

pub record RateLimiter : Type 0 where
  pub limit : ℕ
  pub window : ℕ
  pub events : List ℕ

-- `panics` is the read of `events[0]` with no event, which a limit of 0 leads to.
pub data Round : Type 0 where
  granted : Round
  sleeps : ℕ → Round
  again : Round
  panics : Round

-- The events after `now - window`, once the oldest that are not have been dropped.
unfoldable pub prune : ℕ → ℕ → List ℕ → List ℕ
prune window now [] = []
prune window now (e ∷ events) = if leb (e + window) now then prune window now events else e ∷ events

-- The wait until the oldest event leaves the window, or another round at once.
unfoldable pub blocked : ℕ → ℕ → List ℕ → Round
blocked window now [] = panics
blocked window now (e ∷ events) = if leb (e + window) now then again else sleeps (e + window - now)

unfoldable pub round : ℕ → RateLimiter → Round × RateLimiter
round now r =
    let kept = prune r.window now r.events in
    if ltb (length kept) r.limit
    then (granted, record r { events = kept ++ now ∷ [] })
    else (blocked r.window now kept, record r { events = kept })

-- The requests granted so far, oldest first.
abbrev pub note : Round → ℕ → List ℕ → List ℕ
note granted now log = log ++ now ∷ []
note _ now log = log

unfoldable pub rounds : List ℕ → RateLimiter → List ℕ → RateLimiter × List ℕ
rounds [] r log = (r, log)
rounds (now ∷ times) r log =
    let (outcome, r') = round now r in rounds times r' (note outcome now log)

-- The times do not go back.
abbrev pub Ascending : ℕ → List ℕ → Type 0
Ascending start [] = Unit
Ascending start (t ∷ ts) = (start ≤ t) × Ascending t ts

abbrev pub last : ℕ → List ℕ → ℕ
last start [] = start
last start (t ∷ ts) = last t ts

-- The requests in the window that ends at a time.
abbrev pub recent : ℕ → ℕ → List ℕ → List ℕ
recent window now = select (λ g. ltb now (g + window))

-- The log is the events that were dropped, which are out of the window, and the ones kept.
record Inv (r : RateLimiter) (log : List ℕ) (now : ℕ) : Type 0 where
  dropped : List ℕ
  split : log ≡ dropped ++ r.events
  old : All (λ e. e + r.window ≤ now) dropped
  bounded : length r.events ≤ r.limit

prune_split :
    (window now : ℕ) (events : List ℕ)
    → (gone : List ℕ) × (events ≡ gone ++ prune window now events)
      × All (λ e. e + window ≤ now) gone
unfolding prune
prune_split window now [] = ([], refl, tt)
prune_split window now (e ∷ events) = elim (Bool-cases (leb (e + window) now)) [
  | inl h ↦
      let (gone, s, o) = prune_split window now events in
      (e ∷ gone, rw h (ap (◌∷◌ e) s), (ground arith, o))
  | inr h ↦ ([], rw h, tt)
]

pub length-prune-le :
    (window now : ℕ) (events : List ℕ) → length (prune window now events) ≤ length events
unfolding prune
length-prune-le window now [] = omega arith
length-prune-le window now (e ∷ events) = ground (arith, length-prune-le window now events)

note-blocked : (window now : ℕ) (kept log : List ℕ) → note (blocked window now kept) now log ≡ log
unfolding blocked
note-blocked window now [] log = refl
note-blocked window now (e ∷ kept) log = ground arith

round-Inv :
    (now before : ℕ) (r : RateLimiter) (log : List ℕ)
    → before ≤ now
    → Inv r log before
    → Inv (round now r).1 (note (round now r).0 now log) now
unfolding round
round-Inv now before r log h inv =
    let kept = prune r.window now r.events in
    let (gone, s, o) = prune_split r.window now r.events in
    let older =
      All-map (λ e. e + r.window ≤ before) (λ e. e + r.window ≤ now) inv.dropped
        (λ e k. omega arith) inv.old in
    let all_old = All-append (λ e. e + r.window ≤ now) inv.dropped gone older o in
    let split : log ≡ (inv.dropped ++ gone) ++ kept =
      inv.split ∙ ap (◌++◌ inv.dropped) s ∙ sym (append_assoc inv.dropped gone kept) in
    let shorter = length-prune-le r.window now r.events in
    elim (Bool-cases (ltb (length kept) r.limit)) [
      | inl room ↦ rw room (record {
        dropped = inv.dropped ++ gone;
        split = ap (λ l. l ++ now ∷ []) split ∙ append_assoc (inv.dropped ++ gone) kept _;
        old = all_old;
        bounded = omega (arith, length-append kept (now ∷ []), ltb→lt _ _ room);
      })
      | inr full ↦
          rw (full, note-blocked r.window now kept log)
            (record {
              dropped = inv.dropped ++ gone;
              split = split;
              old = all_old;
              bounded = omega (arith, shorter, inv.bounded);
            })
    ]

pub limits_kept :
    (now : ℕ) (r : RateLimiter)
    → ((round now r).1.limit ≡ r.limit) × ((round now r).1.window ≡ r.window)
unfolding round
limits_kept now r = ground arith

rounds-Inv :
    (times : List ℕ) (start : ℕ) (r : RateLimiter) (log : List ℕ)
    → Ascending start times
    → Inv r log start
    → Inv (rounds times r log).0 (rounds times r log).1 (last start times)
unfolding rounds
rounds-Inv [] start r log asc inv = inv
rounds-Inv (now ∷ times) start r log asc inv =
    rounds-Inv times now (round now r).1 (note (round now r).0 now log) asc.1
      (round-Inv now start r log asc.0 inv)

pub rounds_limits :
    (times : List ℕ) (r : RateLimiter) (log : List ℕ)
    → ((rounds times r log).0.limit ≡ r.limit) × ((rounds times r log).0.window ≡ r.window)
unfolding rounds
rounds_limits [] r log = (refl, refl)
rounds_limits (now ∷ times) r log =
    let (a, c) = limits_kept now r in
    let (a', c') = rounds_limits times (round now r).1 (note (round now r).0 now log) in
    (a' ∙ a, c' ∙ c)

recent_old :
    (window now : ℕ) (old new : List ℕ)
    → All (λ e. e + window ≤ now) old
    → recent window now (old ++ new) ≡ recent window now new
recent_old window now [] new h = refl
recent_old window now (e ∷ old) new h = ground (arith, recent_old window now old new h.1)

-- A new limiter whose rounds come at ascending times never grants more rounds than its limit
-- within one window.
pub rounds_within_limit :
    (limit window start : ℕ) (times : List ℕ)
    → Ascending start times
    → let r : RateLimiter = record { limit = limit; window = window; events = [] } in
      length (recent window (last start times) (rounds times r []).1) ≤ limit
rounds_within_limit limit window start times asc =
    let r : RateLimiter = record { limit = limit; window = window; events = [] } in
    let inv =
      rounds-Inv times start r [] asc
        (record { dropped = []; split = refl; old = tt; bounded = omega arith }) in
    let (l, w) = rounds_limits times r [] in
    rw (inv.split, recent_old window (last start times) inv.dropped _ (rw w at inv.old))
      (omega (
        arith,
        l,
        inv.bounded,
        length-select-le (λ g. ltb (last start times) (g + window)) (rounds times r []).0.events,
      ))
