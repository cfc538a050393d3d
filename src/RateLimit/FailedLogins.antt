-- ===== src/RateLimit/FailedLogins.antt =====
-- internal/auth/rate_limit.go: failed logins are counted by key from the first failure on, for a
-- window of time. Times are numbers that grow with the clock; each method is handed the time at
-- which it runs, and runs under the limiter's lock.
use gang_chat_server.Base.{
  ℕ, ◌+◌, ◌-◌, ◌*◌, ◌≤◌, ◌<◌, String, Bool, true, false, if◌then◌else◌, List, [], ◌∷◌, none, some,
  ltb, length, ◌≡◌, refl, ◌||◌, Bool-cases, ◌∙◌, arith, All, Option-cases, inl, inr,
}
use gang_chat_server.Base.Eq.{◌=?◌, =?_refl, string_eq}
use gang_chat_server.Base.Dict.{lookup, insert, delete, lookup-insert, lookup-delete}

pub record FailedLogin : Type 0 where
  pub count : ℕ
  pub first_failed : ℕ

pub record Limiter : Type 0 where
  pub attempts : List (String × FailedLogin)
  pub max_attempts : ℕ
  pub window : ℕ

-- The window is given in seconds.
unfoldable pub new_rate_limiter : ℕ → ℕ → Limiter
new_rate_limiter max_attempts window_seconds = record {
  attempts = [];
  max_attempts = max_attempts;
  window = window_seconds * 1000000000;
}

-- `time.Since(f.FirstFailed) > r.window`
expired : Limiter → FailedLogin → ℕ → Bool
expired r f now = ltb r.window (now - f.first_failed)

-- Whether a login may be tried. An expired record is dropped.
unfoldable pub check : String → ℕ → Limiter → Bool × Limiter
unfolding expired
check key now r = elim (lookup key r.attempts) [
  | none ↦ (true, r)
  | some f ↦
      if expired r f now
      then (true, record r { attempts = delete key r.attempts })
      else (ltb f.count r.max_attempts, r)
]

unfoldable pub record_failure : String → ℕ → Limiter → Limiter
unfolding expired
record_failure key now r =
    let fresh = record r {
      attempts = insert key (record { count = 1; first_failed = now }) r.attempts;
    } in
    elim (lookup key r.attempts) [
      | none ↦ fresh
      | some f ↦
          if expired r f now
          then fresh
          else record r { attempts = insert key (record f { count = f.count + 1 }) r.attempts }
    ]

unfoldable pub clear : String → Limiter → Limiter
clear key r = record r { attempts = delete key r.attempts }

unfoldable pub record_failures : String → List ℕ → Limiter → Limiter
record_failures key [] r = r
record_failures key (t ∷ ts) r = record_failures key ts (record_failure key t r)

limits_kept :
    (key : String) (t : ℕ) (r : Limiter)
    → ((record_failure key t r).window ≡ r.window)
      × ((record_failure key t r).max_attempts ≡ r.max_attempts)
unfolding record_failure
limits_kept key t r = ground arith

failure_counted :
    (key : String) (t : ℕ) (r : Limiter) (f : FailedLogin)
    → lookup key r.attempts ≡ some f
    → t ≤ f.first_failed + r.window
    → lookup key (record_failure key t r).attempts ≡ some (record f { count = f.count + 1 })
unfolding record_failure
failure_counted key t r f e h =
    rw (e, record_failure)
      (ground
        (arith, =?_refl key, lookup-insert key key (record f { count = f.count + 1 }) r.attempts))

failure_started :
    (key : String) (t : ℕ) (r : Limiter)
    → lookup key r.attempts ≡ none
    → lookup key (record_failure key t r).attempts ≡ some (record { count = 1; first_failed = t })
unfolding record_failure
failure_started key t r e =
    rw (e, record_failure)
      (ground (
        arith,
        =?_refl key,
        lookup-insert key key (record { count = 1; first_failed = t }) r.attempts,
      ))

-- A record that is still within its window counts every further failure, and keeps its start.
failures_counted :
    (key : String) (ts : List ℕ) (r : Limiter) (f : FailedLogin)
    → lookup key r.attempts ≡ some f
    → All (λ t. t ≤ f.first_failed + r.window) ts
    → (lookup key (record_failures key ts r).attempts
        ≡ some (record f { count = f.count + length ts }))
      × ((record_failures key ts r).window ≡ r.window)
      × ((record_failures key ts r).max_attempts ≡ r.max_attempts)
unfolding record_failures
failures_counted key [] r f e all = (ground arith, refl, refl)
failures_counted key (t ∷ ts) r f e all =
    let (w, m) = limits_kept key t r in
    let (c, w', m') =
      failures_counted key ts (record_failure key t r) (record f { count = f.count + 1 })
        (failure_counted key t r f e all.0) (rw w all.1) in
    (ground (arith, c), w' ∙ w, m' ∙ m)

-- For a key with no attempts, after failures within one window of the first, a check within that
-- window lets the client in exactly when there were fewer failures than the maximum.
pub check-record_failures :
    (key : String) (start now : ℕ) (ts : List ℕ) (r : Limiter)
    → lookup key r.attempts ≡ none
    → All (λ t. t ≤ start + r.window) ts
    → now ≤ start + r.window
    → (check key now (record_failures key (start ∷ ts) r)).0 ≡ ltb (1 + length ts) r.max_attempts
unfolding check record_failures
check-record_failures key start now ts r e all h =
    let (w, m) = limits_kept key start r in
    let (c, w', m') =
      failures_counted key ts (record_failure key start r)
        (record { count = 1; first_failed = start }) (failure_started key start r e) (rw w all) in
    rw (c, check) (ground (arith, w, m, w', m'))

-- For a key with no attempts, after failures within one window of the first, a check after that
-- window lets the client in and forgets the failures.
pub check_after_window :
    (key : String) (start now : ℕ) (ts : List ℕ) (r : Limiter)
    → lookup key r.attempts ≡ none
    → All (λ t. t ≤ start + r.window) ts
    → start + r.window < now
    → let (may, r') = check key now (record_failures key (start ∷ ts) r) in
      (may ≡ true) × (lookup key r'.attempts ≡ none)
unfolding check record_failures
check_after_window key start now ts r e all h =
    let (w, m) = limits_kept key start r in
    let (c, w', m') =
      failures_counted key ts (record_failure key start r)
        (record { count = 1; first_failed = start }) (failure_started key start r e) (rw w all) in
    let after = record_failures key ts (record_failure key start r) in
    let gone = lookup-delete key key after.attempts in
    (
      rw (c, check) (ground (arith, w, w')),
      rw (c, check) (ground (arith, w, w', gone, =?_refl key)),
    )

-- A check, a recorded failure and a clear of one key leave the attempts of every other key as they
-- were.
pub lookup-other_key :
    (key other : String) (now : ℕ) (r : Limiter)
    → (key =? other) ≡ false
    → (lookup other (check key now r).1.attempts ≡ lookup other r.attempts)
      × (lookup other (record_failure key now r).attempts ≡ lookup other r.attempts)
      × (lookup other (clear key r).attempts ≡ lookup other r.attempts)
unfolding check record_failure clear
lookup-other_key key other now r h = (
  ground (arith, lookup-delete key other r.attempts),
  elim (Option-cases (lookup key r.attempts)) [
    | inl e ↦
        rw (e, record_failure)
          (ground
            (arith, lookup-insert key other (record { count = 1; first_failed = now }) r.attempts))
    | inr (f, e) ↦
        rw (e, record_failure)
          (ground (
            arith,
            lookup-insert key other (record { count = 1; first_failed = now }) r.attempts,
            lookup-insert key other (record f { count = f.count + 1 }) r.attempts,
          ))
  ],
  ground (arith, lookup-delete key other r.attempts),
)

-- For a key with no attempts, after failures within one window of the first, a check lets the
-- client in exactly when that window is over or there were fewer failures than the maximum, and it
-- forgets the failures of the key exactly when the window is over.
pub check_after_failures :
    (key : String) (start now : ℕ) (ts : List ℕ) (r : Limiter)
    → lookup key r.attempts ≡ none
    → All (λ t. t ≤ start + r.window) ts
    → let failed = record_failures key (start ∷ ts) r in
      let over = ltb (start + r.window) now in
      ((check key now failed).0 ≡ (over || ltb (1 + length ts) r.max_attempts))
      × (lookup key (check key now failed).1.attempts
          ≡ (if over then none else lookup key failed.attempts))
unfolding check record_failures
check_after_failures key start now ts r e all = elim (Bool-cases (ltb (start + r.window) now)) [
  | inl t ↦ rw t (check_after_window key start now ts r e all (ground (arith, t)))
  | inr f ↦
      let (w, m) = limits_kept key start r in
      let (c, w', m') =
        failures_counted key ts (record_failure key start r)
          (record { count = 1; first_failed = start }) (failure_started key start r e) (rw w all) in
      rw f (
        check-record_failures key start now ts r e all (ground (arith, f)),
        rw (c, check) (ground (arith, f, w, w', m, m')),
      )
]
