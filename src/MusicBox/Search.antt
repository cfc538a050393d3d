-- ===== src/MusicBox/Search.antt =====
-- internal/musicbox/search_resilience.go: the search cache, the calls that callers share, the attempts
-- of a call and what it leaves. Times are numbers; `fetch` and the waits between attempts are
-- parameters, by the attempt's number. A call is a number.
mod Tests
pub mod Bound
pub mod Attempts
pub mod Outage
use gang_chat_server.Base.{
  ℕ, zero, suc, ◌+◌, String, Bool, true, false, if◌then◌else◌, ◌&&◌, not, ltb, leb, List, [], ◌∷◌,
  Option, none, some, length,
}
use gang_chat_server.Base.Eq.{Eq, ◌=?◌, string_eq, nat_eq}
use gang_chat_server.Base.Dict.{lookup, insert, delete}

pub record Outcome (T : Type 0) : Type 0 where
  pub results : List T
  pub error : Option String

pub record Entry (T : Type 0) : Type 0 where
  pub results : List T
  pub fresh_until : ℕ
  pub stale_until : ℕ
  pub stored_at : ℕ

pub record Policy : Type 0 where
  pub fresh_ttl : ℕ
  pub stale_ttl : ℕ
  pub max_entries : ℕ

-- `calls` has what a call gave once its `done` is closed.
pub record Coordinator (T : Type 0) : Type 0 where
  pub policy : Policy
  pub cache : List (String × Entry T)
  pub in_flight : List (String × ℕ)
  pub calls : List (ℕ × Outcome T)
  pub next_call : ℕ

-- What a caller gets under the lock: results, or the number of the call that it waits for, and
-- whether it starts that call.
pub data Found (T : Type 0) : Type 0 where
  fresh : List T → Found T
  joins : ℕ → Found T
  starts : ℕ → Found T

abbrev pub default_fresh_ttl : ℕ
default_fresh_ttl = 120000000000

abbrev pub default_max_entries : ℕ
default_max_entries = 256

-- newSearchCoordinatorWithPolicy: what the given durations and the size are set to.
unfoldable pub sound_policy : Policy → Policy
sound_policy p =
    let fresh = if leb p.fresh_ttl 0 then default_fresh_ttl else p.fresh_ttl in
    record {
      fresh_ttl = fresh;
      stale_ttl = if ltb p.stale_ttl fresh then fresh else p.stale_ttl;
      max_entries = if leb p.max_entries 0 then default_max_entries else p.max_entries;
    }

module _ {T : Type 0} where
  unfoldable pub new_search_coordinator : Policy → Coordinator T
  unfolding sound_policy
  new_search_coordinator p = record {
    policy = sound_policy p;
    cache = [];
    in_flight = [];
    calls = [];
    next_call = 0;
  }

  -- The entry that was stored first.
  unfoldable pub oldest : List (String × Entry T) → Option (String × Entry T)
  oldest [] = none
  oldest ((k, e) ∷ cache) = elim (oldest cache) [
    | none ↦ some (k, e)
    | some (j, f) ↦ if ltb f.stored_at e.stored_at then some (j, f) else some (k, e)
  ]

  unfoldable pub make_room : String → ℕ → List (String × Entry T) → List (String × Entry T)
  unfolding oldest
  make_room key limit cache = elim (lookup key cache) [
    | some e ↦ cache
    | none ↦
        if leb limit (length cache)
        then elim (oldest cache) [ none ↦ cache | some (k, e) ↦ delete k cache ]
        else cache
  ]

  unfoldable pub store_locked : String → List T → ℕ → Coordinator T → Coordinator T
  unfolding make_room
  store_locked key results now c =
      let entry : Entry T = record {
        results = results;
        fresh_until = now + c.policy.fresh_ttl;
        stale_until = now + c.policy.stale_ttl;
        stored_at = now;
      } in
      record c { cache = insert key entry (make_room key c.policy.max_entries c.cache) }

  unfoldable pub join_or_start : String → Coordinator T → Coordinator T × Found T
  join_or_start key c = elim (lookup key c.in_flight) [
    | some call ↦ (c, joins call)
    | none ↦ (
      record c { in_flight = insert key c.next_call c.in_flight; next_call = c.next_call + 1 },
      starts c.next_call,
    )
  ]

  unfoldable pub drop_stale : String → ℕ → Entry T → Coordinator T → Coordinator T
  drop_stale key now e c =
      if ltb now e.stale_until then c else record c { cache = delete key c.cache }

  unfoldable pub search : String → ℕ → Coordinator T → Coordinator T × Found T
  unfolding join_or_start drop_stale
  search key now c = elim (lookup key c.cache) [
    | none ↦ join_or_start key c
    | some e ↦
        if ltb now e.fresh_until
        then (c, fresh e.results)
        else join_or_start key (drop_stale key now e c)
  ]

  abbrev pub is_empty : List T → Bool
  is_empty [] = true
  is_empty (x ∷ xs) = false

  abbrev pub is_success : Outcome T → Bool
  is_success o = elim o.error [ none ↦ not (is_empty o.results) | some e ↦ false ]

  -- The attempts from number n on, `left` being how many retries are left; `waits` says whether the
  -- wait after an attempt ended before the call's own deadline did.
  unfoldable pub attempts : (ℕ → Outcome T) → (ℕ → Bool) → ℕ → ℕ → Outcome T
  attempts fetch waits zero n = fetch n
  attempts fetch waits (suc left) n =
      let o = fetch n in
      let rest = attempts fetch waits left (suc n) in
      if is_success o
      then o
      else if waits n
      then rest
      else record { results = o.results; error = some "context deadline exceeded" }

  -- The stale entry that a failed call may give.
  unfoldable pub usable_stale : String → ℕ → Coordinator T → Option (List T)
  usable_stale key now c = elim (lookup key c.cache) [
    | none ↦ none
    | some e ↦ if ltb now e.stale_until && not (is_empty e.results) then some e.results else none
  ]

  unfoldable pub fallback : String → ℕ → Outcome T → Coordinator T → Outcome T
  unfolding usable_stale
  fallback key now o c = elim (usable_stale key now c) [
    | some results ↦ record { results = results; error = none }
    | none ↦ o
  ]

  -- The end of `run`: the outcome is kept, shared with every caller, and the call leaves the map.
  unfoldable pub finish_call : String → ℕ → ℕ → Outcome T → Coordinator T → Coordinator T
  unfolding store_locked fallback
  finish_call key call now o c =
      let stored = if is_success o then store_locked key o.results now c else c in
      let given = if is_success o then o else fallback key now o c in
      record stored {
        calls = insert call given stored.calls;
        in_flight = delete key stored.in_flight;
      }

  -- What a caller gets that has looked up, where a call that it starts ends at a time.
  unfoldable pub answer :
      String → ℕ → Outcome T → Coordinator T × Found T → Coordinator T × Option (Outcome T)
  unfolding finish_call
  answer key end o (c, fresh results) = (c, some (record { results = results; error = none }))
  answer key end o (c, joins call) = (c, lookup call c.calls)
  answer key end o (c, starts call) =
      let after = finish_call key call end o c in (after, lookup call after.calls)

  -- `Search` and `run`, of a request that is alone: looked up at one time, its call ending at
  -- another.
  unfoldable pub request :
      String → ℕ → ℕ → Outcome T → Coordinator T → Coordinator T × Option (Outcome T)
  unfolding search answer
  request key now end o c = answer key end o (search key now c)
