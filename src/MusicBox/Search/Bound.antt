-- ===== src/MusicBox/Search/Bound.antt =====
-- internal/musicbox/search_resilience.go: the size of the cache, and what a finished call leaves to
-- the searches after it.
use gang_chat_server.Base.{
  ℕ, ◌+◌, ◌≤◌, ◌<◌, String, true, false, ltb, leb, lt→ltb, List, [], ◌∷◌, none, some, ◌≡◌, ◌≢◌,
  refl, ap, arith, length, Bool-cases, Option-cases, inl, inr, if_either,
}
use gang_chat_server.Base.Eq.{string_eq, nat_eq, =?_refl}
use gang_chat_server.Base.Dict.{
  lookup, lookup-insert_self, length-insert_new, length-insert_old, length-delete,
  length-delete_old,
}
use gang_chat_server.MusicBox.Search.{
  Outcome, Entry, Policy, Coordinator, sound_policy, new_search_coordinator, oldest, make_room,
  store_locked, Found, fresh, join_or_start, drop_stale, search, is_success, is_empty, usable_stale,
  fallback, finish_call,
}

module _ {T : Type 0} where
  abbrev pub IsBounded : Coordinator T → Type 0
  IsBounded c = (0 < c.policy.max_entries) × (length c.cache ≤ c.policy.max_entries)

  oldest-lookup :
      (cache : List (String × Entry T)) (k : String) (e : Entry T)
      → oldest cache ≡ some (k, e)
      → lookup k cache ≢ none
  unfolding oldest lookup
  oldest-lookup [] k e = λ h n. cc
  oldest-lookup ((j, f) ∷ cache) k e = elim (Option-cases (oldest cache)) [
    | inl none_left ↦ rw none_left (λ h n. ground (arith, =?_refl k))
    | inr ((i, g), found) ↦
        rw found (λ h n. ground (arith, =?_refl k, oldest-lookup cache i g found))
  ]

  oldest-none : (cache : List (String × Entry T)) → oldest cache ≡ none → cache ≡ []
  unfolding oldest
  oldest-none [] = λ h. refl
  oldest-none ((j, f) ∷ cache) = elim (Option-cases (oldest cache)) [
    | inl none_left ↦ rw none_left (λ h. cc)
    | inr ((i, g), found) ↦ rw found (λ h. ground arith)
  ]

  make_room-length :
      (key : String) (limit : ℕ) (cache : List (String × Entry T))
      → 0 < limit
      → length cache ≤ limit
      → lookup key cache ≡ none
      → length (make_room key limit cache) < limit
  unfolding make_room
  make_room-length key limit cache some_room h absent =
      rw (absent, make_room)
        (elim (Bool-cases (leb limit (length cache))) [
          | inl full ↦ rw full (elim (Option-cases (oldest cache)) [
            | inl none_left ↦ rw none_left (rw (oldest-none cache none_left) some_room)
            | inr ((k, e), found) ↦ rw found (elim (Option-cases (lookup k cache)) [
              | inl absent_too ↦ elim (oldest-lookup cache k e found absent_too) [ ]
              | inr (w, there) ↦ omega (arith, length-delete_old k w cache there)
            ])
          ])
          | inr fits ↦ rw fits (ground arith)
        ])

  make_room-kept :
      (key : String) (limit : ℕ) (e : Entry T) (cache : List (String × Entry T))
      → lookup key cache ≡ some e
      → make_room key limit cache ≡ cache
  unfolding make_room
  make_room-kept key limit e cache there = rw (there, make_room) refl

  store_locked-IsBounded :
      (key : String) (results : List T) (now : ℕ) (c : Coordinator T)
      → IsBounded c
      → IsBounded (store_locked key results now c)
  unfolding store_locked make_room
  store_locked-IsBounded key results now c (some_room, h) = (
    some_room,
    elim (Option-cases (lookup key c.cache)) [
      | inl absent ↦ omega (
        arith,
        length-insert_new key _ (make_room key c.policy.max_entries c.cache),
        make_room-length key c.policy.max_entries c.cache some_room h absent,
      )
      | inr (e, there) ↦
          let kept = make_room-kept key c.policy.max_entries e c.cache there in
          rw kept (omega (arith, length-insert_old key _ e c.cache there))
    ],
  )

  -- The end of a search call keeps a cache within its size within it, whether the call found
  -- something or not.
  pub finish_call-IsBounded :
      (key : String) (call now : ℕ) (o : Outcome T) (c : Coordinator T)
      → IsBounded c
      → IsBounded (finish_call key call now o c)
  unfolding finish_call
  finish_call-IsBounded key call now o c h =
      if_either IsBounded (is_success o) (store_locked-IsBounded key o.results now c h) h

  join-IsBounded :
      (key : String) (c : Coordinator T) → IsBounded c → IsBounded (join_or_start key c).0
  unfolding join_or_start
  join-IsBounded key c h = elim (Option-cases (lookup key c.in_flight)) [
    | inl e ↦ rw (e, join_or_start) h
    | inr (call, e) ↦ rw (e, join_or_start) h
  ]

  pub search-IsBounded :
      (key : String) (now : ℕ) (c : Coordinator T) → IsBounded c → IsBounded (search key now c).0
  unfolding search join_or_start drop_stale
  search-IsBounded key now c h = elim (Option-cases (lookup key c.cache)) [
    | inl e ↦ rw (e, search) (join-IsBounded key c h)
    | inr (entry, e) ↦
        rw (e, search)
          (if_either (λ (r : Coordinator T × Found T). IsBounded r.0) (ltb now entry.fresh_until) h
            (join-IsBounded key (drop_stale key now entry c) (
              if_either IsBounded (ltb now entry.stale_until) h
                (h.0, omega (arith, length-delete key c.cache, h.1)))))
  ]

  pub search-fresh :
      (key : String) (now : ℕ) (e : Entry T) (c : Coordinator T)
      → lookup key c.cache ≡ some e
      → now < e.fresh_until
      → search key now c ≡ (c, fresh e.results)
  unfolding search
  search-fresh key now e c there soon = rw (there, search, lt→ltb now e.fresh_until soon) refl

  -- After a call that found something, and until its results are no longer fresh, a search for its
  -- key gives these results and changes nothing.
  pub search-finish_call :
      (key : String) (call now later : ℕ) (o : Outcome T) (c : Coordinator T)
      → is_success o ≡ true
      → later < now + c.policy.fresh_ttl
      → let c' = finish_call key call now o c in search key later c' ≡ (c', fresh o.results)
  unfolding search finish_call store_locked
  search-finish_call key call now later o c ok soon =
      let entry : Entry T = record {
        results = o.results;
        fresh_until = now + c.policy.fresh_ttl;
        stale_until = now + c.policy.stale_ttl;
        stored_at = now;
      } in
      let stored = lookup-insert_self key entry (make_room key c.policy.max_entries c.cache) in
      search-fresh key later entry (finish_call key call now o c) (rw (ok, store_locked) stored)
        soon

  -- The callers of a call that failed get the stale results, where there are some, and no error.
  is_full : (xs : List T) → xs ≢ [] → is_empty xs ≡ false
  is_full [] h = elim (h refl) [ ]
  is_full (x ∷ xs) h = refl

  -- The callers of a call that found nothing get the results of the entry that is in the cache for
  -- its key, with no error, while that entry is not too old and not empty.
  pub finish_call-stale :
      (key : String) (call now : ℕ) (o : Outcome T) (c : Coordinator T) (e : Entry T)
      → is_success o ≡ false
      → lookup key c.cache ≡ some e
      → now < e.stale_until
      → e.results ≢ []
      → lookup call (finish_call key call now o c).calls
        ≡ some (record { results = e.results; error = none })
  unfolding finish_call fallback usable_stale
  finish_call-stale key call now o c e bad there soon full =
      rw (bad, lookup-insert_self call (fallback key now o c) c.calls)
        (ap some (
          rw (there, lt→ltb now e.stale_until soon, is_full e.results full, fallback, usable_stale)
            refl))

module _ (T : Type 0) where
  pub new-IsBounded : (p : Policy) → IsBounded (new_search_coordinator {T = T} p)
  unfolding new_search_coordinator sound_policy
  new-IsBounded p = elim (Bool-cases (leb p.max_entries 0)) [
    | inl e ↦ rw e (omega arith, omega arith)
    | inr e ↦ rw e (ground arith, omega arith)
  ]
