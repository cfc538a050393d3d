-- ===== src/IdGen/Fresh.antt =====
-- internal/idgen/idgen.go: the number that a new user gets.
use gang_chat_server.Base.{
  ℕ, zero, suc, ◌+◌, ◌-◌, ◌<◌, ◌≤◌, String, false, if◌then◌else◌, ltb, List, Option, some, ◌==◌,
  max, ◌≡◌, ◌≢◌, arith,
}
use gang_chat_server.Base.Dict.{has, lookup, insert, lookup-insert_self}
use gang_chat_server.Base.Eq.{string_eq}
use gang_chat_server.IdGen.{
  Db, SequenceName, user_uid, Search, found, exhausted, out_of_fuel, search_available,
  next_available_user_uid, next_seq, reserved_super_uid, user_uid_start, max_int64, take_available,
  sequence_name, successor,
}
use gang_chat_server.Base.Int.{ℤ, pos, negsuc}

module _ (format : ℕ → String) where
  search_available-found :
      (fuel : ℕ) (uids : List String) (candidate : ℕ) {n : ℕ}
      → search_available format fuel uids candidate ≡ found n
      → (has (format n) uids ≡ false) × (n ≢ reserved_super_uid) × (candidate ≤ n)
  unfolding search_available
  search_available-found zero uids candidate e = cc
  search_available-found (suc fuel) uids candidate {n} e =
      let c = if candidate == reserved_super_uid then candidate + 1 else candidate in
      ground (arith, search_available-found fuel uids (c + 1) {n = n})

  -- The fuel outlasts the numbers up to the last int64.
  search_available-fuel :
      (fuel : ℕ) (uids : List String) (candidate : ℕ)
      → max_int64 + 1 < fuel + candidate
      → candidate ≤ max_int64
      → search_available format fuel uids candidate ≢ out_of_fuel
  unfolding search_available
  search_available-fuel zero uids candidate h k e = absurd (omega arith)
  search_available-fuel (suc fuel) uids candidate h k e =
      let c = if candidate == reserved_super_uid then candidate + 1 else candidate in
      ground (arith, search_available-fuel fuel uids (c + 1))

  -- The search for a uid from a candidate within int64 ends with a number or with an exhausted
  -- range: the fuel is enough.
  pub next_available_user_uid_ends :
      (uids : List String) (candidate : ℕ)
      → candidate ≤ max_int64
      → next_available_user_uid format uids candidate ≢ out_of_fuel
  unfolding next_available_user_uid
  next_available_user_uid_ends uids candidate h =
      let c = max candidate user_uid_start in
      search_available-fuel (max_int64 + 2 - c) uids c (omega arith) (omega arith)

  next_available_user_uid-found :
      (uids : List String) (candidate : ℕ) {n : ℕ}
      → next_available_user_uid format uids candidate ≡ found n
      → (has (format n) uids ≡ false) × (n ≢ reserved_super_uid) × (user_uid_start ≤ n)
  unfolding next_available_user_uid
  next_available_user_uid-found uids candidate e =
      let c = max candidate user_uid_start in
      let (free, open_, up) = search_available-found (max_int64 + 2 - c) uids c e in
      (free, open_, omega arith)

  -- A settled number is the search's, and the row is the next one.
  pub take_available-some :
      (name : SequenceName) (rows : List (String × ℤ)) (db db' : Db) (n : ℕ) (s : Search)
      → take_available format name rows db s ≡ some (n, db')
      → (s ≡ found n)
        × (db' ≡ record db { id_sequences = insert (sequence_name name) (successor n) rows })
  unfolding take_available
  take_available-some name rows db db' n (found m) e = ground arith
  take_available-some name rows db db' n exhausted e = cc
  take_available-some name rows db db' n out_of_fuel e = cc

  user_settled :
      (rows : List (String × ℤ)) (candidate : ℕ) (db db' : Db) (n : ℕ)
      → take_available format user_uid rows db (next_available_user_uid format db.uids candidate)
        ≡ some (n, db')
      → (has (format n) db.uids ≡ false)
        × (n ≢ reserved_super_uid)
        × (user_uid_start ≤ n)
        × (lookup "user_uid" db'.id_sequences
            ≡ some (if ltb n max_int64 then pos (n + 1) else negsuc max_int64))
        × (db'.uids ≡ db.uids)
  unfolding sequence_name successor
  user_settled rows candidate db db' n e =
      let (s, d) = take_available-some user_uid rows db db' n _ e in
      let (free, open_, up) = next_available_user_uid-found db.uids candidate s in
      (free, open_, up, rw d (lookup-insert_self "user_uid" (successor n) rows), rw d)

  -- A user uid that is allocated is in use by no user, is not the reserved number and not below
  -- the start, the sequence then stands one past it, or at the least int64 where no int64 is past
  -- it, and the users are as they were.
  pub next_seq-user_uid :
      (cast : String → Option ℕ) (db db' : Db) (n : ℕ)
      → next_seq format cast user_uid db ≡ some (n, db')
      → (has (format n) db.uids ≡ false)
        × (n ≢ reserved_super_uid)
        × (user_uid_start ≤ n)
        × (lookup "user_uid" db'.id_sequences
            ≡ some (if ltb n max_int64 then pos (n + 1) else negsuc max_int64))
        × (db'.uids ≡ db.uids)
  unfolding next_seq
  next_seq-user_uid cast db db' n e = user_settled _ _ db db' n e
