-- ===== src/IdGen/Growth.antt =====
-- internal/idgen/idgen.go: how the numbers of successive calls compare.
use gang_chat_server.Base.{ℕ, ◌+◌, ◌<◌, ◌≤◌, String, List, Option, some, ◌≡◌, refl, arith}
use gang_chat_server.Base.Dict.{lookup, insert, lookup-insert_self, insert-insert}
use gang_chat_server.Base.Eq.{string_eq}
use gang_chat_server.IdGen.{
  Db, user_uid, room_rid, found, next_available_user_uid, next_seq, reserved_super_uid,
  take_available, advance_sequence, sequence_seed_value, stored_value, allocate, sequence_name,
  max_int64, successor,
}
use gang_chat_server.Base.Int.{ℤ, pos}
use gang_chat_server.IdGen.Fresh.{take_available-some}

module _ (format : ℕ → String) (cast : String → Option ℕ) where
  room_row :
      (db db' : Db) (n : ℕ)
      → next_seq format cast room_rid db ≡ some (n, db')
      → n < max_int64
      → lookup "room_rid" db'.id_sequences ≡ some (pos (n + 1))
  unfolding next_seq advance_sequence sequence_name successor
  room_row db db' n e small = ground (
    arith,
    lookup-insert_self "room_rid" (pos (n + 1)) (
        insert "room_rid" (pos (stored_value room_rid (sequence_seed_value cast room_rid db) db))
          db.id_sequences),
  )

  room_at_least :
      (db db' : Db) (k n : ℕ)
      → lookup "room_rid" db.id_sequences ≡ some (pos k)
      → next_seq format cast room_rid db ≡ some (n, db')
      → k ≤ n
  unfolding next_seq advance_sequence sequence_name stored_value
  room_at_least db db' k n row e = ground (arith, row)

  -- A room rid allocated after another one below the last int64, whatever rooms were added or
  -- removed between, is greater than it.
  pub next_seq-room_rid_grows :
      (db db' db'' : Db) (rids : List String) (n m : ℕ)
      → n < max_int64
      → next_seq format cast room_rid db ≡ some (n, db')
      → next_seq format cast room_rid (record db' { rids = rids }) ≡ some (m, db'')
      → n < m
  next_seq-room_rid_grows db db' db'' rids n m small e f = omega (
    arith,
    room_at_least (record db' { rids = rids }) db'' (n + 1) m (room_row db db' n e small) f,
  )

  user_found :
      (db db' : Db) (n : ℕ)
      → next_seq format cast user_uid db ≡ some (n, db')
      → let seed = sequence_seed_value cast user_uid db in
        let stored = stored_value user_uid seed db in
        (next_available_user_uid format db.uids (allocate user_uid seed stored) ≡ found n)
        × (db' ≡ record db {
          id_sequences =
              insert "user_uid" (successor n) (insert "user_uid" (pos stored) db.id_sequences);
        })
  unfolding next_seq sequence_name
  user_found db db' n e = take_available-some format user_uid _ db db' n _ e

  -- The step past a number from the reserved one on is a poisoned value, or the least int64: either
  -- way the next call goes on from the seed.
  seed_again :
      (seed n : ℕ) (db : Db) (rows : List (String × ℤ))
      → seed < reserved_super_uid
      → reserved_super_uid ≤ n + 1
      → let db' = record db { id_sequences = insert "user_uid" (successor n) rows } in
        allocate user_uid seed (stored_value user_uid seed db') ≡ seed
  unfolding stored_value sequence_name allocate successor
  seed_again seed n db rows low past =
      rw (lookup-insert_self "user_uid" (successor n) rows, stored_value) (ground arith)

  user_again :
      (db : Db) (rows : List (String × ℤ)) (n seed : ℕ)
      → sequence_seed_value cast user_uid db ≡ seed
      → seed < reserved_super_uid
      → reserved_super_uid ≤ n + 1
      → next_available_user_uid format db.uids seed ≡ found n
      → let db' = record db { id_sequences = insert "user_uid" (successor n) rows } in
        next_seq format cast user_uid db' ≡ some (n, db')
  unfolding next_seq sequence_seed_value take_available sequence_name
  user_again db rows n seed e low past free =
      let from_seed = seed_again seed n db rows low past in
      rw (e, from_seed, free, insert-insert, insert-insert)

  -- Where the users' highest number below the reserved one is what a call goes on from and the uid
  -- it allocates is the last one before the reserved number, the next call, with no user added
  -- between, allocates the same uid again.
  pub next_seq-user_uid_repeats :
      (db db' : Db) (n : ℕ)
      → sequence_seed_value cast user_uid db < reserved_super_uid
      → allocate user_uid
          (sequence_seed_value cast user_uid db)
          (stored_value user_uid (sequence_seed_value cast user_uid db) db)
        ≡ sequence_seed_value cast user_uid db
      → next_seq format cast user_uid db ≡ some (n, db')
      → reserved_super_uid ≤ n + 1
      → next_seq format cast user_uid db' ≡ some (n, db')
  next_seq-user_uid_repeats db db' n low start e past =
      let (s, d) = user_found db db' n e in
      let seed = sequence_seed_value cast user_uid db in
      rw d (user_again db _ n seed refl low past (rw start at s))
