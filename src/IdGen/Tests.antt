-- ===== src/IdGen/Tests.antt =====
-- internal/idgen/idgen.go: the theorems at small tables. The prints and the casts of numbers, which are
-- the database's and Go's, are functions that know the ids at hand.
use gang_chat_server.Base.{
  ℕ, ◌+◌, ◌<◌, ◌≤◌, ltb, ◌==◌, if◌then◌else◌, String, false, [], ◌∷◌, Option, none, some, ◌≡◌, ◌≢◌,
  refl, arith,
}
use gang_chat_server.Base.Dict.{lookup, has, insert}
use gang_chat_server.Base.Eq.{string_eq}
use gang_chat_server.IdGen.{
  Db, user_uid, room_rid, out_of_fuel, next_seq, next_available_user_uid, reserved_super_uid,
  user_uid_start, search_available, take_available, advance_sequence, sequence_seed_value,
  stored_value, allocate, max_plus_one, sequence_name, successor, max_int64,
}
use gang_chat_server.Base.Int.{pos, negsuc}
use gang_chat_server.IdGen.Fresh.{next_available_user_uid_ends, next_seq-user_uid}
use gang_chat_server.IdGen.Growth.{next_seq-room_rid_grows, next_seq-user_uid_repeats}

abbrev format : ℕ → String
format n = if n == 66666664 then "66666664" else "another"

abbrev cast : String → Option ℕ
cast id = some 66666664

abbrev last_db : Db
last_db = record { uids = "66666664" ∷ []; rids = []; id_sequences = [] }

abbrev advanced_db : Db
advanced_db = record last_db { id_sequences = ("user_uid", pos 66666666) ∷ [] }

taken : next_seq format cast user_uid last_db ≡ some (66666665, advanced_db)
unfolding next_seq take_available next_available_user_uid search_available advance_sequence
    successor sequence_seed_value stored_value allocate max_plus_one sequence_name lookup insert has
taken = refl

next_seq-user_uid_example :
    (has (format 66666665) last_db.uids ≡ false)
    × (66666665 ≢ reserved_super_uid)
    × (user_uid_start ≤ 66666665)
    × (lookup "user_uid" advanced_db.id_sequences
        ≡ some (if ltb 66666665 max_int64 then pos (66666665 + 1) else negsuc max_int64))
    × (advanced_db.uids ≡ last_db.uids)
next_seq-user_uid_example = next_seq-user_uid format cast last_db advanced_db 66666665 taken

next_available_user_uid_ends_example :
    next_available_user_uid format ("66666664" ∷ []) 66666664 ≢ out_of_fuel
next_available_user_uid_ends_example =
    next_available_user_uid_ends format ("66666664" ∷ []) 66666664 (omega arith)

seeded : sequence_seed_value cast user_uid last_db ≡ 66666665
unfolding sequence_seed_value max_plus_one
seeded = refl

goes_on :
    allocate user_uid
      (sequence_seed_value cast user_uid last_db)
      (stored_value user_uid (sequence_seed_value cast user_uid last_db) last_db)
    ≡ sequence_seed_value cast user_uid last_db
unfolding sequence_seed_value max_plus_one allocate stored_value sequence_name lookup
goes_on = refl

next_seq-user_uid_repeats_example :
    next_seq format cast user_uid advanced_db ≡ some (66666665, advanced_db)
next_seq-user_uid_repeats_example =
    next_seq-user_uid_repeats format cast last_db advanced_db 66666665 (omega (arith, seeded))
      goes_on taken (omega arith)

abbrev no_number : String → Option ℕ
no_number id = none

abbrev empty_db : Db
empty_db = record { uids = []; rids = []; id_sequences = [] }

abbrev one_room : Db
one_room = record empty_db { id_sequences = ("room_rid", pos 20000001) ∷ [] }

abbrev two_rooms : Db
two_rooms = record {
  uids = [];
  rids = "20000000" ∷ [];
  id_sequences = ("room_rid", pos 20000002) ∷ [];
}

first_room : next_seq format no_number room_rid empty_db ≡ some (20000000, one_room)
unfolding next_seq take_available advance_sequence successor sequence_seed_value stored_value
    allocate max_plus_one sequence_name lookup insert
first_room = refl

second_room :
    next_seq format no_number room_rid (record one_room { rids = "20000000" ∷ [] })
    ≡ some (20000001, two_rooms)
unfolding next_seq take_available advance_sequence successor sequence_seed_value stored_value
    allocate max_plus_one sequence_name lookup insert
second_room = refl

next_seq-room_rid_grows_example : 20000000 < 20000001
next_seq-room_rid_grows_example =
    next_seq-room_rid_grows format no_number empty_db one_room two_rooms ("20000000" ∷ []) 20000000
      20000001 (omega arith) first_room second_room
