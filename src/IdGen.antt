-- ===== src/IdGen.antt =====
-- internal/idgen/idgen.go: human-facing numbers for users and rooms. A call is one transaction that
-- holds the database's write lock, so calls follow one another; a failed call changes nothing.
-- `cast` is SQLite's reading of a text that is all digits (`none` for any other), `format` Go's
-- decimal print. The rows' numbers are int64, and the step past the last one wraps; SQLite's `+ 1`
-- there makes a real, which the scan into an int64 refuses.
mod Tests
pub mod Fresh
pub mod Growth
use gang_chat_server.Base.{
  ℕ, suc, ◌+◌, ◌-◌, String, Bool, true, false, if◌then◌else◌, ◌&&◌, not, List, [], ◌∷◌, Option,
  none, some, zero, ltb, leb, ◌==◌, max,
}
use gang_chat_server.Base.Int.{ℤ, pos, negsuc}
use gang_chat_server.Base.Eq.{◌=?◌, string_eq}
use gang_chat_server.Base.Dict.{lookup, insert, has}

abbrev pub user_uid_start : ℕ
user_uid_start = 10000000

abbrev pub room_rid_start : ℕ
room_rid_start = 20000000

abbrev pub reserved_super_uid : ℕ
reserved_super_uid = 66666666

abbrev pub max_int64 : ℕ
max_int64 = 9223372036854775807

pub record Db : Type 0 where
  pub uids : List String
  pub rids : List String
  pub id_sequences : List (String × ℤ)

-- The two sequences of the program; any other name counts from its start.
pub data SequenceName : Type 0 where
  user_uid room_rid : SequenceName

unfoldable pub sequence_name : SequenceName → String
sequence_name user_uid = "user_uid"
sequence_name room_rid = "room_rid"

unfoldable pub sequence_start : SequenceName → ℕ
sequence_start user_uid = user_uid_start
sequence_start room_rid = room_rid_start

pub data Search : Type 0 where
  found : ℕ → Search
  exhausted : Search
  out_of_fuel : Search

-- MAX(CAST(id AS INTEGER)) + 1 over the ids whose number passes a test; 0 if there is none.
unfoldable pub max_plus_one : (String → Option ℕ) → (ℕ → Bool) → List String → ℕ
max_plus_one cast keep [] = 0
max_plus_one cast keep (id ∷ ids) =
    let rest = max_plus_one cast keep ids in
    elim (cast id) [ none ↦ rest | some n ↦ if keep n then max (n + 1) rest else rest ]

-- The `COALESCE` to the start and the test below it are one maximum.
unfoldable pub sequence_seed_value : (String → Option ℕ) → SequenceName → Db → ℕ
sequence_seed_value cast user_uid db =
    max user_uid_start
      (max_plus_one cast (λ n. leb user_uid_start n && ltb n reserved_super_uid) db.uids)
sequence_seed_value cast room_rid db = max room_rid_start (max_plus_one cast (λ n. true) db.rids)

-- The value of the row that `ON CONFLICT` leaves.
unfoldable pub stored_value : SequenceName → ℕ → Db → ℕ
stored_value name seed db = elim (lookup (sequence_name name) db.id_sequences) [
  | none ↦ seed
  | some n ↦ elim n [ pos k ↦ max k seed | negsuc k ↦ seed ]
]

-- The number from which the call goes on: the row's, or the seed where the row is behind it or was
-- poisoned by the reserved number.
unfoldable pub allocate : SequenceName → ℕ → ℕ → ℕ
allocate user_uid seed stored =
    if leb reserved_super_uid stored && ltb seed reserved_super_uid
    then seed
    else if ltb stored seed
    then seed
    else stored
allocate room_rid seed stored = if ltb stored seed then seed else stored

-- `n + 1` on an int64.
unfoldable pub successor : ℕ → ℤ
successor n = if ltb n max_int64 then pos (n + 1) else negsuc max_int64

module _ (format : ℕ → String) where
  -- The loop: it passes over the reserved number and the numbers in use.
  unfoldable pub search_available : ℕ → List String → ℕ → Search
  search_available zero uids candidate = out_of_fuel
  search_available (suc fuel) uids candidate =
      let c = if candidate == reserved_super_uid then candidate + 1 else candidate in
      let more = search_available fuel uids (c + 1) in
      if has (format c) uids then (if c == max_int64 then exhausted else more) else found c

  -- Fuel for every candidate up to the last int64, one more than there are.
  unfoldable pub next_available_user_uid : List String → ℕ → Search
  next_available_user_uid uids candidate =
      let c = max candidate user_uid_start in search_available (max_int64 + 2 - c) uids c

  -- The number is settled, and the row is advanced past it.
  unfoldable pub advance_sequence : SequenceName → List (String × ℤ) → Db → ℕ → Option (ℕ × Db)
  unfolding successor
  advance_sequence name rows db n =
      some (n, record db { id_sequences = insert (sequence_name name) (successor n) rows })

  unfoldable pub take_available : SequenceName → List (String × ℤ) → Db → Search → Option (ℕ × Db)
  unfolding advance_sequence
  take_available name rows db (found n) = advance_sequence name rows db n
  take_available name rows db exhausted = none
  take_available name rows db out_of_fuel = none

  module _ (cast : String → Option ℕ) where
    -- The number, whose print is the id, and the database after it; `none` is an error. Only the seed
    -- of rooms can be past the last int64.
    unfoldable pub next_seq : SequenceName → Db → Option (ℕ × Db)
    unfolding stored_value allocate take_available
    next_seq user_uid db =
        let seed = sequence_seed_value cast user_uid db in
        let stored = stored_value user_uid seed db in
        let rows = insert (sequence_name user_uid) (pos stored) db.id_sequences in
        take_available user_uid rows db
          (next_available_user_uid db.uids (allocate user_uid seed stored))
    next_seq room_rid db =
        let seed = sequence_seed_value cast room_rid db in
        let stored = stored_value room_rid seed db in
        let rows = insert (sequence_name room_rid) (pos stored) db.id_sequences in
        if ltb max_int64 seed
        then none
        else advance_sequence room_rid rows db (allocate room_rid seed stored)
