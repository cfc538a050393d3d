-- ===== src/EventBus/Index.antt =====
-- internal/eventbus/bus.go: the maps from a room or a user to its set of connections, which drop a
-- set that becomes empty.
pub mod Tidy
use gang_chat_server.Base.{
  ℕ, String, Bool, true, false, ◌||◌, ◌&&◌, not, Option, none, some, List, [], ◌∷◌, ◌≡◌, ◌≢◌, refl,
  arith, if◌then◌else◌, Bool-cases, Option-cases, inl, inr,
}
use gang_chat_server.Base.Eq.{Eq, ◌=?◌, =?_refl, nat_eq, string_eq}
use gang_chat_server.Base.Dict.{
  lookup, insert, delete, has, add, remove, lookup-insert, lookup-delete, has-add, has-remove,
  Distinct, add-Distinct, remove-Distinct,
}

-- A read of a missing key gives the nil map, which has no member.
unfoldable pub members : String → List (String × List ℕ) → List ℕ
members k m = elim (lookup k m) [ none ↦ [] | some ids ↦ ids ]

unfoldable pub enter : ℕ → String → List (String × List ℕ) → List (String × List ℕ)
enter id k m = insert k (add id (members k m)) m

drop_if_empty : String → List ℕ → List (String × List ℕ) → List (String × List ℕ)
drop_if_empty k [] m = delete k m
drop_if_empty k (i ∷ ids) m = insert k (i ∷ ids) m

pub leave : ℕ → String → List (String × List ℕ) → List (String × List ℕ)
unfolding drop_if_empty
leave id k m = elim (lookup k m) [ none ↦ m | some ids ↦ drop_if_empty k (remove id ids) m ]

-- The loop of `Close` over `s.rooms`.
pub leave_all : ℕ → List String → List (String × List ℕ) → List (String × List ℕ)
leave_all id [] m = m
leave_all id (r ∷ rs) m = leave_all id rs (leave id r m)

-- The loop of `SetRooms` over the old interests, which skips those that stay.
pub leave_stale : ℕ → List String → List String → List (String × List ℕ) → List (String × List ℕ)
leave_stale id next [] m = m
leave_stale id next (r ∷ rs) m = leave_stale id next rs (if has r next then m else leave id r m)

-- The loop of `SetRooms` over the new interests, which skips those already there.
pub enter_new : ℕ → List String → List String → List (String × List ℕ) → List (String × List ℕ)
enter_new id had [] m = m
enter_new id had (r ∷ rs) m = enter_new id had rs (if has r had then m else enter id r m)

-- The set that `SetRooms` builds of its argument.
pub next_rooms : List String → List String → List String
next_rooms acc [] = acc
next_rooms acc (r ∷ rs) = next_rooms (if r =? "" then acc else add r acc) rs

pub members-enter :
    (id : ℕ) (k j : String) (m : List (String × List ℕ)) (i : ℕ)
    → has i (members j (enter id k m)) ≡ (((k =? j) && (id =? i)) || has i (members j m))
unfolding enter members
members-enter id k j m i = ground (
  arith,
  lookup-insert k j (add id (members k m)) m,
  has-add id i (members k m),
  string_eq.beq_iff k j,
)

drop_if_empty_lem :
    (k j : String) (ids : List ℕ) (m : List (String × List ℕ)) (i : ℕ)
    → has i (members j (drop_if_empty k ids m))
      ≡ (if k =? j then has i ids else has i (members j m))
unfolding drop_if_empty members
drop_if_empty_lem k j [] m i = unfold has in ground (arith, lookup-delete k j m)
drop_if_empty_lem k j (x ∷ ids) m i = ground (arith, lookup-insert k j (x ∷ ids) m)

pub members-leave :
    (id : ℕ) (k j : String) (m : List (String × List ℕ)) (i : ℕ)
    → has i (members j (leave id k m)) ≡ (not ((k =? j) && (id =? i)) && has i (members j m))
unfolding leave has
members-leave id k j m i = elim (Option-cases (lookup k m)) [
  | inl e ↦ unfold leave members has in rw (e, leave) (ground (arith, e, string_eq.beq_iff k j))
  | inr (ids, e) ↦
      rw (e, leave)
        (rw (drop_if_empty_lem k j (remove id ids) m i, has-remove id i ids)
          (unfold members in ground (arith, e, string_eq.beq_iff k j)))
]

pub members-leave_all :
    (id : ℕ) (rs : List String) (j : String) (m : List (String × List ℕ)) (i : ℕ)
    → has i (members j (leave_all id rs m)) ≡ (not (has j rs && (id =? i)) && has i (members j m))
unfolding leave_all has
members-leave_all id [] j m i = refl
members-leave_all id (r ∷ rs) j m i =
    ground (arith, members-leave_all id rs j (leave id r m) i, members-leave id r j m i)

pub members-leave_stale :
    (id : ℕ) (next rs : List String) (j : String) (m : List (String × List ℕ)) (i : ℕ)
    → has i (members j (leave_stale id next rs m))
      ≡ (not (has j rs && not (has j next) && (id =? i)) && has i (members j m))
unfolding leave_stale has
members-leave_stale id next [] j m i = refl
members-leave_stale id next (r ∷ rs) j m i = ground (
  arith,
  members-leave_stale id next rs j m i,
  members-leave_stale id next rs j (leave id r m) i,
  members-leave id r j m i,
  string_eq.beq_iff r j,
)

pub members-enter_new :
    (id : ℕ) (had rs : List String) (j : String) (m : List (String × List ℕ)) (i : ℕ)
    → has i (members j (enter_new id had rs m))
      ≡ ((has j rs && not (has j had) && (id =? i)) || has i (members j m))
unfolding enter_new has
members-enter_new id had [] j m i = refl
members-enter_new id had (r ∷ rs) j m i = ground (
  arith,
  members-enter_new id had rs j m i,
  members-enter_new id had rs j (enter id r m) i,
  members-enter id r j m i,
  string_eq.beq_iff r j,
)

-- `SetRooms` asks for the rooms of its argument that are not the empty text.
pub has-next_rooms :
    (acc rs : List String) (j : String)
    → has j (next_rooms acc rs) ≡ (has j acc || (not (j =? "") && has j rs))
unfolding next_rooms has
has-next_rooms acc [] j = ground arith
has-next_rooms acc (r ∷ rs) j = ground (
  arith,
  has-next_rooms acc rs j,
  has-next_rooms (add r acc) rs j,
  has-add r j acc,
  string_eq.beq_iff r j,
  string_eq.beq_iff r "",
  string_eq.beq_iff j "",
)
