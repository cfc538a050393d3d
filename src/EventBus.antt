-- ===== src/EventBus.antt =====
-- internal/eventbus/bus.go: the registry of live connections and the fan-out of events.
-- A `*Subscription` is an id into the bus's heap, which keeps every subscription ever made, also
-- after `Close`. The channel of a subscription is its queue of events, oldest first, with the flag
-- `channel_closed`; a send on, or a second close of, a closed channel is a panic, which is `none`.
-- `mark_closed` and `unregister` are the two critical sections of `Close`; other goroutines may run
-- between them. A `Bus` method under its lock is one step. The order in which Go visits a map is
-- that of the model's list.
mod Tests
pub mod Index
pub mod Queue
pub mod Lockstep
pub mod Delivery
pub mod Interleaving
use gang_chat_server.Base.{
  ℕ, suc, ◌+◌, ◌%◌, ◌^◌, String, Bool, true, false, ◌||◌, Option, none, some, List, [], ◌∷◌,
  if◌then◌else◌,
}
use gang_chat_server.Base.Eq.{◌=?◌, nat_eq, string_eq}
use gang_chat_server.Base.Dict.{lookup, insert, has, add, remove}
use Index.{members, enter, leave, leave_all, leave_stale, enter_new, next_rooms}
use Queue.{offer}

-- `Data` is any value: a type of the caller's.
pub record Event (D : Type 0) : Type 0 where
  pub type_name : String
  pub room_id : String
  pub payload : D

pub record Subscription (D : Type 0) : Type 0 where
  pub id : ℕ
  pub user_id : String
  pub events : List (Event D)
  pub channel_closed : Bool
  pub rooms : List String
  pub closed : Bool

pub record Bus (D : Type 0) : Type 0 where
  pub heap : List (ℕ × Subscription D)
  pub next_id : ℕ  -- uint64
  pub by_id : List ℕ
  pub by_room : List (String × List ℕ)
  pub by_user : List (String × List ℕ)

online : List (String × List ℕ) → List String
online [] = []
online ((user, []) ∷ rest) = online rest
online ((user, conn ∷ conns) ∷ rest) = add user (online rest)

module _ {D : Type 0} where
  pub new : Bus D
  new = record { heap = []; next_id = 0; by_id = []; by_room = []; by_user = [] }

  subscription : ℕ → String → Subscription D
  subscription id user = record {
    id = id;
    user_id = user;
    events = [];
    channel_closed = false;
    rooms = [];
    closed = false;
  }

  register : ℕ → String → Bus D → Bus D
  unfolding subscription
  register id user b = record b {
    next_id = id;
    heap = insert id (subscription id user) b.heap;
    by_id = add id b.by_id;
    by_user = enter id user b.by_user;
  }

  -- The new subscription's id, and the bus with it registered under no room.
  pub subscribe : String → Bus D → ℕ × Bus D
  unfolding register
  subscribe user b = let id = (b.next_id + 1) % 2 ^ 64 in (id, register id user b)

  -- A write through a pointer.
  pub store : ℕ → Subscription D → Bus D → Bus D
  store id s b = record b { heap = insert id s b.heap }

  set_rooms_of : Subscription D → ℕ → List String → Bus D → Bus D
  unfolding store
  set_rooms_of s id room_ids b =
      let next = next_rooms [] room_ids in
      let pruned = leave_stale id next s.rooms b.by_room in
      store id (record s { rooms = next }) (record b { by_room = enter_new id s.rooms next pruned })

  -- A pointer that no `Subscribe` returned does not occur; the call is then no step.
  pub set_rooms : ℕ → List String → Bus D → Bus D
  unfolding set_rooms_of
  set_rooms id room_ids b = elim (lookup id b.heap) [
    | none ↦ b
    | some s ↦ set_rooms_of s id room_ids b
  ]

  -- Whether this call closed the subscription; a call on a closed one returns early.
  mark_closed_sub : Subscription D → Option (Bool × Subscription D)
  mark_closed_sub s =
      if s.closed
      then some (false, s)
      else if s.channel_closed
      then none
      else some (true, record s { closed = true; channel_closed = true })

  pub mark_closed : ℕ → Bus D → Option (Bool × Bus D)
  unfolding mark_closed_sub store
  mark_closed id b = elim (lookup id b.heap) [
    | none ↦ some (false, b)
    | some s ↦ elim (mark_closed_sub s) [
      | none ↦ none
      | some (first, s') ↦ some (first, store id s' b)
    ]
  ]

  unregister_of : Subscription D → ℕ → Bus D → Bus D
  unregister_of s id b = record b {
    by_room = leave_all id s.rooms b.by_room;
    by_user = leave id s.user_id b.by_user;
    by_id = remove id b.by_id;
  }

  pub unregister : ℕ → Bus D → Bus D
  unfolding unregister_of
  unregister id b = elim (lookup id b.heap) [ none ↦ b | some s ↦ unregister_of s id b ]

  -- `Close` with no other goroutine between its two sections.
  unfoldable close : ℕ → Bus D → Option (Bus D)
  close id b = elim (mark_closed id b) [
    | none ↦ none
    | some (first, b') ↦ some (if first then unregister id b' else b')
  ]

  unfoldable online_user_ids : Bus D → List String
  unfolding online
  online_user_ids b = online b.by_user

  pub deliver : Event D → Subscription D → Option (Subscription D)
  deliver ev s =
      if s.closed
      then some s
      else if s.channel_closed
      then none
      else some (record s { events = offer s.events ev })

  pub deliver_to : Event D → ℕ → Bus D → Option (Bus D)
  unfolding deliver store
  deliver_to ev id b = elim (lookup id b.heap) [
    | none ↦ some b
    | some s ↦ elim (deliver ev s) [ none ↦ none | some s' ↦ some (store id s' b) ]
  ]

  pub deliver_all : Event D → List ℕ → Bus D → Option (Bus D)
  deliver_all ev [] b = some b
  deliver_all ev (id ∷ ids) b = elim (deliver_to ev id b) [
    | none ↦ none
    | some b' ↦ deliver_all ev ids b'
  ]

  -- The event as a room's subscribers see it.
  pub stamp : String → Event D → Event D
  stamp room ev = if ev.room_id =? "" then record ev { room_id = room } else ev

  pub publish_room : String → Event D → Bus D → Option (Bus D)
  unfolding stamp
  publish_room room ev b = deliver_all (stamp room ev) (members room b.by_room) b

  pub publish_user : String → Event D → Bus D → Option (Bus D)
  publish_user user ev b = deliver_all ev (members user b.by_user) b

  gain_of : Subscription D → ℕ → String → Bus D → Bus D
  unfolding store
  gain_of s id room b =
      if has room s.rooms
      then b
      else store id (record s { rooms = add room s.rooms })
          (record b { by_room = enter id room b.by_room })

  pub gain : ℕ → String → Bus D → Bus D
  unfolding gain_of
  gain id room b = elim (lookup id b.heap) [ none ↦ b | some s ↦ gain_of s id room b ]

  pub gain_all : List ℕ → String → Bus D → Bus D
  gain_all [] room b = b
  gain_all (id ∷ ids) room b = gain_all ids room (gain id room b)

  pub add_user_room_interest : String → String → Bus D → Bus D
  add_user_room_interest user room b =
      if room =? "" then b else gain_all (members user b.by_user) room b
