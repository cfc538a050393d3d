-- ===== src/EventBus/Tests.antt =====
-- internal/eventbus/bus.go: the theorems at a bus with one client, interested in one room.
use gang_chat_server.Base.{
  ℕ, ◌+◌, ◌-◌, ◌&&◌, if◌then◌else◌, List, [], ◌∷◌, ◌++◌, none, some, ◌≡◌, ◌≢◌, refl, arith, length,
  drop, min,
}
use mathlib.Core.Option
use gang_chat_server.Base.Eq.{nat_eq, string_eq}
use gang_chat_server.Base.Dict.{lookup, insert, has, add}
use gang_chat_server.EventBus.Queue.{capacity, offer, offer-drop, length-offer}
use gang_chat_server.EventBus.Index.{members, enter}
use gang_chat_server.EventBus.Index.Tidy.{IsTidy, insert-IsTidy, empty-IsTidy}
use gang_chat_server.EventBus.Lockstep.{Lockstep, interested, owned_by}
use gang_chat_server.EventBus.Delivery.{delivered, publish_room-lookup, publish_user-lookup}
use gang_chat_server.EventBus.Interleaving.{World, Step, Reach}
use gang_chat_server.EventBus.Interleaving.Safety.{IsSafe, Reach-IsSafe, Reach-never_panics}
use gang_chat_server.EventBus.{
  Event, Bus, new, subscribe, register, subscription, store, publish_room, publish_user, stamp,
  add_user_room_interest, gain, gain_all, gain_of, deliver_to, mark_closed,
}

abbrev hello : Event ℕ
hello = record { type_name = "hello"; room_id = ""; payload = 7 }

abbrev first_bus : Bus ℕ
first_bus = (subscribe "ann" new).1

abbrev lobby_bus : Bus ℕ
lobby_bus = add_user_room_interest "ann" "lobby" first_bus

abbrev lobby_world : World ℕ
lobby_world = record { bus = lobby_bus; pending = []; closing = [] }

lobby_reach : Reach lobby_world
unfolding new
lobby_reach =
    Reach.next (Reach.next Reach.start (Step.subscribes "ann" (omega arith)))
      (Step.gains "ann" "lobby")

lobby-IsSafe : IsSafe lobby_bus
lobby-IsSafe = Reach-IsSafe lobby_reach

lobby_rooms : IsTidy lobby_bus.by_room
unfolding subscribe register add_user_room_interest gain gain_all gain_of store enter members insert
    lookup has add new subscription
lobby_rooms = insert-IsTidy "lobby" 1 [] [] (refl, tt) empty-IsTidy

lobby_users : IsTidy lobby_bus.by_user
unfolding subscribe register add_user_room_interest gain gain_all gain_of store enter members insert
    lookup has add new subscription
lobby_users = insert-IsTidy "ann" 1 [] [] (refl, tt) empty-IsTidy

Reach-IsSafe_example : IsSafe lobby_bus
Reach-IsSafe_example = Reach-IsSafe lobby_reach

Reach-never_panics_example :
    (deliver_to hello 1 lobby_bus ≢ none) × (mark_closed 1 lobby_bus ≢ none)
Reach-never_panics_example = Reach-never_panics 1 hello lobby_reach

publish_room-lookup_example :
    (b' : Bus ℕ) × (publish_room "lobby" hello lobby_bus ≡ some b')
    × Lockstep b'
    × ((i : ℕ)
        → lookup i b'.heap ≡ (
            if has i lobby_bus.by_id && interested lobby_bus i "lobby"
            then Option.map (delivered (stamp "lobby" hello)) (lookup i lobby_bus.heap)
            else lookup i lobby_bus.heap))
publish_room-lookup_example =
    publish_room-lookup "lobby" hello lobby_bus lobby-IsSafe.lockstep lobby_rooms lobby-IsSafe.sound

publish_user-lookup_example :
    (b' : Bus ℕ) × (publish_user "ann" hello lobby_bus ≡ some b')
    × Lockstep b'
    × ((i : ℕ)
        → lookup i b'.heap ≡ (
            if has i lobby_bus.by_id && owned_by lobby_bus i "ann"
            then Option.map (delivered hello) (lookup i lobby_bus.heap)
            else lookup i lobby_bus.heap))
publish_user-lookup_example =
    publish_user-lookup "ann" hello lobby_bus lobby-IsSafe.lockstep lobby_users lobby-IsSafe.sound

abbrev two_events : List ℕ
two_events = 1 ∷ 2 ∷ []

offer-drop_example :
    offer two_events 3 ≡ drop (length two_events + 1 - capacity) two_events ++ 3 ∷ []
offer-drop_example = offer-drop two_events 3

length-offer_example : length (offer two_events 3) ≡ min (length two_events + 1) capacity
length-offer_example = length-offer two_events 3
