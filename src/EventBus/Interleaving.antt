-- ===== src/EventBus/Interleaving.antt =====
-- internal/eventbus/bus.go under concurrency. A publisher takes its snapshot of the subscribers
-- under the bus's lock and delivers to each of them later under that subscriber's own; `Close` marks
-- the subscription under its lock and unregisters it later under the bus's. Any goroutine may run
-- between two such sections, and the client takes events off its queue at any time.
pub mod Safety
use gang_chat_server.Base.{
  ℕ, suc, ◌+◌, ◌^◌, ◌%◌, ap, ◌≤◌, ◌<◌, String, Bool, true, false, ◌&&◌, Option, none, some, List,
  [], ◌∷◌, ◌++◌, map, ◌≡◌, ◌≢◌, refl, arith, if◌then◌else◌, Option-cases, Bool-cases, inl, inr,
  subst, length, sym, ◌∙◌,
}
use gang_chat_server.Base.Eq.{◌=?◌, nat_eq, string_eq}
use gang_chat_server.Base.Dict.{lookup, insert, has, add, lookup-insert}
use gang_chat_server.EventBus.Index.{members, next_rooms}
use gang_chat_server.EventBus.Lockstep.{
  Lockstep, new-Lockstep, subscribe-Lockstep, set_rooms-Lockstep, unregister-Lockstep,
  add_user_room_interest-Lockstep, store-Lockstep,
}
use gang_chat_server.EventBus.Delivery.{
  IsSound, AllSubs, store-AllSubs, reached, deliver_to-reached, reached-AllSubs, reached-Lockstep,
}
use gang_chat_server.EventBus.{
  Event, Subscription, Bus, new, subscribe, register, subscription, store, set_rooms, set_rooms_of,
  mark_closed, mark_closed_sub, unregister, unregister_of, deliver_to, stamp, gain, gain_of,
  gain_all, add_user_room_interest,
}

-- The bus, the deliveries that publishers still have to make, and the subscriptions that a `Close`
-- has marked and has still to unregister.
pub record World (D : Type 0) : Type 0 where
  pub bus : Bus D
  pub pending : List (ℕ × Event D)
  pub closing : List ℕ

module _ {D : Type 0} where
  pub aimed : Event D → List ℕ → List (ℕ × Event D)
  aimed ev = map (λ i. (i, ev))

  -- The client takes the oldest event.
  take_event : Subscription D → List (Event D) → Subscription D
  take_event s [] = s
  take_event s (ev ∷ rest) = record s { events = rest }

  pub receive : ℕ → Bus D → Bus D
  unfolding take_event store
  receive id b = elim (lookup id b.heap) [ none ↦ b | some s ↦ store id (take_event s s.events) b ]

  pub data Step (w : World D) : World D → Type 0 where
    subscribes :
        (user : String)
        → w.bus.next_id + 1 < 2 ^ 64
        → Step w (record w { bus = (subscribe user w.bus).1 })
    sets_rooms :
        (id : ℕ) (rooms : List String)
        → has id w.bus.by_id ≡ true
        → Step w (record w { bus = set_rooms id rooms w.bus })
    gains :
        (user room : String) → Step w (record w { bus = add_user_room_interest user room w.bus })
    publishes_room :
        (room : String) (ev : Event D)
        → Step w
            (record w { pending = w.pending ++ aimed (stamp room ev) (members room w.bus.by_room) })
    publishes_user :
        (user : String) (ev : Event D)
        → Step w (record w { pending = w.pending ++ aimed ev (members user w.bus.by_user) })
    delivers :
        (before after : List (ℕ × Event D)) (id : ℕ) (ev : Event D) (b : Bus D)
        → w.pending ≡ before ++ (id, ev) ∷ after
        → deliver_to ev id w.bus ≡ some b
        → Step w (record w { bus = b; pending = before ++ after })
    receives : (id : ℕ) → Step w (record w { bus = receive id w.bus })
    marks :
        (id : ℕ) (mine : Bool) (b : Bus D)
        → mark_closed id w.bus ≡ some (mine, b)
        → Step w (record w { bus = b; closing = if mine then id ∷ w.closing else w.closing })
    unregisters :
        (before after : List ℕ) (id : ℕ)
        → w.closing ≡ before ++ id ∷ after
        → Step w (record w { bus = unregister id w.bus; closing = before ++ after })

  pub data Reach : World D → Type 0 where
    start : Reach (record { bus = new; pending = []; closing = [] })
    next : {w v : World D} → Reach w → Step w v → Reach v
