-- ===== src/EventBus/Interleaving/Safety.antt =====
-- internal/eventbus/bus.go: the invariant of its critical sections under any interleaving.
use gang_chat_server.Base.{
  ℕ, ◌+◌, ◌^◌, ◌%◌, ap, String, Bool, true, false, none, some, List, [], ◌∷◌, ◌≡◌, ◌≢◌, refl, arith,
  Option-cases, Bool-cases, inl, inr, subst, length,
}
use gang_chat_server.Base.Eq.{◌=?◌, nat_eq, string_eq}
use gang_chat_server.Base.Dict.{lookup, has, add}
use gang_chat_server.EventBus.Index.{members, next_rooms}
use gang_chat_server.EventBus.Lockstep.{
  Lockstep, new-Lockstep, subscribe-Lockstep, set_rooms-Lockstep, unregister-Lockstep,
  add_user_room_interest-Lockstep, store-Lockstep,
}
use gang_chat_server.EventBus.Delivery.{
  IsSound, AllSubs, store-AllSubs, reached, deliver_to-reached, reached-AllSubs, reached-Lockstep,
}
use gang_chat_server.EventBus.{
  Event, Subscription, Bus, new, subscribe, subscription, store, set_rooms, mark_closed, unregister,
  deliver_to, gain, gain_all, add_user_room_interest,
}
use gang_chat_server.EventBus.Interleaving.{World, Step, Reach, receive, take_event}

module _ {D : Type 0} where
  -- Both indexes are right, and every subscription is sound.
  pub record IsSafe (b : Bus D) : Type 0 where
    pub lockstep : Lockstep b
    pub sound : AllSubs IsSound b

  new-IsSafe : IsSafe new
  unfolding new lookup
  new-IsSafe = record { lockstep = new-Lockstep; sound = λ i s e. cc }

  -- A write that keeps the interests and the owner, and puts a sound subscription.
  store-IsSafe :
      (id : ℕ) (s s' : Subscription D) (b : Bus D)
      → lookup id b.heap ≡ some s
      → s'.rooms ≡ s.rooms
      → s'.user_id ≡ s.user_id
      → IsSound s'
      → IsSafe b
      → IsSafe (store id s' b)
  store-IsSafe id s s' b e r u v safe = record {
    lockstep = store-Lockstep id s s' b e r u safe.lockstep;
    sound = store-AllSubs IsSound id s' b v safe.sound;
  }

  subscribe-AllSubs :
      (user : String) (b : Bus D) → AllSubs IsSound b → AllSubs IsSound (subscribe user b).1
  unfolding subscribe store
  subscribe-AllSubs user b sound =
      store-AllSubs IsSound _ (subscription ((b.next_id + 1) % 2 ^ 64) user) b
        (unfold subscription in record { in_step = refl; bounded = omega arith }) sound

  set_rooms-AllSubs :
      (id : ℕ) (rooms : List String) (b : Bus D)
      → AllSubs IsSound b
      → AllSubs IsSound (set_rooms id rooms b)
  unfolding set_rooms
  set_rooms-AllSubs id rooms b sound = elim (Option-cases (lookup id b.heap)) [
    | inl e ↦ rw (e, set_rooms) sound
    | inr (s, e) ↦
        let v = sound id s e in
        rw (e, set_rooms)
          (store-AllSubs IsSound id (record s { rooms = next_rooms [] rooms }) b
            (record { in_step = v.in_step; bounded = v.bounded }) sound)
  ]

  unregister-AllSubs : (id : ℕ) (b : Bus D) → AllSubs IsSound b → AllSubs IsSound (unregister id b)
  unfolding unregister
  unregister-AllSubs id b sound = elim (Option-cases (lookup id b.heap)) [
    | inl e ↦ rw (e, unregister) sound
    | inr (s, e) ↦ rw (e, unregister) sound
  ]

  gain-AllSubs :
      (id : ℕ) (room : String) (b : Bus D) → AllSubs IsSound b → AllSubs IsSound (gain id room b)
  unfolding gain
  gain-AllSubs id room b sound = elim (Option-cases (lookup id b.heap)) [
    | inl e ↦ rw (e, gain) sound
    | inr (s, e) ↦ elim (Bool-cases (has room s.rooms)) [
      | inl h ↦ rw (e, gain) (rw h sound)
      | inr h ↦
          let v = sound id s e in
          rw (e, gain)
            (rw h (
              store-AllSubs IsSound id (record s { rooms = add room s.rooms }) b
                (record { in_step = v.in_step; bounded = v.bounded }) sound))
    ]
  ]

  gain_all-AllSubs :
      (ids : List ℕ) (room : String) (b : Bus D)
      → AllSubs IsSound b
      → AllSubs IsSound (gain_all ids room b)
  unfolding gain_all
  gain_all-AllSubs [] room b sound = sound
  gain_all-AllSubs (id ∷ ids) room b sound =
      gain_all-AllSubs ids room (gain id room b) (gain-AllSubs id room b sound)

  add_user_room_interest-AllSubs :
      (user room : String) (b : Bus D)
      → AllSubs IsSound b
      → AllSubs IsSound (add_user_room_interest user room b)
  unfolding add_user_room_interest
  add_user_room_interest-AllSubs user room b sound = elim (Bool-cases (room =? "")) [
    | inl h ↦ rw h sound
    | inr h ↦ rw h (gain_all-AllSubs (members user b.by_user) room b sound)
  ]

  take_event_keeps :
      (s : Subscription D) (q : List (Event D))
      → IsSound s
      → s.events ≡ q
      → ((take_event s q).rooms ≡ s.rooms)
        × ((take_event s q).user_id ≡ s.user_id)
        × IsSound (take_event s q)
  unfolding take_event
  take_event_keeps s [] v e = (refl, refl, v)
  take_event_keeps s (ev ∷ rest) v e =
      (refl, refl, record { in_step = v.in_step; bounded = omega (arith, v.bounded, ap length e) })

  receive-IsSafe : (id : ℕ) (b : Bus D) → IsSafe b → IsSafe (receive id b)
  unfolding receive
  receive-IsSafe id b safe = elim (Option-cases (lookup id b.heap)) [
    | inl e ↦ rw (e, receive) safe
    | inr (s, e) ↦
        let (r, u, v) = take_event_keeps s s.events (safe.sound id s e) refl in
        rw (e, receive) (store-IsSafe id s (take_event s s.events) b e r u v safe)
  ]

  -- A mark never closes a closed channel, and leaves the bus safe.
  mark_closed-IsSafe :
      (id : ℕ) (b : Bus D)
      → IsSafe b
      → (mine : Bool) × (b' : Bus D) × (mark_closed id b ≡ some (mine, b')) × IsSafe b'
  unfolding mark_closed
  mark_closed-IsSafe id b safe = elim (Option-cases (lookup id b.heap)) [
    | inl e ↦ (false, b, rw (e, mark_closed), safe)
    | inr (s, e) ↦
        let v = safe.sound id s e in
        elim (Bool-cases s.closed) [
          | inl h ↦ (
            false,
            store id s b,
            rw (e, mark_closed) (ground (arith, h)),
            store-IsSafe id s s b e refl refl v safe,
          )
          | inr h ↦
              let s' : Subscription D = record s { closed = true; channel_closed = true } in
              (
                true,
                store id s' b,
                rw (e, mark_closed) (ground (arith, h, v.in_step)),
                store-IsSafe id s s' b e refl refl (record { in_step = refl; bounded = v.bounded })
                    safe,
              )
        ]
  ]

  Step-IsSafe : {w v : World D} → Step w v → IsSafe w.bus → IsSafe v.bus
  Step-IsSafe {w} (Step.subscribes user h) safe = record {
    lockstep = subscribe-Lockstep user w.bus h safe.lockstep;
    sound = subscribe-AllSubs user w.bus safe.sound;
  }
  Step-IsSafe {w} (Step.sets_rooms id rooms h) safe = record {
    lockstep = set_rooms-Lockstep id rooms w.bus h safe.lockstep;
    sound = set_rooms-AllSubs id rooms w.bus safe.sound;
  }
  Step-IsSafe {w} (Step.gains user room) safe = record {
    lockstep = add_user_room_interest-Lockstep user room w.bus safe.lockstep;
    sound = add_user_room_interest-AllSubs user room w.bus safe.sound;
  }
  Step-IsSafe (Step.publishes_room room ev) safe = safe
  Step-IsSafe (Step.publishes_user user ev) safe = safe
  Step-IsSafe {w} (Step.delivers before after id ev b at done) safe =
      let same : reached ev id w.bus ≡ b = cc (deliver_to-reached ev id w.bus safe.sound) in
      subst IsSafe same (record {
        lockstep = reached-Lockstep ev id w.bus safe.lockstep;
        sound = reached-AllSubs ev id w.bus safe.sound;
      })
  Step-IsSafe {w} (Step.receives id) safe = receive-IsSafe id w.bus safe
  Step-IsSafe {w} (Step.marks id mine b done) safe =
      let (mine', b', e, safe') = mark_closed-IsSafe id w.bus safe in
      let same : b' ≡ b = cc in subst IsSafe same safe'
  Step-IsSafe {w} (Step.unregisters before after id at) safe = record {
    lockstep = unregister-Lockstep id w.bus safe.lockstep;
    sound = unregister-AllSubs id w.bus safe.sound;
  }

  -- In every state that any interleaving of subscribe, interest changes, publishing, delivery,
  -- receiving and the two halves of Close reaches, the bus is safe: its two indexes agree with the
  -- registered subscriptions' interests and owners, each channel is closed exactly when its
  -- subscription is marked closed, and each queue holds at most its capacity.
  pub Reach-IsSafe : {w : World D} → Reach w → IsSafe w.bus
  Reach-IsSafe Reach.start = new-IsSafe
  Reach-IsSafe (Reach.next r st) = Step-IsSafe st (Reach-IsSafe r)

  -- In every state that any interleaving of the bus's operations reaches, a delivery to any
  -- subscription and a close of any subscription succeed: no publisher sends on a closed channel
  -- and no channel is closed twice, which would panic.
  pub Reach-never_panics :
      {w : World D} (id : ℕ) (ev : Event D)
      → Reach w
      → (deliver_to ev id w.bus ≢ none) × (mark_closed id w.bus ≢ none)
  Reach-never_panics {w} id ev r =
      let safe = Reach-IsSafe r in
      let (mine, b, e, safe') = mark_closed-IsSafe id w.bus safe in
      (λ none_sent. cc (deliver_to-reached ev id w.bus safe.sound), λ none_closed. cc)
