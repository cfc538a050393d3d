-- ===== src/EventBus/Lockstep.antt =====
-- internal/eventbus/bus.go: the two indexes beside the subscriptions, method by method.
use gang_chat_server.Base.{
  ℕ, ◌+◌, ◌%◌, ◌^◌, ◌<◌, String, Bool, true, false, ◌&&◌, none, some, List, [], ◌∷◌, ◌≡◌, refl,
  arith, Option-cases, Bool-cases, inl, inr, ==_iff,
}
use gang_chat_server.Base.Eq.{◌=?◌, =?_refl, nat_eq, string_eq}
use gang_chat_server.Base.Dict.{lookup, has, add, lookup-insert, has-add, has-remove}
use gang_chat_server.EventBus.Index.{
  members, leave_stale, next_rooms, members-enter, members-leave, members-leave_all,
  members-leave_stale, members-enter_new,
}
use gang_chat_server.EventBus.{
  Subscription, Bus, new, subscribe, register, subscription, store, set_rooms, set_rooms_of,
  unregister, unregister_of, gain, gain_of, gain_all, add_user_room_interest,
}

module _ {D : Type 0} where
  unfoldable pub interested : Bus D → ℕ → String → Bool
  interested b id room = elim (lookup id b.heap) [ none ↦ false | some s ↦ has room s.rooms ]

  unfoldable pub owned_by : Bus D → ℕ → String → Bool
  owned_by b id user = elim (lookup id b.heap) [ none ↦ false | some s ↦ s.user_id =? user ]

  -- A room's set holds the registered subscriptions with that interest, a user's set those of the
  -- user; a registered id is that of a subscription, and no id above the counter is used.
  pub record Lockstep (b : Bus D) : Type 0 where
    pub rooms :
        (i : ℕ) (r : String) → has i (members r b.by_room) ≡ (has i b.by_id && interested b i r)
    pub users :
        (i : ℕ) (u : String) → has i (members u b.by_user) ≡ (has i b.by_id && owned_by b i u)
    pub known : (i : ℕ) → lookup i b.heap ≡ none → has i b.by_id ≡ false
    pub fresh : (i : ℕ) → b.next_id < i → lookup i b.heap ≡ none

  pub new-Lockstep : Lockstep new
  unfolding new members has lookup
  new-Lockstep = record {
    rooms = λ i r. refl;
    users = λ i u. refl;
    known = λ i h. refl;
    fresh = λ i h. refl;
  }

  register-Lockstep :
      (id : ℕ) (user : String) (b : Bus D)
      → b.next_id < id
      → Lockstep b
      → Lockstep (register id user b)
  unfolding register interested owned_by has
  register-Lockstep id user b up inv = record {
    rooms = λ i r. ground (
      arith,
      inv.rooms i r,
      inv.known id,
      inv.fresh id,
      lookup-insert id i (subscription id user) b.heap,
      has-add id i b.by_id,
    );
    users = λ i u. ground (
      arith,
      inv.users i u,
      inv.known id,
      inv.fresh id,
      lookup-insert id i (subscription id user) b.heap,
      has-add id i b.by_id,
      members-enter id user u b.by_user i,
    );
    known = λ i h. ground (
      arith,
      inv.known i,
      lookup-insert id i (subscription id user) b.heap,
      has-add id i b.by_id,
    );
    fresh = λ i h. ground (arith, inv.fresh i, lookup-insert id i (subscription id user) b.heap);
  }

  pub subscribe-Lockstep :
      (user : String) (b : Bus D)
      → b.next_id + 1 < 2 ^ 64
      → Lockstep b
      → Lockstep (subscribe user b).1
  unfolding subscribe
  subscribe-Lockstep user b room inv =
      let no_wrap : (b.next_id + 1) % 2 ^ 64 ≡ b.next_id + 1 = omega arith in
      rw no_wrap (register-Lockstep (b.next_id + 1) user b (omega arith) inv)

  -- A write that keeps the interests and the owner keeps the indexes right.
  pub store-Lockstep :
      (id : ℕ) (s s' : Subscription D) (b : Bus D)
      → lookup id b.heap ≡ some s
      → s'.rooms ≡ s.rooms
      → s'.user_id ≡ s.user_id
      → Lockstep b
      → Lockstep (store id s' b)
  unfolding store interested owned_by
  store-Lockstep id s s' b e same_rooms same_user inv = record {
    rooms = λ i r. ground (arith, inv.rooms i r, lookup-insert id i s' b.heap, ==_iff id i);
    users = λ i u. ground (arith, inv.users i u, lookup-insert id i s' b.heap);
    known = λ i h. ground (arith, inv.known i, lookup-insert id i s' b.heap);
    fresh = λ i h. ground (arith, inv.fresh i, lookup-insert id i s' b.heap);
  }

  set_rooms_of-Lockstep :
      (s : Subscription D) (id : ℕ) (room_ids : List String) (b : Bus D)
      → lookup id b.heap ≡ some s
      → has id b.by_id ≡ true
      → Lockstep b
      → Lockstep (set_rooms_of s id room_ids b)
  unfolding set_rooms_of interested owned_by
  set_rooms_of-Lockstep s id room_ids b e live inv =
      let next = next_rooms [] room_ids in
      let written = λ (i : ℕ). lookup-insert id i (record s { rooms = next }) b.heap in
      record {
        rooms = λ i r. ground (
          arith,
          inv.rooms i r,
          written i,
          members-enter_new id s.rooms next r (leave_stale id next s.rooms b.by_room) i,
          members-leave_stale id next s.rooms r b.by_room i,
        );
        users = λ i u. ground (arith, inv.users i u, written i);
        known = λ i h. ground (arith, inv.known i, written i);
        fresh = λ i h. ground (arith, inv.fresh i, written i);
      }

  -- A connection sets its rooms before it closes.
  pub set_rooms-Lockstep :
      (id : ℕ) (room_ids : List String) (b : Bus D)
      → has id b.by_id ≡ true
      → Lockstep b
      → Lockstep (set_rooms id room_ids b)
  unfolding set_rooms
  set_rooms-Lockstep id room_ids b live inv = elim (Option-cases (lookup id b.heap)) [
    | inl e ↦ rw (e, set_rooms) inv
    | inr (s, e) ↦ rw (e, set_rooms) (set_rooms_of-Lockstep s id room_ids b e live inv)
  ]

  unregister_of-Lockstep :
      (s : Subscription D) (id : ℕ) (b : Bus D)
      → lookup id b.heap ≡ some s
      → Lockstep b
      → Lockstep (unregister_of s id b)
  unfolding unregister_of interested owned_by
  unregister_of-Lockstep s id b e inv = record {
    rooms = λ i r.
        ground (
          arith,
          inv.rooms i r,
          has-remove id i b.by_id,
          members-leave_all id s.rooms r b.by_room i,
        );
    users = λ i u.
        ground
          (arith, inv.users i u, has-remove id i b.by_id, members-leave id s.user_id u b.by_user i);
    known = λ i h. ground (arith, inv.known i, has-remove id i b.by_id);
    fresh = inv.fresh;
  }

  pub unregister-Lockstep : (id : ℕ) (b : Bus D) → Lockstep b → Lockstep (unregister id b)
  unfolding unregister
  unregister-Lockstep id b inv = elim (Option-cases (lookup id b.heap)) [
    | inl e ↦ rw (e, unregister) inv
    | inr (s, e) ↦ rw (e, unregister) (unregister_of-Lockstep s id b e inv)
  ]

  gain_of-Lockstep :
      (s : Subscription D) (id : ℕ) (room : String) (b : Bus D)
      → lookup id b.heap ≡ some s
      → has id b.by_id ≡ true
      → Lockstep b
      → Lockstep (gain_of s id room b)
  unfolding gain_of interested owned_by
  gain_of-Lockstep s id room b e live inv = elim (Bool-cases (has room s.rooms)) [
    | inl had ↦ rw had inv
    | inr lacked ↦
        let written =
          λ (i : ℕ). lookup-insert id i (record s { rooms = add room s.rooms }) b.heap in
        rw lacked (record {
          rooms = λ i r. ground (
            arith,
            inv.rooms i r,
            written i,
            members-enter id room r b.by_room i,
            has-add room r s.rooms,
            string_eq.beq_iff room r,
          );
          users = λ i u. ground (arith, inv.users i u, written i);
          known = λ i h. ground (arith, inv.known i, written i);
          fresh = λ i h. ground (arith, inv.fresh i, written i);
        })
  ]

  pub gain-Lockstep :
      (id : ℕ) (room : String) (b : Bus D)
      → has id b.by_id ≡ true
      → Lockstep b
      → Lockstep (gain id room b)
  unfolding gain
  gain-Lockstep id room b live inv = elim (Option-cases (lookup id b.heap)) [
    | inl e ↦ rw (e, gain) inv
    | inr (s, e) ↦ rw (e, gain) (gain_of-Lockstep s id room b e live inv)
  ]

  by_id-gain : (id : ℕ) (room : String) (b : Bus D) → (gain id room b).by_id ≡ b.by_id
  unfolding gain gain_of
  by_id-gain id room b = ground arith

  gain_all-Lockstep :
      (ids : List ℕ) (room : String) (b : Bus D)
      → ((i : ℕ) → has i ids ≡ true → has i b.by_id ≡ true)
      → Lockstep b
      → Lockstep (gain_all ids room b)
  unfolding gain_all has
  gain_all-Lockstep [] room b live inv = inv
  gain_all-Lockstep (id ∷ ids) room b live inv =
      gain_all-Lockstep ids room (gain id room b) (λ i h. rw by_id-gain (live i (ground arith)))
        (gain-Lockstep id room b (live id (rw =?_refl)) inv)

  pub add_user_room_interest-Lockstep :
      (user room : String) (b : Bus D) → Lockstep b → Lockstep (add_user_room_interest user room b)
  unfolding add_user_room_interest
  add_user_room_interest-Lockstep user room b inv = elim (Bool-cases (room =? "")) [
    | inl blank ↦ rw blank inv
    | inr named ↦ rw named (
        gain_all-Lockstep (members user b.by_user) room b (λ i h. ground (arith, inv.users i user))
          inv)
  ]
