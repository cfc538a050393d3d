-- ===== src/EventBus/Delivery.antt =====
-- internal/eventbus/bus.go: what a publication does to every connection.
use mathlib.Core.Option
use gang_chat_server.Base.{
  ℕ, ◌≤◌, String, ◌&&◌, none, some, List, [], ◌∷◌, ◌≡◌, refl, arith, if◌then◌else◌, Option-cases,
  Bool-cases, inl, inr, subst, length,
}
use gang_chat_server.Base.Eq.{◌=?◌, nat_eq, string_eq}
use gang_chat_server.Base.Dict.{lookup, has, lookup-insert, Distinct}
use gang_chat_server.EventBus.Index.{members}
use gang_chat_server.EventBus.Index.Tidy.{IsTidy}
use gang_chat_server.EventBus.Queue.{offer, capacity, length-offer}
use gang_chat_server.EventBus.Lockstep.{Lockstep, interested, owned_by, store-Lockstep}
use gang_chat_server.EventBus.{
  Event, Subscription, Bus, store, deliver, deliver_to, deliver_all, publish_room, publish_user,
  stamp,
}

module _ {D : Type 0} where
  -- The channel is closed exactly when the subscription is, and it holds what its buffer takes.
  pub record IsSound (s : Subscription D) : Type 0 where
    pub in_step : s.channel_closed ≡ s.closed
    pub bounded : length s.events ≤ capacity

  abbrev pub AllSubs : (Subscription D → Type 0) → Bus D → Type 0
  AllSubs P b = (i : ℕ) (s : Subscription D) → lookup i b.heap ≡ some s → P s

  -- What a delivery leaves of a subscription.
  unfoldable pub delivered : Event D → Subscription D → Subscription D
  delivered ev s = if s.closed then s else record s { events = offer s.events ev }

  deliver-IsSound :
      (ev : Event D) (s : Subscription D) → IsSound s → deliver ev s ≡ some (delivered ev s)
  unfolding deliver delivered
  deliver-IsSound ev s v = ground arith

  delivered-IsSound : (ev : Event D) (s : Subscription D) → IsSound s → IsSound (delivered ev s)
  unfolding delivered
  delivered-IsSound ev s v = ground (arith, length-offer s.events ev)

  pub store-AllSubs :
      (P : Subscription D → Type 0) (id : ℕ) (s' : Subscription D) (b : Bus D)
      → P s'
      → AllSubs P b
      → AllSubs P (store id s' b)
  unfolding store
  store-AllSubs P id s' b p all i s e = elim (Bool-cases (id =? i)) [
    | inl h ↦ let same : s' ≡ s = ground (arith, lookup-insert id i s' b.heap) in subst P same p
    | inr h ↦ all i s (ground (arith, lookup-insert id i s' b.heap))
  ]

  -- The bus after one delivery.
  unfoldable pub reached : Event D → ℕ → Bus D → Bus D
  reached ev id b = elim (lookup id b.heap) [ none ↦ b | some s ↦ store id (delivered ev s) b ]

  pub deliver_to-reached :
      (ev : Event D) (id : ℕ) (b : Bus D)
      → AllSubs IsSound b
      → deliver_to ev id b ≡ some (reached ev id b)
  unfolding deliver_to reached
  deliver_to-reached ev id b sound = elim (Option-cases (lookup id b.heap)) [
    | inl e ↦ rw (e, deliver_to, reached)
    | inr (s, e) ↦ rw (e, deliver_to, reached) (rw (deliver-IsSound ev s (sound id s e)))
  ]

  lookup-reached :
      (ev : Event D) (id i : ℕ) (b : Bus D)
      → lookup i (reached ev id b).heap
        ≡ (if id =? i then Option.map (delivered ev) (lookup i b.heap) else lookup i b.heap)
  unfolding reached store
  lookup-reached ev id i b = elim (Option-cases (lookup id b.heap)) [
    | inl e ↦ rw (e, reached) (ground (arith, e, nat_eq.beq_iff id i))
    | inr (s, e) ↦
        rw (e, reached)
          (ground (arith, e, nat_eq.beq_iff id i, lookup-insert id i (delivered ev s) b.heap))
  ]

  pub reached-AllSubs :
      (ev : Event D) (id : ℕ) (b : Bus D) → AllSubs IsSound b → AllSubs IsSound (reached ev id b)
  unfolding reached
  reached-AllSubs ev id b sound = elim (Option-cases (lookup id b.heap)) [
    | inl e ↦ rw (e, reached) sound
    | inr (s, e) ↦
        rw (e, reached)
          (store-AllSubs IsSound id (delivered ev s) b (delivered-IsSound ev s (sound id s e))
            sound)
  ]

  delivered_keeps :
      (ev : Event D) (s : Subscription D)
      → ((delivered ev s).rooms ≡ s.rooms)
        × ((delivered ev s).user_id ≡ s.user_id)
        × ((delivered ev s).closed ≡ s.closed)
  unfolding delivered
  delivered_keeps ev s = ground arith

  pub reached-Lockstep :
      (ev : Event D) (id : ℕ) (b : Bus D) → Lockstep b → Lockstep (reached ev id b)
  unfolding reached
  reached-Lockstep ev id b inv = elim (Option-cases (lookup id b.heap)) [
    | inl e ↦ rw (e, reached) inv
    | inr (s, e) ↦
        let same = delivered_keeps ev s in
        rw (e, reached) (store-Lockstep id s (delivered ev s) b e same.0 same.1 inv)
  ]

  reached_all : Event D → List ℕ → Bus D → Bus D
  reached_all ev [] b = b
  reached_all ev (id ∷ ids) b = reached_all ev ids (reached ev id b)

  deliver_all-reached_all :
      (ev : Event D) (ids : List ℕ) (b : Bus D)
      → AllSubs IsSound b
      → deliver_all ev ids b ≡ some (reached_all ev ids b)
  unfolding deliver_all reached_all
  deliver_all-reached_all ev [] b sound = refl
  deliver_all-reached_all ev (id ∷ ids) b sound =
      rw (deliver_to-reached ev id b sound, deliver_all)
        (deliver_all-reached_all ev ids (reached ev id b) (reached-AllSubs ev id b sound))

  lookup-reached_all :
      (ev : Event D) (ids : List ℕ) (i : ℕ) (b : Bus D)
      → Distinct ids
      → lookup i (reached_all ev ids b).heap
        ≡ (if has i ids then Option.map (delivered ev) (lookup i b.heap) else lookup i b.heap)
  unfolding reached_all has
  lookup-reached_all ev [] i b d = refl
  lookup-reached_all ev (id ∷ ids) i b d = ground (
    arith,
    nat_eq.beq_iff id i,
    lookup-reached ev id i b,
    lookup-reached_all ev ids i (reached ev id b) d.1,
  )

  reached_all-Lockstep :
      (ev : Event D) (ids : List ℕ) (b : Bus D) → Lockstep b → Lockstep (reached_all ev ids b)
  unfolding reached_all
  reached_all-Lockstep ev [] b inv = inv
  reached_all-Lockstep ev (id ∷ ids) b inv =
      reached_all-Lockstep ev ids (reached ev id b) (reached-Lockstep ev id b inv)

  -- On a bus whose room index is in lockstep with the subscriptions and tidy, and whose
  -- subscriptions are sound, publishing to a room succeeds and keeps the lockstep; it queues the
  -- event, stamped with the room, at each registered subscription interested in the room that is
  -- not closed, and leaves every other subscription as it was.
  pub publish_room-lookup :
      (room : String) (ev : Event D) (b : Bus D)
      → Lockstep b
      → IsTidy b.by_room
      → AllSubs IsSound b
      → (b' : Bus D) × (publish_room room ev b ≡ some b')
        × Lockstep b'
        × ((i : ℕ)
            → lookup i b'.heap ≡ (
                if has i b.by_id && interested b i room
                then Option.map (delivered (stamp room ev)) (lookup i b.heap)
                else lookup i b.heap))
  unfolding publish_room
  publish_room-lookup room ev b inv tidy sound =
      let ids = members room b.by_room in
      (
        reached_all (stamp room ev) ids b,
        deliver_all-reached_all (stamp room ev) ids b sound,
        reached_all-Lockstep (stamp room ev) ids b inv,
        λ i.
            rw (← inv.rooms i room)
              (lookup-reached_all (stamp room ev) ids i b (tidy.distinct room)),
      )

  -- On a bus whose user index is in lockstep with the subscriptions and tidy, and whose
  -- subscriptions are sound, publishing to a user succeeds and keeps the lockstep; it queues the
  -- event at each of the user's registered subscriptions that is not closed, whatever its
  -- interests, and leaves every other subscription as it was.
  pub publish_user-lookup :
      (user : String) (ev : Event D) (b : Bus D)
      → Lockstep b
      → IsTidy b.by_user
      → AllSubs IsSound b
      → (b' : Bus D) × (publish_user user ev b ≡ some b')
        × Lockstep b'
        × ((i : ℕ)
            → lookup i b'.heap ≡ (
                if has i b.by_id && owned_by b i user
                then Option.map (delivered ev) (lookup i b.heap)
                else lookup i b.heap))
  unfolding publish_user
  publish_user-lookup user ev b inv tidy sound =
      let ids = members user b.by_user in
      (
        reached_all ev ids b,
        deliver_all-reached_all ev ids b sound,
        reached_all-Lockstep ev ids b inv,
        λ i. rw (← inv.users i user) (lookup-reached_all ev ids i b (tidy.distinct user)),
      )
