-- ===== src/Chat/Rooms/Race.antt =====
-- internal/chat: the handlers of several requests at once. Each reads the room, and its transaction
-- begins when others may have written to the room.
use gang_chat_server.Base.{
  ℕ, ◌≤◌, String, List, [], ◌∷◌, some, ◌≡◌, arith, ap, subst, ◌++◌, All, All-append, All-split,
}
use gang_chat_server.Chat.Members.{owner, role_of, owner_count}
use gang_chat_server.Chat.Members.Counts.{IsKeyed}
use gang_chat_server.Chat.Members.Roles.{owner_count-only}
use gang_chat_server.Chat.Rooms.State.{Env, JoinPolicy, Room}
use gang_chat_server.Chat.Rooms.Decide.{
  Write, asks_to_join, joins, leaves, removes, updates, transfers, mutes, blocks, unblocks, invites,
  declines, accepts_as_member, accepts_as_superuser, accepts_and_asks, accepts_and_joins, approves,
  marks, withdraws, deletes, sets_policy, Decision, answers, writes,
}
use gang_chat_server.Chat.Rooms.Handle.{Request, apply, decide, new_room}
use gang_chat_server.Chat.Rooms.Led.{IsLed}
use gang_chat_server.Chat.Rooms.Ruled.{new_room-IsRuled}
use gang_chat_server.Chat.Rooms.Led.Writes.{IsAllowed, apply-IsLed}
use gang_chat_server.Chat.Rooms.Sound.{IsSound, Sound}
use gang_chat_server.Chat.Rooms.Sound.Handled.{decide-Sound}

pub IsSound-IsAllowed : (room : Room) (w : Write) → IsSound room w → IsAllowed w
IsSound-IsAllowed room (updates target role name) h = h
IsSound-IsAllowed room (asks_to_join user id reason) h = tt
IsSound-IsAllowed room (joins user) h = tt
IsSound-IsAllowed room (leaves user) h = tt
IsSound-IsAllowed room (removes target) h = tt
IsSound-IsAllowed room (transfers target) h = tt
IsSound-IsAllowed room (mutes target until) h = tt
IsSound-IsAllowed room (blocks actor target) h = tt
IsSound-IsAllowed room (unblocks target) h = tt
IsSound-IsAllowed room (invites inviter target id) h = tt
IsSound-IsAllowed room (declines id) h = tt
IsSound-IsAllowed room (accepts_as_member user) h = tt
IsSound-IsAllowed room (accepts_as_superuser user) h = tt
IsSound-IsAllowed room (accepts_and_asks user id reason) h = tt
IsSound-IsAllowed room (accepts_and_joins user reviewer) h = tt
IsSound-IsAllowed room (approves reviewer user id) h = tt
IsSound-IsAllowed room (marks reviewer id status) h = tt
IsSound-IsAllowed room (withdraws id) h = tt
IsSound-IsAllowed room deletes h = tt
IsSound-IsAllowed room (sets_policy reviewer old new) h = tt

written : Write → Decision → Write
written w (answers r) = w
written w (writes v) = v

writes_inj : (v w : Write) → writes v ≡ writes w → v ≡ w
unfolding written
writes_inj v w e = ap (written v) e

-- A room and the transactions whose handlers have read it and not yet begun them.
pub record World : Type 0 where
  pub room : Room
  pub pending : List Write

module _ (env : Env) where
  pub data Step (x : World) : World → Type 0 where
    reads :
        (now : ℕ) (request : Request) (w : Write)
        → decide env now request x.room ≡ writes w
        → Step x (record x { pending = w ∷ x.pending })
    commits :
        (now draw : ℕ) (before after : List Write) (w : Write)
        → x.pending ≡ before ++ (w ∷ after)
        → Step x (record { room = (apply env now draw w x.room).1; pending = before ++ after })

  pub data Reach : World → Type 0 where
    start :
        (now : ℕ) (user : String) (policy : JoinPolicy)
        → Reach (record { room = new_room env now user policy; pending = [] })
    next : {x y : World} → Reach x → Step x y → Reach y

  abbrev IsSafe : World → Type 0
  IsSafe x = IsLed x.room × All IsAllowed x.pending

  writes-IsAllowed :
      (room : Room) (w : Write) (d : Decision) → Sound room d → d ≡ writes w → IsAllowed w
  writes-IsAllowed room w (answers r) h e = cc
  writes-IsAllowed room w (writes v) h e =
      subst IsAllowed (writes_inj v w e) (IsSound-IsAllowed room v h)

  Step-IsSafe : {x y : World} → Step x y → IsSafe x → IsSafe y
  Step-IsSafe {x} (reads now request w e) (led, ok) =
      (led, (writes-IsAllowed x.room w _ (decide-Sound env now request x.room) e, ok))
  Step-IsSafe {x} (commits now draw before after w e) (led, ok) =
      let (first, rest) = All-split IsAllowed before (w ∷ after) (subst (All IsAllowed) e ok) in
      (apply-IsLed env now draw w x.room rest.0 led, All-append IsAllowed before after first rest.1)

  Reach-IsSafe : {x : World} → Reach x → IsSafe x
  Reach-IsSafe (start now user policy) = ((new_room-IsRuled env now user policy).0, tt)
  Reach-IsSafe (next r s) = Step-IsSafe s (Reach-IsSafe r)

  -- However the handlers of several requests are interleaved, each reading the room before others
  -- have written to it, no user has two memberships, the room has at most one owner, and only the
  -- creator on record can be the owner.
  pub one_owner_in_every_order :
      {x : World}
      → Reach x
      → IsKeyed x.room.members
        × (owner_count x.room.members ≤ 1)
        × ((u : String) → role_of u x.room.members ≡ some owner → u ≡ x.room.created_by)
  one_owner_in_every_order {x} r =
      let (keyed, only, gone) = (Reach-IsSafe r).0 in
      let c = x.room.created_by in
      (keyed, ground (arith, owner_count-only c x.room.members keyed only, keyed c), only)
