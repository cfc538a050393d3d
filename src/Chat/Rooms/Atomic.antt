-- ===== src/Chat/Rooms/Atomic.antt =====
-- internal/chat: a room under requests that do not interrupt each other.
use gang_chat_server.Base.{
  ℕ, String, true, false, not, List, [], ◌∷◌, some, ◌≡◌, refl, arith, if_either, inl, inr, ◌⊎◌,
}
use gang_chat_server.Base.Dict.{lookup}
use gang_chat_server.Base.Eq.{string_eq}
use gang_chat_server.Chat.Members.{owner, is_room_member, role_of, owner_count}
use gang_chat_server.Chat.Members.Counts.{IsKeyed}
use gang_chat_server.Chat.Members.Roles.{owner_count-only, owner_count-role_of}
use gang_chat_server.Chat.Rooms.State.{
  Env, JoinPolicy, Room, is_member, is_blacklisted, same_policy,
}
use gang_chat_server.Chat.Rooms.Decide.{
  Reply, Write, asks_to_join, joins, leaves, removes, updates, transfers, mutes, blocks, unblocks,
  invites, declines, accepts_as_member, accepts_as_superuser, accepts_and_asks, accepts_and_joins,
  approves, marks, withdraws, deletes, sets_policy, Decision, answers, writes,
}
use gang_chat_server.Chat.Rooms.Apply.{update_target}
use gang_chat_server.Chat.Rooms.Handle.{Request, apply, run, decide, handle, new_room}
use gang_chat_server.Chat.Rooms.Transactions.{set_policy}
use gang_chat_server.Chat.Rooms.Ruled.{IsRuled, drop_room-IsRuled, new_room-IsRuled}
use gang_chat_server.Chat.Rooms.Blocked.{block-Apart, unblock-Apart, IsApart-is_member}
use gang_chat_server.Chat.Rooms.Review.{in_existing-either, auto_review-keeps}
use gang_chat_server.Chat.Rooms.Sound.{IsSound, Sound}
use gang_chat_server.Chat.Rooms.Sound.Handled.{decide-Sound}
use gang_chat_server.Chat.Rooms.Lawful.{
  IsLawful, update_member-IsLawful, add_room_member-IsLawful, leave-IsLawful, rename-IsLawful,
  rerole-IsLawful, transfer-IsLawful,
}

owned :
    (room : Room)
    → IsRuled room
    → (room.members ≡ [])
      ⊎ ((role_of room.created_by room.members ≡ some owner) × (owner_count room.members ≡ 1))
owned room (led, inl e) = inl e
owned room (led, inr h) =
    let c = room.created_by in
    let most = owner_count-only c room.members led.0 led.1 in
    let key = led.0 c in
    let least = owner_count-role_of c room.members h in inr (h, omega (arith, most, key, least))

module _ (env : Env) (now draw : ℕ) where
  apply-IsLawful :
      (w : Write) (room : Room)
      → IsSound room w
      → IsLawful room
      → IsLawful (apply env now draw w room).1
  unfolding apply update_target
  apply-IsLawful (asks_to_join user id reason) room ok h =
      in_existing-either IsLawful room _ h (λ _. h)
  apply-IsLawful (joins user) room ok h =
      in_existing-either IsLawful room _ h (λ e. add_room_member-IsLawful now user room e ok h)
  apply-IsLawful (leaves user) room ok h = leave-IsLawful draw user room h
  apply-IsLawful (removes target) room ok h =
      if_either (λ (o : Reply × Room). IsLawful o.1) (not (is_room_member target room.members)) h
        (leave-IsLawful draw target room h)
  apply-IsLawful (updates target role name) room ok h =
      let (after, e, h') = rerole-IsLawful draw target role room ok h in
      if_either (λ (o : Reply × Room). IsLawful o.1) (not (is_room_member target room.members)) h
        (rw e (rename-IsLawful target name after h'))
  apply-IsLawful (transfers target) room ok h =
      in_existing-either IsLawful room _ h (λ _. transfer-IsLawful target room ok h)
  apply-IsLawful (mutes target until) room ok h =
      if_either (λ (o : Reply × Room). IsLawful o.1) (not (is_room_member target room.members)) h
        (update_member-IsLawful target (λ w. record w { text_muted_until = until }) room (λ w. refl)
          h)
  apply-IsLawful (blocks actor target) room ok (ruled, apart) =
      in_existing-either IsLawful room _ (ruled, apart)
        (λ _. (ruled, block-Apart target _ room ok apart))
  apply-IsLawful (unblocks target) room ok (ruled, apart) = (ruled, unblock-Apart target room apart)
  apply-IsLawful (invites inviter target id) room ok h =
      if_either (λ (o : Reply × Room). IsLawful o.1) room.exists h h
  apply-IsLawful (declines id) room ok h = h
  apply-IsLawful (accepts_as_member user) room ok h = h
  apply-IsLawful (accepts_as_superuser user) room ok h = h
  apply-IsLawful (accepts_and_asks user id reason) room ok h =
      in_existing-either IsLawful room _ h (λ _. h)
  apply-IsLawful (accepts_and_joins user reviewer) room ok h =
      in_existing-either IsLawful room _ h (λ e. add_room_member-IsLawful now user room e ok h)
  apply-IsLawful (approves reviewer user id) room ok h =
      in_existing-either IsLawful room _ h (λ e. add_room_member-IsLawful now user room e ok h)
  apply-IsLawful (marks reviewer id status) room ok h = h
  apply-IsLawful (withdraws id) room ok h = h
  apply-IsLawful deletes room ok h = (drop_room-IsRuled room, λ u here. ground arith)
  apply-IsLawful (sets_policy reviewer old new) room ok h =
      in_existing-either IsLawful room _ h (λ e.
        if_either IsLawful (same_policy old new) h
          (auto_review-keeps (λ r. (r.exists ≡ true) × IsLawful r) (λ r qs p. p) env now
            (λ user r _ clear p. (p.0, add_room_member-IsLawful now user r p.0 clear p.1)) reviewer
            old new (set_policy new room) (e, h)).1)

  run-IsLawful :
      (d : Decision) (room : Room)
      → Sound room d
      → IsLawful room
      → IsLawful (run env now draw d room).1
  unfolding run
  run-IsLawful (answers reply) room ok h = h
  run-IsLawful (writes w) room ok h = apply-IsLawful w room ok h

module _ (env : Env) where
  handle-IsLawful :
      (now draw : ℕ) (request : Request) (room : Room)
      → IsLawful room
      → IsLawful (handle env now draw request room).1
  unfolding handle
  handle-IsLawful now draw request room h =
      run-IsLawful env now draw (decide env now request room) room
        (decide-Sound env now request room) h

  -- Requests one after the other, each at its time and with its chance.
  unfoldable pub handle_all : List (ℕ × ℕ × Request) → Room → Room
  unfolding handle
  handle_all [] room = room
  handle_all ((now, draw, request) ∷ requests) room =
      handle_all requests (handle env now draw request room).1

  new_room-IsLawful :
      (now : ℕ) (user : String) (policy : JoinPolicy) → IsLawful (new_room env now user policy)
  unfolding new_room lookup
  new_room-IsLawful now user policy = (new_room-IsRuled env now user policy, λ u here. refl)

  handle_all-IsLawful :
      (requests : List (ℕ × ℕ × Request)) (room : Room)
      → IsLawful room
      → IsLawful (handle_all requests room)
  unfolding handle_all
  handle_all-IsLawful [] room h = h
  handle_all-IsLawful ((now, draw, request) ∷ requests) room h =
      handle_all-IsLawful requests _ (handle-IsLawful now draw request room h)

  -- After any requests to a room that a user made, one after the other, the room has no members,
  -- or the creator on record is its only owner; no user has two memberships; and no member of the
  -- room stands on its blacklist.
  pub creator_owns_the_room :
      (requests : List (ℕ × ℕ × Request)) (now : ℕ) (user : String) (policy : JoinPolicy)
      → let room = handle_all requests (new_room env now user policy) in
        ((room.members ≡ [])
          ⊎ ((role_of room.created_by room.members ≡ some owner) × (owner_count room.members ≡ 1)))
        × IsKeyed room.members
        × ((u : String) → is_member u room ≡ true → is_blacklisted u room ≡ false)
  creator_owns_the_room requests now user policy =
      let room = handle_all requests (new_room env now user policy) in
      let (ruled, apart) =
        handle_all-IsLawful requests (new_room env now user policy)
          (new_room-IsLawful now user policy) in
      (owned room ruled, ruled.0.0, λ u here. IsApart-is_member u room apart here)
