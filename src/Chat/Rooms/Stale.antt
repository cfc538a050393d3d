-- ===== src/Chat/Rooms/Stale.antt =====
-- internal/chat/room_members.go: the handlers that write on the strength of what may no longer hold.
use gang_chat_server.Base.{
  ℕ, String, true, false, if◌then◌else◌, ◌==◌, none, some, ◌≡◌, refl, ◌∙◌, Option-cases, inl, inr,
}
use gang_chat_server.Base.Eq.{string_eq, =?_refl}
use gang_chat_server.Base.Dict.{lookup, lookup-insert}
use gang_chat_server.Chat.Members.{
  member, owner, role_of, owner_count, set_role, demote_owners, new_member,
}
use gang_chat_server.Chat.Members.Counts.{
  key_count, key_count-update_member, key_count-demote_owners, owner_count-transfer, key_count-none,
}
use gang_chat_server.Chat.Members.Roles.{role_of-insert, insert_member_new, insert_member_old}
use gang_chat_server.Chat.Rooms.State.{
  Env, JoinRequest, Room, is_pending, is_member, is_admin, is_blacklisted,
}
use gang_chat_server.Chat.Rooms.Decide.{joins, transfers, approves, writes}
use gang_chat_server.Chat.Rooms.Decide.Requests.{review_join_request, find_request}
use gang_chat_server.Chat.Rooms.Apply.{add_room_member}
use gang_chat_server.Chat.Rooms.Handle.{Request, apply, run, decide, handle}

add_room_member-owner :
    (now : ℕ) (user : String) (room : Room)
    → owner_count room.members ≡ 0
    → lookup user room.members ≡ none
    → role_of user (add_room_member now user room).members ≡ some owner
unfolding add_room_member
add_room_member-owner now user room none_owns e =
    rw (none_owns, insert_member_new user owner now room.members e)
      (role_of-insert user user (new_member owner now) room.members ∙ rw (=?_refl user) refl)

module _ (env : Env) (now draw : ℕ) where
  -- A transfer that is committed after its target has left leaves the room with the same members
  -- and no owner, and makes whoever joins next its owner.
  pub stale_transfer :
      (target : String) (room : Room)
      → room.exists ≡ true
      → lookup target room.members ≡ none
      → (owner_count (apply env now draw (transfers target) room).1.members ≡ 0)
        × ((u : String)
            → key_count u (apply env now draw (transfers target) room).1.members
              ≡ key_count u room.members)
        × ((user : String)
            → lookup user (apply env now draw (transfers target) room).1.members ≡ none
            → role_of user
                (apply env now draw
                  (joins user)
                  (apply env now draw (transfers target) room).1).1.members
              ≡ some owner)
  unfolding apply set_role
  stale_transfer target room ex gone =
      let m = set_role target owner (demote_owners target room.members) in
      let after = record room { created_by = target; members = m } in
      let none_owns : owner_count m ≡ 0 =
        owner_count-transfer target room.members ∙ key_count-none target room.members gone in
      let kept : (u : String) → key_count u m ≡ key_count u room.members =
        λ u. rw (set_role, key_count-update_member, key_count-demote_owners) refl in
      simp ex (none_owns, kept, λ user e. add_room_member-owner now user after none_owns e)

  add_room_member-is_member :
      (user : String) (room : Room) → is_member user (add_room_member now user room) ≡ true
  unfolding add_room_member is_member
  add_room_member-is_member user room =
      let r = if owner_count room.members == 0 then owner else member in
      elim (Option-cases (lookup user room.members)) [
        | inl e ↦
            rw
              (
                insert_member_new user r now room.members e,
                lookup-insert user user (new_member r now) room.members,
                =?_refl user,
              )
              refl
        | inr (w, e) ↦ rw (insert_member_old user r now w room.members e, e) refl
      ]

  review_approves :
      (reviewer user id : String) (q : JoinRequest) (room : Room)
      → is_admin env reviewer room ≡ true
      → find_request id room.requests ≡ some (user, q)
      → is_blacklisted user room ≡ false
      → env.is_superuser user ≡ false
      → review_join_request env reviewer id true room ≡ writes (approves reviewer user id)
  unfolding review_join_request
  review_approves reviewer user id q room adm found clear plain =
      rw (review_join_request, adm, found, clear, plain) refl

  -- Where an admin approves a join request that is no longer pending, of a user who is no
  -- superuser and not blocked, the user is a member of the room afterwards.
  pub settled_request_is_approved :
      (reviewer user id : String) (q : JoinRequest) (room : Room)
      → room.exists ≡ true
      → is_admin env reviewer room ≡ true
      → find_request id room.requests ≡ some (user, q)
      → is_pending q.status ≡ false
      → is_blacklisted user room ≡ false
      → env.is_superuser user ≡ false
      → is_member user (handle env now draw (Request.review_request reviewer id true) room).1 ≡ true
  unfolding handle decide run apply is_member
  settled_request_is_approved reviewer user id q room ex adm found settled clear plain =
      rw (review_approves reviewer user id q room adm found clear plain)
        (simp ex (add_room_member-is_member user room))
