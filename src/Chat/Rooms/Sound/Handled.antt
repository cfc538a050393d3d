-- ===== src/Chat/Rooms/Sound/Handled.antt =====
-- internal/chat: the guards of every handler.
use gang_chat_server.Base.{ℕ, String, Bool, ◌&&◌, not, if_cases}
use gang_chat_server.Base.Eq.{string_eq}
use gang_chat_server.Chat.Members.{owner, role_of}
use gang_chat_server.Chat.Rooms.State.{Env, Room, is_role, is_admin}
use gang_chat_server.Chat.Rooms.Decide.{unblock_room_user, delete_room, update_join_policy}
use gang_chat_server.Chat.Rooms.Handle.{Request, decide}
use gang_chat_server.Chat.Rooms.Sound.{Sound}
use gang_chat_server.Chat.Rooms.Sound.Members.{
  join_room-Sound, leave_room-Sound, remove_member-Sound, update_member_role-Sound,
  transfer_room_creator-Sound, set_text_mute-Sound, block_room_user-Sound,
}
use gang_chat_server.Chat.Rooms.Sound.Requests.{
  invite_member-Sound, review_room_invite-Sound, review_join_request-Sound,
  withdraw_room_application-Sound,
}

module _ (env : Env) where
  delete_room-Sound :
      (user : String) (confirmed : Bool) (room : Room)
      → Sound room (delete_room env user confirmed room)
  unfolding delete_room
  delete_room-Sound user confirmed room =
      if_cases (Sound room) (not room.exists) (λ _. tt)
        (λ _.
          if_cases (Sound room)
            (not (is_role owner (role_of user room.members)) && not (env.is_superuser user))
            (λ _. tt) (λ _. if_cases (Sound room) (not confirmed) (λ _. tt) (λ _. tt)))

  pub decide-Sound :
      (now : ℕ) (request : Request) (room : Room) → Sound room (decide env now request room)
  unfolding decide unblock_room_user update_join_policy
  decide-Sound now (Request.join user id reason) room = join_room-Sound env user id reason room
  decide-Sound now (Request.leave user confirm) room = leave_room-Sound env user confirm room
  decide-Sound now (Request.remove actor target confirm) room =
      remove_member-Sound env actor target confirm room
  decide-Sound now (Request.update actor target role name) room =
      update_member_role-Sound env actor target role name room
  decide-Sound now (Request.transfer actor target) room =
      transfer_room_creator-Sound env actor target room
  decide-Sound now (Request.mute actor target on seconds) room =
      set_text_mute-Sound env actor target on seconds now room
  decide-Sound now (Request.block actor target) room = block_room_user-Sound env actor target room
  decide-Sound now (Request.unblock actor target) room =
      if_cases (Sound room) (not (is_admin env actor room)) (λ _. tt) (λ _. tt)
  decide-Sound now (Request.invite inviter target id) room =
      invite_member-Sound env inviter target id room
  decide-Sound now (Request.review_invite user id accept request_id reason) room =
      review_room_invite-Sound env user id accept request_id reason room
  decide-Sound now (Request.review_request reviewer id approve) room =
      review_join_request-Sound env reviewer id approve room
  decide-Sound now (Request.withdraw user id) room =
      withdraw_room_application-Sound env user id room
  decide-Sound now (Request.dissolve user confirmed) room = delete_room-Sound user confirmed room
  decide-Sound now (Request.change_policy actor policy) room =
      if_cases (Sound room) (not (is_admin env actor room)) (λ _. tt) (λ _. tt)
