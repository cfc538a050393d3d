-- ===== src/Chat/Rooms/Sound/Members.antt =====
-- internal/chat: the guards of the handlers on members and the blacklist.
use gang_chat_server.Base.{ℕ, String, Bool, ◌&&◌, not, leb, Option, length, arith, if_cases}
use gang_chat_server.Base.Eq.{◌=?◌, string_eq}
use gang_chat_server.Chat.Members.{Role, admin, owner, role_of}
use gang_chat_server.Chat.Rooms.State.{
  Env, Room, is_closed, is_approval_required, present, is_role, is_member, is_blacklisted, is_admin,
  can_manage_room_roles, is_protected_superuser_target, can_edit_member_room_display_name,
}
use gang_chat_server.Chat.Rooms.Decide.{
  join_room, leave_room, remove_member, update_member_role, transfer_room_creator, set_text_mute,
  block_room_user, names_owner, too_long,
}
use gang_chat_server.Chat.Rooms.Sound.{Sound, absent}

module _ (env : Env) where
  pub join_room-Sound :
      (user id reason : String) (room : Room) → Sound room (join_room env user id reason room)
  unfolding join_room
  join_room-Sound user id reason room =
      let su = env.is_superuser user in
      if_cases (Sound room) (not room.exists) (λ _. tt)
        (λ _.
          if_cases (Sound room) (not su && is_blacklisted user room) (λ _. tt)
            (λ black.
              if_cases (Sound room)
                (not (is_member user room) && is_approval_required room.join_policy && not su)
                (λ _. tt)
                (λ _.
                  if_cases (Sound room)
                    (not (is_member user room) && is_closed room.join_policy && not su) (λ _. tt)
                    (λ _. if_cases (Sound room) su (λ _. tt) (λ s. ground (arith, black, s))))))

  pub leave_room-Sound :
      (user : String) (confirm : Bool) (room : Room) → Sound room (leave_room env user confirm room)
  unfolding leave_room
  leave_room-Sound user confirm room =
      if_cases (Sound room) (env.is_superuser user)
        (λ _. if_cases (Sound room) room.exists (λ _. tt) (λ _. tt))
        (λ _.
          if_cases (Sound room) (not (is_member user room)) (λ _. tt)
            (λ _.
              if_cases (Sound room) (not confirm && leb (length room.members) 1) (λ _. tt)
                (λ _. tt)))

  pub remove_member-Sound :
      (actor target : String) (confirm : Bool) (room : Room)
      → Sound room (remove_member env actor target confirm room)
  unfolding remove_member
  remove_member-Sound actor target confirm room =
      let role = role_of target room.members in
      if_cases (Sound room) (target =? "me") (λ _. leave_room-Sound actor confirm room)
        (λ _.
          if_cases (Sound room) (not (is_admin env actor room)) (λ _. tt)
            (λ _.
              if_cases (Sound room) (is_protected_superuser_target env actor target) (λ _. tt)
                (λ _.
                  if_cases (Sound room) (is_role owner role) (λ _. tt)
                    (λ _.
                      if_cases (Sound room)
                        (is_role admin role && not (can_manage_room_roles env actor room)) (λ _. tt)
                        (λ _. tt)))))

  pub update_member_role-Sound :
      (actor target : String) (role : Option Role) (name : Option String) (room : Room)
      → Sound room (update_member_role env actor target role name room)
  unfolding update_member_role
  update_member_role-Sound actor target role name room =
      let current = role_of target room.members in
      if_cases (Sound room) (not (present role) && not (present name)) (λ _. tt)
        (λ _.
          if_cases (Sound room) (names_owner role) (λ _. tt)
            (λ low.
              if_cases (Sound room) (too_long env name) (λ _. tt)
                (λ _.
                  if_cases (Sound room) (is_protected_superuser_target env actor target) (λ _. tt)
                    (λ _.
                      if_cases (Sound room) (not (present current)) (λ _. tt)
                        (λ _.
                          if_cases (Sound room)
                            (present role && not (can_manage_room_roles env actor room)) (λ _. tt)
                            (λ _.
                              if_cases (Sound room) (present role && is_role owner current)
                                (λ _. tt)
                                (λ _.
                                  if_cases (Sound room)
                                    (present name
                                      && not (
                                          can_edit_member_room_display_name env actor target current
                                            room))
                                    (λ _. tt) (λ _. low))))))))

  pub transfer_room_creator-Sound :
      (actor named : String) (room : Room) → Sound room (transfer_room_creator env actor named room)
  unfolding transfer_room_creator
  transfer_room_creator-Sound actor named room =
      let target = env.trim named in
      if_cases (Sound room) (not (can_manage_room_roles env actor room)) (λ _. tt)
        (λ _.
          if_cases (Sound room) (target =? "") (λ _. tt)
            (λ _.
              if_cases (Sound room) (env.is_superuser target) (λ _. tt)
                (λ _.
                  if_cases (Sound room) (not (present (role_of target room.members))) (λ _. tt)
                    (absent (role_of target room.members)))))

  pub set_text_mute-Sound :
      (actor target : String) (on : Bool) (seconds : Option ℕ) (now : ℕ) (room : Room)
      → Sound room (set_text_mute env actor target on seconds now room)
  unfolding set_text_mute
  set_text_mute-Sound actor target on seconds now room =
      if_cases (Sound room) (not (is_admin env actor room)) (λ _. tt)
        (λ _.
          if_cases (Sound room) (is_protected_superuser_target env actor target) (λ _. tt)
            (λ _. tt))

  pub block_room_user-Sound :
      (actor target : String) (room : Room) → Sound room (block_room_user env actor target room)
  unfolding block_room_user
  block_room_user-Sound actor target room =
      if_cases (Sound room) (not (is_admin env actor room)) (λ _. tt)
        (λ _.
          if_cases (Sound room) (target =? "") (λ _. tt)
            (λ _.
              if_cases (Sound room) (not (env.is_active target)) (λ _. tt)
                (λ _.
                  if_cases (Sound room) (env.is_superuser target) (λ _. tt)
                    (λ _. if_cases (Sound room) (is_member target room) (λ _. tt) (λ out. out)))))
