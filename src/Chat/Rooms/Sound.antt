-- ===== src/Chat/Rooms/Sound.antt =====
-- internal/chat: what the guards of a handler have found when it goes on to write.
pub mod Members
pub mod Requests
pub mod Handled
use gang_chat_server.Base.{
  ℕ, String, Bool, false, ◌&&◌, not, leb, Option, none, some, length, ◌≡◌, ◌≢◌, arith, if_cases,
  Option-cases, inl, inr,
}
use gang_chat_server.Base.Eq.{◌=?◌, string_eq}
use gang_chat_server.Chat.Members.{Role, admin, owner, role_of}
use gang_chat_server.Chat.Rooms.State.{
  Env, Room, is_pending, is_closed, is_approval_required, is_open, present, is_role, is_member,
  is_blacklisted, is_admin, can_manage_room_roles, has_room_access, is_protected_superuser_target,
  can_edit_member_room_display_name, room_invite_invalid, has_privileged_pending_room_invite,
}
use gang_chat_server.Chat.Rooms.Decide.{
  Write, joins, updates, transfers, blocks, accepts_and_joins, approves, Decision, answers, writes,
  join_room, leave_room, remove_member, update_member_role, transfer_room_creator, set_text_mute,
  block_room_user, unblock_room_user, delete_room, update_join_policy, names_owner, too_long,
}
use gang_chat_server.Chat.Rooms.Decide.Requests.{
  invite_member, review_room_invite, review_join_request, withdraw_room_application, find_invite,
  find_request, has_pending_invite, accept_invite,
}
use gang_chat_server.Chat.Rooms.Handle.{Request, decide}

-- The facts about the room that the transaction depends on.
abbrev pub IsSound : Room → Write → Type 0
IsSound room (joins user) = is_blacklisted user room ≡ false
IsSound room (updates target role name) = names_owner role ≡ false
IsSound room (transfers target) = role_of target room.members ≢ none
IsSound room (blocks actor target) = is_member target room ≡ false
IsSound room (accepts_and_joins user reviewer) = is_blacklisted user room ≡ false
IsSound room (approves reviewer user id) = is_blacklisted user room ≡ false
IsSound room _ = Unit

abbrev pub Sound : Room → Decision → Type 0
Sound room (answers reply) = Unit
Sound room (writes w) = IsSound room w

pub absent : {A : Type 0} (o : Option A) → not (present o) ≡ false → o ≢ none
absent none h e = cc
absent (some a) h e = cc
