-- ===== src/Chat/Rooms/Powerless.antt =====
-- internal/chat: the requests of users who are neither owners nor admins nor superusers.
pub mod Facts
mod Open
mod Refused
use gang_chat_server.Base.{
  ℕ, ◌≤◌, ◌<◌, String, Bool, true, false, ◌&&◌, ◌||◌, not, if◌then◌else◌, ltb, leb, ◌==◌, List, [],
  ◌∷◌, Option, none, some, ◌≡◌, ◌≢◌, refl, sym, ◌∙◌, arith, Bool-cases, Option-cases, inl, inr, ap,
  subst, if_cases, if_either, length,
}
use gang_chat_server.Base.Eq.{◌=?◌, string_eq, =?_refl, =?→eq}
use gang_chat_server.Base.Dict.{lookup, insert, delete, lookup-insert, lookup-delete}
use gang_chat_server.Chat.Members.{
  Role, member, admin, owner, Member, Members, is_room_member, role_of, role_rank, owner_count,
  new_member, insert_member,
}
use gang_chat_server.Chat.Members.Roles.{
  insert_member_new, insert_member_old, role_of-delete, owner_count-role_of,
}
use gang_chat_server.Chat.Rooms.State.{
  Env, JoinPolicy, Status, JoinRequest, Room, is_pending, is_closed, is_approval_required, is_open,
  present, is_role, is_member, is_admin, is_blacklisted, can_manage_room_roles, has_room_access,
  is_protected_superuser_target, can_edit_member_room_display_name, room_invite_invalid,
  has_privileged_pending_room_invite,
}
use gang_chat_server.Chat.Rooms.Decide.{
  Reply, done, created, waits_for_approval, not_found, internal_error, Write, asks_to_join, joins,
  leaves, removes, updates, transfers, mutes, blocks, unblocks, invites, declines,
  accepts_as_member, accepts_as_superuser, accepts_and_asks, accepts_and_joins, approves, marks,
  withdraws, deletes, sets_policy, Decision, answers, writes, join_room, leave_room, remove_member,
  update_member_role, transfer_room_creator, set_text_mute, block_room_user, unblock_room_user,
  delete_room, update_join_policy, names_owner, too_long,
}
use gang_chat_server.Chat.Rooms.Decide.Requests.{
  invite_member, review_room_invite, review_join_request, withdraw_room_application,
  has_pending_invite, find_request, find_invite, accept_invite,
}
use gang_chat_server.Chat.Rooms.Apply.{
  add_room_member, drop_member, prune_or_repair_room, repaired, in_existing,
}
use gang_chat_server.Chat.Rooms.Handle.{Request, apply, run, decide, handle}
use gang_chat_server.Chat.Rooms.Led.{IsLed}
use gang_chat_server.Chat.Rooms.Ruled.{HasOwner, IsRuled}
use gang_chat_server.Chat.Rooms.Powerless.Facts.{IsPowerless, Keeps}
use gang_chat_server.Chat.Rooms.Powerless.Open.{
  leave_room-Keeps, join_room-Keeps, update_member_role-Keeps, transfer_room_creator-Keeps,
  invite_member-Keeps, accept_invite-Keeps, review_room_invite-Keeps,
  withdraw_room_application-Keeps,
}
use gang_chat_server.Chat.Rooms.Powerless.Refused.{
  remove_member-Keeps, unblock_room_user-Keeps, set_text_mute-Keeps, block_room_user-Keeps,
  review_join_request-Keeps, delete_room-Keeps, update_join_policy-Keeps,
}

abbrev pub sender : Request → String
sender (Request.join user id reason) = user
sender (Request.leave user confirm) = user
sender (Request.remove actor target confirm) = actor
sender (Request.update actor target role name) = actor
sender (Request.transfer actor target) = actor
sender (Request.mute actor target on seconds) = actor
sender (Request.block actor target) = actor
sender (Request.unblock actor target) = actor
sender (Request.invite inviter target id) = inviter
sender (Request.review_invite user id accept request_id reason) = user
sender (Request.review_request reviewer id approve) = reviewer
sender (Request.withdraw user id) = user
sender (Request.dissolve user confirmed) = user
sender (Request.change_policy actor policy) = actor

module _ (env : Env) (now draw : ℕ) where
  decide-Keeps :
      (request : Request) (room : Room) (v : String)
      → IsPowerless env (sender request) room
      → (sender request =? v) ≡ false
      → Keeps env now draw v room (decide env now request room)
  unfolding decide
  decide-Keeps (Request.join user id reason) room v p other =
      join_room-Keeps env now draw user v room p other id reason
  decide-Keeps (Request.leave user confirm) room v p other =
      leave_room-Keeps env now draw user v room p other confirm
  decide-Keeps (Request.remove actor target confirm) room v p other =
      remove_member-Keeps env now draw actor v room p other target confirm
  decide-Keeps (Request.update actor target role name) room v p other =
      update_member_role-Keeps env now draw actor v room p other target role name
  decide-Keeps (Request.transfer actor target) room v p other =
      transfer_room_creator-Keeps env now draw actor v room p other target
  decide-Keeps (Request.mute actor target on seconds) room v p other =
      set_text_mute-Keeps env now draw actor v room p other target on seconds
  decide-Keeps (Request.block actor target) room v p other =
      block_room_user-Keeps env now draw actor v room p other target
  decide-Keeps (Request.unblock actor target) room v p other =
      unblock_room_user-Keeps env now draw actor v room p other target
  decide-Keeps (Request.invite inviter target id) room v p other =
      invite_member-Keeps env now draw inviter v room p other target id
  decide-Keeps (Request.review_invite user id accept request_id reason) room v p other =
      review_room_invite-Keeps env now draw user v room p other id accept request_id reason
  decide-Keeps (Request.review_request reviewer id approve) room v p other =
      review_join_request-Keeps env now draw reviewer v room p other id approve
  decide-Keeps (Request.withdraw user id) room v p other =
      withdraw_room_application-Keeps env now draw user v room p other id
  decide-Keeps (Request.dissolve user confirmed) room v p other =
      delete_room-Keeps env now draw user v room p other confirmed
  decide-Keeps (Request.change_policy actor policy) room v p other =
      update_join_policy-Keeps env now draw actor v room p other policy

  -- A request of a user who is neither superuser, owner nor admin of a room that its creator rules
  -- leaves the membership of every other user as it was.
  pub powerless_changes_nobody :
      (request : Request) (room : Room) (v : String)
      → IsPowerless env (sender request) room
      → (sender request =? v) ≡ false
      → lookup v (handle env now draw request room).1.members ≡ lookup v room.members
  unfolding handle run
  powerless_changes_nobody request room v p other = decide-Keeps request room v p other
