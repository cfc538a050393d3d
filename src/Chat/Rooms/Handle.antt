-- ===== src/Chat/Rooms/Handle.antt =====
-- internal/chat: a handler's request, run as its reads and then its transaction, and the rows of a new
-- room (internal/chat/rooms_core.go).
use gang_chat_server.Base.{ℕ, String, Bool, true, if◌then◌else◌, [], ◌∷◌, Option, none, some}
use gang_chat_server.Base.Eq.{string_eq}
use gang_chat_server.Chat.Members.{Role, owner, update_member, set_role, demote_owners, new_member}
use gang_chat_server.Chat.Rooms.State.{Env, JoinPolicy, Status, Room}
use gang_chat_server.Chat.Rooms.Decide.{
  Reply, done, internal_error, Write, asks_to_join, joins, leaves, removes, updates, transfers,
  mutes, blocks, unblocks, invites, declines, accepts_as_member, accepts_as_superuser,
  accepts_and_asks, accepts_and_joins, approves, marks, withdraws, deletes, sets_policy, Decision,
  answers, writes, join_room, leave_room, remove_member, update_member_role, transfer_room_creator,
  set_text_mute, block_room_user, unblock_room_user, delete_room, update_join_policy,
}
use gang_chat_server.Chat.Rooms.Decide.Requests.{
  invite_member, review_room_invite, review_join_request, withdraw_room_application,
}
use gang_chat_server.Chat.Rooms.Transactions.{
  ask_to_join, delete_member, transfer_owner, mute_member, block_user, unblock_user, send_invite,
  settle_invites, accept_as_superuser, accept_and_ask, accept_and_join, approve_request,
  mark_request, save_policy,
}
use gang_chat_server.Chat.Rooms.Apply.{
  add_room_member, drop_room, prune_or_repair_room, drop_member, repaired, upsert_request,
  update_request, update_pending, upsert_invite, accept_invites, decline_invite, auto_review,
  in_existing, update_target,
}

-- createRoom: a superuser is no member of the rooms that it creates.
unfoldable pub new_room : Env → ℕ → String → JoinPolicy → Room
new_room env now user policy = record {
  exists = true;
  created_by = user;
  join_policy = policy;
  members = if env.is_superuser user then [] else (user, new_member owner now) ∷ [];
  blacklist = [];
  requests = [];
  invites = [];
  live = [];
}

module _ (env : Env) (now draw : ℕ) where
  -- The transaction that a handler runs, by what it has decided.
  unfoldable pub apply : Write → Room → Reply × Room
  unfolding add_room_member prune_or_repair_room drop_member upsert_request update_request
      update_pending upsert_invite accept_invites decline_invite auto_review update_target
      update_member set_role demote_owners
  apply (asks_to_join user id reason) room = ask_to_join env now draw user id reason room
  apply (joins user) room = in_existing room (done, add_room_member now user room)
  apply (leaves user) room = repaired room (prune_or_repair_room draw (drop_member user room))
  apply (removes target) room = delete_member env now draw target room
  apply (updates target role name) room = update_target draw target role name room
  apply (transfers target) room = transfer_owner env now draw target room
  apply (mutes target until) room = mute_member env now draw target until room
  apply (blocks actor target) room = block_user env now draw actor target room
  apply (unblocks target) room = unblock_user env now draw target room
  apply (invites inviter target id) room = send_invite env now draw inviter target id room
  apply (declines id) room = (done, record room { invites = decline_invite now id room.invites })
  apply (accepts_as_member user) room =
      (if room.exists then done else internal_error, settle_invites now user none room)
  apply (accepts_as_superuser user) room = accept_as_superuser env now draw user room
  apply (accepts_and_asks user id reason) room = accept_and_ask env now draw user id reason room
  apply (accepts_and_joins user reviewer) room = accept_and_join env now draw user reviewer room
  apply (approves reviewer user id) room = approve_request env now draw reviewer user id room
  apply (marks reviewer id status) room =
      mark_request env now draw id status (some reviewer) (some now) room
  apply (withdraws id) room = mark_request env now draw id Status.withdrawn none none room
  apply deletes room = (done, drop_room room)
  apply (sets_policy reviewer old new) room = save_policy env now draw reviewer old new room

  unfoldable pub run : Decision → Room → Reply × Room
  unfolding apply
  run (answers reply) room = (reply, room)
  run (writes w) room = apply w room

-- The requests, each by its user, with the ids that the server draws for the rows it may insert.
pub data Request : Type 0 where
  join : (user id reason : String) → Request
  leave : (user : String) → (confirm : Bool) → Request
  remove : (actor target : String) → (confirm : Bool) → Request
  update : (actor target : String) → (role : Option Role) → (name : Option String) → Request
  transfer : (actor target : String) → Request
  mute : (actor target : String) → (on : Bool) → (seconds : Option ℕ) → Request
  block : (actor target : String) → Request
  unblock : (actor target : String) → Request
  invite : (inviter target id : String) → Request
  review_invite : (user id : String) → (accept : Bool) → (request_id reason : String) → Request
  review_request : (reviewer id : String) → (approve : Bool) → Request
  withdraw : (user id : String) → Request
  dissolve : (user : String) → (confirmed : Bool) → Request
  change_policy : (actor : String) → (policy : JoinPolicy) → Request

module _ (env : Env) where
  unfoldable pub decide : ℕ → Request → Room → Decision
  unfolding join_room leave_room remove_member update_member_role transfer_room_creator
      set_text_mute block_room_user unblock_room_user invite_member review_room_invite
      review_join_request withdraw_room_application delete_room update_join_policy
  decide now (Request.join user id reason) room = join_room env user id reason room
  decide now (Request.leave user confirm) room = leave_room env user confirm room
  decide now (Request.remove actor target confirm) room =
      remove_member env actor target confirm room
  decide now (Request.update actor target role name) room =
      update_member_role env actor target role name room
  decide now (Request.transfer actor target) room = transfer_room_creator env actor target room
  decide now (Request.mute actor target on seconds) room =
      set_text_mute env actor target on seconds now room
  decide now (Request.block actor target) room = block_room_user env actor target room
  decide now (Request.unblock actor target) room = unblock_room_user env actor target room
  decide now (Request.invite inviter target id) room = invite_member env inviter target id room
  decide now (Request.review_invite user id accept request_id reason) room =
      review_room_invite env user id accept request_id reason room
  decide now (Request.review_request reviewer id approve) room =
      review_join_request env reviewer id approve room
  decide now (Request.withdraw user id) room = withdraw_room_application user id room
  decide now (Request.dissolve user confirmed) room = delete_room env user confirmed room
  decide now (Request.change_policy actor policy) room = update_join_policy env actor policy room

  -- A request that no other interrupts, at a time and with a chance.
  unfoldable pub handle : ℕ → ℕ → Request → Room → Reply × Room
  unfolding decide run
  handle now draw request room = run env now draw (decide now request room) room
