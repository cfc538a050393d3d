-- ===== src/Chat/Rooms/Decide.antt =====
-- internal/chat/members_core.go, room_members.go: what each handler reads before it writes, and how
-- it then answers or what it goes on to write. Ids and the reason of a request come with it.
pub mod Requests
use gang_chat_server.Base.{
  ℕ, ◌+◌, ◌*◌, String, Bool, true, false, ◌&&◌, ◌||◌, not, if◌then◌else◌, ltb, leb, List, [], ◌∷◌,
  Option, none, some, length,
}
use gang_chat_server.Base.Eq.{◌=?◌, string_eq}
use gang_chat_server.Chat.Members.{Role, admin, owner, role_of, is_owner_role}
use gang_chat_server.Chat.Rooms.State.{
  Env, JoinPolicy, Status, JoinRequest, Invite, Room, is_pending, is_closed, is_approval_required,
  is_open, present, is_role, is_member, is_blacklisted, is_admin, can_manage_room_roles,
  has_room_access, is_protected_superuser_target, can_edit_member_room_display_name,
  room_invite_invalid, has_privileged_pending_room_invite,
}

pub data Reply : Type 0 where
  done created waits_for_approval : Reply
  forbidden not_found conflict confirmation_required invalid internal_error : Reply

-- The transaction, with what was read before it began.
pub data Write : Type 0 where
  asks_to_join : (user id reason : String) → Write
  joins : (user : String) → Write
  leaves : (user : String) → Write
  removes : (target : String) → Write
  updates : (target : String) → (role : Option Role) → (name : Option (Option String)) → Write
  transfers : (target : String) → Write
  mutes : (target : String) → (until : Option ℕ) → Write
  blocks : (actor target : String) → Write
  unblocks : (target : String) → Write
  invites : (inviter target id : String) → Write
  declines : (id : String) → Write
  accepts_as_member : (user : String) → Write
  accepts_as_superuser : (user : String) → Write
  accepts_and_asks : (user id reason : String) → Write
  accepts_and_joins : (user : String) → (reviewer : Option String) → Write
  approves : (reviewer user id : String) → Write
  marks : (reviewer id : String) → (status : Status) → Write
  withdraws : (id : String) → Write
  deletes : Write
  sets_policy : (reviewer : String) → (old new : JoinPolicy) → Write

pub data Decision : Type 0 where
  answers : Reply → Decision
  writes : Write → Decision

-- A role that a request may name is `admin` or `member`.
abbrev pub names_owner : Option Role → Bool
names_owner none = false
names_owner (some r) = is_owner_role r

module _ (env : Env) where
  unfoldable pub join_room : String → String → String → Room → Decision
  unfolding is_blacklisted is_member
  join_room user id reason room =
      if not room.exists
      then answers not_found
      else if not (env.is_superuser user) && is_blacklisted user room
      then answers not_found
      else if not (is_member user room)
          && is_approval_required room.join_policy
          && not (env.is_superuser user)
      then writes (asks_to_join user id (env.trim reason))
      else if not (is_member user room) && is_closed room.join_policy && not (env.is_superuser user)
      then answers forbidden
      else if env.is_superuser user
      then answers done
      else writes (joins user)

  unfoldable pub leave_room : String → Bool → Room → Decision
  unfolding is_member
  leave_room user confirm room =
      if env.is_superuser user
      then (if room.exists then answers forbidden else answers not_found)
      else if not (is_member user room)
      then answers not_found
      else if not confirm && leb (length room.members) 1
      then answers confirmation_required
      else writes (leaves user)

  unfoldable pub remove_member : String → String → Bool → Room → Decision
  unfolding leave_room is_admin is_protected_superuser_target can_manage_room_roles
  remove_member actor target confirm room =
      let role = role_of target room.members in
      if target =? "me"
      then leave_room actor confirm room
      else if not (is_admin env actor room)
      then answers forbidden
      else if is_protected_superuser_target env actor target
      then answers forbidden
      else if is_role owner role
      then answers forbidden
      else if is_role admin role && not (can_manage_room_roles env actor room)
      then answers forbidden
      else writes (removes target)

  abbrev pub too_long : Option String → Bool
  too_long none = false
  too_long (some name) = ltb 32 (env.rune_count (env.trim name))

  -- emptyToNil
  abbrev pub empty_to_nil : Option String → Option (Option String)
  empty_to_nil none = none
  empty_to_nil (some name) = some (if env.trim name =? "" then none else some (env.trim name))

  unfoldable pub update_member_role :
      String → String → Option Role → Option String → Room → Decision
  unfolding is_protected_superuser_target can_manage_room_roles can_edit_member_room_display_name
  update_member_role actor target role name room =
      let current = role_of target room.members in
      if not (present role) && not (present name)
      then answers invalid
      else if names_owner role
      then answers invalid
      else if too_long name
      then answers invalid
      else if is_protected_superuser_target env actor target
      then answers forbidden
      else if not (present current)
      then answers not_found
      else if present role && not (can_manage_room_roles env actor room)
      then answers forbidden
      else if present role && is_role owner current
      then answers forbidden
      else if present name && not (can_edit_member_room_display_name env actor target current room)
      then answers forbidden
      else writes (updates target role (empty_to_nil name))

  unfoldable pub transfer_room_creator : String → String → Room → Decision
  unfolding can_manage_room_roles
  transfer_room_creator actor named room =
      let target = env.trim named in
      if not (can_manage_room_roles env actor room)
      then answers forbidden
      else if target =? ""
      then answers invalid
      else if env.is_superuser target
      then answers forbidden
      else if not (present (role_of target room.members))
      then answers not_found
      else writes (transfers target)

  -- The time until which a mute lasts, with `none` for a request to unmute; no duration is for good.
  abbrev pub mute_until : Bool → Option ℕ → ℕ → Option ℕ
  mute_until false seconds now = none
  mute_until true none now = some 0
  mute_until true (some seconds) now = some (now + seconds * 1000)

  unfoldable pub set_text_mute : String → String → Bool → Option ℕ → ℕ → Room → Decision
  unfolding is_admin is_protected_superuser_target
  set_text_mute actor target mute seconds now room =
      if not (is_admin env actor room)
      then answers forbidden
      else if is_protected_superuser_target env actor target
      then answers forbidden
      else writes (mutes target (mute_until mute seconds now))

  unfoldable pub block_room_user : String → String → Room → Decision
  unfolding is_admin is_member
  block_room_user actor target room =
      if not (is_admin env actor room)
      then answers forbidden
      else if target =? ""
      then answers invalid
      else if not (env.is_active target)
      then answers not_found
      else if env.is_superuser target
      then answers forbidden
      else if is_member target room
      then answers conflict
      else writes (blocks actor target)

  unfoldable pub unblock_room_user : String → String → Room → Decision
  unfolding is_admin
  unblock_room_user actor target room =
      if not (is_admin env actor room) then answers forbidden else writes (unblocks target)

  -- `confirmed` says that a name or number was given and that what was given is the room's.
  unfoldable pub delete_room : String → Bool → Room → Decision
  delete_room user confirmed room =
      if not room.exists
      then answers not_found
      else if not (is_role owner (role_of user room.members)) && not (env.is_superuser user)
      then answers forbidden
      else if not confirmed
      then answers invalid
      else writes deletes

  -- The join policy of updateRoomSettings.
  unfoldable pub update_join_policy : String → JoinPolicy → Room → Decision
  unfolding is_admin
  update_join_policy actor policy room =
      if not (is_admin env actor room)
      then answers forbidden
      else writes (sets_policy actor room.join_policy policy)
