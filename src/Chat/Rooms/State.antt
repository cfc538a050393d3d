-- ===== src/Chat/Rooms/State.antt =====
-- internal/chat: a room's rows and the permissions that the handlers ask for (permissions.go,
-- room_members.go, system_messages.go). `exists` is false where the table `rooms` has no such row.
use gang_chat_server.Base.{
  ℕ, String, Bool, true, false, ◌&&◌, ◌||◌, not, if◌then◌else◌, ltb, List, [], ◌∷◌, Option, none,
  some,
}
use gang_chat_server.Base.Eq.{◌=?◌, string_eq}
use gang_chat_server.Base.Dict.{lookup}
use gang_chat_server.Chat.Members.{Role, member, admin, owner, Members, role_of, role_rank}

-- What the server asks of Go's library and of the table of users, which these handlers only read.
pub record Env : Type 0 where
  pub is_superuser : String → Bool
  pub is_active : String → Bool
  pub trim : String → String
  pub rune_count : String → ℕ

pub data JoinPolicy : Type 0 where
  open_to_all approval_required closed : JoinPolicy

pub data Status : Type 0 where
  pending approved accepted rejected withdrawn : Status

pub record JoinRequest : Type 0 where
  pub id : String
  pub status : Status
  pub reason : String
  pub reviewer : Option String
  pub reviewed_at : Option ℕ
  pub created_at : ℕ
  pub updated_at : ℕ

pub record Invite : Type 0 where
  pub id : String
  pub inviter : String
  pub target : String
  pub status : Status
  pub created_at : ℕ
  pub updated_at : ℕ

pub record Block : Type 0 where
  pub blocked_by : String
  pub created_at : ℕ

pub record Room : Type 0 where
  pub exists : Bool
  pub created_by : String
  pub join_policy : JoinPolicy
  pub members : Members
  pub blacklist : List (String × Block)
  pub requests : List (String × JoinRequest)
  pub invites : List Invite
  pub live : List String

abbrev pub is_pending : Status → Bool
is_pending pending = true
is_pending _ = false

abbrev pub is_closed : JoinPolicy → Bool
is_closed closed = true
is_closed _ = false

abbrev pub is_approval_required : JoinPolicy → Bool
is_approval_required approval_required = true
is_approval_required _ = false

abbrev pub is_open : JoinPolicy → Bool
is_open open_to_all = true
is_open _ = false

abbrev pub same_policy : JoinPolicy → JoinPolicy → Bool
same_policy open_to_all open_to_all = true
same_policy approval_required approval_required = true
same_policy closed closed = true
same_policy _ _ = false

abbrev pub present {ℓ} : {A : Type ℓ} → Option A → Bool
present none = false
present (some a) = true

unfoldable pub is_member : String → Room → Bool
is_member user room = present (lookup user room.members)

unfoldable pub is_blacklisted : String → Room → Bool
is_blacklisted user room = present (lookup user room.blacklist)

abbrev pub is_role : Role → Option Role → Bool
is_role member (some member) = true
is_role admin (some admin) = true
is_role owner (some owner) = true
is_role _ _ = false

module _ (env : Env) where
  unfoldable pub is_admin : String → Room → Bool
  is_admin user room =
      if env.is_superuser user
      then room.exists
      else is_role owner (role_of user room.members) || is_role admin (role_of user room.members)

  unfoldable pub can_manage_room_roles : String → Room → Bool
  can_manage_room_roles user room =
      if env.is_superuser user then room.exists else is_role owner (role_of user room.members)

  unfoldable pub has_room_access : String → Room → Bool
  unfolding is_member
  has_room_access user room = is_member user room || (env.is_superuser user && room.exists)

  unfoldable pub is_protected_superuser_target : String → String → Bool
  is_protected_superuser_target actor target =
      not (actor =? target) && env.is_superuser target && not (env.is_superuser actor)

  unfoldable pub can_edit_member_room_display_name : String → String → Option Role → Room → Bool
  can_edit_member_room_display_name actor target role room =
      let target_rank = if env.is_superuser target then 4 else role_rank role in
      if actor =? target
      then false
      else if env.is_superuser actor
      then room.exists && ltb target_rank 4
      else ltb target_rank (role_rank (role_of actor room.members))

  -- The reason is a text; only whether there is one is read.
  unfoldable pub room_invite_invalid : String → String → Room → Bool
  unfolding is_blacklisted is_member
  room_invite_invalid inviter target room =
      if not room.exists
      then true
      else if is_blacklisted target room
      then true
      else if is_closed room.join_policy
      then true
      else if env.is_superuser inviter
      then false
      else not (is_member inviter room)

  -- isPrivilegedRoomInviter
  abbrev pub is_privileged_inviter : String → Room → Bool
  is_privileged_inviter user room = is_admin user room

  unfoldable pub any_privileged : String → List Invite → Room → Bool
  unfolding is_admin
  any_privileged target [] room = false
  any_privileged target (i ∷ invites) room =
      ((i.target =? target) && is_pending i.status && is_privileged_inviter i.inviter room)
      || any_privileged target invites room

  unfoldable pub has_privileged_pending_room_invite : String → Room → Bool
  unfolding is_blacklisted any_privileged
  has_privileged_pending_room_invite target room =
      if is_blacklisted target room
      then false
      else if room.exists && is_closed room.join_policy
      then false
      else any_privileged target room.invites room
