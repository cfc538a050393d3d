-- ===== src/Chat/Rooms/Decide/Requests.antt =====
-- internal/chat/room_members.go: what the handlers of invites and of join requests read and decide.
use gang_chat_server.Base.{
  String, Bool, false, ◌&&◌, ◌||◌, not, if◌then◌else◌, List, [], ◌∷◌, Option, none, some,
}
use gang_chat_server.Base.Eq.{◌=?◌, string_eq}
use gang_chat_server.Chat.Rooms.State.{
  Env, Status, JoinRequest, Invite, Room, is_pending, is_closed, is_open, is_member, is_blacklisted,
  is_admin, has_room_access, room_invite_invalid, has_privileged_pending_room_invite,
}
use gang_chat_server.Chat.Rooms.Decide.{
  done, forbidden, not_found, conflict, invalid, internal_error, invites, declines,
  accepts_as_member, accepts_as_superuser, accepts_and_asks, accepts_and_joins, approves, marks,
  withdraws, Decision, answers, writes,
}

unfoldable pub find_request : String → List (String × JoinRequest) → Option (String × JoinRequest)
find_request id [] = none
find_request id ((user, q) ∷ qs) = if q.id =? id then some (user, q) else find_request id qs

unfoldable pub find_invite : String → String → List Invite → Option Invite
find_invite id target [] = none
find_invite id target (i ∷ is) =
    if (i.id =? id) && (i.target =? target) then some i else find_invite id target is

unfoldable pub has_pending_invite : String → String → List Invite → Bool
has_pending_invite inviter target [] = false
has_pending_invite inviter target (i ∷ is) =
    ((i.inviter =? inviter) && (i.target =? target) && is_pending i.status)
    || has_pending_invite inviter target is

unfoldable pub withdraw_room_application : String → String → Room → Decision
withdraw_room_application user request_id room = elim (find_request request_id room.requests) [
  | none ↦ answers not_found
  | some (applicant, q) ↦
      if not (applicant =? user)
      then answers not_found
      else if not (is_pending q.status)
      then answers conflict
      else writes (withdraws request_id)
]

module _ (env : Env) where
  unfoldable pub invite_member : String → String → String → Room → Decision
  unfolding has_room_access is_member is_blacklisted
  invite_member inviter target id room =
      if not (has_room_access env inviter room)
      then answers not_found
      else if target =? ""
      then answers invalid
      else if not room.exists
      then answers internal_error
      else if is_closed room.join_policy
      then answers forbidden
      else if target =? inviter
      then answers invalid
      else if not (env.is_active target)
      then answers not_found
      else if is_member target room
      then answers conflict
      else if is_blacklisted target room
      then answers forbidden
      else if has_pending_invite inviter target room.invites
      then answers done
      else writes (invites inviter target id)

  unfoldable pub accept_invite : String → String → String → String → Room → Decision
  unfolding is_member is_admin has_privileged_pending_room_invite
  accept_invite user inviter request_id reason room =
      let by_admin = is_admin env inviter room in
      if is_member user room
      then writes (accepts_as_member user)
      else if env.is_superuser user
      then writes (accepts_as_superuser user)
      else if not (is_open room.join_policy)
          && not by_admin
          && not (has_privileged_pending_room_invite env user room)
      then writes (accepts_and_asks user request_id (env.trim reason))
      else writes (accepts_and_joins user (if by_admin then some inviter else none))

  unfoldable pub review_room_invite : String → String → Bool → String → String → Room → Decision
  unfolding accept_invite room_invite_invalid
  review_room_invite user invite_id accept request_id reason room =
      elim (find_invite invite_id user room.invites) [
        | none ↦ answers not_found
        | some i ↦
            if not (is_pending i.status)
            then answers conflict
            else if room_invite_invalid env i.inviter user room
            then answers conflict
            else if not accept
            then writes (declines invite_id)
            else accept_invite user i.inviter request_id reason room
      ]

  unfoldable pub review_join_request : String → String → Bool → Room → Decision
  unfolding is_admin is_blacklisted
  review_join_request reviewer request_id approve room =
      if not (is_admin env reviewer room)
      then answers forbidden
      else elim (find_request request_id room.requests) [
        | none ↦ answers not_found
        | some (user, q) ↦
            if not approve
            then writes (marks reviewer request_id Status.rejected)
            else if is_blacklisted user room
            then answers conflict
            else if env.is_superuser user
            then writes (marks reviewer request_id Status.approved)
            else writes (approves reviewer user request_id)
      ]
