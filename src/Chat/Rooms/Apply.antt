-- ===== src/Chat/Rooms/Apply.antt =====
-- internal/chat/members_core.go, room_members.go: the transactions of the handlers on a room's rows.
-- `now` is the clock's reading and `draw` the chance of the query for the next owner.
use gang_chat_server.Base.{
  ℕ, String, false, ◌&&◌, ◌||◌, not, if◌then◌else◌, ltb, ◌==◌, List, [], ◌∷◌, Option, none, some,
  length, select, map,
}
use gang_chat_server.Base.Eq.{◌=?◌, string_eq}
use gang_chat_server.Base.Dict.{lookup, insert, delete, remove}
use gang_chat_server.Chat.Members.{
  Role, member, owner, Members, is_room_member, owner_count, update_member, set_role, insert_member,
  next_owner,
}
use gang_chat_server.Chat.Rooms.State.{
  Env, JoinPolicy, Status, JoinRequest, Invite, Room, is_pending, is_closed, is_approval_required,
  is_blacklisted,
}
use gang_chat_server.Chat.Rooms.Decide.{Reply, done, not_found, internal_error}

-- addRoomMemberTx, in a room that exists
unfoldable pub add_room_member : ℕ → String → Room → Room
unfolding insert_member
add_room_member now user room =
    let first = owner_count room.members == 0 in
    record room {
      created_by =
          if first && not (is_room_member user room.members) then user else room.created_by;
      members = insert_member user (if first then owner else member) now room.members;
    }

-- The rows that go with the row of the room; the invites stay.
abbrev pub drop_room : Room → Room
drop_room room = record room {
  exists = false;
  members = [];
  blacklist = [];
  requests = [];
  live = [];
}

abbrev pub promote : String → Room → Room
promote user room = record room { created_by = user; members = set_role user owner room.members }

-- pruneOrRepairRoomTx; `none` is its error.
unfoldable pub prune_or_repair_room : ℕ → Room → Option Room
unfolding set_role next_owner
prune_or_repair_room draw room =
    if length room.members == 0
    then some (drop_room room)
    else if ltb 0 (owner_count room.members)
    then some room
    else elim (next_owner draw room.live room.members) [
      | none ↦ none
      | some user ↦ some (promote user room)
    ]

-- What leaveRoom and removeMember delete.
unfoldable pub drop_member : String → Room → Room
drop_member user room = record room {
  live = remove user room.live;
  invites = select (λ i. not (i.target =? user)) room.invites;
  members = delete user room.members;
}

-- The answer to a repair, with the room before the transaction if it failed.
abbrev pub repaired : Room → Option Room → Reply × Room
repaired before none = (internal_error, before)
repaired before (some room) = (done, room)

abbrev pub fresh_request : ℕ → String → String → JoinRequest
fresh_request now id reason = record {
  id = id;
  status = Status.pending;
  reason = reason;
  reviewer = none;
  reviewed_at = none;
  created_at = now;
  updated_at = now;
}

-- INSERT INTO join_requests … ON CONFLICT DO UPDATE: the row of a user keeps its id.
unfoldable pub upsert_request :
    ℕ → String → String → String → List (String × JoinRequest) → List (String × JoinRequest)
upsert_request now user id reason qs = elim (lookup user qs) [
  | none ↦ insert user (fresh_request now id reason) qs
  | some q ↦ insert user (fresh_request now q.id reason) qs
]

abbrev pub review : ℕ → Status → Option String → Option ℕ → JoinRequest → JoinRequest
review now status reviewer reviewed_at q = record q {
  status = status;
  updated_at = now;
  reviewer = reviewer;
  reviewed_at = reviewed_at;
}

-- UPDATE join_requests … WHERE id = ?
unfoldable pub update_request :
    String → (JoinRequest → JoinRequest) → List (String × JoinRequest) → List (String × JoinRequest)
update_request id f [] = []
update_request id f ((user, q) ∷ qs) =
    (user, (if q.id =? id then f q else q)) ∷ update_request id f qs

-- UPDATE join_requests … WHERE user_id = ? AND status = 'pending'
unfoldable pub update_pending :
    String → (JoinRequest → JoinRequest) → List (String × JoinRequest) → List (String × JoinRequest)
update_pending user f [] = []
update_pending user f ((u, q) ∷ qs) =
    (u, (if (u =? user) && is_pending q.status then f q else q)) ∷ update_pending user f qs

-- INSERT INTO room_invites … ON CONFLICT DO UPDATE: one row for an inviter and a target.
unfoldable pub upsert_invite : ℕ → String → String → String → List Invite → List Invite
upsert_invite now inviter target id [] =
    record {
      id = id;
      inviter = inviter;
      target = target;
      status = Status.pending;
      created_at = now;
      updated_at = now;
    }
    ∷ []
upsert_invite now inviter target id (i ∷ is) =
    let rest = upsert_invite now inviter target id is in
    if (i.inviter =? inviter) && (i.target =? target)
    then record i { status = Status.pending; created_at = now; updated_at = now } ∷ is
    else i ∷ rest

-- UPDATE room_invites SET status = 'accepted' WHERE target_user_id = ? AND status = 'pending'
unfoldable pub accept_invites : ℕ → String → List Invite → List Invite
accept_invites now target is =
    map
      (λ i.
        if (i.target =? target) && is_pending i.status
        then record i { status = Status.accepted; updated_at = now }
        else i)
      is

unfoldable pub decline_invite : ℕ → String → List Invite → List Invite
decline_invite now id is =
    map (λ i. if i.id =? id then record i { status = Status.rejected; updated_at = now } else i) is

-- ORDER BY created_at, over the rows in the order in which they stand.
unfoldable pub insert_by_age :
    String × JoinRequest → List (String × JoinRequest) → List (String × JoinRequest)
insert_by_age (u, q) [] = (u, q) ∷ []
insert_by_age (u, q) ((v, p) ∷ qs) =
    let rest = (v, p) ∷ insert_by_age (u, q) qs in
    if ltb p.created_at q.created_at then rest else (u, q) ∷ (v, p) ∷ qs

unfoldable pub by_age : List (String × JoinRequest) → List (String × JoinRequest)
by_age [] = []
by_age (x ∷ xs) = insert_by_age x (by_age xs)

unfoldable pub waiting_requests : Room → List (String × JoinRequest)
unfolding by_age
waiting_requests room = by_age (select (λ (user, q). is_pending q.status) room.requests)

module _ (env : Env) (now : ℕ) where
  -- One request of autoReviewPendingJoinRequestsForJoinPolicyTx. What the query read of the blacklist
  -- is what it holds, since the loop writes no row of it.
  unfoldable pub auto_review_one : String → JoinPolicy → String → Room → Room
  unfolding add_room_member update_pending is_blacklisted
  auto_review_one reviewer policy user room =
      let rejects = is_closed policy || is_blacklisted user room in
      let status = if rejects then Status.rejected else Status.approved in
      let reviewed = record room {
        requests = update_pending user (review now status (some reviewer) (some now)) room.requests;
      } in
      if rejects || env.is_superuser user then reviewed else add_room_member now user reviewed

  unfoldable pub auto_review_each : String → JoinPolicy → List (String × JoinRequest) → Room → Room
  unfolding auto_review_one
  auto_review_each reviewer policy [] room = room
  auto_review_each reviewer policy ((user, q) ∷ qs) room =
      auto_review_each reviewer policy qs (auto_review_one reviewer policy user room)

  unfoldable pub auto_review : String → JoinPolicy → JoinPolicy → Room → Room
  unfolding auto_review_each waiting_requests
  auto_review reviewer old new room =
      if not (is_approval_required old) || is_approval_required new
      then room
      else auto_review_each reviewer new (waiting_requests room) room

abbrev pub in_existing : Room → Reply × Room → Reply × Room
in_existing room outcome = if room.exists then outcome else (internal_error, room)

abbrev pub rename : String → Option (Option String) → Members → Members
rename target none m = m
rename target (some name) m = update_member target (λ w. record w { room_display_name = name }) m

-- The rows that a change of the role repairs, when it names a role.
abbrev pub rerole : ℕ → String → Option Role → Room → Option Room
rerole draw target none room = some room
rerole draw target (some r) room =
    prune_or_repair_room draw (record room { members = set_role target r room.members })

unfoldable pub update_target :
    ℕ → String → Option Role → Option (Option String) → Room → Reply × Room
unfolding prune_or_repair_room set_role update_member
update_target draw target role name room =
    if not (is_room_member target room.members)
    then (not_found, room)
    else elim (rerole draw target role room) [
      | none ↦ (internal_error, room)
      | some after ↦ (done, record after { members = rename target name after.members })
    ]
