-- ===== src/Chat/Rooms/Transactions.antt =====
-- internal/chat/members_core.go, room_members.go: the transaction of each handler, on the rows of a
-- room that may have changed since the handler read them.
use gang_chat_server.Base.{
  ℕ, String, Bool, false, ◌&&◌, ◌||◌, not, if◌then◌else◌, List, [], ◌∷◌, Option, some,
}
use gang_chat_server.Base.Eq.{◌=?◌, string_eq}
use gang_chat_server.Base.Dict.{insert, delete}
use gang_chat_server.Chat.Members.{owner, is_room_member, update_member, set_role, demote_owners}
use gang_chat_server.Chat.Rooms.State.{Env, JoinPolicy, Status, Invite, Room, same_policy}
use gang_chat_server.Chat.Rooms.Decide.{
  Reply, done, created, waits_for_approval, not_found, internal_error,
}
use gang_chat_server.Chat.Rooms.Apply.{
  add_room_member, prune_or_repair_room, drop_member, repaired, upsert_request, review,
  update_request, update_pending, upsert_invite, accept_invites, auto_review, in_existing,
}

abbrev pub has_invite : String → String → List Invite → Bool
has_invite inviter target [] = false
has_invite inviter target (i ∷ is) =
    ((i.inviter =? inviter) && (i.target =? target)) || has_invite inviter target is

abbrev pub settle_invites : ℕ → String → Option String → Room → Room
unfolding accept_invites update_pending
settle_invites now user reviewer room = record room {
  invites = accept_invites now user room.invites;
  requests = update_pending user (review now Status.approved reviewer (some now)) room.requests;
}

abbrev pub set_policy : JoinPolicy → Room → Room
set_policy policy room = record room { join_policy = policy }

module _ (env : Env) (now draw : ℕ) where
  abbrev pub ask_to_join : String → String → String → Room → Reply × Room
  ask_to_join user id reason room = in_existing room (
    waits_for_approval,
    record room { requests = upsert_request now user id reason room.requests },
  )

  abbrev pub delete_member : String → Room → Reply × Room
  delete_member target room =
      if not (is_room_member target room.members)
      then (not_found, room)
      else repaired room (prune_or_repair_room draw (drop_member target room))

  abbrev pub transfer_owner : String → Room → Reply × Room
  transfer_owner target room = in_existing room (
    done,
    record room {
      created_by = target;
      members = set_role target owner (demote_owners target room.members);
    },
  )

  abbrev pub mute_member : String → Option ℕ → Room → Reply × Room
  mute_member target until room =
      if not (is_room_member target room.members) then (not_found, room) else (
        done,
        record room {
          members = update_member target (λ w. record w { text_muted_until = until }) room.members;
        },
      )

  abbrev pub block_user : String → String → Room → Reply × Room
  block_user actor target room = in_existing room (
    created,
    record room {
      blacklist = insert target (record { blocked_by = actor; created_at = now }) room.blacklist;
    },
  )

  abbrev pub unblock_user : String → Room → Reply × Room
  unblock_user target room = (done, record room { blacklist = delete target room.blacklist })

  abbrev pub send_invite : String → String → String → Room → Reply × Room
  send_invite inviter target id room =
      if room.exists
      then (created, record room { invites = upsert_invite now inviter target id room.invites })
      else (if has_invite inviter target room.invites then created else internal_error, room)

  abbrev pub accept_as_superuser : String → Room → Reply × Room
  accept_as_superuser user room = (
    if room.exists then done else internal_error,
    record room { invites = accept_invites now user room.invites },
  )

  abbrev pub accept_and_ask : String → String → String → Room → Reply × Room
  accept_and_ask user id reason room = in_existing room (
    waits_for_approval,
    record room {
      requests = upsert_request now user id reason room.requests;
      invites = accept_invites now user room.invites;
    },
  )

  abbrev pub accept_and_join : String → Option String → Room → Reply × Room
  accept_and_join user reviewer room =
      in_existing room (done, settle_invites now user reviewer (add_room_member now user room))

  abbrev pub approve_request : String → String → String → Room → Reply × Room
  approve_request reviewer user id room =
      let added = add_room_member now user room in
      in_existing room (
        done,
        record added {
          requests =
              update_request id (review now Status.approved (some reviewer) (some now))
                added.requests;
        },
      )

  abbrev pub mark_request : String → Status → Option String → Option ℕ → Room → Reply × Room
  mark_request id status reviewer reviewed_at room = (
    done,
    record room {
      requests = update_request id (review now status reviewer reviewed_at) room.requests;
    },
  )

  abbrev pub save_policy : String → JoinPolicy → JoinPolicy → Room → Reply × Room
  save_policy reviewer old new room =
      let changed = set_policy new room in
      in_existing room (
        done,
        if same_policy old new then changed else auto_review env now reviewer old new changed,
      )
