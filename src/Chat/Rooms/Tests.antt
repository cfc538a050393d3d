-- ===== src/Chat/Rooms/Tests.antt =====
-- internal/chat: runs of the handlers on small rooms.
use gang_chat_server.Base.{
  ℕ, ◌≤◌, String, true, false, List, [], ◌∷◌, none, some, ◌≡◌, refl, arith, ◌⊎◌, inl, inr, subst,
  Bool-cases, if_cases, ◌+◌,
}
use gang_chat_server.Base.Eq.{◌=?◌, string_eq, =?→eq}
use gang_chat_server.Base.Dict.{lookup, insert, delete, remove, has}
use gang_chat_server.Chat.Members.{
  member, admin, owner, Members, role_of, role_rank, owner_count, new_member, set_role,
  update_member, demote_owners, insert_member, is_room_member, next_owner, repair_candidates,
}
use gang_chat_server.Chat.Members.Counts.{key_count, IsKeyed}
use gang_chat_server.Chat.Members.Successor.{next_owner-prefers}
use gang_chat_server.Chat.Rooms.State.{
  Env, open_to_all, Status, Room, JoinRequest, is_member, is_blacklisted, is_admin,
  can_manage_room_roles,
}
use gang_chat_server.Chat.Rooms.Decide.{
  joins, leaves, transfers, join_room, leave_room, remove_member, update_member_role,
  transfer_room_creator,
}
use gang_chat_server.Chat.Rooms.Decide.Requests.{find_request}
use gang_chat_server.Chat.Rooms.Apply.{add_room_member, prune_or_repair_room, drop_member}
use gang_chat_server.Chat.Rooms.Handle.{Request, apply, run, decide, handle, new_room}
use gang_chat_server.Chat.Rooms.Ruled.{new_room-IsRuled}
use gang_chat_server.Chat.Rooms.Atomic.{handle_all, creator_owns_the_room}
use gang_chat_server.Chat.Rooms.Powerless.{powerless_changes_nobody}
use gang_chat_server.Chat.Rooms.Powerless.Facts.{IsPowerless}
use gang_chat_server.Chat.Rooms.Race.{World, Step, Reach, one_owner_in_every_order}
use gang_chat_server.Chat.Rooms.Stale.{stale_transfer, settled_request_is_approved}

abbrev env : Env
env = record {
  is_superuser = λ user. user =? "root";
  is_active = λ user. true;
  trim = λ s. s;
  rune_count = λ s. 0;
}

abbrev with_members : Members → List (String × JoinRequest) → Room
with_members m qs = record {
  exists = true;
  created_by = "ann";
  join_policy = open_to_all;
  members = m;
  blacklist = [];
  requests = qs;
  invites = [];
  live = "eve" ∷ [];
}

abbrev start_room : Room
start_room = with_members (("ann", new_member owner 1) ∷ []) []

abbrev busy_day : List (ℕ × ℕ × Request)
busy_day =
    (2, 0, Request.join "ben" "q1" "")
    ∷ (3, 0, Request.join "eve" "q2" "")
    ∷ (4, 0, Request.remove "ben" "ann" false)
    ∷ (5, 0, Request.update "ann" "eve" (some admin) none)
    ∷ (6, 0, Request.leave "ann" true)
    ∷ []

-- The admin follows the owner who leaves, and the member who tried to remove the owner stays a member.
busy_day_test : role_of "eve" (handle_all env busy_day start_room).members ≡ some owner
unfolding handle_all handle decide run apply role_of lookup join_room remove_member
    update_member_role leave_room prune_or_repair_room drop_member add_room_member insert_member
    insert new_room owner_count is_room_member set_role update_member delete remove next_owner
    repair_candidates is_member is_admin can_manage_room_roles has
busy_day_test = refl

creator_owns_the_room_example :
    let room = handle_all env busy_day (new_room env 1 "ann" open_to_all) in
    ((room.members ≡ [])
      ⊎ ((role_of room.created_by room.members ≡ some owner) × (owner_count room.members ≡ 1)))
    × IsKeyed room.members
    × ((u : String) → is_member u room ≡ true → is_blacklisted u room ≡ false)
creator_owns_the_room_example = creator_owns_the_room env busy_day 1 "ann" open_to_all

-- Eve, a stranger, cannot remove Ann.
eve-IsPowerless : IsPowerless env "eve" (new_room env 1 "ann" open_to_all)
unfolding new_room role_of lookup role_rank
eve-IsPowerless = record {
  plain = refl;
  low = omega arith;
  ruled = new_room-IsRuled env 1 "ann" open_to_all;
}

powerless_changes_nobody_example :
    lookup "ann"
      (handle env 2 0
        (Request.remove "eve" "ann" true)
        (new_room env 1 "ann" open_to_all)).1.members
    ≡ lookup "ann" (new_room env 1 "ann" open_to_all).members
powerless_changes_nobody_example =
    powerless_changes_nobody env 2 0 (Request.remove "eve" "ann" true)
      (new_room env 1 "ann" open_to_all) "ann" eve-IsPowerless refl

-- Ann hands the room to Ben, whose leaving is committed first.
abbrev two : Room
two =
    with_members
      (("ann", new_member owner 1)
        ∷ ("ben", new_member member 2)
        ∷ ("eve", new_member member 3)
        ∷ [])
      []

abbrev one_left : Room
one_left = with_members (("ann", new_member owner 1) ∷ ("eve", new_member member 3) ∷ []) []

stale_transfer_example :
    (owner_count (apply env 9 0 (transfers "ben") one_left).1.members ≡ 0)
    × ((u : String)
        → key_count u (apply env 9 0 (transfers "ben") one_left).1.members
          ≡ key_count u one_left.members)
    × ((user : String)
        → lookup user (apply env 9 0 (transfers "ben") one_left).1.members ≡ none
        → role_of user
            (apply env 9 0 (joins user) (apply env 9 0 (transfers "ben") one_left).1).1.members
          ≡ some owner)
unfolding lookup
stale_transfer_example = stale_transfer env 9 0 "ben" one_left refl refl

-- Ben withdrew his request, and Ann approves it.
abbrev withdrawn_request : JoinRequest
withdrawn_request = record {
  id = "q1";
  status = Status.withdrawn;
  reason = "";
  reviewer = none;
  reviewed_at = none;
  created_at = 2;
  updated_at = 3;
}

abbrev asked : Room
asked = with_members (("ann", new_member owner 1) ∷ []) (("ben", withdrawn_request) ∷ [])

settled_request_is_approved_example :
    is_member "ben" (handle env 9 0 (Request.review_request "ann" "q1" true) asked).1 ≡ true
unfolding lookup is_admin role_of find_request is_blacklisted
settled_request_is_approved_example =
    settled_request_is_approved env 9 0 "ann" "ben" "q1" withdrawn_request asked refl refl refl refl
      refl refl

-- Eve is in the live room.
abbrev leaderless : Members
leaderless = ("ben", new_member member 2) ∷ ("eve", new_member admin 3) ∷ []

leaderless-IsKeyed : IsKeyed leaderless
leaderless-IsKeyed u = elim (Bool-cases ("ben" =? u)) [
  | inl t ↦ subst (λ v. key_count v leaderless ≤ 1) (=?→eq "ben" u t) (omega arith)
  | inr f ↦
      rw f
        (if_cases (λ (n : ℕ). 0 + (n + 0) ≤ 1) ("eve" =? u) (λ _. omega arith) (λ _. omega arith))
]

next_owner-prefers_example :
    (role_of "eve" leaderless ≡ some admin)
    × (has {A = String} "eve" ("eve" ∷ []) ≡ true → has {A = String} "eve" ("eve" ∷ []) ≡ true)
unfolding role_of lookup next_owner repair_candidates has
next_owner-prefers_example =
    next_owner-prefers 7 ("eve" ∷ []) leaderless "eve" "eve" leaderless-IsKeyed refl refl

-- A race of two handlers: Ann makes Ben the owner while Ben leaves.
abbrev begun : World
begun = record { room = new_room env 1 "ann" open_to_all; pending = [] }

abbrev joined : World
joined = record { room = (apply env 2 0 (joins "ben") begun.room).1; pending = [] }

abbrev raced : World
raced = record {
  room = (apply env 4 0 (leaves "ben") joined.room).1;
  pending = transfers "ben" ∷ [];
}

abbrev handed_over : World
handed_over = record { room = (apply env 5 0 (transfers "ben") raced.room).1; pending = [] }

handed_over-Reach : Reach env handed_over
unfolding new_room apply lookup is_member is_blacklisted add_room_member insert_member insert
    owner_count is_room_member decide join_room leave_room transfer_room_creator
    can_manage_room_roles role_of prune_or_repair_room drop_member delete remove
handed_over-Reach =
    Reach.next
      (Reach.next
        (Reach.next
          (Reach.next
            (Reach.next
              (Reach.next (Reach.start 1 "ann" open_to_all)
                (Step.reads 2 (Request.join "ben" "q1" "") (joins "ben") refl))
              (Step.commits 2 0 [] [] (joins "ben") refl))
            (Step.reads 3 (Request.transfer "ann" "ben") (transfers "ben") refl))
          (Step.reads 4 (Request.leave "ben" true) (leaves "ben") refl))
        (Step.commits 4 0 [] (transfers "ben" ∷ []) (leaves "ben") refl))
      (Step.commits 5 0 [] [] (transfers "ben") refl)

ownerless_test :
    (owner_count handed_over.room.members ≡ 0) × (is_member "ann" handed_over.room ≡ true)
unfolding new_room apply lookup is_member is_blacklisted add_room_member insert_member insert
    owner_count is_room_member prune_or_repair_room drop_member delete remove set_role update_member
    demote_owners
ownerless_test = (refl, refl)

one_owner_in_every_order_example :
    IsKeyed handed_over.room.members
    × (owner_count handed_over.room.members ≤ 1)
    × ((u : String)
        → role_of u handed_over.room.members ≡ some owner
        → u ≡ handed_over.room.created_by)
one_owner_in_every_order_example = one_owner_in_every_order env handed_over-Reach
