-- ===== src/Chat/Rooms/Blocked.antt =====
-- internal/chat: that nobody who is a member of a room stands on its blacklist.
use gang_chat_server.Base.{
  ℕ, ◌≤◌, String, true, false, if◌then◌else◌, ltb, ◌==◌, List, Option, none, some, length, ◌≡◌,
  arith, Bool-cases, Option-cases, inl, inr, ◌∙◌, subst, if_cases,
}
use gang_chat_server.Base.Eq.{◌=?◌, string_eq, =?→eq}
use gang_chat_server.Base.Dict.{lookup, insert, delete, lookup-insert, lookup-delete}
use gang_chat_server.Chat.Members.{
  Role, member, owner, Members, owner_count, set_role, new_member, next_owner,
}
use gang_chat_server.Chat.Members.Counts.{
  key_count, key_count-update_member, key_count-delete, key_count-insert, key_count-none,
  key_count-some,
}
use gang_chat_server.Chat.Members.Roles.{insert_member_old, insert_member_new}
use gang_chat_server.Chat.Rooms.State.{Block, Room, present, is_member, is_blacklisted}
use gang_chat_server.Chat.Rooms.Apply.{add_room_member, prune_or_repair_room, drop_member}

abbrev pub Apart : Members → List (String × Block) → Type 0
Apart m black = (u : String) → 1 ≤ key_count u m → present (lookup u black) ≡ false

abbrev pub IsApart : Room → Type 0
IsApart room = Apart room.members room.blacklist

-- Fewer members keep apart.
pub Apart-fewer :
    (m n : Members) (black : List (String × Block))
    → ((u : String) → key_count u n ≤ key_count u m)
    → Apart m black
    → Apart n black
Apart-fewer m n black fewer h u here = h u (omega (arith, fewer u))

pub drop_member-IsApart :
    (user : String) (room : Room) → IsApart room → IsApart (drop_member user room)
unfolding drop_member
drop_member-IsApart user room h =
    Apart-fewer room.members (delete user room.members) room.blacklist
      (λ u. rw key_count-delete (ground arith)) h

pub set_role-Apart :
    (user : String) (r : Role) (m : Members) (black : List (String × Block))
    → Apart m black
    → Apart (set_role user r m) black
unfolding set_role
set_role-Apart user r m black h =
    Apart-fewer m (set_role user r m) black (λ u. rw key_count-update_member (omega arith)) h

abbrev Kept : Option Room → Type 0
Kept none = Unit
Kept (some room) = IsApart room

prune_or_repair_room-Kept :
    (draw : ℕ) (room : Room) → IsApart room → Kept (prune_or_repair_room draw room)
unfolding prune_or_repair_room
prune_or_repair_room-Kept draw room h =
    if_cases Kept (length room.members == 0) (λ _ u here. ground arith)
      (λ _.
        if_cases Kept (ltb 0 (owner_count room.members)) (λ _. h)
          (λ _. elim (Option-cases (next_owner draw room.live room.members)) [
            | inl e ↦ rw e tt
            | inr (user, e) ↦ rw e (set_role-Apart user owner room.members room.blacklist h)
          ]))

pub prune_or_repair_room-IsApart :
    (draw : ℕ) (room : Room) {after : Room}
    → IsApart room
    → prune_or_repair_room draw room ≡ some after
    → IsApart after
prune_or_repair_room-IsApart draw room h e = subst Kept e (prune_or_repair_room-Kept draw room h)

pub add_room_member-IsApart :
    (now : ℕ) (user : String) (room : Room)
    → is_blacklisted user room ≡ false
    → IsApart room
    → IsApart (add_room_member now user room)
unfolding add_room_member is_blacklisted
add_room_member-IsApart now user room clear h =
    let r = if owner_count room.members == 0 then owner else member in
    elim (Option-cases (lookup user room.members)) [
      | inr (w, e) ↦ rw (insert_member_old user r now w room.members e) h
      | inl e ↦ rw (insert_member_new user r now room.members e) (λ u here.
          elim (Bool-cases (user =? u)) [
            | inl t ↦ subst (λ v. present (lookup v room.blacklist) ≡ false) (=?→eq user u t) clear
            | inr f ↦ h u (
                subst (λ n. 1 ≤ n)
                  (key_count-insert u user (new_member r now) room.members e ∙ rw f (omega arith))
                  here)
          ])
    ]

nobody_there :
    (user : String) (room : Room) → is_member user room ≡ false → lookup user room.members ≡ none
unfolding is_member
nobody_there user room out = elim (Option-cases (lookup user room.members)) [
  | inl e ↦ e
  | inr (w, e) ↦ ground (arith, e)
]

pub block-Apart :
    (user : String) (b : Block) (room : Room)
    → is_member user room ≡ false
    → IsApart room
    → Apart room.members (insert user b room.blacklist)
unfolding is_member
block-Apart user b room out h u here = rw (lookup-insert user u b room.blacklist) (
    if_cases (λ (o : Option Block). present o ≡ false) (user =? u)
      (λ t. ground (
        arith,
        here,
        key_count-none u room.members (nobody_there u room (rw (=?→eq user u t) at out)),
      ))
      (λ _. h u here))

pub unblock-Apart :
    (user : String) (room : Room) → IsApart room → Apart room.members (delete user room.blacklist)
unblock-Apart user room h u here =
    rw (lookup-delete user u room.blacklist) (ground (arith, h u here))

-- Who is a member is not on the blacklist.
pub IsApart-is_member :
    (user : String) (room : Room)
    → IsApart room
    → is_member user room ≡ true
    → is_blacklisted user room ≡ false
unfolding is_member is_blacklisted
IsApart-is_member user room h here = elim (Option-cases (lookup user room.members)) [
  | inl e ↦ ground (arith, e)
  | inr (w, e) ↦ h user (key_count-some user w room.members e)
]
