-- ===== src/Chat/Rooms/Lawful.antt =====
-- internal/chat: a room under requests that do not interrupt each other.
use gang_chat_server.Base.{
  ℕ, String, true, false, Option, none, some, ◌≡◌, ◌≢◌, refl, ◌∙◌, arith, inl, inr, ap,
}
use gang_chat_server.Base.Eq.{string_eq, =?_refl}
use gang_chat_server.Chat.Members.{
  Role, owner, Member, Members, role_of, update_member, set_role, demote_owners,
}
use gang_chat_server.Chat.Members.Counts.{key_count-update_member, key_count-demote_owners}
use gang_chat_server.Chat.Members.Roles.{
  set, role_of-set_role, role_of-update_member, role_of-demote_owners,
}
use gang_chat_server.Chat.Rooms.State.{Room, is_blacklisted}
use gang_chat_server.Chat.Rooms.Decide.{names_owner}
use gang_chat_server.Chat.Rooms.Apply.{
  add_room_member, prune_or_repair_room, drop_member, repaired, rerole, rename,
}
use gang_chat_server.Chat.Rooms.Led.{
  IsLed, add_room_member-IsLed, drop_member-IsLed, set_role-Led, update_member-Led, transfer-Led,
}
use gang_chat_server.Chat.Rooms.Ruled.{
  HasOwner, IsRuled, prune_or_repair_room-IsRuled, add_room_member-HasOwner,
}
use gang_chat_server.Chat.Rooms.Blocked.{
  IsApart, Apart-fewer, drop_member-IsApart, set_role-Apart, prune_or_repair_room-IsApart,
  add_room_member-IsApart,
}

abbrev pub IsLawful : Room → Type 0
IsLawful room = IsRuled room × IsApart room

update_member-HasOwner :
    (c target : String) (f : Member → Member) (m : Members)
    → ((w : Member) → (f w).role ≡ w.role)
    → HasOwner c m
    → HasOwner c (update_member target f m)
unfolding update_member
update_member-HasOwner c target f m same (inl e) = inl (ap (update_member target f) e)
update_member-HasOwner c target f m same (inr h) = inr (role_of-update_member target c f m same ∙ h)

pub update_member-IsLawful :
    (target : String) (f : Member → Member) (room : Room)
    → ((w : Member) → (f w).role ≡ w.role)
    → IsLawful room
    → IsLawful (record room { members = update_member target f room.members })
update_member-IsLawful target f room same ((led, rules), apart) = (
  (
    update_member-Led room.exists room.created_by target f room.members same led,
    update_member-HasOwner room.created_by target f room.members same rules,
  ),
  Apart-fewer room.members (update_member target f room.members) room.blacklist
      (λ u. rw key_count-update_member (omega arith)) apart,
)

pub add_room_member-IsLawful :
    (now : ℕ) (user : String) (room : Room)
    → room.exists ≡ true
    → is_blacklisted user room ≡ false
    → IsLawful room
    → IsLawful (add_room_member now user room)
add_room_member-IsLawful now user room ex clear (ruled, apart) = (
  (add_room_member-IsLed now user room ex ruled.0, add_room_member-HasOwner now user room ruled),
  add_room_member-IsApart now user room clear apart,
)

pub repair-IsLawful :
    (draw : ℕ) (room : Room)
    → IsLed room
    → IsApart room
    → (after : Room) × (prune_or_repair_room draw room ≡ some after) × IsLawful after
repair-IsLawful draw room led apart =
    let (after, e, ruled) = prune_or_repair_room-IsRuled draw room led in
    (after, e, (ruled, prune_or_repair_room-IsApart draw room apart e))

pub leave-IsLawful :
    (draw : ℕ) (user : String) (room : Room)
    → IsLawful room
    → IsLawful (repaired room (prune_or_repair_room draw (drop_member user room))).1
leave-IsLawful draw user room ((led, rules), apart) =
    let (after, e, lawful) =
      repair-IsLawful draw (drop_member user room) (drop_member-IsLed user room led)
        (drop_member-IsApart user room apart) in
    rw e lawful

pub rename-IsLawful :
    (target : String) (name : Option (Option String)) (room : Room)
    → IsLawful room
    → IsLawful (record room { members = rename target name room.members })
rename-IsLawful target none room lawful = lawful
rename-IsLawful target (some name) room lawful =
    update_member-IsLawful target (λ w. record w { room_display_name = name }) room (λ w. refl)
      lawful

pub rerole-IsLawful :
    (draw : ℕ) (target : String) (role : Option Role) (room : Room)
    → names_owner role ≡ false
    → IsLawful room
    → (after : Room) × (rerole draw target role room ≡ some after) × IsLawful after
rerole-IsLawful draw target none room low lawful = (room, refl, lawful)
rerole-IsLawful draw target (some r) room low ((led, rules), apart) =
    repair-IsLawful draw (record room { members = set_role target r room.members })
      (set_role-Led room.exists room.created_by target r room.members low led)
      (set_role-Apart target r room.members room.blacklist apart)

set_present : (r : Role) (x : Option Role) → x ≢ none → set r x ≡ some r
set_present r none h = absurd (h refl)
set_present r (some x) h = refl

new_owner :
    (target : String) (m : Members)
    → role_of target m ≢ none
    → role_of target (set_role target owner (demote_owners target m)) ≡ some owner
new_owner target m here =
    role_of-set_role target target owner (demote_owners target m)
    ∙ rw (=?_refl target, role_of-demote_owners target target m, =?_refl target)
        (set_present owner (role_of target m) here)

pub transfer-IsLawful :
    (target : String) (room : Room)
    → role_of target room.members ≢ none
    → IsLawful room
    → IsLawful (record room {
      created_by = target;
      members = set_role target owner (demote_owners target room.members);
    })
unfolding set_role
transfer-IsLawful target room here ((led, rules), apart) =
    let m = room.members in
    (
      (transfer-Led room.exists room.created_by target m led, inr (new_owner target m here)),
      Apart-fewer m (set_role target owner (demote_owners target m)) room.blacklist
          (λ u. rw (key_count-update_member, key_count-demote_owners) (omega arith)) apart,
    )
