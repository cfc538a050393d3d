-- ===== src/Chat/Rooms/Led.antt =====
-- internal/chat: what holds of a room's rows however the transactions are ordered.
pub mod Writes
use gang_chat_server.Base.{
  ℕ, zero, suc, ◌+◌, ◌≤◌, ◌<◌, String, Bool, true, false, ◌&&◌, ◌||◌, not, if◌then◌else◌, ltb, ◌==◌,
  List, [], ◌∷◌, Option, none, some, length, ◌≡◌, ◌≢◌, refl, sym, arith, Bool-cases, Option-cases,
  inl, inr, ap, ◌∙◌, if_either, subst,
}
use gang_chat_server.Base.Eq.{◌=?◌, string_eq, =?→eq}
use gang_chat_server.Base.Dict.{lookup, insert, delete}
use gang_chat_server.Chat.Members.{
  Role, member, admin, owner, Member, Members, is_owner_role, is_room_member, role_of, owner_count,
  update_member, set_role, demote_owners, insert_member, new_member, next_owner,
}
use gang_chat_server.Chat.Members.Counts.{
  key_count, IsKeyed, key_count-update_member, key_count-demote_owners, key_count-delete,
  key_count-insert, key_count-none,
}
use gang_chat_server.Chat.Members.Roles.{
  set, demoted, role_of-delete, role_of-set_role, role_of-update_member, role_of-demote_owners,
  role_of-insert, owner_count-role_of, insert_member_old, insert_member_new, is_room_member_old,
  is_room_member_new,
}
use gang_chat_server.Chat.Rooms.State.{Room}
use gang_chat_server.Chat.Rooms.Apply.{
  add_room_member, drop_room, promote, prune_or_repair_room, drop_member,
}

-- The primary key holds, nobody but the creator on record is the owner, and a room that is gone has no members.
abbrev pub Led : Bool → String → Members → Type 0
Led exists creator m =
    IsKeyed m × ((u : String) → role_of u m ≡ some owner → u ≡ creator) × (exists ≡ false → m ≡ [])

abbrev pub IsLed : Room → Type 0
IsLed room = Led room.exists room.created_by room.members

set_not_owner : (r : Role) (x : Option Role) → is_owner_role r ≡ false → set r x ≢ some owner
set_not_owner r none low h = cc
set_not_owner member (some x) low h = cc
set_not_owner admin (some x) low h = cc
set_not_owner owner (some x) low h = cc

demoted_not_owner : (x : Option Role) → demoted x ≢ some owner
demoted_not_owner none h = cc
demoted_not_owner (some member) h = cc
demoted_not_owner (some admin) h = cc
demoted_not_owner (some owner) h = cc

pub no_owner : (u : String) (m : Members) → (owner_count m == 0) ≡ true → role_of u m ≢ some owner
no_owner u m h e = ground (arith, owner_count-role_of u m e)

pub add_room_member-IsLed :
    (now : ℕ) (user : String) (room : Room)
    → room.exists ≡ true
    → IsLed room
    → IsLed (add_room_member now user room)
unfolding add_room_member
add_room_member-IsLed now user room ex (keyed, only, gone) =
    let m = room.members in
    let first = owner_count m == 0 in
    let r = if first then owner else member in
    elim (Option-cases (lookup user m)) [
      | inr (w, e) ↦
          rw (insert_member_old user r now w m e, is_room_member_old user w m e)
            (keyed, λ u h. ground (arith, only u h), gone)
      | inl e ↦
          rw (insert_member_new user r now m e, is_room_member_new user m e)
            (
              λ u.
                  rw (key_count-insert u user (new_member r now) m e)
                    (ground (arith, keyed u, string_eq.beq_iff user u, key_count-none user m e)),
              λ u h.
                  let h' = sym (role_of-insert user u (new_member r now) m) ∙ h in
                  elim (Bool-cases first) [
                    | inl f ↦ rw f (elim (Bool-cases (user =? u)) [
                      | inl t ↦ sym (=?→eq user u t)
                      | inr g ↦ absurd (no_owner u m f (rw g at h'))
                    ])
                    | inr f ↦ rw f (elim (Bool-cases (user =? u)) [
                      | inl t ↦ ground (arith, rw (t, f) at h')
                      | inr g ↦ only u (rw g at h')
                    ])
                  ],
              λ no. ground (arith, sym ex ∙ no),
            )
    ]

pub drop_member-IsLed : (user : String) (room : Room) → IsLed room → IsLed (drop_member user room)
unfolding drop_member delete
drop_member-IsLed user room (keyed, only, gone) = (
  λ u. rw key_count-delete (ground (arith, keyed u)),
  λ u h. only u (ground (arith, role_of-delete user u room.members)),
  λ e. ap (delete user) (gone e),
)

pub set_role-Led :
    (ex : Bool) (c target : String) (r : Role) (m : Members)
    → is_owner_role r ≡ false
    → Led ex c m
    → Led ex c (set_role target r m)
unfolding set_role update_member
set_role-Led ex c target r m low (keyed, only, gone) = (
  λ u. rw key_count-update_member (keyed u),
  λ u h.
      let h' = sym (role_of-set_role target u r m) ∙ h in
      elim (Bool-cases (target =? u)) [
        | inl t ↦ absurd (set_not_owner r (role_of u m) low (rw t at h'))
        | inr f ↦ only u (rw f at h')
      ],
  λ e. ap (set_role target r) (gone e),
)

pub update_member-Led :
    (ex : Bool) (c target : String) (f : Member → Member) (m : Members)
    → ((w : Member) → (f w).role ≡ w.role)
    → Led ex c m
    → Led ex c (update_member target f m)
unfolding update_member
update_member-Led ex c target f m same (keyed, only, gone) = (
  λ u. rw key_count-update_member (keyed u),
  λ u h. only u (sym (role_of-update_member target u f m same) ∙ h),
  λ e. ap (update_member target f) (gone e),
)

pub transfer-Led :
    (ex : Bool) (c target : String) (m : Members)
    → Led ex c m
    → Led ex target (set_role target owner (demote_owners target m))
unfolding set_role update_member demote_owners
transfer-Led ex c target m (keyed, only, gone) = (
  λ u. rw (key_count-update_member, key_count-demote_owners) (keyed u),
  λ u h.
      let h' = sym (role_of-set_role target u owner (demote_owners target m)) ∙ h in
      elim (Bool-cases (target =? u)) [
        | inl t ↦ sym (=?→eq target u t)
        | inr f ↦
            let h'' = sym (role_of-demote_owners target u m) ∙ rw f at h' in
            elim (Bool-cases (u =? target)) [
              | inl t ↦ =?→eq u target t
              | inr g ↦ absurd (demoted_not_owner (role_of u m) (rw g at h''))
            ]
      ],
  λ e. ap (λ x. set_role target owner (demote_owners target x)) (gone e),
)
