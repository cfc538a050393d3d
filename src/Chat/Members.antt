-- ===== src/Chat/Members.antt =====
-- internal/chat: the rows of one room in the table `room_memberships`, by user, and the statements that
-- read and write them (internal/chat/members_core.go, permissions.go, room_members.go).
pub mod Counts
pub mod Roles
pub mod Successor
use gang_chat_server.Base.{
  ℕ, zero, suc, ◌+◌, ◌%◌, String, Bool, true, false, ◌&&◌, ◌||◌, not, if◌then◌else◌, ltb, ◌==◌,
  List, [], ◌∷◌, Option, none, some, length, get_elem?, select,
}
use gang_chat_server.Base.Eq.{◌=?◌, string_eq}
use gang_chat_server.Base.Dict.{lookup, insert, delete, has}

pub data Role : Type 0 where
  member admin owner : Role

-- A time to which a member is muted is 0 for good; `none` is NULL.
pub record Member : Type 0 where
  pub role : Role
  pub room_display_name : Option String
  pub notification_level : String
  pub text_muted_until : Option ℕ
  pub joined_at : ℕ

abbrev pub Members : Type 0
Members = List (String × Member)

abbrev pub is_owner_role : Role → Bool
is_owner_role owner = true
is_owner_role _ = false

abbrev pub is_admin_role : Role → Bool
is_admin_role admin = true
is_admin_role _ = false

abbrev pub is_member_role : Role → Bool
is_member_role member = true
is_member_role _ = false

unfoldable pub role_rank : Option Role → ℕ
role_rank none = 0
role_rank (some member) = 1
role_rank (some admin) = 2
role_rank (some owner) = 3

unfoldable pub role_of : String → Members → Option Role
role_of user m = elim (lookup user m) [ none ↦ none | some w ↦ some w.role ]

unfoldable pub is_room_member : String → Members → Bool
is_room_member user m = elim (lookup user m) [ none ↦ false | some w ↦ true ]

-- SELECT COUNT(*) … WHERE role = 'owner'
unfoldable pub owner_count : Members → ℕ
owner_count [] = 0
owner_count ((user, w) ∷ m) = (if is_owner_role w.role then 1 else 0) + owner_count m

-- UPDATE … WHERE user_id = ?
unfoldable pub update_member : String → (Member → Member) → Members → Members
update_member user f [] = []
update_member user f ((k, w) ∷ m) =
    (if k =? user then (k, f w) else (k, w)) ∷ update_member user f m

abbrev pub with_role : Role → Member → Member
with_role r w = record w { role = r }

unfoldable pub set_role : String → Role → Members → Members
unfolding update_member
set_role user r m = update_member user (with_role r) m

-- UPDATE … SET role = 'admin' WHERE role = 'owner' AND user_id != ?
unfoldable pub demote_owners : String → Members → Members
demote_owners target [] = []
demote_owners target ((k, w) ∷ m) =
    (if is_owner_role w.role && not (k =? target) then (k, record w { role = admin }) else (k, w))
    ∷ demote_owners target m

abbrev pub new_member : Role → ℕ → Member
new_member r now = record {
  role = r;
  room_display_name = none;
  notification_level = "all";
  text_muted_until = none;
  joined_at = now;
}

-- INSERT OR IGNORE
unfoldable pub insert_member : String → Role → ℕ → Members → Members
insert_member user r now m = elim (lookup user m) [
  | none ↦ insert user (new_member r now) m
  | some w ↦ m
]

-- The members whom the repair prefers: admins first, and of these the ones in the live room.
abbrev pub in_class : Bool → Bool → List String → String × Member → Bool
in_class by_role by_live live (k, w) =
    (not by_role || is_admin_role w.role) && (not by_live || has k live)

abbrev pub class : Bool → Bool → List String → Members → Members
class by_role by_live live m = select (in_class by_role by_live live) m

abbrev pub or_else : Members → Members → Members
or_else [] other = other
or_else (x ∷ xs) other = x ∷ xs

unfoldable pub repair_candidates : List String → Members → Members
repair_candidates live m =
    or_else (class true true live m)
      (or_else (class true false live m) (or_else (class false true live m) m))

-- ORDER BY …, random() LIMIT 1: `draw` is the chance.
unfoldable pub next_owner : ℕ → List String → Members → Option String
unfolding repair_candidates
next_owner draw live m =
    let c = repair_candidates live m in
    elim (get_elem? c (draw % length c)) [ none ↦ none | some (k, w) ↦ some k ]
