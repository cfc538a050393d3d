-- ===== src/Chat/Members/Counts.antt =====
-- internal/chat: how the statements change the number of owners, and that they keep the primary key.
use gang_chat_server.Base.{
  ℕ, ◌+◌, ◌≤◌, String, if◌then◌else◌, [], ◌∷◌, none, some, ◌≡◌, refl, arith,
}
use gang_chat_server.Base.Eq.{◌=?◌, string_eq}
use gang_chat_server.Base.Dict.{lookup, insert, delete}
use gang_chat_server.Chat.Members.{
  owner, Member, Members, owner_count, update_member, set_role, demote_owners,
}

abbrev pub key_count : String → Members → ℕ
key_count user [] = 0
key_count user ((k, w) ∷ m) = (if k =? user then 1 else 0) + key_count user m

-- The primary key.
abbrev pub IsKeyed : Members → Type 0
IsKeyed m = (user : String) → key_count user m ≤ 1

pub key_count-update_member :
    (u user : String) (f : Member → Member) (m : Members)
    → key_count u (update_member user f m) ≡ key_count u m
unfolding update_member
key_count-update_member u user f [] = refl
key_count-update_member u user f ((k, w) ∷ m) = ground (arith, key_count-update_member u user f m)

pub key_count-demote_owners :
    (u target : String) (m : Members) → key_count u (demote_owners target m) ≡ key_count u m
unfolding demote_owners
key_count-demote_owners u target [] = refl
key_count-demote_owners u target ((k, w) ∷ m) = ground (arith, key_count-demote_owners u target m)

pub key_count-delete :
    (u user : String) (m : Members)
    → key_count u (delete user m) ≡ (if user =? u then 0 else key_count u m)
unfolding delete
key_count-delete u user [] = ground arith
key_count-delete u user ((k, w) ∷ m) = ground (
  arith,
  string_eq.beq_iff k user,
  string_eq.beq_iff k u,
  string_eq.beq_iff user u,
  key_count-delete u user m,
)

pub key_count-insert :
    (u user : String) (w : Member) (m : Members)
    → lookup user m ≡ none
    → key_count u (insert user w m) ≡ (if user =? u then 1 else 0) + key_count u m
unfolding insert lookup
key_count-insert u user w [] h = refl
key_count-insert u user w ((k, v) ∷ m) h = ground (arith, key_count-insert u user w m)

pub key_count-none : (user : String) (m : Members) → lookup user m ≡ none → key_count user m ≡ 0
unfolding lookup
key_count-none user [] h = refl
key_count-none user ((k, v) ∷ m) h = ground (arith, key_count-none user m)

pub key_count-some :
    (user : String) (w : Member) (m : Members) → lookup user m ≡ some w → 1 ≤ key_count user m
unfolding lookup
key_count-some user w [] h = cc
key_count-some user w ((k, v) ∷ m) h = ground (arith, key_count-some user w m)

-- After a transfer, whoever has the target's key is an owner, and nobody else.
pub owner_count-transfer :
    (target : String) (m : Members)
    → owner_count (set_role target owner (demote_owners target m)) ≡ key_count target m
unfolding owner_count set_role demote_owners
owner_count-transfer target [] = refl
owner_count-transfer target ((k, w) ∷ m) = ground (arith, owner_count-transfer target m)
