-- ===== src/Chat/Members/Roles.antt =====
-- internal/chat: what role a user has after each statement, and how the owners' number shows in the roles.
use gang_chat_server.Base.{
  ℕ, ◌≤◌, ◌<◌, String, true, false, if◌then◌else◌, [], ◌∷◌, Option, none, some, ◌≡◌, refl, arith,
  Bool-cases, Option-cases, inl, inr, ap,
}
use gang_chat_server.Base.Eq.{◌=?◌, string_eq, =?_refl}
use gang_chat_server.Base.Dict.{lookup, insert, delete, lookup-delete, lookup-insert}
use gang_chat_server.Chat.Members.{
  Role, member, admin, owner, Member, Members, is_owner_role, role_of, owner_count, update_member,
  is_room_member, set_role, demote_owners, insert_member, new_member,
}
use gang_chat_server.Chat.Members.Counts.{key_count, IsKeyed, key_count-some}

pub role_of-delete :
    (user u : String) (m : Members)
    → role_of u (delete user m) ≡ (if user =? u then none else role_of u m)
unfolding role_of
role_of-delete user u m = rw (role_of, lookup-delete user u m) (ground arith)

abbrev pub set : Role → Option Role → Option Role
set r none = none
set r (some x) = some r

pub role_of-set_role :
    (user u : String) (r : Role) (m : Members)
    → role_of u (set_role user r m) ≡ (if user =? u then set r (role_of u m) else role_of u m)
unfolding role_of set_role lookup
role_of-set_role user u r [] = ground arith
role_of-set_role user u r ((k, w) ∷ m) = ground (
  arith,
  string_eq.beq_iff k user,
  string_eq.beq_iff k u,
  string_eq.beq_iff user u,
  role_of-set_role user u r m,
)

pub role_of-update_member :
    (user u : String) (f : Member → Member) (m : Members)
    → ((w : Member) → (f w).role ≡ w.role)
    → role_of u (update_member user f m) ≡ role_of u m
unfolding role_of update_member lookup
role_of-update_member user u f [] same = refl
role_of-update_member user u f ((k, w) ∷ m) same =
    ground (arith, same w, role_of-update_member user u f m same)

abbrev pub demoted : Option Role → Option Role
demoted (some owner) = some admin
demoted r = r

demoted-some : (r : Role) → demoted (some r) ≡ some (if is_owner_role r then admin else r)
demoted-some member = refl
demoted-some admin = refl
demoted-some owner = refl

pub role_of-demote_owners :
    (target u : String) (m : Members)
    → role_of u (demote_owners target m)
      ≡ (if u =? target then role_of u m else demoted (role_of u m))
unfolding role_of demote_owners lookup
role_of-demote_owners target u [] = ground arith
role_of-demote_owners target u ((k, w) ∷ m) = elim (Bool-cases (k =? u)) [
  | inl here ↦ ground (arith, string_eq.beq_iff k u, demoted-some w.role)
  | inr other ↦ ground (arith, role_of-demote_owners target u m)
]

pub role_of-insert :
    (user u : String) (w : Member) (m : Members)
    → role_of u (insert user w m) ≡ (if user =? u then some w.role else role_of u m)
unfolding role_of
role_of-insert user u w m = rw (role_of, lookup-insert user u w m) (ground arith)

-- Who is the owner is counted as one.
pub owner_count-role_of :
    (user : String) (m : Members) → role_of user m ≡ some owner → 1 ≤ owner_count m
unfolding owner_count role_of lookup
owner_count-role_of user [] h = cc
owner_count-role_of user ((k, w) ∷ m) h = elim (Bool-cases (k =? user)) [
  | inl here ↦ ground arith
  | inr other ↦ ground (arith, owner_count-role_of user m)
]

pub IsKeyed-tail : (x : String × Member) (m : Members) → IsKeyed (x ∷ m) → IsKeyed m
IsKeyed-tail (k, w) m keyed u = let here = keyed u in omega (arith, here)

pub role_of-tail :
    (u k : String) (w : Member) (m : Members) {r : Role}
    → IsKeyed ((k, w) ∷ m)
    → role_of u m ≡ some r
    → role_of u ((k, w) ∷ m) ≡ some r
unfolding role_of lookup
role_of-tail u k w m keyed h = elim (Bool-cases (k =? u)) [
  | inl here ↦
      let one = keyed u in
      let gone : key_count u m ≡ 0 = ground arith in
      elim (Option-cases (lookup u m)) [
        | inl e ↦ ground (arith, e)
        | inr (v, e) ↦ ground (arith, key_count-some u v m e)
      ]
  | inr other ↦ rw (role_of, lookup, other) h
]

owner_of : (r : Role) → is_owner_role r ≡ true → r ≡ owner
owner_of member h = cc
owner_of admin h = cc
owner_of owner h = refl

role_of_head :
    (k : String) (w : Member) (m : Members)
    → is_owner_role w.role ≡ true
    → role_of k ((k, w) ∷ m) ≡ some owner
unfolding role_of lookup
role_of_head k w m high = rw (role_of, lookup, =?_refl k) (ap (λ r. some r) (owner_of w.role high))

-- If only one user can be owner, the owners are no more than the rows of this user.
pub owner_count-only :
    (c : String) (m : Members)
    → IsKeyed m
    → ((u : String) → role_of u m ≡ some owner → u ≡ c)
    → owner_count m ≤ key_count c m
unfolding owner_count
owner_count-only c [] keyed only = omega arith
owner_count-only c ((k, w) ∷ m) keyed only =
    let rest =
      owner_count-only c m (IsKeyed-tail (k, w) m keyed)
        (λ u h. only u (role_of-tail u k w m keyed h)) in
    elim (Bool-cases (is_owner_role w.role)) [
      | inl high ↦
          let same = only k (role_of_head k w m high) in
          ground (arith, rest, (string_eq.beq_iff k c).1 same)
      | inr low ↦ ground (arith, rest)
    ]

-- Where there is an owner, one user has the role.
pub role_of-owner_count :
    (m : Members) → IsKeyed m → 0 < owner_count m → (u : String) × (role_of u m ≡ some owner)
unfolding owner_count
role_of-owner_count [] keyed h = elim h [ ]
role_of-owner_count ((k, w) ∷ m) keyed h = elim (Bool-cases (is_owner_role w.role)) [
  | inl high ↦ (k, role_of_head k w m high)
  | inr low ↦
      let (u, e) = role_of-owner_count m (IsKeyed-tail (k, w) m keyed) (ground arith) in
      (u, role_of-tail u k w m keyed e)
]

pub insert_member_old :
    (user : String) (r : Role) (now : ℕ) (w : Member) (m : Members)
    → lookup user m ≡ some w
    → insert_member user r now m ≡ m
unfolding insert_member
insert_member_old user r now w m e = rw (insert_member, e) refl

pub insert_member_new :
    (user : String) (r : Role) (now : ℕ) (m : Members)
    → lookup user m ≡ none
    → insert_member user r now m ≡ insert user (new_member r now) m
unfolding insert_member
insert_member_new user r now m e = rw (insert_member, e) refl

pub is_room_member_old :
    (user : String) (w : Member) (m : Members)
    → lookup user m ≡ some w
    → is_room_member user m ≡ true
unfolding is_room_member
is_room_member_old user w m e = rw (is_room_member, e) refl

pub is_room_member_new :
    (user : String) (m : Members) → lookup user m ≡ none → is_room_member user m ≡ false
unfolding is_room_member
is_room_member_new user m e = rw (is_room_member, e) refl
