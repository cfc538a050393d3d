-- ===== src/Chat/Members/Successor.antt =====
-- internal/chat/members_core.go: whom the repair of a room makes its owner.
use mathlib.Core.Option.{some-injective}
use native.Mathlib.Nat.{mod-lt}
use gang_chat_server.Base.{
  ℕ, ◌%◌, ◌<◌, String, Bool, true, false, ◌&&◌, ◌||◌, not, List, [], ◌∷◌, none, some, length,
  get_elem?, ◌≡◌, ◌≢◌, refl, subst, arith, Bool-cases, Option-cases, inl, inr, ap, ◌∙◌, All,
  All-map, All-select, All-get_elem?, get_elem?-lt,
}
use gang_chat_server.Base.Eq.{◌=?◌, string_eq, =?_refl, =?→eq}
use gang_chat_server.Base.Dict.{lookup, has}
use gang_chat_server.Base.Query.{All-select_test, All-both}
use gang_chat_server.Chat.Members.{
  Role, member, admin, owner, Member, Members, is_admin_role, role_of, class, in_class, or_else,
  repair_candidates, next_owner,
}
use gang_chat_server.Chat.Members.Counts.{IsKeyed}
use gang_chat_server.Chat.Members.Roles.{IsKeyed-tail, role_of-tail}

abbrev HasRow : Members → String × Member → Type 0
HasRow m (u, w) = role_of u m ≡ some w.role

role_of_first : (k : String) (w : Member) (m : Members) → role_of k ((k, w) ∷ m) ≡ some w.role
unfolding role_of lookup
role_of_first k w m = rw (role_of, lookup, =?_refl k) refl

All-HasRow : (m : Members) → IsKeyed m → All (HasRow m) m
All-HasRow [] keyed = tt
All-HasRow ((k, w) ∷ m) keyed = (
  role_of_first k w m,
  All-map (HasRow m) (HasRow ((k, w) ∷ m)) m (λ (u, v) h. role_of-tail u k w m keyed h)
      (All-HasRow m (IsKeyed-tail (k, w) m keyed)),
)

All-or_else :
    (P : String × Member → Type 0) (xs ys : Members) → All P xs → All P ys → All P (or_else xs ys)
All-or_else P [] ys hx hy = hy
All-or_else P (x ∷ xs) ys hx hy = hx

All-or_else_first :
    (P : String × Member → Type 0) (xs ys : Members)
    → 0 < length xs
    → All P xs
    → All P (or_else xs ys)
All-or_else_first P [] ys h hx = elim h [ ]
All-or_else_first P (x ∷ xs) ys h hx = hx

both : (a b : Bool) → (a && b) ≡ true → (a ≡ true) × (b ≡ true)
both true b h = (refl, h)
both false b h = cc

admin_row : (w : Member) → some w.role ≡ some admin → is_admin_role w.role ≡ true
admin_row w h = rw (some-injective w.role admin h) refl

admin_of : (r : Role) → is_admin_role r ≡ true → r ≡ admin
admin_of member h = cc
admin_of admin h = refl
admin_of owner h = cc

-- An admin is in the class of the admins, and in that of the ones in the live room if it is there.
class-some :
    (by_live : Bool) (live : List String) (k : String) (m : Members)
    → role_of k m ≡ some admin
    → (not by_live || has k live) ≡ true
    → 0 < length (class true by_live live m)
unfolding role_of lookup
class-some by_live live k [] h l = cc
class-some by_live live k ((j, w) ∷ m) h l = elim (Bool-cases (j =? k)) [
  | inl here ↦
      let high = admin_row w (rw (here, role_of, lookup) at h) in
      let live_row : has j live ≡ has k live = ap (λ u. has u live) (=?→eq j k here) in
      rw (in_class, high, live_row, l) (omega arith)
  | inr other ↦ ground (arith, class-some by_live live k m)
]

or_else_some : (xs ys : Members) → 0 < length ys → 0 < length (or_else xs ys)
or_else_some [] ys h = h
or_else_some (x ∷ xs) ys h = omega arith

module _ (draw : ℕ) (live : List String) (m : Members) where
  All-repair_candidates :
      (P : String × Member → Type 0) → All P m → All P (repair_candidates live m)
  unfolding repair_candidates
  All-repair_candidates P h = All-or_else P (class true true live m) _ (All-select P _ m h) (
      All-or_else P (class true false live m) _ (All-select P _ m h)
        (All-or_else P (class false true live m) _ (All-select P _ m h) h))

  repair_candidates_some : 0 < length m → 0 < length (repair_candidates live m)
  unfolding repair_candidates
  repair_candidates_some h =
      or_else_some (class true true live m) _
        (or_else_some (class true false live m) _ (or_else_some (class false true live m) m h))

  -- There is a successor in a room with members.
  pub next_owner-some : 0 < length m → next_owner draw live m ≢ none
  unfolding next_owner
  next_owner-some h e =
      let c = repair_candidates live m in
      elim (Option-cases (get_elem? c (draw % length c))) [
        | inl n ↦ get_elem?-lt c (draw % length c) (mod-lt draw (repair_candidates_some h)) n
        | inr ((k, w), s) ↦ ground (arith, s)
      ]

  next_owner-row :
      (P : String × Member → Type 0) {u : String}
      → All P (repair_candidates live m)
      → next_owner draw live m ≡ some u
      → (w : Member) × P (u, w)
  unfolding next_owner
  next_owner-row P {u} h e =
      let c = repair_candidates live m in
      elim (Option-cases (get_elem? c (draw % length c))) [
        | inl n ↦ ground (arith, n)
        | inr ((k, w), s) ↦
            let same : k ≡ u = ground (arith, s, e) in
            (w, subst (λ v. P (v, w)) same (All-get_elem? P c (draw % length c) h s))
      ]

  -- The successor is a member.
  pub role_of-next_owner :
      {u : String}
      → IsKeyed m
      → next_owner draw live m ≡ some u
      → (r : Role) × (role_of u m ≡ some r)
  role_of-next_owner keyed e =
      let (w, h) =
        next_owner-row (HasRow m) (All-repair_candidates (HasRow m) (All-HasRow m keyed)) e in
      (w.role, h)

  abbrev IsAdminRow : String × Member → Type 0
  IsAdminRow (u, w) = is_admin_role w.role ≡ true

  abbrev IsLiveRow : String × Member → Type 0
  IsLiveRow (u, w) = has u live ≡ true

  admins_of_class : (by_live : Bool) → All IsAdminRow (class true by_live live m)
  admins_of_class by_live =
      All-map (λ x. in_class true by_live live x ≡ true) IsAdminRow (class true by_live live m)
        (λ (u, w) h. (both (is_admin_role w.role) (not by_live || has u live) h).0)
        (All-select_test (in_class true by_live live) m)

  live_of_class : (by_role : Bool) → All IsLiveRow (class by_role true live m)
  live_of_class by_role =
      All-map (λ x. in_class by_role true live x ≡ true) IsLiveRow (class by_role true live m)
        (λ (u, w) h. (both (not by_role || is_admin_role w.role) (has u live) h).1)
        (All-select_test (in_class by_role true live) m)

  admin_candidates :
      (k : String) → role_of k m ≡ some admin → All IsAdminRow (repair_candidates live m)
  unfolding repair_candidates
  admin_candidates k h = All-or_else IsAdminRow (class true true live m) _ (admins_of_class true) (
      All-or_else_first IsAdminRow (class true false live m) _ (class-some false live k m h refl)
        (admins_of_class false))

  live_candidates :
      (k : String)
      → role_of k m ≡ some admin
      → has k live ≡ true
      → All IsLiveRow (repair_candidates live m)
  unfolding repair_candidates
  live_candidates k h l =
      All-or_else_first IsLiveRow (class true true live m) _ (class-some true live k m h l)
        (live_of_class true)

  -- Where a room without an owner has an admin, and no user has two memberships, the repair picks
  -- an admin, and one who is in the live room if that admin is.
  pub next_owner-prefers :
      (k u : String)
      → IsKeyed m
      → role_of k m ≡ some admin
      → next_owner draw live m ≡ some u
      → (role_of u m ≡ some admin) × (has k live ≡ true → has u live ≡ true)
  next_owner-prefers k u keyed h e =
      let rows = All-repair_candidates (HasRow m) (All-HasRow m keyed) in
      let found =
        next_owner-row (λ x. HasRow m x × IsAdminRow x)
          (All-both (HasRow m) IsAdminRow (repair_candidates live m) rows (admin_candidates k h))
          e in
      (
        found.1.0 ∙ ap (λ r. some r) (admin_of found.0.role found.1.1),
        λ l. (next_owner-row IsLiveRow (live_candidates k h l) e).1,
      )
