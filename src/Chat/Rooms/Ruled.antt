-- ===== src/Chat/Rooms/Ruled.antt =====
-- internal/chat: a room that has members has its creator on record as its owner, after each transaction
-- that can empty it or take its owner away.
use gang_chat_server.Base.{
  ℕ, ◌+◌, ◌≤◌, String, true, false, if◌then◌else◌, ltb, ◌==◌, [], ◌∷◌, none, some, length, ◌≡◌, ◌≢◌,
  refl, sym, arith, Bool-cases, Option-cases, inl, inr, ap, ◌∙◌, subst, ◌⊎◌, if_cases,
}
use gang_chat_server.Base.Eq.{◌=?◌, string_eq, =?→eq, =?_refl}
use gang_chat_server.Base.Dict.{lookup, insert}
use gang_chat_server.Chat.Members.{
  Role, member, owner, Member, Members, role_of, owner_count, update_member, set_role, new_member,
  next_owner,
}
use gang_chat_server.Chat.Members.Counts.{key_count-update_member}
use gang_chat_server.Chat.Members.Roles.{
  role_of-set_role, role_of-insert, role_of-owner_count, insert_member_old, insert_member_new,
  is_room_member_old, is_room_member_new,
}
use gang_chat_server.Chat.Members.Successor.{next_owner-some, role_of-next_owner}
use gang_chat_server.Chat.Rooms.State.{Env, JoinPolicy, Room}
use gang_chat_server.Chat.Rooms.Apply.{add_room_member, drop_room, promote, prune_or_repair_room}
use gang_chat_server.Chat.Rooms.Handle.{new_room}
use gang_chat_server.Chat.Rooms.Led.{IsLed, no_owner}

abbrev pub HasOwner : String → Members → Type 0
HasOwner creator m = (m ≡ []) ⊎ (role_of creator m ≡ some owner)

abbrev pub IsRuled : Room → Type 0
IsRuled room = IsLed room × HasOwner room.created_by room.members

nil_of : (m : Members) → (length m == 0) ≡ true → m ≡ []
nil_of [] h = refl
nil_of (x ∷ m) h = ground (arith, h)

nobody : (u : String) → role_of u [] ≢ some owner
unfolding role_of lookup
nobody u h = cc

stranger : (u : String) (m : Members) → lookup u m ≡ none → role_of u m ≡ none
unfolding role_of
stranger u m e = rw (role_of, e) refl

-- A new row leaves the owner who is there.
owner_kept :
    (c user : String) (w : Member) (m : Members)
    → (owner_count m == 0) ≡ false
    → lookup user m ≡ none
    → HasOwner c m
    → role_of c (insert user w m) ≡ some owner
unfolding owner_count
owner_kept c user w m some_owner e (inl empty) = ground (arith, some_owner, ap owner_count empty)
owner_kept c user w m some_owner e (inr h) = elim (Bool-cases (user =? c)) [
  | inl t ↦
      let none_there : role_of c m ≡ none = stranger c m (rw (=?→eq user c t) at e) in
      ground (arith, h, none_there)
  | inr f ↦ role_of-insert user c w m ∙ rw f h
]

promote-IsRuled :
    (user : String) (room : Room) {r : Role}
    → (owner_count room.members == 0) ≡ true
    → role_of user room.members ≡ some r
    → IsLed room
    → IsRuled (promote user room)
unfolding set_role update_member
promote-IsRuled user room {r} zero_owners here (keyed, only, gone) =
    let m = room.members in
    (
      (
        λ u. rw key_count-update_member (keyed u),
        λ u h.
            let h' = sym (role_of-set_role user u owner m) ∙ h in
            elim (Bool-cases (user =? u)) [
              | inl t ↦ sym (=?→eq user u t)
              | inr f ↦ absurd (no_owner u m zero_owners (rw f at h'))
            ],
        λ e. ap (set_role user owner) (gone e),
      ),
      inr (role_of-set_role user user owner m ∙ rw (=?_refl user, here) refl),
    )

pub drop_room-IsRuled : (room : Room) → IsRuled (drop_room room)
drop_room-IsRuled room = ((λ u. omega arith, λ u h. absurd (nobody u h), λ _. refl), inl refl)

-- The repair of a room always ends, with a room that its creator rules.
pub prune_or_repair_room-IsRuled :
    (draw : ℕ) (room : Room)
    → IsLed room
    → (after : Room) × (prune_or_repair_room draw room ≡ some after) × IsRuled after
unfolding prune_or_repair_room
prune_or_repair_room-IsRuled draw room led =
    let m = room.members in
    elim (Bool-cases (length m == 0)) [
      | inl e ↦ (drop_room room, rw e refl, drop_room-IsRuled room)
      | inr n ↦ elim (Bool-cases (ltb 0 (owner_count m))) [
        | inl t ↦
            let (u, h) = role_of-owner_count m led.0 (ground (arith, t)) in
            (room, rw (n, t) refl, (led, inr (subst (λ c. role_of c m ≡ some owner) (led.1 u h) h)))
        | inr f ↦ elim (Option-cases (next_owner draw room.live m)) [
          | inl e ↦ absurd (next_owner-some draw room.live m (ground (arith, n)) e)
          | inr (u, e) ↦
              let (r, h) = role_of-next_owner draw room.live m led.0 e in
              (promote u room, rw (n, f, e) refl, promote-IsRuled u room (ground (arith, f)) h led)
        ]
      ]
    ]

pub add_room_member-HasOwner :
    (now : ℕ) (user : String) (room : Room)
    → IsRuled room
    → HasOwner (add_room_member now user room).created_by (add_room_member now user room).members
unfolding add_room_member
add_room_member-HasOwner now user room (led, rules) =
    let m = room.members in
    let c = room.created_by in
    let first = owner_count m == 0 in
    let w = new_member (if first then owner else member) now in
    elim (Option-cases (lookup user m)) [
      | inr (v, e) ↦
          rw (insert_member_old user w.role now v m e, is_room_member_old user v m e)
            (subst (λ x. HasOwner x m) (ground arith) rules)
      | inl e ↦
          rw (insert_member_new user w.role now m e, is_room_member_new user m e)
            (elim (Bool-cases first) [
              | inl f ↦
                  rw f (
                    inr
                      (role_of-insert user user (new_member owner now) m ∙ rw (=?_refl user) refl))
              | inr f ↦ rw f (inr (owner_kept c user (new_member member now) m f e rules))
            ])
    ]

-- The room of a new owner, or of a superuser, who is no member of it.
pub new_room-IsRuled :
    (env : Env) (now : ℕ) (user : String) (policy : JoinPolicy)
    → IsRuled (new_room env now user policy)
unfolding new_room role_of lookup
new_room-IsRuled env now user policy = elim (Bool-cases (env.is_superuser user)) [
  | inl s ↦ rw s ((λ u. omega arith, λ u h. absurd (nobody u h), λ _. refl), inl refl)
  | inr s ↦ rw s (
    (
      λ u. if_cases (λ (n : ℕ). n + 0 ≤ 1) (user =? u) (λ _. omega arith) (λ _. omega arith),
      λ u h. elim (Bool-cases (user =? u)) [
        | inl t ↦ sym (=?→eq user u t)
        | inr f ↦ absurd (nobody u (rw (f, role_of, lookup) at h))
      ],
      λ e. ground (arith, e),
    ),
    inr (rw (role_of, lookup, =?_refl user) refl),
  )
]
