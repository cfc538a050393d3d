-- ===== src/Chat/Rooms/Powerless/Facts.antt =====
-- internal/chat: what the guards find of a user who is neither owner nor admin nor superuser.
use gang_chat_server.Base.{
  ℕ, ◌≤◌, String, true, false, not, if◌then◌else◌, ltb, ◌==◌, [], ◌∷◌, Option, none, some, ◌≡◌,
  refl, ◌∙◌, arith, Bool-cases, Option-cases, inl, inr, if_cases, length,
}
use gang_chat_server.Base.Eq.{◌=?◌, string_eq, =?→eq}
use gang_chat_server.Base.Dict.{lookup, delete, lookup-insert, lookup-delete}
use gang_chat_server.Chat.Members.{
  Role, member, admin, owner, Members, role_of, role_rank, owner_count, new_member,
}
use gang_chat_server.Chat.Members.Roles.{
  insert_member_new, insert_member_old, role_of-delete, owner_count-role_of,
}
use gang_chat_server.Chat.Rooms.State.{
  Env, Room, present, is_role, is_member, is_admin, can_manage_room_roles,
  can_edit_member_room_display_name,
}
use gang_chat_server.Chat.Rooms.Decide.{Reply, Decision}
use gang_chat_server.Chat.Rooms.Apply.{add_room_member, drop_member, prune_or_repair_room, repaired}
use gang_chat_server.Chat.Rooms.Handle.{run}
use gang_chat_server.Chat.Rooms.Ruled.{IsRuled}

pub low_is_plain :
    (r : Option Role) → role_rank r ≤ 1 → (is_role owner r ≡ false) × (is_role admin r ≡ false)
unfolding role_rank
low_is_plain none h = (refl, refl)
low_is_plain (some member) h = (refl, refl)
low_is_plain (some admin) h = ground arith
low_is_plain (some owner) h = ground arith

ranked : (r : Option Role) → not (present r) ≡ false → 1 ≤ role_rank r
unfolding role_rank
ranked none h = cc
ranked (some member) h = omega arith
ranked (some admin) h = omega arith
ranked (some owner) h = omega arith

pub lookup-add_room_member :
    (now : ℕ) (user v : String) (room : Room)
    → (user =? v) ≡ false
    → lookup v (add_room_member now user room).members ≡ lookup v room.members
unfolding add_room_member
lookup-add_room_member now user v room other =
    let r = if owner_count room.members == 0 then owner else member in
    elim (Option-cases (lookup user room.members)) [
      | inl e ↦
          rw (insert_member_new user r now room.members e)
            (lookup-insert user v (new_member r now) room.members ∙ rw other refl)
      | inr (w, e) ↦ rw (insert_member_old user r now w room.members e) refl
    ]

owner_count-length-le : (m : Members) → owner_count m ≤ length m
unfolding owner_count
owner_count-length-le [] = omega arith
owner_count-length-le ((k, w) ∷ m) = ground (arith, owner_count-length-le m)

-- Where there is an owner, the repair has nothing to do.
no_repair :
    (draw : ℕ) (room : Room)
    → 1 ≤ owner_count room.members
    → prune_or_repair_room draw room ≡ some room
unfolding prune_or_repair_room
no_repair draw room h =
    let most = owner_count-length-le room.members in
    if_cases (λ o. o ≡ some room) (length room.members == 0) (λ e. ground (arith, e, h, most))
      (λ _.
        if_cases (λ o. o ≡ some room) (ltb 0 (owner_count room.members)) (λ _. refl)
          (λ e. ground (arith, e, h)))

-- Neither superuser, owner nor admin, in a room that its creator rules.
pub record IsPowerless (env : Env) (u : String) (room : Room) : Type 0 where
  pub plain : env.is_superuser u ≡ false
  pub low : role_rank (role_of u room.members) ≤ 1
  pub ruled : IsRuled room

-- The row of a user is as it was.
abbrev pub Same : String → Room → Reply × Room → Type 0
Same v room o = lookup v o.1.members ≡ lookup v room.members

abbrev pub Keeps : Env → ℕ → ℕ → String → Room → Decision → Type 0
unfolding run
Keeps env now draw v room d = Same v room (run env now draw d room)

module _ {env : Env} {u : String} {room : Room} (p : IsPowerless env u room) where
  pub not_admin : is_admin env u room ≡ false
  unfolding is_admin
  not_admin =
      rw
        (
          is_admin,
          p.plain,
          (low_is_plain (role_of u room.members) p.low).0,
          (low_is_plain (role_of u room.members) p.low).1,
        )
        refl

  pub not_manager : can_manage_room_roles env u room ≡ false
  unfolding can_manage_room_roles
  not_manager =
      rw (can_manage_room_roles, p.plain, (low_is_plain (role_of u room.members) p.low).0) refl

  owner_stays : is_member u room ≡ true → 1 ≤ owner_count (delete u room.members)
  unfolding is_member lookup role_rank
  owner_stays here = elim p.ruled.1 [
    | inl e ↦ ground (arith, rw e at here)
    | inr h ↦
        let c = room.created_by in
        let apart : (u =? c) ≡ false = elim (Bool-cases (u =? c)) [
          | inl t ↦ ground (arith, rw (=?→eq u c t, h) at p.low)
          | inr f ↦ f
        ] in
        owner_count-role_of c (delete u room.members) (role_of-delete u c room.members ∙ rw apart h)
  ]

  pub not_editor :
      (target : String)
      → not (present (role_of target room.members)) ≡ false
      → can_edit_member_room_display_name env u target (role_of target room.members) room ≡ false
  unfolding can_edit_member_room_display_name
  not_editor target there =
      let one = ranked (role_of target room.members) there in ground (arith, p.plain, one, p.low)

pub leaves_others :
    {env : Env} {u : String} {room : Room} (p : IsPowerless env u room) (draw : ℕ) (v : String)
    → (u =? v) ≡ false
    → is_member u room ≡ true
    → Same v room (repaired room (prune_or_repair_room draw (drop_member u room)))
unfolding drop_member
leaves_others {u = u} {room = room} p draw v other here =
    rw (no_repair draw (drop_member u room) (owner_stays p here))
      (lookup-delete u v room.members ∙ rw other refl)
