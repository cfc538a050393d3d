-- ===== src/Chat/Rooms/Powerless/Open.antt =====
-- internal/chat: the requests that are open to every user.
use gang_chat_server.Base.{
  ℕ, String, Bool, false, ◌&&◌, not, leb, Option, ◌≡◌, refl, arith, Option-cases, inl, inr,
  if_cases, if_either, length,
}
use gang_chat_server.Base.Eq.{◌=?◌, string_eq}
use gang_chat_server.Chat.Members.{Role, owner, role_of}
use gang_chat_server.Chat.Rooms.State.{
  Env, Room, is_pending, is_closed, is_approval_required, is_open, present, is_role, is_member,
  is_admin, is_blacklisted, can_manage_room_roles, has_room_access, is_protected_superuser_target,
  can_edit_member_room_display_name, room_invite_invalid, has_privileged_pending_room_invite,
}
use gang_chat_server.Chat.Rooms.Decide.{
  Decision, join_room, leave_room, update_member_role, transfer_room_creator, names_owner, too_long,
}
use gang_chat_server.Chat.Rooms.Decide.Requests.{
  invite_member, review_room_invite, withdraw_room_application, has_pending_invite, find_request,
  find_invite, accept_invite,
}
use gang_chat_server.Chat.Rooms.Apply.{drop_member}
use gang_chat_server.Chat.Rooms.Handle.{apply, run}
use gang_chat_server.Chat.Rooms.Powerless.Facts.{
  IsPowerless, Keeps, Same, not_manager, not_editor, leaves_others, lookup-add_room_member,
}

module _ (env : Env) (now draw : ℕ) (u v : String) (room : Room) (p : IsPowerless env u room)
    (other : (u =? v) ≡ false) where
  abbrev K : Decision → Type 0
  K = Keeps env now draw v room

  pub leave_room-Keeps :
      (confirm : Bool) → Keeps env now draw v room (leave_room env u confirm room)
  unfolding leave_room run apply drop_member
  leave_room-Keeps confirm =
      if_cases K (env.is_superuser u) (λ _. if_either K room.exists refl refl)
        (λ _.
          if_cases K (not (is_member u room)) (λ _. refl)
            (λ here.
              if_cases K (not confirm && leb (length room.members) 1) (λ _. refl)
                (λ _. leaves_others p draw v other (ground (arith, here)))))

  pub join_room-Keeps :
      (id reason : String) → Keeps env now draw v room (join_room env u id reason room)
  unfolding join_room run apply
  join_room-Keeps id reason =
      let su = env.is_superuser u in
      if_cases K (not room.exists) (λ _. refl)
        (λ _.
          if_cases K (not su && is_blacklisted u room) (λ _. refl)
            (λ _.
              if_cases K (not (is_member u room) && is_approval_required room.join_policy && not su)
                (λ _. if_either (Same v room) room.exists refl refl)
                (λ _.
                  if_cases K (not (is_member u room) && is_closed room.join_policy && not su)
                    (λ _. refl)
                    (λ _.
                      if_cases K su (λ _. refl)
                        (λ _.
                          if_either (Same v room) room.exists
                            (lookup-add_room_member now u v room other) refl)))))

  pub update_member_role-Keeps :
      (target : String) (role : Option Role) (name : Option String)
      → Keeps env now draw v room (update_member_role env u target role name room)
  unfolding update_member_role run
  update_member_role-Keeps target role name =
      let current = role_of target room.members in
      if_cases K (not (present role) && not (present name)) (λ _. refl)
        (λ some_change.
          if_cases K (names_owner role) (λ _. refl)
            (λ _.
              if_cases K (too_long env name) (λ _. refl)
                (λ _.
                  if_cases K (is_protected_superuser_target env u target) (λ _. refl)
                    (λ _.
                      if_cases K (not (present current)) (λ _. refl)
                        (λ there.
                          if_cases K (present role && not (can_manage_room_roles env u room))
                            (λ _. refl)
                            (λ may_manage.
                              if_cases K (present role && is_role owner current) (λ _. refl)
                                (λ _.
                                  if_cases K
                                    (present name
                                      && not (
                                          can_edit_member_room_display_name env u target current
                                            room))
                                    (λ _. refl)
                                    (λ may_edit. ground (
                                      arith,
                                      some_change,
                                      may_manage,
                                      may_edit,
                                      not_manager p,
                                      not_editor p target there,
                                    )))))))))

  pub transfer_room_creator-Keeps :
      (named : String) → Keeps env now draw v room (transfer_room_creator env u named room)
  unfolding transfer_room_creator run
  transfer_room_creator-Keeps named =
      if_cases K (not (can_manage_room_roles env u room)) (λ _. refl)
        (λ e. ground (arith, e, not_manager p))

  pub invite_member-Keeps :
      (target id : String) → Keeps env now draw v room (invite_member env u target id room)
  unfolding invite_member run apply
  invite_member-Keeps target id =
      if_cases K (not (has_room_access env u room)) (λ _. refl)
        (λ _.
          if_cases K (target =? "") (λ _. refl)
            (λ _.
              if_cases K (not room.exists) (λ _. refl)
                (λ _.
                  if_cases K (is_closed room.join_policy) (λ _. refl)
                    (λ _.
                      if_cases K (target =? u) (λ _. refl)
                        (λ _.
                          if_cases K (not (env.is_active target)) (λ _. refl)
                            (λ _.
                              if_cases K (is_member target room) (λ _. refl)
                                (λ _.
                                  if_cases K (is_blacklisted target room) (λ _. refl)
                                    (λ _.
                                      if_cases K (has_pending_invite u target room.invites)
                                        (λ _. refl)
                                        (λ _. if_either (Same v room) room.exists refl refl)))))))))

  pub accept_invite-Keeps :
      (inviter request_id reason : String)
      → Keeps env now draw v room (accept_invite env u inviter request_id reason room)
  unfolding accept_invite run apply
  accept_invite-Keeps inviter request_id reason =
      if_cases K (is_member u room) (λ _. refl)
        (λ _.
          if_cases K (env.is_superuser u) (λ _. refl)
            (λ _.
              if_cases K
                (not (is_open room.join_policy)
                  && not (is_admin env inviter room)
                  && not (has_privileged_pending_room_invite env u room))
                (λ _. if_either (Same v room) room.exists refl refl)
                (λ _.
                  if_either (Same v room) room.exists (lookup-add_room_member now u v room other)
                    refl)))

  pub review_room_invite-Keeps :
      (invite_id : String) (accept : Bool) (request_id reason : String)
      → Keeps env now draw v room (review_room_invite env u invite_id accept request_id reason room)
  unfolding review_room_invite run apply
  review_room_invite-Keeps invite_id accept request_id reason =
      elim (Option-cases (find_invite invite_id u room.invites)) [
        | inl e ↦ rw (review_room_invite, e) refl
        | inr (i, e) ↦
            rw (review_room_invite, e)
              (if_cases K (not (is_pending i.status)) (λ _. refl)
                (λ _.
                  if_cases K (room_invite_invalid env i.inviter u room) (λ _. refl)
                    (λ _.
                      if_cases K (not accept) (λ _. refl)
                        (λ _. accept_invite-Keeps i.inviter request_id reason))))
      ]

  pub withdraw_room_application-Keeps :
      (request_id : String)
      → Keeps env now draw v room (withdraw_room_application u request_id room)
  unfolding withdraw_room_application run apply
  withdraw_room_application-Keeps request_id =
      elim (Option-cases (find_request request_id room.requests)) [
        | inl e ↦ rw (withdraw_room_application, e) refl
        | inr ((applicant, q), e) ↦
            rw (withdraw_room_application, e)
              (if_cases K (not (applicant =? u)) (λ _. refl)
                (λ _. if_cases K (not (is_pending q.status)) (λ _. refl) (λ _. refl)))
      ]
