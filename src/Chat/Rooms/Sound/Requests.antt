-- ===== src/Chat/Rooms/Sound/Requests.antt =====
-- internal/chat: the guards of the handlers on invites and join requests.
use gang_chat_server.Base.{
  String, Bool, false, ◌&&◌, not, ◌≡◌, arith, if_cases, Option-cases, inl, inr,
}
use gang_chat_server.Base.Eq.{◌=?◌, string_eq}
use gang_chat_server.Chat.Rooms.State.{
  Env, Room, is_pending, is_closed, is_open, is_member, is_blacklisted, is_admin, has_room_access,
  room_invite_invalid, has_privileged_pending_room_invite,
}
use gang_chat_server.Chat.Rooms.Decide.Requests.{
  invite_member, review_room_invite, review_join_request, withdraw_room_application, find_invite,
  find_request, has_pending_invite, accept_invite,
}
use gang_chat_server.Chat.Rooms.Sound.{Sound}

module _ (env : Env) where
  pub invite_member-Sound :
      (inviter target id : String) (room : Room)
      → Sound room (invite_member env inviter target id room)
  unfolding invite_member
  invite_member-Sound inviter target id room =
      if_cases (Sound room) (not (has_room_access env inviter room)) (λ _. tt)
        (λ _.
          if_cases (Sound room) (target =? "") (λ _. tt)
            (λ _.
              if_cases (Sound room) (not room.exists) (λ _. tt)
                (λ _.
                  if_cases (Sound room) (is_closed room.join_policy) (λ _. tt)
                    (λ _.
                      if_cases (Sound room) (target =? inviter) (λ _. tt)
                        (λ _.
                          if_cases (Sound room) (not (env.is_active target)) (λ _. tt)
                            (λ _.
                              if_cases (Sound room) (is_member target room) (λ _. tt)
                                (λ _.
                                  if_cases (Sound room) (is_blacklisted target room) (λ _. tt)
                                    (λ _.
                                      if_cases (Sound room)
                                        (has_pending_invite inviter target room.invites) (λ _. tt)
                                        (λ _. tt)))))))))

  pub accept_invite-Sound :
      (user inviter request_id reason : String) (room : Room)
      → is_blacklisted user room ≡ false
      → Sound room (accept_invite env user inviter request_id reason room)
  unfolding accept_invite
  accept_invite-Sound user inviter request_id reason room clear =
      if_cases (Sound room) (is_member user room) (λ _. tt)
        (λ _.
          if_cases (Sound room) (env.is_superuser user) (λ _. tt)
            (λ _.
              if_cases (Sound room)
                (not (is_open room.join_policy)
                  && not (is_admin env inviter room)
                  && not (has_privileged_pending_room_invite env user room))
                (λ _. tt) (λ _. clear)))

  valid_invite :
      (inviter user : String) (room : Room)
      → room_invite_invalid env inviter user room ≡ false
      → is_blacklisted user room ≡ false
  unfolding room_invite_invalid
  valid_invite inviter user room h = ground (arith, h)

  pub review_room_invite-Sound :
      (user invite_id : String) (accept : Bool) (request_id reason : String) (room : Room)
      → Sound room (review_room_invite env user invite_id accept request_id reason room)
  unfolding review_room_invite
  review_room_invite-Sound user invite_id accept request_id reason room =
      elim (Option-cases (find_invite invite_id user room.invites)) [
        | inl e ↦ rw (review_room_invite, e) tt
        | inr (i, e) ↦
            rw (review_room_invite, e)
              (if_cases (Sound room) (not (is_pending i.status)) (λ _. tt)
                (λ _.
                  if_cases (Sound room) (room_invite_invalid env i.inviter user room) (λ _. tt)
                    (λ valid.
                      if_cases (Sound room) (not accept) (λ _. tt)
                        (λ _.
                          accept_invite-Sound user i.inviter request_id reason room
                            (valid_invite i.inviter user room valid)))))
      ]

  pub review_join_request-Sound :
      (reviewer request_id : String) (approve : Bool) (room : Room)
      → Sound room (review_join_request env reviewer request_id approve room)
  unfolding review_join_request
  review_join_request-Sound reviewer request_id approve room =
      if_cases (Sound room) (not (is_admin env reviewer room)) (λ _. tt)
        (λ _. elim (Option-cases (find_request request_id room.requests)) [
          | inl e ↦ rw e tt
          | inr ((user, q), e) ↦ rw e (
              if_cases (Sound room) (not approve) (λ _. tt)
                (λ _.
                  if_cases (Sound room) (is_blacklisted user room) (λ _. tt)
                    (λ clear.
                      if_cases (Sound room) (env.is_superuser user) (λ _. tt) (λ _. clear))))
        ])

  pub withdraw_room_application-Sound :
      (user request_id : String) (room : Room)
      → Sound room (withdraw_room_application user request_id room)
  unfolding withdraw_room_application
  withdraw_room_application-Sound user request_id room =
      elim (Option-cases (find_request request_id room.requests)) [
        | inl e ↦ rw (withdraw_room_application, e) tt
        | inr ((applicant, q), e) ↦
            rw (withdraw_room_application, e)
              (if_cases (Sound room) (not (applicant =? user)) (λ _. tt)
                (λ _. if_cases (Sound room) (not (is_pending q.status)) (λ _. tt) (λ _. tt)))
      ]
