-- ===== src/Chat/Rooms/Powerless/Refused.antt =====
-- internal/chat: the requests that are refused to who is neither owner nor admin.
use gang_chat_server.Base.{ℕ, String, Bool, false, ◌&&◌, not, Option, ◌≡◌, refl, arith, if_cases}
use gang_chat_server.Base.Eq.{◌=?◌, string_eq}
use gang_chat_server.Chat.Members.{owner, role_of}
use gang_chat_server.Chat.Rooms.State.{Env, JoinPolicy, Room, is_role, is_admin}
use gang_chat_server.Chat.Rooms.Decide.{
  Decision, remove_member, set_text_mute, block_room_user, unblock_room_user, delete_room,
  update_join_policy,
}
use gang_chat_server.Chat.Rooms.Decide.Requests.{review_join_request}
use gang_chat_server.Chat.Rooms.Handle.{run}
use gang_chat_server.Chat.Rooms.Powerless.Facts.{low_is_plain, IsPowerless, Keeps, not_admin}
use gang_chat_server.Chat.Rooms.Powerless.Open.{leave_room-Keeps}

module _ (env : Env) (now draw : ℕ) (u v : String) (room : Room) (p : IsPowerless env u room)
    (other : (u =? v) ≡ false) where
  abbrev K : Decision → Type 0
  K = Keeps env now draw v room

  pub remove_member-Keeps :
      (target : String) (confirm : Bool)
      → Keeps env now draw v room (remove_member env u target confirm room)
  unfolding remove_member run
  remove_member-Keeps target confirm =
      if_cases K (target =? "me") (λ _. leave_room-Keeps env now draw u v room p other confirm)
        (λ _.
          if_cases K (not (is_admin env u room)) (λ _. refl) (λ e. ground (arith, e, not_admin p)))

  pub unblock_room_user-Keeps :
      (target : String) → Keeps env now draw v room (unblock_room_user env u target room)
  unfolding unblock_room_user run
  unblock_room_user-Keeps target =
      if_cases K (not (is_admin env u room)) (λ _. refl) (λ e. ground (arith, e, not_admin p))

  pub set_text_mute-Keeps :
      (target : String) (on : Bool) (seconds : Option ℕ)
      → Keeps env now draw v room (set_text_mute env u target on seconds now room)
  unfolding set_text_mute run
  set_text_mute-Keeps target on seconds =
      if_cases K (not (is_admin env u room)) (λ _. refl) (λ e. ground (arith, e, not_admin p))

  pub block_room_user-Keeps :
      (target : String) → Keeps env now draw v room (block_room_user env u target room)
  unfolding block_room_user run
  block_room_user-Keeps target =
      if_cases K (not (is_admin env u room)) (λ _. refl) (λ e. ground (arith, e, not_admin p))

  pub review_join_request-Keeps :
      (id : String) (approve : Bool)
      → Keeps env now draw v room (review_join_request env u id approve room)
  unfolding review_join_request run
  review_join_request-Keeps id approve =
      if_cases K (not (is_admin env u room)) (λ _. refl) (λ e. ground (arith, e, not_admin p))

  pub delete_room-Keeps :
      (confirmed : Bool) → Keeps env now draw v room (delete_room env u confirmed room)
  unfolding delete_room run
  delete_room-Keeps confirmed =
      if_cases K (not room.exists) (λ _. refl)
        (λ _.
          if_cases K (not (is_role owner (role_of u room.members)) && not (env.is_superuser u))
            (λ _. refl)
            (λ e. ground (arith, e, p.plain, (low_is_plain (role_of u room.members) p.low).0)))

  pub update_join_policy-Keeps :
      (policy : JoinPolicy) → Keeps env now draw v room (update_join_policy env u policy room)
  unfolding update_join_policy run
  update_join_policy-Keeps policy =
      if_cases K (not (is_admin env u room)) (λ _. refl) (λ e. ground (arith, e, not_admin p))
