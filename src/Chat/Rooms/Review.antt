-- ===== src/Chat/Rooms/Review.antt =====
-- internal/chat/room_members.go: what the review of the pending requests keeps, if each addition keeps it.
use gang_chat_server.Base.{
  ℕ, String, Bool, true, false, ◌||◌, not, List, [], ◌∷◌, ◌≡◌, refl, if_cases,
}
use gang_chat_server.Chat.Rooms.State.{
  Env, JoinPolicy, JoinRequest, Room, is_closed, is_approval_required, is_blacklisted,
}
use gang_chat_server.Chat.Rooms.Decide.{Reply}
use gang_chat_server.Chat.Rooms.Apply.{
  add_room_member, auto_review, auto_review_one, auto_review_each, in_existing, waiting_requests,
}

-- What holds of the room and, if it exists, of the outcome, holds of what is left.
pub in_existing-either {ℓ} :
    (P : Room → Type ℓ) (room : Room) (out : Reply × Room)
    → P room
    → (room.exists ≡ true → P out.1)
    → P (in_existing room out).1
in_existing-either P room out p q = if_cases (λ (o : Reply × Room). P o.1) room.exists q (λ _. p)

pub neither : (a b : Bool) → (a || b) ≡ false → (a ≡ false) × (b ≡ false)
neither false b h = (refl, h)
neither true b h = cc

module _ {ℓ} (P : Room → Type ℓ)
    (requests_free : (room : Room) (qs : List (String × JoinRequest))
      → P room
      → P (record room { requests = qs }))
    (env : Env) (now : ℕ)
    (add_keeps : (user : String) (room : Room)
      → env.is_superuser user ≡ false
      → is_blacklisted user room ≡ false
      → P room
      → P (add_room_member now user room)) where
  auto_review_one-keeps :
      (reviewer : String) (policy : JoinPolicy) (user : String) (room : Room)
      → P room
      → P (auto_review_one env now reviewer policy user room)
  unfolding auto_review_one is_blacklisted
  auto_review_one-keeps reviewer policy user room p =
      let rejects = is_closed policy || is_blacklisted user room in
      if_cases P (rejects || env.is_superuser user) (λ _. requests_free room _ p)
        (λ e.
          let (r, s) = neither rejects (env.is_superuser user) e in
          let (c, b) = neither (is_closed policy) (is_blacklisted user room) r in
          add_keeps user _ s b (requests_free room _ p))

  auto_review_each-keeps :
      (reviewer : String) (policy : JoinPolicy) (qs : List (String × JoinRequest)) (room : Room)
      → P room
      → P (auto_review_each env now reviewer policy qs room)
  unfolding auto_review_each
  auto_review_each-keeps reviewer policy [] room p = p
  auto_review_each-keeps reviewer policy ((user, q) ∷ qs) room p =
      auto_review_each-keeps reviewer policy qs _
        (auto_review_one-keeps reviewer policy user room p)

  pub auto_review-keeps :
      (reviewer : String) (old new : JoinPolicy) (room : Room)
      → P room
      → P (auto_review env now reviewer old new room)
  unfolding auto_review
  auto_review-keeps reviewer old new room p =
      if_cases P (not (is_approval_required old) || is_approval_required new) (λ _. p)
        (λ _. auto_review_each-keeps reviewer new (waiting_requests room) room p)
