-- ===== src/EventBus/Queue.antt =====
-- internal/eventbus/bus.go, the loop of `deliver`: a send into a full buffer drops the oldest event.
use gang_chat_server.Base.{
  ℕ, suc, ◌+◌, ◌-◌, ◌≡◌, refl, ap, List, [], ◌∷◌, ◌++◌, arith, length, length-append, length-drop,
  drop, min, if◌then◌else◌, ltb, Bool-cases, inl, inr, ltb→lt, true, false,
}

-- The buffer of the channel that `Subscribe` makes.
abbrev pub capacity : ℕ
capacity = 64

module _ {ℓ} {A : Type ℓ} where
  -- A round that finds room sends; one that does not drops the head and tries again.
  unfoldable pub offer : List A → A → List A
  offer [] ev = ev ∷ []
  offer (x ∷ q) ev =
      let again = offer q ev in if ltb (length (x ∷ q)) capacity then (x ∷ q) ++ ev ∷ [] else again

  surplus : List A → ℕ
  surplus q = length q + 1 - capacity

  offer_fits :
      (x : A) (q : List A) (ev : A)
      → ltb (length (x ∷ q)) capacity ≡ true
      → offer (x ∷ q) ev ≡ drop (surplus (x ∷ q)) (x ∷ q) ++ ev ∷ []
  unfolding offer surplus
  offer_fits x q ev h =
      let none_over : suc (length q) + 1 - capacity ≡ 0 = omega (arith, ltb→lt _ _ h) in
      rw (h, none_over)

  offer_full :
      (x : A) (q : List A) (ev : A)
      → ltb (length (x ∷ q)) capacity ≡ false
      → offer q ev ≡ drop (surplus q) q ++ ev ∷ []
      → offer (x ∷ q) ev ≡ drop (surplus (x ∷ q)) (x ∷ q) ++ ev ∷ []
  unfolding offer surplus
  offer_full x q ev h ih =
      let one_more : suc (length q) + 1 - capacity ≡ suc (length q + 1 - capacity) = ground arith in
      rw (h, one_more) ih

  -- The event is queued last, behind the newest events that fit beside it, in their order.
  pub offer-drop : (q : List A) (ev : A) → offer q ev ≡ drop (length q + 1 - capacity) q ++ ev ∷ []
  unfolding surplus
  offer-drop [] ev = unfold offer in refl
  offer-drop (x ∷ q) ev = elim (Bool-cases (ltb (length (x ∷ q)) capacity)) [
    | inl h ↦ offer_fits x q ev h
    | inr h ↦ offer_full x q ev h (offer-drop q ev)
  ]

  -- A delivery never leaves more than the buffer holds, and loses at most the oldest event.
  pub length-offer : (q : List A) (ev : A) → length (offer q ev) ≡ min (length q + 1) capacity
  length-offer q ev = omega (
    arith,
    ap length (offer-drop q ev),
    length-append (drop (length q + 1 - capacity) q) (ev ∷ []),
    length-drop (length q + 1 - capacity) q,
  )
