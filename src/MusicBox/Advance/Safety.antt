-- ===== src/MusicBox/Advance/Safety.antt =====
-- internal/musicbox/manager.go: what `nextItem` may hand to the player.
use mathlib.Core.List.{Memᴰ}
use gang_chat_server.Base.{
  ℕ, String, true, ◌&&◌, List, [], ◌∷◌, Option, none, some, ltb, ◌≡◌, ap, arith, ◌⊎◌, inl, inr,
  Bool-cases, Option-cases, All, All-map, All-Memᴰ, All-select, All-get_elem?, first-some, subst,
}
use gang_chat_server.Base.Eq.{◌=?◌, =?→eq, string_eq}
use gang_chat_server.Base.Int.{negsuc}
use gang_chat_server.Base.Query.{All-select_test, All-both}
use gang_chat_server.Base.Sort.{All-sort_by}
use gang_chat_server.MusicBox.Types.{
  QueueScope, QueueItem, RoomState, temporary, saved_playlist_snapshot, is_shuffle, is_repeat_one,
}
use gang_chat_server.MusicBox.Queue.{
  StreamingFilter, earlier, in_scope, list_scoped_queue, first_playable_in_scope,
  last_playable_before, get_room_item,
}
use gang_chat_server.MusicBox.Queue.Selection.{
  IsCandidate, first_playable_in_scope-some, last_playable_before-some,
}
use gang_chat_server.MusicBox.Advance.{
  Box, Transition, natural, next, previous, get_state, playback_scope, item_playable, is_previous,
  is_natural, shuffle_pick, shuffle_choose, shuffle_order, first_after_cursor, start_item, advance,
  previous_item, following, next_item, cursor_after,
}

-- A row of the room's part of the table that the player can start now.
pub record IsStartable (b : Box) (room : String) (streaming : StreamingFilter) (item : QueueItem)
    : Type 0 where
  pub row : Memᴰ item b.rows
  pub of_room : item.room_id ≡ room
  pub playable : item_playable streaming item ≡ true

module _ (b : Box) (room : String) (streaming : StreamingFilter) where
  candidate-IsStartable :
      (scope : QueueScope) (snapshot : String) {item : QueueItem}
      → Memᴰ item b.rows
      → IsCandidate room scope snapshot streaming item
      → IsStartable b room streaming item
  unfolding in_scope item_playable
  candidate-IsStartable temporary snapshot {item} m c = record {
    row = m;
    of_room = =?→eq item.room_id room (ground (arith, c.scoped));
    playable = ground (arith, c.prepared, c.playable);
  }
  candidate-IsStartable saved_playlist_snapshot snapshot {item} m c = record {
    row = m;
    of_room = =?→eq item.room_id room (ground (arith, c.scoped));
    playable = ground (arith, c.prepared, c.playable);
  }

  first_after_cursor-IsStartable :
      (scope : QueueScope) (snapshot : String) {item : QueueItem}
      → (first_after_cursor streaming b room scope snapshot).0 ≡ some item
      → IsStartable b room streaming item
  unfolding first_after_cursor
  first_after_cursor-IsStartable scope snapshot e =
      let (m, c, _) =
        first_playable_in_scope-some b.rows room scope snapshot streaming
          (cursor_after room scope snapshot b).0 e in
      candidate-IsStartable scope snapshot m c

  current-IsStartable :
      (id : String) {current : QueueItem}
      → get_room_item b.rows room id ≡ some current
      → item_playable streaming current ≡ true
      → IsStartable b room streaming current
  unfolding get_room_item
  current-IsStartable id {current} found plays =
      let (t, m) =
        first-some (λ i. Memᴰ i b.rows) (λ i. i.room_id =? room && i.id =? id) b.rows
          (All-Memᴰ b.rows) found in
      record { row = m; of_room = =?→eq current.room_id room (ground arith); playable = plays }

  start_item-IsStartable :
      (st : RoomState) (scope : QueueScope) (snapshot : String) {item : QueueItem}
      → (start_item streaming b room st scope snapshot).0 ≡ some item
      → IsStartable b room streaming item
  unfolding start_item
  start_item-IsStartable st scope snapshot {item} e = elim (Bool-cases (st.current_item_id =? "")) [
    | inl h ↦ first_after_cursor-IsStartable scope snapshot (rw h at e)
    | inr h ↦ elim (Option-cases (get_room_item b.rows room st.current_item_id)) [
      | inl none_there ↦
          first_after_cursor-IsStartable scope snapshot (ground (arith, e, h, none_there))
      | inr (current, found) ↦ elim (Bool-cases (item_playable streaming current)) [
        | inl plays ↦
            let same : current ≡ item = ground (arith, e, h, found, plays) in
            subst (IsStartable b room streaming) same
              (current-IsStartable st.current_item_id found plays)
        | inr stuck ↦
            first_after_cursor-IsStartable scope snapshot (ground (arith, e, h, found, stuck))
      ]
    ]
  ]

  shuffle_choose-IsStartable :
      (transition : Transition) (prev : QueueItem) (order : List QueueItem) {item : QueueItem}
      → All (IsStartable b room streaming) order
      → shuffle_choose transition prev order ≡ some item
      → IsStartable b room streaming item
  unfolding shuffle_choose shuffle_pick
  shuffle_choose-IsStartable transition prev [] all e = cc
  shuffle_choose-IsStartable previous prev (x ∷ order) all e =
      All-get_elem? (IsStartable b room streaming) (x ∷ order) _ all e
  shuffle_choose-IsStartable natural prev (x ∷ order) all e =
      All-get_elem? (IsStartable b room streaming) (x ∷ order) _ all e
  shuffle_choose-IsStartable next prev (x ∷ order) all e =
      All-get_elem? (IsStartable b room streaming) (x ∷ order) _ all e

  scoped-room :
      (scope : QueueScope) (snapshot : String) (item : QueueItem)
      → in_scope room scope snapshot item ≡ true
      → item.room_id ≡ room
  unfolding in_scope
  scoped-room temporary snapshot item h = =?→eq item.room_id room (ground arith)
  scoped-room saved_playlist_snapshot snapshot item h = =?→eq item.room_id room (ground arith)

  -- The rows of the queue in scope are rows of the room.
  listed_rows :
      (scope : QueueScope) (snapshot : String)
      → All (λ i. Memᴰ i b.rows × (i.room_id ≡ room)) (list_scoped_queue b.rows room scope snapshot)
  unfolding list_scoped_queue
  listed_rows scope snapshot = All-sort_by earlier _ _ (
      All-both (λ i. Memᴰ i b.rows) (λ i. i.room_id ≡ room) _
        (All-select (λ i. Memᴰ i b.rows) (in_scope room scope snapshot) b.rows (All-Memᴰ b.rows))
        (All-map _ (λ i. i.room_id ≡ room) _ (scoped-room scope snapshot)
          (All-select_test (in_scope room scope snapshot) b.rows)))

  shuffle_order-IsStartable :
      (rank : String → String → ℕ) (scope : QueueScope) (snapshot : String)
      → All (IsStartable b room streaming) (shuffle_order rank streaming b.rows room scope snapshot)
  unfolding shuffle_order
  shuffle_order-IsStartable rank scope snapshot =
      let listed = list_scoped_queue b.rows room scope snapshot in
      All-sort_by _ _ _ (
        All-map _ (IsStartable b room streaming) _
          (λ i h. record { row = h.0.0; of_room = h.0.1; playable = h.1 })
          (All-both (λ i. Memᴰ i b.rows × (i.room_id ≡ room)) _ _
            (All-select (λ i. Memᴰ i b.rows × (i.room_id ≡ room)) (item_playable streaming) listed
              (listed_rows scope snapshot))
            (All-select_test (item_playable streaming) listed)))

  previous_item-IsStartable :
      (scope : QueueScope) (snapshot : String) (prev : QueueItem) {item : QueueItem}
      → previous_item streaming b room scope snapshot prev ≡ some item
      → (prev ≡ item) ⊎ IsStartable b room streaming item
  unfolding previous_item
  previous_item-IsStartable scope snapshot prev {item} e =
      elim (Option-cases
        (last_playable_before b.rows room prev.sort_order scope snapshot streaming)) [
          | inl none_there ↦ inl (ground (arith, none_there))
          | inr (found, at) ↦
              let same : found ≡ item = ground (arith, at) in
              let (m, c, _) =
                last_playable_before-some b.rows room scope snapshot streaming prev.sort_order at in
              inr (
                subst (IsStartable b room streaming) same
                  (candidate-IsStartable scope snapshot m c))
        ]

  advance-IsStartable :
      (st : RoomState) (scope : QueueScope) (snapshot : String) (prev : QueueItem) (now : ℕ)
      {item : QueueItem}
      → (advance streaming b room st scope snapshot prev now).0 ≡ some item
      → IsStartable b room streaming item
  unfolding advance
  advance-IsStartable st scope snapshot prev now {item} e =
      elim (Option-cases
        (first_playable_in_scope b.rows room prev.sort_order scope snapshot streaming)) [
          | inl none_there ↦
              let wrapped : first_playable_in_scope b.rows room (negsuc 0) scope snapshot streaming
                  ≡ some item =
                ground (arith, none_there) in
              let (m, c, _) =
                first_playable_in_scope-some b.rows room scope snapshot streaming (negsuc 0)
                  wrapped in
              candidate-IsStartable scope snapshot m c
          | inr (found, at) ↦
              let same : found ≡ item = ground (arith, at) in
              let (m, c, _) =
                first_playable_in_scope-some b.rows room scope snapshot streaming prev.sort_order
                  at in
              subst (IsStartable b room streaming) same (candidate-IsStartable scope snapshot m c)
        ]

  following-IsStartable :
      (rank : String → String → ℕ) (st : RoomState) (scope : QueueScope) (snapshot : String)
      (prev : QueueItem) (transition : Transition) (position now : ℕ) {item : QueueItem}
      → (following rank streaming b room st scope snapshot prev transition position now).0
        ≡ some item
      → (prev ≡ item) ⊎ IsStartable b room streaming item
  unfolding following
  following-IsStartable rank st scope snapshot prev transition position now {item} e =
      elim (Bool-cases (is_previous transition && ltb 3000 position)) [
        | inl restart ↦ inl (ground (arith, rw restart at e))
        | inr onward ↦ elim (Bool-cases (is_shuffle st.playback_mode)) [
          | inl shuffled ↦ inr (
              shuffle_choose-IsStartable transition prev _
                (shuffle_order-IsStartable rank scope snapshot) (rw (onward, shuffled) at e))
          | inr in_order ↦ elim (Bool-cases (is_previous transition)) [
            | inl back ↦
                previous_item-IsStartable scope snapshot prev (rw (onward, in_order, back) at e)
            | inr forth ↦
                elim (Bool-cases (is_natural transition && is_repeat_one st.playback_mode)) [
                  | inl again ↦ inl (ground (arith, rw (onward, in_order, forth, again) at e))
                  | inr move ↦ inr (
                      advance-IsStartable st scope snapshot prev now
                        (rw (onward, in_order, forth, move) at e))
                ]
          ]
        ]
      ]

  -- When the manager hands the player a track, it is the track before again, or a row of the same
  -- room that can be played now: ready, or a stream that has begun.
  pub next_item-IsStartable :
      (rank : String → String → ℕ) (prev : Option QueueItem) (transition : Transition)
      (position now : ℕ) {item : QueueItem}
      → (next_item rank streaming b room prev transition position now).0 ≡ some item
      → (prev ≡ some item) ⊎ IsStartable b room streaming item
  unfolding next_item
  next_item-IsStartable rank none transition position now e =
      let st = get_state room b in
      inr (start_item-IsStartable st (playback_scope st).0 (playback_scope st).1 e)
  next_item-IsStartable rank (some prev) transition position now e =
      let st = get_state room b in
      elim (following-IsStartable rank st (playback_scope st).0 (playback_scope st).1 prev
        transition position now e) [ inl same ↦ inl (ap some same) | inr startable ↦ inr startable ]
