-- ===== src/MusicBox/Advance/Order.antt =====
-- internal/musicbox/manager.go: the order of tracks outside of shuffle, and the play cursor across a
-- restart.
use mathlib.Core.List.{Memᴰ}
use gang_chat_server.Base.{
  ℕ, String, false, if◌then◌else◌, ◌||◌, [], none, some, ◌≡◌, ◌≢◌, refl, arith,
}
use gang_chat_server.Base.Eq.{◌=?◌, =?_refl, string_eq}
use gang_chat_server.Base.Dict.{lookup, lookup-insert}
use gang_chat_server.Base.Int.{ℤ, pos, negsuc, ◌<ℤ◌, ◌≤ℤ◌}
use gang_chat_server.MusicBox.Types.{
  QueueScope, QueueItem, RoomState, temporary, saved_playlist_snapshot, sequential, repeat_all,
  is_shuffle, is_repeat_one,
}
use gang_chat_server.MusicBox.Queue.{StreamingFilter, first_playable_in_scope}
use gang_chat_server.MusicBox.Queue.Selection.{
  IsCandidate, first_playable_in_scope-some, first_playable_in_scope-none,
}
use gang_chat_server.MusicBox.Advance.{
  Box, Transition, natural, next, previous, get_state, playback_scope, following, advance,
  next_item, cursor_after, set_cursor, load_play_cursor,
}

-- The room's persisted queue in play.
abbrev pub scope_of : String → Box → QueueScope
scope_of room b = (playback_scope (get_state room b)).0

abbrev pub snapshot_of : String → Box → String
snapshot_of room b = (playback_scope (get_state room b)).1

module _ (rank : String → String → ℕ) (streaming : StreamingFilter) (b : Box) (room : String)
    (prev : QueueItem) (position now : ℕ) where
  -- In the modes that neither shuffle nor repeat one track, going forth is `advance`.
  following_forth :
      (st : RoomState) (scope : QueueScope) (snapshot : String) (transition : Transition)
      → transition ≢ previous
      → (is_shuffle st.playback_mode || is_repeat_one st.playback_mode) ≡ false
      → following rank streaming b room st scope snapshot prev transition position now
        ≡ advance streaming b room st scope snapshot prev now
  unfolding following
  following_forth st scope snapshot natural forth mode = ground arith
  following_forth st scope snapshot next forth mode = ground arith
  following_forth st scope snapshot previous forth mode = absurd (forth refl)

  next_item_forth :
      (transition : Transition)
      → transition ≢ previous
      → (is_shuffle (get_state room b).playback_mode
          || is_repeat_one (get_state room b).playback_mode)
        ≡ false
      → next_item rank streaming b room (some prev) transition position now
        ≡ advance streaming b room
            (get_state room b)
            (scope_of room b)
            (snapshot_of room b)
            prev
            now
  unfolding next_item
  next_item_forth transition forth mode =
      following_forth (get_state room b) (scope_of room b) (snapshot_of room b) transition forth
        mode

  -- In the sequential mode, a track handed out after another without going back is a playable row
  -- of the queue in play, and stands behind the track before.
  pub next_item-sequential :
      (transition : Transition) {item : QueueItem}
      → transition ≢ previous
      → (get_state room b).playback_mode ≡ sequential
      → (next_item rank streaming b room (some prev) transition position now).0 ≡ some item
      → Memᴰ item b.rows
        × IsCandidate room (scope_of room b) (snapshot_of room b) streaming item
        × (prev.sort_order <ℤ item.sort_order)
  unfolding advance
  next_item-sequential transition {item} forth mode e =
      first_playable_in_scope-some b.rows room (scope_of room b) (snapshot_of room b) streaming
        prev.sort_order (ground (arith, next_item_forth transition forth (ground (arith, mode))))

  -- In the mode that repeats all, going forth always gives a track while the queue in play has a
  -- playable row whose place is not negative.
  pub next_item-repeat_all :
      (transition : Transition) (other : QueueItem)
      → transition ≢ previous
      → (get_state room b).playback_mode ≡ repeat_all
      → Memᴰ other b.rows
      → IsCandidate room (scope_of room b) (snapshot_of room b) streaming other
      → pos 0 ≤ℤ other.sort_order
      → (next_item rank streaming b room (some prev) transition position now).0 ≢ none
  unfolding advance
  next_item-repeat_all transition other forth mode m c nonneg e =
      let same = next_item_forth transition forth (ground (arith, mode)) in
      let wrapped : first_playable_in_scope b.rows room (negsuc 0) (scope_of room b)
            (snapshot_of room b) streaming
          ≡ none =
        ground (arith, same) in
      omega (
        arith,
        nonneg,
        first_playable_in_scope-none b.rows room (scope_of room b) (snapshot_of room b) streaming
            (negsuc 0) other wrapped m c,
      )

-- A restart keeps the tables and forgets the manager's maps.
abbrev pub restart : Box → Box
restart b = record b { play_cursors = [] }

saved_cursor :
    (room snapshot : String) (scope : QueueScope) (after : ℤ) (now : ℕ) (b : Box)
    → load_play_cursor room (restart (set_cursor room scope snapshot after now b))
      ≡ record { scope = some scope; snapshot_id = snapshot; after_sort = after }
unfolding load_play_cursor set_cursor
saved_cursor room snapshot scope after now b = ground (
  arith,
  =?_refl room,
  lookup-insert room room
      (record { scope = some scope; snapshot_id = snapshot; after_sort = after }) b.saved_cursors,
)

-- After a restart of the server the place from which playback goes on is the one that was saved,
-- for the snapshot that was in play, and the start of the queue for another.
pub cursor_after-restart :
    (room snapshot other : String) (scope : QueueScope) (after : ℤ) (now : ℕ) (b : Box)
    → (cursor_after room scope other (restart (set_cursor room scope snapshot after now b))).0
      ≡ (if snapshot =? other then after else negsuc 0)
unfolding cursor_after lookup
cursor_after-restart room snapshot other temporary after now b =
    ground (arith, saved_cursor room snapshot temporary after now b)
cursor_after-restart room snapshot other saved_playlist_snapshot after now b =
    ground (arith, saved_cursor room snapshot saved_playlist_snapshot after now b)
