-- ===== src/MusicBox/Advance.antt =====
-- internal/musicbox/manager.go: how the room's player is handed its next track (`nextItem`), the
-- play cursor that survives a restart, and the pruning of the request queue's history.
-- `rank` is `musicBoxShuffleRank`: the FNV hash of Go's library over the room's and the row's id.
-- The maps of `Manager` and the tables of the store are one record. The media of pruned rows is
-- released by the cache (`releaseQueueMedia`), which keeps none of this state.
mod Tests
pub mod Shuffle
pub mod Safety
pub mod Order
use gang_chat_server.Base.{
  ℕ, suc, ◌+◌, ◌-◌, ◌%◌, String, Bool, true, false, if◌then◌else◌, ◌&&◌, ◌||◌, not, List, [], ◌∷◌,
  Option, none, some, ltb, leb, select, take, length, get_elem?,
}
use gang_chat_server.Base.Eq.{◌=?◌, string_eq}
use gang_chat_server.Base.Dict.{lookup, insert}
use gang_chat_server.Base.Int.{ℤ, pos, negsuc, pos_part, neg_part, ltb_ℤ}
use gang_chat_server.Base.Sort.{sort_by}
use gang_chat_server.MusicBox.Types.{
  QueueStatus, QueueScope, QueueItem, RoomState, PlaybackMode, ready, downloading, temporary,
  saved_playlist_snapshot, stopped, sequential, source_temporary, is_temporary, from_temporary,
  is_shuffle, is_repeat_one, is_repeat_all,
}
use gang_chat_server.MusicBox.Queue.{
  StreamingFilter, list_scoped_queue, first_playable_in_scope, last_playable_before, get_room_item,
  delete_room_item,
}

-- The zero scope, "", is `none`: it matches no queue.
pub record PlayCursor : Type 0 where
  pub scope : Option QueueScope
  pub snapshot_id : String
  pub after_sort : ℤ

pub record Box : Type 0 where
  pub rows : List QueueItem
  pub states : List (String × RoomState)
  pub saved_cursors : List (String × PlayCursor)
  pub play_cursors : List (String × PlayCursor)

pub data Transition : Type 0 where
  natural next previous : Transition

-- ErrNoRows gives the state that `ensureState` would insert.
default_state : String → ℕ → RoomState
default_state room now = record {
  room_id = room;
  state = stopped;
  current_item_id = "";
  position_ms = 0;
  volume = 100;
  revision = 0;
  playback_mode = sequential;
  active_source_type = source_temporary;
  active_playlist_id = "";
  active_playlist_name = "";
  active_playlist_owner_id = "";
  active_playlist_created_at = 0;
  active_snapshot_id = "";
  updated_at = now;
}

pub get_state : String → Box → RoomState
unfolding default_state
get_state room b = elim (lookup room b.states) [ none ↦ default_state room 0 | some st ↦ st ]

unfoldable pub playback_scope : RoomState → QueueScope × String
playback_scope st =
    if not (from_temporary st.active_source_type) && not (st.active_snapshot_id =? "")
    then (saved_playlist_snapshot, st.active_snapshot_id)
    else (temporary, "")

no_cursor : PlayCursor
no_cursor = record { scope = none; snapshot_id = ""; after_sort = negsuc 0 }

load_play_cursor : String → Box → PlayCursor
unfolding no_cursor
load_play_cursor room b = elim (lookup room b.saved_cursors) [ none ↦ no_cursor | some c ↦ c ]

-- The first lookup after a restart loads the persisted cursor and caches it.
pub play_cursor : String → Box → PlayCursor × Box
unfolding load_play_cursor
play_cursor room b = elim (lookup room b.play_cursors) [
  | some c ↦ (c, b)
  | none ↦
      let loaded = load_play_cursor room b in
      (loaded, record b { play_cursors = insert room loaded b.play_cursors })
]

abbrev same_scope : Option QueueScope → QueueScope → Bool
same_scope none s = false
same_scope (some temporary) s = is_temporary s
same_scope (some saved_playlist_snapshot) s = not (is_temporary s)

pub cursor_after : String → QueueScope → String → Box → ℤ × Box
unfolding play_cursor
cursor_after room scope snapshot b =
    let (c, b') = play_cursor room b in
    (
      if not (same_scope c.scope scope) || not (c.snapshot_id =? snapshot)
          then negsuc 0
          else c.after_sort,
      b',
    )

-- `savePlayCursor` makes the room's state row if it is missing.
pub set_cursor : String → QueueScope → String → ℤ → ℕ → Box → Box
unfolding default_state
set_cursor room scope snapshot after now b =
    let c : PlayCursor = record {
      scope = some scope;
      snapshot_id = snapshot;
      after_sort = after;
    } in
    record b {
      play_cursors = insert room c b.play_cursors;
      saved_cursors = insert room c b.saved_cursors;
      states = elim (lookup room b.states) [
        | none ↦ insert room (default_state room now) b.states
        | some st ↦ b.states
      ];
    }

abbrev pub max_temporary_playback_history : ℕ
max_temporary_playback_history = 20

delete_all : String → List QueueItem → List QueueItem → List QueueItem
unfolding delete_room_item
delete_all room [] rows = rows
delete_all room (item ∷ items) rows = delete_all room items (delete_room_item rows room item.id).1

pub history : List QueueItem → String → ℤ → List QueueItem
history rows room through =
    select (λ item. not (ltb_ℤ through item.sort_order)) (list_scoped_queue rows room temporary "")

pub prune_temporary_history : List QueueItem → String → ℤ → List QueueItem
unfolding history delete_all
prune_temporary_history rows room through =
    let played = history rows room through in
    if leb (length played) max_temporary_playback_history
    then rows
    else delete_all room (take (length played - max_temporary_playback_history) played) rows

unfoldable pub item_playable : StreamingFilter → QueueItem → Bool
item_playable streaming item = elim item.status [
  | ready ↦ true
  | downloading ↦ streaming item
  | _ ↦ false
]

-- The index of the track in the play order, or 0.
unfoldable pub index_of : String → ℕ → List QueueItem → ℕ
index_of id i [] = 0
index_of id i (item ∷ items) = if item.id =? id then i else index_of id (suc i) items

-- `none` is an index out of range.
unfoldable pub shuffle_pick : Transition → ℕ → List QueueItem → Option QueueItem
shuffle_pick previous i ready_items =
    get_elem? ready_items ((i + length ready_items - 1) % length ready_items)
shuffle_pick _ i ready_items = get_elem? ready_items ((i + 1) % length ready_items)

unfoldable pub shuffle_choose : Transition → QueueItem → List QueueItem → Option QueueItem
shuffle_choose transition prev [] = none
shuffle_choose transition prev (item ∷ items) =
    shuffle_pick transition (index_of prev.id 0 (item ∷ items)) (item ∷ items)

-- The cursor and the history after playback moved past `prev`.
settle : Box → String → QueueScope → String → QueueItem → ℕ → Box
unfolding set_cursor prune_temporary_history
settle b room scope snapshot prev now =
    let b' = set_cursor room scope snapshot prev.sort_order now b in
    if is_temporary scope
    then record b' { rows = prune_temporary_history b'.rows room prev.sort_order }
    else b'

module _ (rank : String → String → ℕ) (streaming : StreamingFilter) where
  pub shuffle_order : List QueueItem → String → QueueScope → String → List QueueItem
  shuffle_order rows room scope snapshot =
      sort_by (λ a b. ltb (rank room a.id) (rank room b.id))
        (select (item_playable streaming) (list_scoped_queue rows room scope snapshot))

module _ (streaming : StreamingFilter) where
  first_after_cursor : Box → String → QueueScope → String → Option QueueItem × Box
  first_after_cursor b room scope snapshot =
      let (after, b') = cursor_after room scope snapshot b in
      (first_playable_in_scope b.rows room after scope snapshot streaming, b')

  -- With no track before: the room's current row if it is playable, else the next row.
  start_item : Box → String → RoomState → QueueScope → String → Option QueueItem × Box
  unfolding first_after_cursor
  start_item b room st scope snapshot =
      if st.current_item_id =? ""
      then first_after_cursor b room scope snapshot
      else elim (get_room_item b.rows room st.current_item_id) [
        | none ↦ first_after_cursor b room scope snapshot
        | some current ↦
            if item_playable streaming current
            then (some current, b)
            else first_after_cursor b room scope snapshot
      ]

  advance : Box → String → RoomState → QueueScope → String → QueueItem → ℕ → Option QueueItem × Box
  unfolding settle set_cursor
  advance b room st scope snapshot prev now =
      elim (first_playable_in_scope b.rows room prev.sort_order scope snapshot streaming) [
        | none ↦
            if is_repeat_all st.playback_mode
            then (
              first_playable_in_scope b.rows room (negsuc 0) scope snapshot streaming,
              set_cursor room scope snapshot (negsuc 0) now b,
            )
            else (none, settle b room scope snapshot prev now)
        | some item ↦ (some item, settle b room scope snapshot prev now)
      ]

  previous_item : Box → String → QueueScope → String → QueueItem → Option QueueItem
  previous_item b room scope snapshot prev =
      elim (last_playable_before b.rows room prev.sort_order scope snapshot streaming) [
        | none ↦ some prev
        | some item ↦ some item
      ]

abbrev is_previous : Transition → Bool
is_previous previous = true
is_previous _ = false

abbrev is_natural : Transition → Bool
is_natural natural = true
is_natural _ = false

module _ (rank : String → String → ℕ) (streaming : StreamingFilter) where
  -- The track after `prev`.
  following :
      Box
      → String
      → RoomState
      → QueueScope
      → String
      → QueueItem
      → Transition
      → ℕ
      → ℕ
      → Option QueueItem × Box
  unfolding advance previous_item shuffle_order
  following b room st scope snapshot prev transition position now =
      if is_previous transition && ltb 3000 position
      then (some prev, b)
      else if is_shuffle st.playback_mode
      then (
        shuffle_choose transition prev (shuffle_order rank streaming b.rows room scope snapshot),
        b,
      )
      else if is_previous transition
      then (previous_item streaming b room scope snapshot prev, b)
      else if is_natural transition && is_repeat_one st.playback_mode
      then (some prev, b)
      else advance streaming b room st scope snapshot prev now

  -- The row to play after `prev`, which stopped at a position by a transition.
  pub next_item : Box → String → Option QueueItem → Transition → ℕ → ℕ → Option QueueItem × Box
  unfolding get_state start_item following
  next_item b room none transition position now =
      let st = get_state room b in
      let (scope, snapshot) = playback_scope st in start_item streaming b room st scope snapshot
  next_item b room (some prev) transition position now =
      let st = get_state room b in
      let (scope, snapshot) = playback_scope st in
      following b room st scope snapshot prev transition position now
