-- ===== src/MusicBox/Advance/Tests.antt =====
-- internal/musicbox, the choice of the next track: the theorems at a queue of two songs.
use gang_chat_server.Base.{
  ℕ, String, Bool, false, if◌then◌else◌, List, [], ◌∷◌, none, some, ◌≡◌, ◌≢◌, refl, arith, ◌⊎◌,
}
use mathlib.Core.List.{Memᴰ}
use gang_chat_server.Base.Eq.{◌=?◌, string_eq}
use gang_chat_server.Base.Dict.{lookup, has, Distinct}
use gang_chat_server.Base.Sort.{sort_by}
use gang_chat_server.Base.Int.{pos, negsuc, ◌<ℤ◌}
use gang_chat_server.MusicBox.Types.{
  QueueItem, RoomState, PlaybackState, PlaybackMode, ready, temporary, sequential, repeat_all,
  source_temporary,
}
use gang_chat_server.MusicBox.Queue.{
  first_playable_in_scope, last_playable_before, in_scope, list_scoped_queue, first_playable_row,
}
use gang_chat_server.MusicBox.Queue.Selection.{
  IsCandidate, IsNext, IsPrevious, first_playable_in_scope-IsNext, last_playable_before-IsPrevious,
}
use gang_chat_server.MusicBox.Advance.{
  Box, Transition, get_state, next_item, shuffle_choose, cursor_after, set_cursor, following,
  advance, playback_scope, shuffle_pick, index_of,
}
use gang_chat_server.MusicBox.Advance.Shuffle.{ids, shuffle_choose-previous_next}
use gang_chat_server.MusicBox.Advance.Safety.{IsStartable, next_item-IsStartable}
use gang_chat_server.MusicBox.Advance.Order.{
  scope_of, snapshot_of, restart, next_item-sequential, next_item-repeat_all, cursor_after-restart,
}

abbrev song : String → ℕ → QueueItem
song id place = record {
  id = id;
  room_id = "lobby";
  source = "gd";
  track_id = id;
  title = id;
  artist = "";
  duration_ms = 180000;
  status = ready;
  file_path = "/cache/song.ogg";
  file_size_bytes = 10;
  error = "";
  added_by_user_id = "ann";
  queue_scope = temporary;
  snapshot_id = "";
  sort_order = pos place;
  created_at = place;
  updated_at = place;
}

abbrev room_state : PlaybackMode → RoomState
room_state mode = record {
  room_id = "lobby";
  state = PlaybackState.playing;
  current_item_id = "a";
  position_ms = 0;
  volume = 100;
  revision = 1;
  playback_mode = mode;
  active_source_type = source_temporary;
  active_playlist_id = "";
  active_playlist_name = "";
  active_playlist_owner_id = "";
  active_playlist_created_at = 0;
  active_snapshot_id = "";
  updated_at = 0;
}

abbrev songs : List QueueItem
songs = song "a" 1 ∷ song "b" 2 ∷ []

abbrev box : PlaybackMode → Box
box mode = record {
  rows = songs;
  states = ("lobby", room_state mode) ∷ [];
  saved_cursors = [];
  play_cursors = [];
}

abbrev no_stream : QueueItem → Bool
no_stream item = false

abbrev no_rank : String → String → ℕ
no_rank room id = 0

b-IsCandidate : IsCandidate "lobby" temporary "" no_stream (song "b" 2)
unfolding in_scope
b-IsCandidate = record { scoped = refl; prepared = refl; playable = refl }

a-IsCandidate : IsCandidate "lobby" temporary "" no_stream (song "a" 1)
unfolding in_scope
a-IsCandidate = record { scoped = refl; prepared = refl; playable = refl }

after_a : first_playable_in_scope songs "lobby" (pos 1) temporary "" no_stream ≡ some (song "b" 2)
unfolding first_playable_in_scope list_scoped_queue first_playable_row sort_by in_scope
after_a = refl

before_b : last_playable_before songs "lobby" (pos 2) temporary "" no_stream ≡ some (song "a" 1)
unfolding last_playable_before list_scoped_queue first_playable_row sort_by in_scope
before_b = refl

none_after_b : first_playable_in_scope songs "lobby" (pos 2) temporary "" no_stream ≡ none
unfolding first_playable_in_scope list_scoped_queue first_playable_row sort_by in_scope
none_after_b = refl

next_b :
    (next_item no_rank no_stream
      (box sequential)
      "lobby"
      (some (song "a" 1))
      Transition.natural
      180000
      9).0
    ≡ some (song "b" 2)
unfolding next_item following advance get_state playback_scope first_playable_in_scope
    list_scoped_queue first_playable_row sort_by in_scope lookup
next_b = refl

state_of : (mode : PlaybackMode) → (get_state "lobby" (box mode)).playback_mode ≡ mode
unfolding get_state lookup
state_of mode = refl

next_item-IsStartable_example :
    (some (song "a" 1) ≡ some (song "b" 2))
    ⊎ IsStartable (box sequential) "lobby" no_stream (song "b" 2)
next_item-IsStartable_example =
    next_item-IsStartable (box sequential) "lobby" no_stream no_rank (some (song "a" 1))
      Transition.natural 180000 9 next_b

next_item-sequential_example :
    Memᴰ (song "b" 2) songs
    × IsCandidate "lobby"
        (scope_of "lobby" (box sequential))
        (snapshot_of "lobby" (box sequential))
        no_stream
        (song "b" 2)
    × (pos 1 <ℤ pos 2)
next_item-sequential_example =
    next_item-sequential no_rank no_stream (box sequential) "lobby" (song "a" 1) 180000 9
      Transition.natural (λ e. cc) (state_of sequential) next_b

-- The only song of the queue is the one that ended.
loops :
    IsCandidate "lobby"
      (scope_of "lobby" (box repeat_all))
      (snapshot_of "lobby" (box repeat_all))
      no_stream
      (song "a" 1)
unfolding get_state playback_scope lookup in_scope
loops = a-IsCandidate

next_item-repeat_all_example :
    (next_item no_rank no_stream
      (box repeat_all)
      "lobby"
      (some (song "b" 2))
      Transition.natural
      180000
      9).0
    ≢ none
next_item-repeat_all_example =
    next_item-repeat_all no_rank no_stream (box repeat_all) "lobby" (song "b" 2) 180000 9
      Transition.natural (song "a" 1) (λ e. cc) (state_of repeat_all) (Memᴰ.head refl) loops
      (omega arith)

first_playable_in_scope-IsNext_example :
    IsNext songs "lobby" temporary "" no_stream
      (pos 1)
      (first_playable_in_scope songs "lobby" (pos 1) temporary "" no_stream)
first_playable_in_scope-IsNext_example =
    first_playable_in_scope-IsNext songs "lobby" temporary "" no_stream (pos 1)

last_playable_before-IsPrevious_example :
    IsPrevious songs "lobby" temporary "" no_stream
      (pos 2)
      (last_playable_before songs "lobby" (pos 2) temporary "" no_stream)
last_playable_before-IsPrevious_example =
    last_playable_before-IsPrevious songs "lobby" temporary "" no_stream (pos 2)

cursor_after-restart_example :
    (cursor_after "lobby" temporary ""
      (restart (set_cursor "lobby" temporary "" (pos 2) 9 (box sequential)))).0
    ≡ (if ◌=?◌ {A = String} "" "" then pos 2 else negsuc 0)
cursor_after-restart_example =
    cursor_after-restart "lobby" "" "" temporary (pos 2) 9 (box sequential)

ids_differ : Distinct (ids songs)
unfolding has
ids_differ = (refl, (refl, tt))

shuffled : shuffle_choose Transition.next (song "a" 1) songs ≡ some (song "b" 2)
unfolding shuffle_choose shuffle_pick index_of
shuffled = refl

shuffle_choose-previous_next_example :
    shuffle_choose Transition.previous (song "b" 2) songs ≡ some (song "a" 1)
shuffle_choose-previous_next_example = shuffle_choose-previous_next songs 0 ids_differ refl shuffled
