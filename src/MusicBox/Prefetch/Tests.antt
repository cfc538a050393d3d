-- ===== src/MusicBox/Prefetch/Tests.antt =====
-- internal/musicbox/media_cache.go: the window of a queue of two songs, one of which failed.
use gang_chat_server.Base.{ℕ, String, List, [], ◌∷◌, some, ◌≡◌, refl, arith, take, select}
use gang_chat_server.Base.Int.{pos}
use gang_chat_server.Base.Eq.{string_eq}
use gang_chat_server.MusicBox.Types.{QueueItem, QueueStatus, ready, failed, temporary, repeat_all}
use gang_chat_server.MusicBox.Prefetch.{window_of, start_index, current_index, first_index, wraps}
use gang_chat_server.MusicBox.Prefetch.Window.{may_play, from_index, window_of-take}

abbrev song : String → QueueStatus → ℕ → QueueItem
song id status place = record {
  id = id;
  room_id = "lobby";
  source = "gd";
  track_id = id;
  title = id;
  artist = "";
  duration_ms = 180000;
  status = status;
  file_path = "";
  file_size_bytes = 10;
  error = "";
  added_by_user_id = "ann";
  queue_scope = temporary;
  snapshot_id = "";
  sort_order = pos place;
  created_at = place;
  updated_at = place;
}

abbrev songs : List QueueItem
songs = song "a" failed 1 ∷ song "b" ready 2 ∷ []

at_b : start_index songs "b" (pos 0) repeat_all ≡ some 1
unfolding start_index current_index first_index
at_b = refl

window_of-take_example :
    window_of songs "b" (pos 0) repeat_all 3
    ≡ take 3 (select may_play (from_index songs (wraps repeat_all) 1))
window_of-take_example = window_of-take songs "b" (pos 0) repeat_all 3 1 (omega arith) at_b
