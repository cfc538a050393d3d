-- ===== src/MusicBox/Player/Tests.antt =====
-- internal/musicbox/player.go: the theorems at a player whose manager has one song.
use gang_chat_server.Base.{ℕ, ◌+◌, true, false, List, [], ◌∷◌, Option, none, some, ◌≡◌, ◌≢◌, refl}
use gang_chat_server.MusicBox.Types.{QueueItem, ready, temporary}
use gang_chat_server.Base.Int.{pos}
use gang_chat_server.MusicBox.Advance.{Transition}
use gang_chat_server.MusicBox.Player.{
  CommandKind, Player, Phase, Loop, Input, takes_command, puts, reads_packet, snapshot, run,
  run_from, step, step_at, select, begin_item, set_current, notify, take_command, command_at,
  finish, handle_playback_command, after_track, move_on, packet_at, set_paused, acknowledge, send,
}
use gang_chat_server.MusicBox.Player.Steady.Run.{shown, run-snapshot}
use gang_chat_server.MusicBox.Player.Acks.Order.{IsDescending, run-acks_in_order}

abbrev song : QueueItem
song = record {
  id = "a";
  room_id = "lobby";
  source = "gd";
  track_id = "a";
  title = "a";
  artist = "";
  duration_ms = 180000;
  status = ready;
  file_path = "/cache/a.ogg";
  file_size_bytes = 10;
  error = "";
  added_by_user_id = "ann";
  queue_scope = temporary;
  snapshot_id = "";
  sort_order = pos 1;
  created_at = 1;
  updated_at = 1;
}

-- The song again and again; the manager counts what it is told.
abbrev song_again : ℕ → Option QueueItem → Transition → ℕ → ℕ × Option QueueItem
song_again n prev transition ms = (n, some song)

abbrev count : Player → ℕ → ℕ
count p n = n + 1

abbrev start : Loop ℕ
start = record {
  player = record {
    paused = false;
    stopped = false;
    current = none;
    position_ms = 0;
    cmd = [];
    done = false;
    connected = true;
    acked = [];
  };
  phase = Phase.idle;
  manager = 0;
  next_ack = 0;
}

abbrev inputs : List Input
inputs =
    reads_packet (some 20000000) true
    ∷ puts CommandKind.skip none
    ∷ puts CommandKind.pause none
    ∷ takes_command
    ∷ takes_command
    ∷ []

abbrev final_loop : Loop ℕ
final_loop = run song_again count count inputs (run_from song_again count count none start)

phase_later : final_loop.phase ≡ Phase.track song 0
unfolding run run_from step step_at select begin_item set_current notify take_command command_at
    finish handle_playback_command after_track move_on packet_at set_paused acknowledge send
phase_later = refl

no_end : (p : Phase) → p ≡ Phase.track song 0 → p ≢ Phase.leaving
no_end p e f = cc

in_song : final_loop.phase ≢ Phase.leaving
in_song = no_end final_loop.phase phase_later

run-snapshot_example : snapshot final_loop.player ≡ shown final_loop.phase final_loop.player.paused
run-snapshot_example =
    run-snapshot song_again count count inputs start final_loop refl refl refl in_song

run-acks_in_order_example : IsDescending final_loop.next_ack final_loop.player.acked
run-acks_in_order_example =
    run-acks_in_order song_again count count inputs start final_loop refl refl refl
