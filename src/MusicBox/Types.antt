-- ===== src/MusicBox/Types.antt =====
-- internal/musicbox/types.go: the rows of a room's queue and its persisted playback state.
use gang_chat_server.Base.{ℕ, String, Bool, true, false, if◌then◌else◌}
use gang_chat_server.Base.Eq.{◌=?◌, string_eq}
use gang_chat_server.Base.Int.{ℤ}

pub data QueueStatus : Type 0 where
  pending downloading ready failed : QueueStatus

pub data QueueScope : Type 0 where
  temporary saved_playlist_snapshot : QueueScope

pub data ActiveSourceType : Type 0 where
  source_temporary source_room_playlist source_user_playlist : ActiveSourceType

pub data PlaybackState : Type 0 where
  stopped playing paused : PlaybackState

pub data PlaybackMode : Type 0 where
  sequential repeat_one repeat_all shuffle : PlaybackMode

unfoldable pub normalize_playback_mode : String → PlaybackMode
normalize_playback_mode value =
    if value =? "repeat_one"
    then repeat_one
    else if value =? "repeat_all"
    then repeat_all
    else if value =? "shuffle"
    then shuffle
    else sequential

-- The text that the database and the clients keep for a mode.
unfoldable pub mode_text : PlaybackMode → String
mode_text sequential = "sequential"
mode_text repeat_one = "repeat_one"
mode_text repeat_all = "repeat_all"
mode_text shuffle = "shuffle"

pub record QueueItem : Type 0 where
  pub id : String
  pub room_id : String
  pub source : String
  pub track_id : String
  pub title : String
  pub artist : String
  pub duration_ms : ℕ
  pub status : QueueStatus
  pub file_path : String
  pub file_size_bytes : ℕ
  pub error : String
  pub added_by_user_id : String
  pub queue_scope : QueueScope
  pub snapshot_id : String
  pub sort_order : ℤ
  pub created_at : ℕ
  pub updated_at : ℕ

pub record RoomState : Type 0 where
  pub room_id : String
  pub state : PlaybackState
  pub current_item_id : String
  pub position_ms : ℕ
  pub volume : ℕ
  pub revision : ℕ
  pub playback_mode : PlaybackMode
  pub active_source_type : ActiveSourceType
  pub active_playlist_id : String
  pub active_playlist_name : String
  pub active_playlist_owner_id : String
  pub active_playlist_created_at : ℕ
  pub active_snapshot_id : String
  pub updated_at : ℕ

-- Tests on the enumerations.
abbrev pub is_ready : QueueStatus → Bool
is_ready ready = true
is_ready _ = false

abbrev pub is_downloading : QueueStatus → Bool
is_downloading downloading = true
is_downloading _ = false

abbrev pub is_pending : QueueStatus → Bool
is_pending pending = true
is_pending _ = false

abbrev pub is_failed : QueueStatus → Bool
is_failed failed = true
is_failed _ = false

abbrev pub is_temporary : QueueScope → Bool
is_temporary temporary = true
is_temporary saved_playlist_snapshot = false

abbrev pub from_temporary : ActiveSourceType → Bool
from_temporary source_temporary = true
from_temporary _ = false

abbrev pub is_shuffle : PlaybackMode → Bool
is_shuffle shuffle = true
is_shuffle _ = false

abbrev pub is_repeat_one : PlaybackMode → Bool
is_repeat_one repeat_one = true
is_repeat_one _ = false

abbrev pub is_repeat_all : PlaybackMode → Bool
is_repeat_all repeat_all = true
is_repeat_all _ = false
