-- ===== src/MusicBox/Stream.antt =====
-- internal/musicbox/media_stream.go: a transcode that is still being written, the reader that
-- follows it, and the registry of streams by final path. A closed Go channel is a flag; an error is
-- a text. `Mutex` sections are single steps.
mod Tests
pub mod Outcome
pub mod Follow
pub mod Pages
use gang_chat_server.Base.{
  ℕ, suc, ◌+◌, String, Bool, true, false, if◌then◌else◌, ◌&&◌, not, List, [], ◌∷◌, ◌++◌, Option,
  none, some, leb, length,
}
use gang_chat_server.Base.Eq.{◌=?◌, string_eq}
use gang_chat_server.Base.Dict.{lookup, insert, delete}
use gang_chat_server.MusicBox.Types.{
  QueueItem, QueueStatus, pending, downloading, ready, failed, is_downloading,
}

pub record MediaStream : Type 0 where
  pub tmp_path : String
  pub final_path : String
  pub owner_id : String
  pub playable : Bool
  pub done : Bool
  pub published : Bool
  pub err : Option String

unfoldable pub new_media_stream : String → String → String → MediaStream
new_media_stream tmp final owner = record {
  tmp_path = tmp;
  final_path = final;
  owner_id = owner;
  playable = false;
  done = false;
  published = false;
  err = none;
}

-- Whether this call made the stream playable.
unfoldable pub mark_playable : MediaStream → Bool × MediaStream
mark_playable s = (not s.playable, record s { playable = true })

abbrev pub no_error : Option String → Bool
no_error none = true
no_error (some e) = false

unfoldable pub is_playable : MediaStream → Bool
is_playable s = s.playable && no_error s.err

abbrev pub or_unavailable : Option String → String
or_unavailable none = "music box stream is no longer available"
or_unavailable (some e) = e

unfoldable pub fail : Option String → MediaStream → MediaStream
fail err s = if s.done then s else record s { err = some (or_unavailable err); done = true }

-- The rename is run only if the stream has not ended; `none` is its success.
unfoldable pub publish : Option String → MediaStream → Option String × MediaStream
publish rename s = if s.done then (s.err, s) else elim rename [
  | some e ↦ (some e, record s { err = some e; done = true })
  | none ↦ (none, record s { published = true; done = true })
]

pub data Opened : Type 0 where
  refused : String → Opened
  path : String → Opened

-- The path whose file a reader opens.
unfoldable pub open_stream : MediaStream → Opened
open_stream s = elim s.err [
  | some e ↦ refused e
  | none ↦ if s.published then path s.final_path else path s.tmp_path
]

-- What may happen to a stream: its watcher, its transcode and its publication.
pub data Event : Type 0 where
  marks : Event
  fails : Option String → Event
  publishes : Option String → Event

unfoldable pub step : Event → MediaStream → MediaStream
unfolding mark_playable fail publish
step marks s = (mark_playable s).1
step (fails err) s = fail err s
step (publishes rename) s = (publish rename s).1

unfoldable pub run : List Event → MediaStream → MediaStream
run [] s = s
run (e ∷ es) s = run es (step e s)

-- The registry, `Manager.streams`, by cleaned final path.
unfoldable pub begin_stream :
    String → String → String → List (String × MediaStream) → List (String × MediaStream)
begin_stream tmp final owner streams = insert final (new_media_stream tmp final owner) streams

unfoldable pub retire_stream :
    String → String → List (String × MediaStream) → List (String × MediaStream)
retire_stream final owner streams = elim (lookup final streams) [
  | none ↦ streams
  | some s ↦ if s.owner_id =? owner && s.done then delete final streams else streams
]

-- The in-progress transcode that a downloading row can be played from; `path_of` is
-- `broadcastCachePath`.
unfoldable pub playable_stream :
    (QueueItem → String) → List (String × MediaStream) → QueueItem → Option MediaStream
unfolding is_playable
playable_stream path_of streams item =
    if not (is_downloading item.status) then none else elim (lookup (path_of item) streams) [
      | none ↦ none
      | some s ↦ if is_playable s then some s else none
    ]
