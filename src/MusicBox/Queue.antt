-- ===== src/MusicBox/Queue.antt =====
-- internal/musicbox/store.go: the queries that choose a row of the queue table. A table is the list
-- of its rows; `ORDER BY` is a stable sort, so rows that tie keep the table's order. A query does not
-- fail: a failure of the database is outside of the model.
pub mod Selection
use gang_chat_server.Base.{
  ℕ, String, Bool, true, false, if◌then◌else◌, ◌&&◌, ◌||◌, not, List, [], ◌∷◌, Option, none, some,
  ltb, first, select,
}
use gang_chat_server.Base.Eq.{◌=?◌, string_eq}
use gang_chat_server.Base.Int.{ℤ, pos_part, neg_part, ltb_ℤ}
use gang_chat_server.Base.Sort.{sort_by}
use gang_chat_server.MusicBox.Types.{
  QueueStatus, QueueScope, QueueItem, ready, downloading, temporary, saved_playlist_snapshot,
  is_ready, is_downloading, is_temporary,
}

-- `queue_scope = ?`, and for a snapshot `snapshot_id = ?`, which a NULL never meets; a row reads a
-- NULL as the empty text.
unfoldable pub in_scope : String → QueueScope → String → QueueItem → Bool
in_scope room temporary snapshot item = item.room_id =? room && is_temporary item.queue_scope
in_scope room saved_playlist_snapshot snapshot item =
    item.room_id =? room
    && not (is_temporary item.queue_scope)
    && not (item.snapshot_id =? "")
    && item.snapshot_id =? snapshot

-- ORDER BY sort_order ASC, created_at ASC
unfoldable pub earlier : QueueItem → QueueItem → Bool
earlier a b =
    ltb_ℤ a.sort_order b.sort_order
    || (not (ltb_ℤ b.sort_order a.sort_order) && ltb a.created_at b.created_at)

-- ORDER BY sort_order DESC, created_at DESC
unfoldable pub later : QueueItem → QueueItem → Bool
later a b = earlier b a

unfoldable pub list_scoped_queue : List QueueItem → String → QueueScope → String → List QueueItem
list_scoped_queue rows room scope snapshot =
    sort_by earlier (select (in_scope room scope snapshot) rows)

-- The caller's filter: whether a downloading row can be played from its unfinished transcode. The
-- server always passes one.
abbrev pub StreamingFilter : Type 0
StreamingFilter = QueueItem → Bool

-- status IN ('ready', 'downloading')
abbrev pub playable_status : QueueStatus → Bool
playable_status ready = true
playable_status downloading = true
playable_status _ = false

unfoldable pub first_playable_row : StreamingFilter → List QueueItem → Option QueueItem
first_playable_row streaming = first (λ item. is_ready item.status || streaming item)

unfoldable pub first_playable_in_scope :
    List QueueItem → String → ℤ → QueueScope → String → StreamingFilter → Option QueueItem
unfolding first_playable_row
first_playable_in_scope rows room after scope snapshot streaming = first_playable_row streaming (
    sort_by earlier (
      select
        (λ item.
          in_scope room scope snapshot item
          && (playable_status item.status && ltb_ℤ after item.sort_order))
        rows))

unfoldable pub last_playable_before :
    List QueueItem → String → ℤ → QueueScope → String → StreamingFilter → Option QueueItem
unfolding first_playable_row
last_playable_before rows room before scope snapshot streaming = first_playable_row streaming (
    sort_by later (
      select
        (λ item.
          in_scope room scope snapshot item
          && (playable_status item.status && ltb_ℤ item.sort_order before))
        rows))

unfoldable pub get_room_item : List QueueItem → String → String → Option QueueItem
get_room_item rows room id = first (λ item. item.room_id =? room && item.id =? id) rows

-- The row that was deleted, and the table without it.
unfoldable pub delete_room_item :
    List QueueItem → String → String → Option QueueItem × List QueueItem
unfolding get_room_item
delete_room_item rows room id =
    (get_room_item rows room id, select (λ item. not (item.room_id =? room && item.id =? id)) rows)
