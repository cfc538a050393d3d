-- ===== src/MusicBox/Prefetch.antt =====
-- internal/musicbox/media_cache.go, `prefetchWindow`: which rows are downloaded ahead of playback.
-- `rank` is `musicBoxShuffleRank`: the FNV hash of Go's library over the room's and the row's id.
mod Tests
pub mod Window
use gang_chat_server.Base.{
  ℕ, zero, suc, ◌+◌, ◌-◌, ◌%◌, String, Bool, true, false, if◌then◌else◌, ◌||◌, not, List, [], ◌∷◌,
  Option, none, some, ltb, leb, length, get_elem?,
}
use gang_chat_server.Base.Eq.{◌=?◌, string_eq}
use gang_chat_server.Base.Int.{ℤ, ltb_ℤ}
use gang_chat_server.Base.Sort.{sort_by}
use gang_chat_server.MusicBox.Types.{
  QueueItem, PlaybackMode, is_ready, is_pending, is_failed, is_shuffle, is_repeat_all,
}

-- The index of the first row that passes a test.
unfoldable pub first_index : (QueueItem → Bool) → ℕ → List QueueItem → Option ℕ
first_index p i [] = none
first_index p i (item ∷ items) = if p item then some i else first_index p (suc i) items

abbrev pub wraps : PlaybackMode → Bool
wraps mode = is_repeat_all mode || is_shuffle mode

unfoldable pub current_index : List QueueItem → String → Option ℕ
unfolding first_index
current_index ordered current =
    if current =? "" then none else first_index (λ item. item.id =? current) 0 ordered

unfoldable pub start_index : List QueueItem → String → ℤ → PlaybackMode → Option ℕ
unfolding current_index first_index
start_index ordered current after mode = elim (current_index ordered current) [
  | some i ↦ some i
  | none ↦ elim (first_index (λ item. ltb_ℤ after item.sort_order) 0 ordered) [
    | some i ↦ some i
    | none ↦ if wraps mode then some 0 else none
  ]
]

-- The row that the loop is at after some rows; `none` where it breaks.
unfoldable pub row_at : List QueueItem → Bool → ℕ → ℕ → Option QueueItem
row_at ordered wrap start offset =
    let index = start + offset in
    if ltb index (length ordered)
    then get_elem? ordered index
    else if wrap
    then get_elem? ordered (index % length ordered)
    else none

-- `left` rows are left to the loop, `free` places to the window.
unfoldable pub collect : List QueueItem → Bool → ℕ → ℕ → ℕ → ℕ → List QueueItem
unfolding row_at
collect ordered wrap start zero offset free = []
collect ordered wrap start (suc left) offset zero = []
collect ordered wrap start (suc left) offset (suc free) =
    let skipped = collect ordered wrap start left (suc offset) (suc free) in
    let taken = collect ordered wrap start left (suc offset) free in
    elim (row_at ordered wrap start offset) [
      | none ↦ []
      | some item ↦ if is_failed item.status then skipped else item ∷ taken
    ]

unfoldable pub window_of : List QueueItem → String → ℤ → PlaybackMode → ℕ → List QueueItem
unfolding start_index collect
window_of ordered current after mode limit = elim (start_index ordered current after mode) [
  | none ↦ []
  | some start ↦ collect ordered (wraps mode) start (length ordered) 0 limit
]

module _ (rank : String → String → ℕ) where
  unfoldable pub prefetch_order : List QueueItem → PlaybackMode → String → List QueueItem
  prefetch_order items mode room =
      if is_shuffle mode
      then sort_by (λ a b. ltb (rank room a.id) (rank room b.id)) items
      else items

  unfoldable pub prefetch_window :
      List QueueItem → String → ℤ → PlaybackMode → String → ℕ → List QueueItem
  unfolding prefetch_order window_of
  prefetch_window items current after mode room limit =
      if leb limit 0 || leb (length items) 0
      then []
      else window_of (prefetch_order items mode room) current after mode limit

unfoldable pub prepared_bytes : List QueueItem → ℕ
prepared_bytes [] = 0
prepared_bytes (item ∷ window) =
    if is_ready item.status
    then item.file_size_bytes + prepared_bytes window
    else prepared_bytes window

unfoldable pub first_pending_item : List QueueItem → Option QueueItem
first_pending_item [] = none
first_pending_item (item ∷ window) =
    if is_pending item.status then some item else first_pending_item window
