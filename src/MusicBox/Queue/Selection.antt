-- ===== src/MusicBox/Queue/Selection.antt =====
-- internal/musicbox/store.go: what the playable-row queries return.
use mathlib.Core.List.{Memᴰ}
use gang_chat_server.Base.{
  String, Bool, true, false, ◌&&◌, ◌||◌, List, Option, none, some, ◌≡◌, arith, Option-cases, inl,
  inr,
}
use gang_chat_server.Base.Eq.{string_eq}
use gang_chat_server.Base.Int.{ℤ, ltb_ℤ, ◌<ℤ◌, ◌≤ℤ◌}
use gang_chat_server.Base.Query.{best-some, best-minimal, best-none}
use gang_chat_server.Base.Sort.{IsOrder}
use gang_chat_server.MusicBox.Types.{QueueScope, QueueItem, is_ready}
use gang_chat_server.MusicBox.Queue.{
  in_scope, earlier, later, StreamingFilter, playable_status, first_playable_in_scope,
  last_playable_before,
}

earlier-IsOrder : IsOrder earlier
unfolding earlier
earlier-IsOrder = record { asym = λ x y h. ground arith; neg_trans = λ x y z h k. ground arith }

later-IsOrder : IsOrder later
unfolding later earlier
later-IsOrder = record { asym = λ x y h. ground arith; neg_trans = λ x y z h k. ground arith }

-- What makes a row a candidate: it is of the queue in scope, its audio is prepared or streamable,
-- and its place passes the caller's bound.
pub record IsCandidate (room : String) (scope : QueueScope) (snapshot : String)
    (streaming : StreamingFilter) (item : QueueItem) : Type 0 where
  pub scoped : in_scope room scope snapshot item ≡ true
  pub prepared : playable_status item.status ≡ true
  pub playable : (is_ready item.status || streaming item) ≡ true

module _ (rows : List QueueItem) (room : String) (scope : QueueScope) (snapshot : String)
    (streaming : StreamingFilter) where
  after_place : ℤ → QueueItem → Bool
  after_place after i =
      in_scope room scope snapshot i && (playable_status i.status && ltb_ℤ after i.sort_order)

  before_place : ℤ → QueueItem → Bool
  before_place before i =
      in_scope room scope snapshot i && (playable_status i.status && ltb_ℤ i.sort_order before)

  accepted : QueueItem → Bool
  accepted i = is_ready i.status || streaming i

  -- The next row after a place, where there is one, is a row of the table, playable and of the
  -- queue in scope, and stands behind that place.
  pub first_playable_in_scope-some :
      (after : ℤ) {item : QueueItem}
      → first_playable_in_scope rows room after scope snapshot streaming ≡ some item
      → Memᴰ item rows × IsCandidate room scope snapshot streaming item × (after <ℤ item.sort_order)
  unfolding first_playable_in_scope after_place accepted
  first_playable_in_scope-some after e =
      let (m, w, a) = best-some earlier (after_place after) accepted rows e in
      (m, record { scoped = ground arith; prepared = ground arith; playable = a }, ground arith)

  -- No other playable row of the queue in scope that stands behind the place comes before the next
  -- row that is found.
  pub first_playable_in_scope_least :
      (after : ℤ) {item : QueueItem} (other : QueueItem)
      → first_playable_in_scope rows room after scope snapshot streaming ≡ some item
      → Memᴰ other rows
      → IsCandidate room scope snapshot streaming other
      → after <ℤ other.sort_order
      → earlier other item ≡ false
  unfolding first_playable_in_scope after_place accepted
  first_playable_in_scope_least after other e m c lt =
      best-minimal earlier (after_place after) accepted rows earlier-IsOrder e other m
        (ground (arith, c.scoped, c.prepared)) c.playable

  -- Where no next row is found after a place, every playable row of the queue in scope stands at
  -- that place or before it.
  pub first_playable_in_scope-none :
      (after : ℤ) (other : QueueItem)
      → first_playable_in_scope rows room after scope snapshot streaming ≡ none
      → Memᴰ other rows
      → IsCandidate room scope snapshot streaming other
      → other.sort_order ≤ℤ after
  unfolding first_playable_in_scope after_place accepted
  first_playable_in_scope-none after other e m c = ground (
    arith,
    c.scoped,
    c.prepared,
    c.playable,
    best-none earlier (after_place after) accepted rows e other m,
  )

  -- The previous row before a place, where there is one, is a row of the table, playable and of
  -- the queue in scope, and stands before that place.
  pub last_playable_before-some :
      (before : ℤ) {item : QueueItem}
      → last_playable_before rows room before scope snapshot streaming ≡ some item
      → Memᴰ item rows
        × IsCandidate room scope snapshot streaming item
        × (item.sort_order <ℤ before)
  unfolding last_playable_before before_place accepted
  last_playable_before-some before e =
      let (m, w, a) = best-some later (before_place before) accepted rows e in
      (m, record { scoped = ground arith; prepared = ground arith; playable = a }, ground arith)

  -- No other playable row of the queue in scope that stands before the place comes after the
  -- previous row that is found.
  pub last_playable_before_greatest :
      (before : ℤ) {item : QueueItem} (other : QueueItem)
      → last_playable_before rows room before scope snapshot streaming ≡ some item
      → Memᴰ other rows
      → IsCandidate room scope snapshot streaming other
      → other.sort_order <ℤ before
      → earlier item other ≡ false
  unfolding last_playable_before before_place accepted later
  last_playable_before_greatest before other e m c lt =
      best-minimal later (before_place before) accepted rows later-IsOrder e other m
        (ground (arith, c.scoped, c.prepared)) c.playable

  -- What a query for the next row promises.
  abbrev pub IsNext : ℤ → Option QueueItem → Type 0
  IsNext after none =
      (other : QueueItem)
      → Memᴰ other rows
      → IsCandidate room scope snapshot streaming other
      → other.sort_order ≤ℤ after
  IsNext after (some item) =
      Memᴰ item rows
      × IsCandidate room scope snapshot streaming item
      × (after <ℤ item.sort_order)
      × ((other : QueueItem)
          → Memᴰ other rows
          → IsCandidate room scope snapshot streaming other
          → after <ℤ other.sort_order
          → earlier other item ≡ false)

  -- What a query for the previous row promises.
  abbrev pub IsPrevious : ℤ → Option QueueItem → Type 0
  IsPrevious before none =
      (other : QueueItem)
      → Memᴰ other rows
      → IsCandidate room scope snapshot streaming other
      → before ≤ℤ other.sort_order
  IsPrevious before (some item) =
      Memᴰ item rows
      × IsCandidate room scope snapshot streaming item
      × (item.sort_order <ℤ before)
      × ((other : QueueItem)
          → Memᴰ other rows
          → IsCandidate room scope snapshot streaming other
          → other.sort_order <ℤ before
          → earlier item other ≡ false)

  last_playable_before-none :
      (before : ℤ) (other : QueueItem)
      → last_playable_before rows room before scope snapshot streaming ≡ none
      → Memᴰ other rows
      → IsCandidate room scope snapshot streaming other
      → before ≤ℤ other.sort_order
  unfolding last_playable_before before_place accepted
  last_playable_before-none before other e m c = ground (
    arith,
    c.scoped,
    c.prepared,
    c.playable,
    best-none later (before_place before) accepted rows e other m,
  )

  -- The query for the row behind a place does what a query for the next row promises: a row that
  -- it finds is of the table, playable and of the queue in scope, stands behind the place, and no
  -- other such row comes before it; where it finds none, every playable row of the queue in scope
  -- stands at the place or before it.
  pub first_playable_in_scope-IsNext :
      (after : ℤ) → IsNext after (first_playable_in_scope rows room after scope snapshot streaming)
  first_playable_in_scope-IsNext after =
      elim (Option-cases (first_playable_in_scope rows room after scope snapshot streaming)) [
        | inl e ↦ rw e (λ other. first_playable_in_scope-none after other e)
        | inr (item, e) ↦
            let (m, c, lt) = first_playable_in_scope-some after e in
            rw e (m, c, lt, λ other. first_playable_in_scope_least after other e)
      ]

  -- The query for the row before a place does what a query for the previous row promises: a row
  -- that it finds is of the table, playable and of the queue in scope, stands before the place,
  -- and no other such row comes after it; where it finds none, every playable row of the queue in
  -- scope stands at the place or behind it.
  pub last_playable_before-IsPrevious :
      (before : ℤ)
      → IsPrevious before (last_playable_before rows room before scope snapshot streaming)
  last_playable_before-IsPrevious before =
      elim (Option-cases (last_playable_before rows room before scope snapshot streaming)) [
        | inl e ↦ rw e (λ other. last_playable_before-none before other e)
        | inr (item, e) ↦
            let (m, c, lt) = last_playable_before-some before e in
            rw e (m, c, lt, λ other. last_playable_before_greatest before other e)
      ]
