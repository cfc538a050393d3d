-- ===== src/MusicBox/Prefetch/Window.antt =====
-- internal/musicbox/media_cache.go, `prefetchWindow`: the window as a list operation.
use gang_chat_server.Base.{
  ℕ, zero, suc, ◌+◌, ◌-◌, ◌%◌, ◌≤◌, ◌<◌, String, Bool, true, false, if◌then◌else◌, not, List, [],
  ◌∷◌, ◌++◌, none, some, ltb, length, get_elem?, take, drop, select, ◌≡◌, refl, sym, ap, ◌∙◌, arith,
  Bool-cases, Option-cases, inl, inr, ltb→lt, take_nil, length-drop, length-append, length-take,
  get_elem?-append_left, get_elem?-append_right, get_elem?-drop, get_elem?-take, get_elem?-nil,
}
use gang_chat_server.Base.Eq.{◌=?◌, string_eq}
use native.Mathlib.Nat.{mod-eq_of_lt, mod-lt}
use gang_chat_server.Base.Int.{ℤ, ltb_ℤ}
use gang_chat_server.MusicBox.Types.{QueueItem, PlaybackMode, is_failed}
use gang_chat_server.MusicBox.Prefetch.{
  row_at, collect, window_of, current_index, first_index, start_index, wraps,
}

-- The rows that can be played or may become so.
abbrev pub may_play : QueueItem → Bool
may_play item = not (is_failed item.status)

-- The rows in the order in which they play from one on.
abbrev pub from_index : List QueueItem → Bool → ℕ → List QueueItem
from_index ordered wrap start = drop start ordered ++ (if wrap then take start ordered else [])

-- The loop takes what may play of the rows that it goes by.
collect-take :
    (ordered : List QueueItem) (wrap : Bool) (start left offset free : ℕ) (rows : List QueueItem)
    → length rows ≤ left
    → ((i : ℕ) → i < left → row_at ordered wrap start (offset + i) ≡ get_elem? rows i)
    → collect ordered wrap start left offset free ≡ take free (select may_play rows)
unfolding collect
collect-take ordered wrap start zero offset free [] h same = sym (take_nil free)
collect-take ordered wrap start zero offset free (x ∷ rows) h same = ground arith
collect-take ordered wrap start (suc left) offset zero rows h same = ground arith
collect-take ordered wrap start (suc left) offset (suc free) [] h same =
    let e : row_at ordered wrap start offset ≡ none =
      ap (λ k. row_at ordered wrap start k) (omega arith) ∙ same 0 (omega arith) in
    rw (e, collect) refl
collect-take ordered wrap start (suc left) offset (suc free) (x ∷ rows) h same =
    let e : row_at ordered wrap start offset ≡ some x =
      ap (λ k. row_at ordered wrap start k) (omega arith) ∙ same 0 (omega arith) in
    let next : (i : ℕ) → i < left → row_at ordered wrap start (suc offset + i) ≡ get_elem? rows i =
      λ i k. ap (λ j. row_at ordered wrap start j) (omega arith) ∙ same (suc i) (omega arith) in
    rw (e, collect)
      (elim (Bool-cases (is_failed x.status)) [
        | inl bad ↦
            rw bad
              (collect-take ordered wrap start left (suc offset) (suc free) rows (omega arith) next)
        | inr good ↦ rw good (
            ap (◌∷◌ x)
              (collect-take ordered wrap start left (suc offset) free rows (omega arith) next))
      ])

wrapped : (start i n : ℕ) → start < n → i < n → n ≤ start + i → (start + i) % n ≡ start + i - n
wrapped start i n h k l = grind (arith, mod-eq_of_lt, mod-lt)

row_at-from_index :
    (ordered : List QueueItem) (wrap : Bool) (start i : ℕ)
    → start < length ordered
    → i < length ordered
    → row_at ordered wrap start i ≡ get_elem? (from_index ordered wrap start) i
unfolding row_at
row_at-from_index ordered wrap start i h k = elim (Bool-cases (ltb (start + i) (length ordered))) [
  | inl before ↦ rw before (
      sym (
        get_elem?-append_left (drop start ordered) _ i
          (omega (arith, length-drop start ordered, ltb→lt (start + i) (length ordered) before))
        ∙ get_elem?-drop start ordered i))
  | inr past ↦ rw past (behind wrap (ground arith))
]
  where
    behind :
        (w : Bool)
        → length ordered ≤ start + i
        → (if w then get_elem? ordered ((start + i) % length ordered) else none)
          ≡ get_elem? (from_index ordered w start) i
    behind true l =
        let at : length (drop start ordered) + (start + i - length ordered) ≡ i =
          omega (arith, length-drop start ordered) in
        ap (get_elem? ordered) (wrapped start i (length ordered) h k l)
        ∙ sym (get_elem?-take start ordered (start + i - length ordered) (omega arith))
        ∙ sym (
            get_elem?-append_right (drop start ordered) (take start ordered)
              (start + i - length ordered))
        ∙ ap (get_elem? (from_index ordered true start)) at
    behind false l = sym (
        get_elem?-nil (drop start ordered ++ []) i
          (omega (arith, length-append (drop start ordered) [], length-drop start ordered)))

from_index-length :
    (ordered : List QueueItem) (wrap : Bool) (start : ℕ)
    → start < length ordered
    → length (from_index ordered wrap start) ≤ length ordered
from_index-length ordered true start h = omega (
  arith,
  length-append (drop start ordered) (take start ordered),
  length-drop start ordered,
  length-take start ordered,
)
from_index-length ordered false start h =
    omega (arith, length-append {A = QueueItem} (drop start ordered) [], length-drop start ordered)

first_index-bound :
    (p : QueueItem → Bool) (n : ℕ) (items : List QueueItem) (i : ℕ)
    → first_index p n items ≡ some i
    → i < n + length items
unfolding first_index
first_index-bound p n [] i = λ e. cc
first_index-bound p n (item ∷ items) i = elim (Bool-cases (p item)) [
  | inl e ↦ rw e (λ f. let same : n ≡ i = cc in omega arith)
  | inr e ↦ rw e (λ f. omega (arith, first_index-bound p (suc n) items i f))
]

current_index-bound :
    (ordered : List QueueItem) (current : String) (i : ℕ)
    → current_index ordered current ≡ some i
    → i < length ordered
unfolding current_index
current_index-bound ordered current i = elim (Bool-cases (current =? "")) [
  | inl e ↦ rw e (λ f. cc)
  | inr e ↦ rw e (λ f. omega (arith, first_index-bound (λ item. item.id =? current) 0 ordered i f))
]

start_index-bound :
    (ordered : List QueueItem) (current : String) (after : ℤ) (mode : PlaybackMode) (i : ℕ)
    → 0 < length ordered
    → start_index ordered current after mode ≡ some i
    → i < length ordered
unfolding start_index
start_index-bound ordered current after mode i h =
    elim (Option-cases (current_index ordered current)) [
      | inr (j, e) ↦
          rw (e, start_index)
            (λ f. omega (arith, same j i f, current_index-bound ordered current j e))
      | inl e ↦ elim (Option-cases (first_index (λ item. ltb_ℤ after item.sort_order) 0 ordered)) [
        | inr (j, g) ↦
            rw (e, g, start_index)
              (λ f. omega (
                arith,
                same j i f,
                first_index-bound (λ item. ltb_ℤ after item.sort_order) 0 ordered j g,
              ))
        | inl g ↦
            rw (e, g, start_index)
              (elim (Bool-cases (wraps mode)) [
                | inl w ↦ rw w (λ f. omega (arith, same 0 i f))
                | inr w ↦ rw w (λ f. cc)
              ])
      ]
    ]
  where
    same : (j i : ℕ) → some j ≡ some i → j ≡ i
    same j i f = cc

-- Where the loop that collects the prefetch window has a start in a queue that is not empty, it
-- gives the first rows, as many as the limit, of those that have not failed in the order in which
-- they play from the start on, round the end of the queue in the modes that repeat.
pub window_of-take :
    (ordered : List QueueItem) (current : String) (after : ℤ) (mode : PlaybackMode)
    (limit start : ℕ)
    → 0 < length ordered
    → start_index ordered current after mode ≡ some start
    → window_of ordered current after mode limit
      ≡ take limit (select may_play (from_index ordered (wraps mode) start))
unfolding window_of
window_of-take ordered current after mode limit start h e =
    let bound = start_index-bound ordered current after mode start h e in
    rw (e, window_of)
      (collect-take ordered (wraps mode) start (length ordered) 0 limit
        (from_index ordered (wraps mode) start) (from_index-length ordered (wraps mode) start bound)
        (λ i k.
          ap (row_at ordered (wraps mode) start) (omega arith)
          ∙ row_at-from_index ordered (wraps mode) start i bound k))
