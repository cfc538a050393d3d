-- ===== src/MusicBox/Advance/Shuffle.antt =====
-- internal/musicbox/manager.go: the shuffle branch of `nextItem` tours the playable rows.
use native.Mathlib.Nat.{mod-lt, mod-eq_of_lt}
use gang_chat_server.Base.{
  ℕ, zero, suc, ◌+◌, ◌-◌, ◌%◌, ◌<◌, String, true, List, [], ◌∷◌, map, none, some, length, get_elem?,
  get_elem?-lt, lt_of_get_elem?, ap, sym, ◌∙◌, ◌≡◌, ◌≢◌, arith,
}
use gang_chat_server.Base.Eq.{=?_refl, string_eq}
use gang_chat_server.Base.Dict.{has, Distinct}
use gang_chat_server.MusicBox.Types.{QueueItem}
use gang_chat_server.MusicBox.Advance.{
  Transition, natural, next, previous, index_of, shuffle_pick, shuffle_choose,
}

abbrev pub ids : List QueueItem → List String
ids = map (λ i. i.id)

has-ids :
    (order : List QueueItem) (i : ℕ) {x : QueueItem}
    → get_elem? order i ≡ some x
    → has x.id (ids order) ≡ true
unfolding has
has-ids [] i e = cc
has-ids (y ∷ order) zero {x} e = ground (arith, =?_refl x.id)
has-ids (y ∷ order) (suc i) {x} e = ground (arith, has-ids order i e)

-- With distinct ids, the index of the row at an index is that index.
index_of-get_elem? :
    (order : List QueueItem) (k i : ℕ) {x : QueueItem}
    → Distinct (ids order)
    → get_elem? order i ≡ some x
    → index_of x.id k order ≡ k + i
unfolding index_of
index_of-get_elem? [] k i d e = cc
index_of-get_elem? (y ∷ order) k zero {x} d e = ground (arith, =?_refl x.id)
index_of-get_elem? (y ∷ order) k (suc i) {x} d e = ground (
  arith,
  has-ids order i e,
  string_eq.beq_iff y.id x.id,
  index_of-get_elem? order (suc k) i d.1 e,
)

wrap_back : (i n : ℕ) → i < n → ((i + 1) % n + n - 1) % n ≡ i
wrap_back i n h = grind (arith, mod-eq_of_lt, mod-lt)

-- The shuffle branch never leaves its list: it picks a row whenever one is playable, whether or not
-- the track before is still among them.
pub shuffle_choose-in_range :
    (transition : Transition) (prev x : QueueItem) (order : List QueueItem)
    → shuffle_choose transition prev (x ∷ order) ≢ none
unfolding shuffle_choose shuffle_pick
shuffle_choose-in_range natural prev x order = get_elem?-lt (x ∷ order) _ (mod-lt _ (omega arith))
shuffle_choose-in_range next prev x order = get_elem?-lt (x ∷ order) _ (mod-lt _ (omega arith))
shuffle_choose-in_range previous prev x order = get_elem?-lt (x ∷ order) _ (mod-lt _ (omega arith))

choose_at :
    (transition : Transition) (prev : QueueItem) (order : List QueueItem) (i : ℕ)
    → Distinct (ids order)
    → get_elem? order i ≡ some prev
    → shuffle_choose transition prev order ≡ shuffle_pick transition i order
unfolding shuffle_choose
choose_at transition prev [] i d at = cc
choose_at transition prev (x ∷ order) i d at =
    rw (index_of-get_elem? (x ∷ order) 0 i d at)
      (ap (λ j. shuffle_pick transition j (x ∷ order)) (omega arith))

-- In a shuffle order whose rows have different ids, going back from the row that came next after
-- one at an index gives that one again.
pub shuffle_choose-previous_next :
    (order : List QueueItem) (i : ℕ) {prev item : QueueItem}
    → Distinct (ids order)
    → get_elem? order i ≡ some prev
    → shuffle_choose next prev order ≡ some item
    → shuffle_choose previous item order ≡ some prev
shuffle_choose-previous_next order i {prev} {item} d at e =
    let led : get_elem? order ((i + 1) % length order) ≡ some item =
      unfold shuffle_pick in (sym (choose_at next prev order i d at) ∙ e) in
    choose_at previous item order ((i + 1) % length order) d led
    ∙ unfold shuffle_pick in rw (wrap_back i (length order) (lt_of_get_elem? order i at)) at
