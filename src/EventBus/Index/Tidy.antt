-- ===== src/EventBus/Index/Tidy.antt =====
-- internal/eventbus/bus.go: indexes with no empty set, and no connection twice in a set.
use gang_chat_server.Base.{
  ℕ, String, some, List, [], ◌∷◌, ◌≡◌, ◌≢◌, refl, arith, if◌then◌else◌, Bool-cases, Option-cases,
  inl, inr,
}
use gang_chat_server.Base.Eq.{◌=?◌, nat_eq, string_eq}
use gang_chat_server.Base.Dict.{
  lookup, insert, delete, has, add, remove, lookup-insert, lookup-delete, Distinct, add-Distinct,
  remove-Distinct,
}
use gang_chat_server.EventBus.Index.{
  members, enter, leave, leave_all, leave_stale, enter_new, drop_if_empty,
}

-- No set is empty, and none has a member twice.
pub record IsTidy (m : List (String × List ℕ)) : Type 0 where
  pub inhabited : (k : String) → lookup k m ≢ some []
  pub distinct : (k : String) → Distinct (members k m)

members-insert :
    (k j : String) (ids : List ℕ) (m : List (String × List ℕ))
    → members j (insert k ids m) ≡ (if k =? j then ids else members j m)
unfolding members
members-insert k j ids m = ground (arith, lookup-insert k j ids m)

members-delete :
    (k j : String) (m : List (String × List ℕ))
    → members j (delete k m) ≡ (if k =? j then [] else members j m)
unfolding members
members-delete k j m = ground (arith, lookup-delete k j m)

pub empty-IsTidy : IsTidy []
unfolding lookup members
empty-IsTidy = record { inhabited = λ k e. cc; distinct = λ k. tt }

pub insert-IsTidy :
    (k : String) (i : ℕ) (ids : List ℕ) (m : List (String × List ℕ))
    → Distinct (i ∷ ids)
    → IsTidy m
    → IsTidy (insert k (i ∷ ids) m)
insert-IsTidy k i ids m d t = record {
  inhabited = λ j e. ground (arith, t.inhabited j, lookup-insert k j (i ∷ ids) m);
  distinct = λ j. elim (Bool-cases (k =? j)) [
    | inl h ↦ rw (members-insert k j (i ∷ ids) m, h) d
    | inr h ↦ rw (members-insert k j (i ∷ ids) m, h) (t.distinct j)
  ];
}

delete-IsTidy : (k : String) (m : List (String × List ℕ)) → IsTidy m → IsTidy (delete k m)
delete-IsTidy k m t = record {
  inhabited = λ j e. ground (arith, t.inhabited j, lookup-delete k j m);
  distinct = λ j. elim (Bool-cases (k =? j)) [
    | inl h ↦ rw (members-delete k j m, h) tt
    | inr h ↦ rw (members-delete k j m, h) (t.distinct j)
  ];
}

drop_if_empty-IsTidy :
    (k : String) (ids : List ℕ) (m : List (String × List ℕ))
    → Distinct ids
    → IsTidy m
    → IsTidy (drop_if_empty k ids m)
unfolding drop_if_empty
drop_if_empty-IsTidy k [] m d t = delete-IsTidy k m t
drop_if_empty-IsTidy k (i ∷ ids) m d t = insert-IsTidy k i ids m d t

add_cons : (id : ℕ) (ids : List ℕ) → (i : ℕ) × (rest : List ℕ) × (add id ids ≡ i ∷ rest)
unfolding add has
add_cons id [] = (id, [], refl)
add_cons id (x ∷ ids) = elim (Bool-cases (has id (x ∷ ids))) [
  | inl h ↦ (x, ids, rw h)
  | inr h ↦ (id, x ∷ ids, rw h)
]

pub enter-IsTidy :
    (id : ℕ) (k : String) (m : List (String × List ℕ)) → IsTidy m → IsTidy (enter id k m)
unfolding enter
enter-IsTidy id k m t =
    let (i, rest, e) = add_cons id (members k m) in
    rw e (insert-IsTidy k i rest m (rw e at (add-Distinct id (members k m) (t.distinct k))) t)

pub leave-IsTidy :
    (id : ℕ) (k : String) (m : List (String × List ℕ)) → IsTidy m → IsTidy (leave id k m)
unfolding leave
leave-IsTidy id k m t = elim (Option-cases (lookup k m)) [
  | inl e ↦ rw (e, leave) t
  | inr (ids, e) ↦
      let d : Distinct ids = unfold members in rw (e, members) at (t.distinct k) in
      rw (e, leave) (drop_if_empty-IsTidy k (remove id ids) m (remove-Distinct id ids d) t)
]

pub leave_all-IsTidy :
    (id : ℕ) (rs : List String) (m : List (String × List ℕ)) → IsTidy m → IsTidy (leave_all id rs m)
unfolding leave_all
leave_all-IsTidy id [] m t = t
leave_all-IsTidy id (r ∷ rs) m t = leave_all-IsTidy id rs (leave id r m) (leave-IsTidy id r m t)

pub leave_stale-IsTidy :
    (id : ℕ) (next rs : List String) (m : List (String × List ℕ))
    → IsTidy m
    → IsTidy (leave_stale id next rs m)
unfolding leave_stale
leave_stale-IsTidy id next [] m t = t
leave_stale-IsTidy id next (r ∷ rs) m t = elim (Bool-cases (has r next)) [
  | inl h ↦ rw h (leave_stale-IsTidy id next rs m t)
  | inr h ↦ rw h (leave_stale-IsTidy id next rs (leave id r m) (leave-IsTidy id r m t))
]

pub enter_new-IsTidy :
    (id : ℕ) (had rs : List String) (m : List (String × List ℕ))
    → IsTidy m
    → IsTidy (enter_new id had rs m)
unfolding enter_new
enter_new-IsTidy id had [] m t = t
enter_new-IsTidy id had (r ∷ rs) m t = elim (Bool-cases (has r had)) [
  | inl h ↦ rw h (enter_new-IsTidy id had rs m t)
  | inr h ↦ rw h (enter_new-IsTidy id had rs (enter id r m) (enter-IsTidy id r m t))
]
