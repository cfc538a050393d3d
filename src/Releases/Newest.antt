-- ===== src/Releases/Newest.antt =====
-- internal/releases/releases.go: the versions as an order, and what comes first by it.
use mathlib.Core.List.{Memᴰ}
use gang_chat_server.Base.{
  ℕ, zero, suc, ◌<◌, String, Bool, true, false, List, [], ◌∷◌, Option, none, some, select, ◌≡◌,
  refl, arith, All, All-map, All-select, All-Memᴰ, Bool-cases, inl, inr,
}
use gang_chat_server.Base.Int.{ℤ, pos, ◌<ℤ◌}
use gang_chat_server.Base.Query.{All-select_test, All-select_conv}
use gang_chat_server.Base.Sort.{IsOrder, IsSorted}
use gang_chat_server.Releases.{
  Release, Order, same, place, compare_places, compare_versions, is_greater, newer, list, latest,
}

flip_place :
    (l r : ℤ) (o p : Order)
    → (is_greater o ≡ true → is_greater p ≡ false)
    → is_greater (place l r o) ≡ true
    → is_greater (place r l p) ≡ false
unfolding place
flip_place l r o p h g = ground (arith, h, g)

chain_place :
    (x y z : ℤ) (o p q : Order)
    → (is_greater o ≡ false → is_greater p ≡ false → is_greater q ≡ false)
    → is_greater (place y x o) ≡ false
    → is_greater (place z y p) ≡ false
    → is_greater (place z x q) ≡ false
unfolding place
chain_place x y z o p q h g k = ground (arith, h, g, k)

module _ (split : String → List String) (atoi : String → ℤ) where
  flip_places :
      (xs ys : List String)
      → is_greater (compare_places split atoi xs ys) ≡ true
      → is_greater (compare_places split atoi ys xs) ≡ false
  unfolding compare_places
  flip_places [] [] h = cc
  flip_places [] (y ∷ ys) h = flip_place (pos 0) (atoi y) _ _ (flip_places [] ys) h
  flip_places (x ∷ xs) [] h = flip_place (atoi x) (pos 0) _ _ (flip_places xs []) h
  flip_places (x ∷ xs) (y ∷ ys) h = flip_place (atoi x) (atoi y) _ _ (flip_places xs ys) h

  chain_places :
      (xs ys zs : List String)
      → is_greater (compare_places split atoi ys xs) ≡ false
      → is_greater (compare_places split atoi zs ys) ≡ false
      → is_greater (compare_places split atoi zs xs) ≡ false
  unfolding compare_places
  chain_places [] [] [] h k = h
  chain_places [] [] (z ∷ zs) h k =
      chain_place (pos 0) (pos 0) (atoi z) same _ _ (λ _. chain_places [] [] zs refl) h k
  chain_places [] (y ∷ ys) [] h k = chain_place (pos 0) (atoi y) (pos 0) _ _ same (λ _ _. refl) h k
  chain_places [] (y ∷ ys) (z ∷ zs) h k =
      chain_place (pos 0) (atoi y) (atoi z) _ _ _ (chain_places [] ys zs) h k
  chain_places (x ∷ xs) [] [] h k = h
  chain_places (x ∷ xs) [] (z ∷ zs) h k =
      chain_place (atoi x) (pos 0) (atoi z) _ _ _ (chain_places xs [] zs) h k
  chain_places (x ∷ xs) (y ∷ ys) [] h k =
      chain_place (atoi x) (atoi y) (pos 0) _ _ _ (chain_places xs ys []) h k
  chain_places (x ∷ xs) (y ∷ ys) (z ∷ zs) h k =
      chain_place (atoi x) (atoi y) (atoi z) _ _ _ (chain_places xs ys zs) h k

  pub newer-IsOrder : IsOrder (newer split atoi)
  unfolding newer compare_versions
  newer-IsOrder = record {
    asym = λ x y h. flip_places (split x.version) (split y.version) h;
    neg_trans = λ x y z h k. chain_places (split x.version) (split y.version) (split z.version) h k;
  }

-- The number at a place of a version, zero past its end.
abbrev pub part : (String → ℤ) → ℕ → List String → ℤ
part atoi i [] = pos 0
part atoi zero (x ∷ xs) = atoi x
part atoi (suc i) (x ∷ xs) = part atoi i xs

-- A version is above another: at the first place where they differ its number is greater.
abbrev pub IsAbove : (String → ℤ) → List String → List String → Type 0
IsAbove atoi xs ys =
    (i : ℕ) × (part atoi i ys <ℤ part atoi i xs)
    × ((j : ℕ) → j < i → part atoi j xs ≡ part atoi j ys)

module _ (split : String → List String) (atoi : String → ℤ) where
  place_past :
      (l r : ℤ) (rest : Order) → l ≡ r → is_greater rest ≡ true → is_greater (place l r rest) ≡ true
  unfolding place
  place_past l r rest agree g = ground (arith, agree, g)

  place_greater : (l r : ℤ) (rest : Order) → r <ℤ l → is_greater (place l r rest) ≡ true
  unfolding place
  place_greater l r rest h = ground (arith, h)

  -- The comparison sees that a version is above another.
  above_greater :
      (i : ℕ) (xs ys : List String)
      → part atoi i ys <ℤ part atoi i xs
      → ((j : ℕ) → j < i → part atoi j xs ≡ part atoi j ys)
      → is_greater (compare_places split atoi xs ys) ≡ true
  unfolding compare_places
  above_greater i [] [] h agree = absurd (omega arith)
  above_greater zero [] (y ∷ ys) h agree = place_greater (pos 0) (atoi y) _ h
  above_greater zero (x ∷ xs) [] h agree = place_greater (atoi x) (pos 0) _ h
  above_greater zero (x ∷ xs) (y ∷ ys) h agree = place_greater (atoi x) (atoi y) _ h
  above_greater (suc i) [] (y ∷ ys) h agree =
      place_past (pos 0) (atoi y) _ (agree 0 (omega arith))
        (above_greater i [] ys h (λ j k. agree (suc j) (omega arith)))
  above_greater (suc i) (x ∷ xs) [] h agree =
      place_past (atoi x) (pos 0) _ (agree 0 (omega arith))
        (above_greater i xs [] h (λ j k. agree (suc j) (omega arith)))
  above_greater (suc i) (x ∷ xs) (y ∷ ys) h agree =
      place_past (atoi x) (atoi y) _ (agree 0 (omega arith))
        (above_greater i xs ys h (λ j k. agree (suc j) (omega arith)))

  not_newer :
      (s r : Release)
      → newer split atoi s r ≡ false
      → ¬ IsAbove atoi (split s.version) (split r.version)
  unfolding newer compare_versions
  not_newer s r h (i, more, agree) =
      cc (above_greater i (split s.version) (split r.version) more agree, h)

-- What the newest published release is, told by the rows alone: no release when none is published.
abbrev pub IsNewest : (String → List String) → (String → ℤ) → List Release → Option Release → Type 0
IsNewest split atoi rows none = All (λ s. s.published ≡ false) rows
IsNewest split atoi rows (some r) =
    Memᴰ r rows
    × (r.published ≡ true)
    × All (λ s. s.published ≡ true → ¬ IsAbove atoi (split s.version) (split r.version)) rows

module _ (split : String → List String) (atoi : String → ℤ)
    (sort : (Release → Release → Bool) → List Release → List Release)
    (sorts : (before : Release → Release → Bool) (rows : List Release)
      → IsOrder before
      → IsSorted before (sort before rows))
    (keeps : (before : Release → Release → Bool) (P : Release → Type 0) (rows : List Release)
      → All P rows
      → All P (sort before rows))
    (adds_none : (before : Release → Release → Bool) (P : Release → Type 0) (rows : List Release)
      → All P (sort before rows)
      → All P rows) where
  first-IsNewest :
      (rows sorted : List Release)
      → IsSorted (newer split atoi) sorted
      → All (λ s. Memᴰ s rows) sorted
      → All (λ s. s.published ≡ true) sorted
      → ((P : Release → Type 0) → All P sorted → All (λ s. s.published ≡ true → P s) rows)
      → IsNewest split atoi rows (elim sorted [ [] ↦ none | r ∷ rs ↦ some r ])
  first-IsNewest rows [] s m p c =
      All-map _ _ rows (λ x h. elim (Bool-cases x.published) [ inl t ↦ elim (h t) [ ] | inr f ↦ f ])
        (c (λ _. ⊥) tt)
  first-IsNewest rows (r ∷ rs) s m p c =
      let flipped : newer split atoi r r ≡ false = elim (Bool-cases (newer split atoi r r)) [
        | inl t ↦ (newer-IsOrder split atoi).asym r r t
        | inr f ↦ f
      ] in
      let above = c (λ s. newer split atoi s r ≡ false) (flipped, s.0) in
      (m.0, p.0, All-map _ _ rows (λ s h t. not_newer split atoi s r (h t)) above)

  -- With a sort that puts the rows in the order it is given and neither loses nor adds one, the
  -- latest release is a published row of the table such that no published row has a version above
  -- its own, one whose number at the first place where they differ is greater, and there is none
  -- exactly when no row is published.
  pub latest-IsNewest :
      (rows : List Release) → IsNewest split atoi rows (latest split atoi sort rows)
  unfolding latest list
  latest-IsNewest rows =
      let published = select (λ r. r.published) rows in
      let before = newer split atoi in
      first-IsNewest rows (sort before published)
        (sorts before published (newer-IsOrder split atoi))
        (keeps before _ published (All-select _ _ rows (All-Memᴰ rows)))
        (keeps before _ published (All-select_test _ rows))
        (λ P h. All-select_conv P _ rows (adds_none before P published h))
