-- ===== src/Base/Sort.antt =====
-- Stable insertion sort by a Boolean order: `sort.SliceStable`, and SQL's `ORDER BY`.

use gang_chat_server.Base.{
  Bool, true, false, List, [], ◌∷◌, some, ◌≡◌, arith, if◌then◌else◌, Bool-cases, inl, inr, All,
  All-map, first, subst,
}

module _ {ℓ} {A : Type ℓ} (before : A → A → Bool) where
  pub insert_by : A → List A → List A
  insert_by x [] = x ∷ []
  insert_by x (y ∷ ys) = let later = y ∷ insert_by x ys in if before y x then later else x ∷ y ∷ ys

  unfoldable pub sort_by : List A → List A
  unfolding insert_by
  sort_by [] = []
  sort_by (x ∷ xs) = insert_by x (sort_by xs)

  -- A strict weak order.
  pub record IsOrder : Type ℓ where
    pub asym : (x y : A) → before x y ≡ true → before y x ≡ false
    pub neg_trans : (x y z : A) → before y x ≡ false → before z y ≡ false → before z x ≡ false

  -- No element is before an earlier one.
  abbrev pub IsSorted : List A → Type ℓ
  IsSorted [] = Unit
  IsSorted (x ∷ xs) = All (λ y. before y x ≡ false) xs × IsSorted xs

  All-insert_by {κ} :
      (P : A → Type κ) (x : A) (xs : List A) → P x → All P xs → All P (insert_by x xs)
  unfolding insert_by
  All-insert_by P x [] p h = (p, tt)
  All-insert_by P x (y ∷ ys) p h = elim (Bool-cases (before y x)) [
    | inl e ↦ rw e (h.0, All-insert_by P x ys p h.1)
    | inr e ↦ rw e (p, h)
  ]

  -- What holds of every element before sorting holds of every element after.
  pub All-sort_by {κ} : (P : A → Type κ) (xs : List A) → All P xs → All P (sort_by xs)
  unfolding sort_by
  All-sort_by P [] h = tt
  All-sort_by P (x ∷ xs) h = All-insert_by P x (sort_by xs) h.0 (All-sort_by P xs h.1)

  All-insert_by_conv {κ} :
      (P : A → Type κ) (x : A) (xs : List A) → All P (insert_by x xs) → P x × All P xs
  unfolding insert_by
  All-insert_by_conv P x [] h = h
  All-insert_by_conv P x (y ∷ ys) h = elim (Bool-cases (before y x)) [
    | inl e ↦ let h' = rw e at h in let (p, r) = All-insert_by_conv P x ys h'.1 in (p, (h'.0, r))
    | inr e ↦ rw e at h
  ]

  pub All-sort_by_conv {κ} : (P : A → Type κ) (xs : List A) → All P (sort_by xs) → All P xs
  unfolding sort_by
  All-sort_by_conv P [] h = tt
  All-sort_by_conv P (x ∷ xs) h =
      let (p, r) = All-insert_by_conv P x (sort_by xs) h in (p, All-sort_by_conv P xs r)

  module _ (o : IsOrder) where
    irrefl : (x : A) → before x x ≡ false
    irrefl x = elim (Bool-cases (before x x)) [ inl t ↦ o.asym x x t | inr f ↦ f ]

    insert_by-IsSorted : (x : A) (xs : List A) → IsSorted xs → IsSorted (insert_by x xs)
    unfolding insert_by
    insert_by-IsSorted x [] s = (tt, tt)
    insert_by-IsSorted x (y ∷ ys) s = elim (Bool-cases (before y x)) [
      | inl e ↦ rw e (All-insert_by _ x ys (o.asym y x e) s.0, insert_by-IsSorted x ys s.1)
      | inr e ↦
          let above =
            All-map (λ z. before z y ≡ false) (λ z. before z x ≡ false) ys
              (λ z. o.neg_trans x y z e) s.0 in
          rw e ((e, above), s)
    ]

    pub sort_by-IsSorted : (xs : List A) → IsSorted (sort_by xs)
    unfolding sort_by
    sort_by-IsSorted [] = tt
    sort_by-IsSorted (x ∷ xs) = insert_by-IsSorted x (sort_by xs) (sort_by-IsSorted xs)

    -- The first match in the sorted list has no match before it.
    pub first-minimal :
        (p : A → Bool) (xs : List A) {x : A}
        → IsSorted xs
        → first p xs ≡ some x
        → All (λ y. p y ≡ true → before y x ≡ false) xs
    first-minimal p [] s e = tt
    first-minimal p (y ∷ xs) {x} s e = elim (Bool-cases (p y)) [
      | inl t ↦
          let same : y ≡ x = ground arith in
          let above =
            All-map (λ z. before z y ≡ false) (λ z. p z ≡ true → before z y ≡ false) xs (λ z h _. h)
              s.0 in
          subst (λ w. All (λ z. p z ≡ true → before z w ≡ false) (y ∷ xs)) same
            ((λ _. irrefl y, above))
      | inr f ↦ ((λ t. cc), first-minimal p xs s.1 (rw f at e))
    ]
