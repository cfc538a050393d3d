-- ===== src/Base/Query.antt =====
-- A query for one row: WHERE a test, ORDER BY an order, and the first row that the caller accepts.
use mathlib.Core.List.{Memᴰ}
use gang_chat_server.Base.{
  Bool, true, false, List, [], ◌∷◌, Option, none, some, ◌≡◌, Bool-cases, inl, inr, All, All-Memᴰ,
  All→Memᴰ, All-select, first-some, first-none, first, select,
}
use gang_chat_server.Base.Sort.{
  sort_by, IsOrder, sort_by-IsSorted, first-minimal, All-sort_by, All-sort_by_conv,
}

module _ {ℓ} {A : Type ℓ} where
  pub All-select_test : (p : A → Bool) (xs : List A) → All (λ x. p x ≡ true) (select p xs)
  All-select_test p [] = tt
  All-select_test p (x ∷ xs) = elim (Bool-cases (p x)) [
    | inl t ↦ rw t (t, All-select_test p xs)
    | inr f ↦ rw f (All-select_test p xs)
  ]

  pub All-select_conv {κ} :
      (P : A → Type κ) (p : A → Bool) (xs : List A)
      → All P (select p xs)
      → All (λ x. p x ≡ true → P x) xs
  All-select_conv P p [] h = tt
  All-select_conv P p (x ∷ xs) h = elim (Bool-cases (p x)) [
    | inl t ↦ let h' = rw t at h in ((λ _. h'.0), All-select_conv P p xs h'.1)
    | inr f ↦ ((λ t. cc), All-select_conv P p xs (rw f at h))
  ]

  pub All-both {κ μ} :
      (P : A → Type κ) (Q : A → Type μ) (xs : List A)
      → All P xs
      → All Q xs
      → All (λ x. P x × Q x) xs
  All-both P Q [] h k = tt
  All-both P Q (x ∷ xs) h k = ((h.0, k.0), All-both P Q xs h.1 k.1)

  module _ (before : A → A → Bool) (where_ accept : A → Bool) (rows : List A) where
    abbrev pub best : Option A
    best = first accept (sort_by before (select where_ rows))

    pub best-some : {x : A} → best ≡ some x → Memᴰ x rows × (where_ x ≡ true) × (accept x ≡ true)
    best-some {x} e =
        let both =
          All-both (λ y. Memᴰ y rows) (λ y. where_ y ≡ true) (select where_ rows)
            (All-select (λ y. Memᴰ y rows) where_ rows (All-Memᴰ rows))
            (All-select_test where_ rows) in
        let (a, m) =
          first-some (λ y. Memᴰ y rows × (where_ y ≡ true)) accept
            (sort_by before (select where_ rows)) (All-sort_by before _ (select where_ rows) both)
            e in
        (m.0, m.1, a)

    -- No accepted row that meets the test is before the one returned.
    pub best-minimal :
        IsOrder before
        → {x : A} → best ≡ some x
        → (y : A) → Memᴰ y rows
        → where_ y ≡ true
        → accept y ≡ true
        → before y x ≡ false
    best-minimal o {x} e y m =
        All→Memᴰ (λ z. where_ z ≡ true → accept z ≡ true → before z x ≡ false) rows
          (All-select_conv _ where_ rows (
            All-sort_by_conv before _ (select where_ rows)
              (first-minimal before o accept _ (sort_by-IsSorted before o (select where_ rows)) e)))
          m

    pub best-none : best ≡ none → (y : A) → Memᴰ y rows → where_ y ≡ true → accept y ≡ false
    best-none e y m =
        All→Memᴰ (λ z. where_ z ≡ true → accept z ≡ false) rows
          (All-select_conv _ where_ rows (
            All-sort_by_conv before _ (select where_ rows)
              (first-none accept (sort_by before (select where_ rows)) e)))
          m
