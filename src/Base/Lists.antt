-- ===== src/Base/Lists.antt =====
-- Lists measured and indexed by native numbers, under the library's names.
use Prim.Native.Nat.{ℕ, zero, suc, ◌+◌, ◌-◌, ◌≤◌, ◌<◌, min}
use mathlib.Core.Path.{◌≡◌, refl, subst, sym, ap, ◌∙◌}
use mathlib.Core.Bool.{Bool, true, false}
use mathlib.Core.Logic.{inl, inr, ◌≢◌}
use mathlib.Core.List.{List, [], ◌∷◌, ◌++◌, Memᴰ}
use mathlib.Core.Option.{Option, none, some}
use native.Mathlib.Omega.{arith}
use gang_chat_server.Base.Tests.{if◌then◌else◌, Bool-cases}

module _ {ℓ} {A : Type ℓ} where
  abbrev pub length : List A → ℕ
  length [] = 0
  length (x ∷ xs) = suc (length xs)

  abbrev pub get_elem? : List A → ℕ → Option A
  get_elem? [] i = none
  get_elem? (x ∷ xs) zero = some x
  get_elem? (x ∷ xs) (suc i) = get_elem? xs i

  abbrev pub take : ℕ → List A → List A
  take zero xs = []
  take (suc n) [] = []
  take (suc n) (x ∷ xs) = x ∷ take n xs

  abbrev pub drop : ℕ → List A → List A
  drop zero xs = xs
  drop (suc n) [] = []
  drop (suc n) (x ∷ xs) = drop n xs

  pub length-append : (xs ys : List A) → length (xs ++ ys) ≡ length xs + length ys
  length-append [] ys = omega arith
  length-append (x ∷ xs) ys = omega (arith, length-append xs ys)

module _ {ℓ} {A : Type ℓ} where
  pub length-take : (n : ℕ) (xs : List A) → length (take n xs) ≡ min n (length xs)
  length-take zero xs = omega arith
  length-take (suc n) [] = omega arith
  length-take (suc n) (x ∷ xs) = omega (arith, length-take n xs)

  pub length-drop : (n : ℕ) (xs : List A) → length (drop n xs) ≡ length xs - n
  length-drop zero xs = omega arith
  length-drop (suc n) [] = omega arith
  length-drop (suc n) (x ∷ xs) = omega (arith, length-drop n xs)

  pub take-append-drop : (n : ℕ) (xs : List A) → take n xs ++ drop n xs ≡ xs
  take-append-drop zero xs = refl
  take-append-drop (suc n) [] = refl
  take-append-drop (suc n) (x ∷ xs) = rw (take-append-drop n xs)

  -- The elements that pass a Boolean test, in their order.
  abbrev pub select : (A → Bool) → List A → List A
  select p [] = []
  select p (x ∷ xs) = if p x then x ∷ select p xs else select p xs

  pub length-select-le : (p : A → Bool) (xs : List A) → length (select p xs) ≤ length xs
  length-select-le p [] = omega arith
  length-select-le p (x ∷ xs) = ground (arith, length-select-le p xs)

  -- The first element that passes a Boolean test.
  abbrev pub first : (A → Bool) → List A → Option A
  first p [] = none
  first p (x ∷ xs) = if p x then some x else first p xs

  -- Every element satisfies a predicate.
  abbrev pub All {κ} : (A → Type κ) → List A → Type κ
  All P [] = Unit
  All P (x ∷ xs) = P x × All P xs

  pub All-append {κ} : (P : A → Type κ) (xs ys : List A) → All P xs → All P ys → All P (xs ++ ys)
  All-append P [] ys hx hy = hy
  All-append P (x ∷ xs) ys hx hy = (hx.0, All-append P xs ys hx.1 hy)

  pub All-split {κ} : (P : A → Type κ) (xs ys : List A) → All P (xs ++ ys) → All P xs × All P ys
  All-split P [] ys h = (tt, h)
  All-split P (x ∷ xs) ys h = let (p, q) = All-split P xs ys h.1 in ((h.0, p), q)

  pub All-select {κ} :
      (P : A → Type κ) (p : A → Bool) (xs : List A) → All P xs → All P (select p xs)
  All-select P p [] h = tt
  All-select P p (x ∷ xs) h = ground (arith, All-select P p xs h.1)

  pub All-map {κ μ} :
      (P : A → Type κ) (Q : A → Type μ) (xs : List A) → ((x : A) → P x → Q x) → All P xs → All Q xs
  All-map P Q [] f h = tt
  All-map P Q (x ∷ xs) f h = (f x h.0, All-map P Q xs f h.1)

  -- Every element of a list is a member of it.
  pub All-Memᴰ : (xs : List A) → All (λ x. Memᴰ x xs) xs
  All-Memᴰ [] = tt
  All-Memᴰ (x ∷ xs) = (
    Memᴰ.head refl,
    All-map (λ y. Memᴰ y xs) (λ y. Memᴰ y (x ∷ xs)) xs (λ y m. Memᴰ.tail m) (All-Memᴰ xs),
  )

  pub All→Memᴰ {κ} : (P : A → Type κ) (xs : List A) {x : A} → All P xs → Memᴰ x xs → P x
  All→Memᴰ P [] h m = elim m [ ]
  All→Memᴰ P (y ∷ xs) h (Memᴰ.head e) = subst P (sym e) h.0
  All→Memᴰ P (y ∷ xs) h (Memᴰ.tail m) = All→Memᴰ P xs h.1 m

  -- The search finds an element that passes, with what holds of all the elements.
  pub first-some {κ} :
      (P : A → Type κ) (p : A → Bool) (xs : List A) {x : A}
      → All P xs
      → first p xs ≡ some x
      → (p x ≡ true) × P x
  first-some P p [] h e = cc
  first-some P p (y ∷ xs) {x} h e = elim (Bool-cases (p y)) [
    | inl t ↦ let same : y ≡ x = ground arith in subst (λ z. (p z ≡ true) × P z) same (t, h.0)
    | inr f ↦ first-some P p xs h.1 (rw f at e)
  ]

  -- It finds none only if no element passes.
  pub first-none : (p : A → Bool) (xs : List A) → first p xs ≡ none → All (λ x. p x ≡ false) xs
  first-none p [] e = tt
  first-none p (x ∷ xs) e = ground (arith, first-none p xs)

  -- What holds of every element holds of the one at an index.
  pub All-get_elem? {κ} :
      (P : A → Type κ) (xs : List A) (i : ℕ) {x : A} → All P xs → get_elem? xs i ≡ some x → P x
  All-get_elem? P [] i h e = cc
  All-get_elem? P (y ∷ xs) zero {x} h e = let same : y ≡ x = cc in subst P same h.0
  All-get_elem? P (y ∷ xs) (suc i) h e = All-get_elem? P xs i h.1 e

  pub get_elem?-lt : (xs : List A) (i : ℕ) → i < length xs → get_elem? xs i ≢ none
  get_elem?-lt [] i h e = elim h [ ]
  get_elem?-lt (x ∷ xs) zero h e = cc
  get_elem?-lt (x ∷ xs) (suc i) h e = get_elem?-lt xs i (omega arith) e

  pub lt_of_get_elem? : (xs : List A) (i : ℕ) {x : A} → get_elem? xs i ≡ some x → i < length xs
  lt_of_get_elem? [] i e = cc
  lt_of_get_elem? (y ∷ xs) zero e = omega arith
  lt_of_get_elem? (y ∷ xs) (suc i) e = omega (arith, lt_of_get_elem? xs i e)

  pub get_elem?-append_left :
      (xs ys : List A) (i : ℕ) → i < length xs → get_elem? (xs ++ ys) i ≡ get_elem? xs i
  get_elem?-append_left [] ys i h = ground arith
  get_elem?-append_left (x ∷ xs) ys zero h = refl
  get_elem?-append_left (x ∷ xs) ys (suc i) h = get_elem?-append_left xs ys i (omega arith)

  pub get_elem?-append_right :
      (xs ys : List A) (i : ℕ) → get_elem? (xs ++ ys) (length xs + i) ≡ get_elem? ys i
  get_elem?-append_right [] ys i = ap (get_elem? ys) (omega arith)
  get_elem?-append_right (x ∷ xs) ys i =
      let next : (suc (length xs) + i) ≡ suc (length xs + i) = omega arith in
      ap (get_elem? ((x ∷ xs) ++ ys)) next ∙ get_elem?-append_right xs ys i

  pub get_elem?-drop :
      (n : ℕ) (xs : List A) (i : ℕ) → get_elem? (drop n xs) i ≡ get_elem? xs (n + i)
  get_elem?-drop zero xs i = ap (get_elem? xs) (omega arith)
  get_elem?-drop (suc n) [] i = refl
  get_elem?-drop (suc n) (x ∷ xs) i =
      let next : suc n + i ≡ suc (n + i) = omega arith in
      get_elem?-drop n xs i ∙ sym (ap (get_elem? (x ∷ xs)) next)

  pub get_elem?-take :
      (n : ℕ) (xs : List A) (i : ℕ) → i < n → get_elem? (take n xs) i ≡ get_elem? xs i
  get_elem?-take zero xs i h = ground arith
  get_elem?-take (suc n) [] i h = refl
  get_elem?-take (suc n) (x ∷ xs) zero h = refl
  get_elem?-take (suc n) (x ∷ xs) (suc i) h = get_elem?-take n xs i (omega arith)

  pub get_elem?-nil : (xs : List A) (i : ℕ) → length xs ≤ i → get_elem? xs i ≡ none
  get_elem?-nil [] i h = refl
  get_elem?-nil (x ∷ xs) zero h = ground arith
  get_elem?-nil (x ∷ xs) (suc i) h = get_elem?-nil xs i (omega arith)

pub take_nil {ℓ} : {A : Type ℓ} (n : ℕ) → take {A = A} n [] ≡ []
take_nil zero = refl
take_nil (suc n) = refl
