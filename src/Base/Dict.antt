-- ===== src/Base/Dict.antt =====
-- Go's maps and sets: association lists with distinct reads, and lists of members. A read sees the
-- first entry for its key; a write replaces it; a delete drops every entry of the key.
use mathlib.Core.Path.{◌≡◌, refl, ap}
use mathlib.Core.Logic.{inl, inr}
use mathlib.Core.Bool.{Bool, false, ◌||◌, ◌&&◌, not}
use mathlib.Core.Option.{Option, none, some}
use mathlib.Core.List.{List, [], ◌∷◌}
use native.Mathlib.Omega.{arith}
use Prim.Native.Nat.{suc, ◌≤◌, ◌<◌}
use gang_chat_server.Base.Lists.{length}
use gang_chat_server.Base.Tests.{if◌then◌else◌, Bool-cases}
use gang_chat_server.Base.Eq.{Eq, ◌=?◌, =?_refl}

module _ {ℓ κ} {K : Type ℓ} {V : Type κ} ⦃e : Eq K⦄ where
  unfoldable pub lookup : K → List (K × V) → Option V
  lookup k [] = none
  lookup k ((j, v) ∷ m) = if j =? k then some v else lookup k m

  unfoldable pub insert : K → V → List (K × V) → List (K × V)
  insert k v [] = (k, v) ∷ []
  insert k v ((j, w) ∷ m) = if j =? k then (k, v) ∷ m else (j, w) ∷ insert k v m

  unfoldable pub delete : K → List (K × V) → List (K × V)
  delete k [] = []
  delete k ((j, w) ∷ m) = if j =? k then delete k m else (j, w) ∷ delete k m

  pub lookup-insert :
      (k j : K) (v : V) (m : List (K × V))
      → lookup j (insert k v m) ≡ (if k =? j then some v else lookup j m)
  unfolding lookup insert
  lookup-insert k j v [] = refl
  lookup-insert k j v ((i, w) ∷ m) =
      ground (arith, e.beq_iff k j, e.beq_iff i k, e.beq_iff i j, lookup-insert k j v m)

  pub lookup-insert_self : (k : K) (v : V) (m : List (K × V)) → lookup k (insert k v m) ≡ some v
  lookup-insert_self k v m = rw (lookup-insert k k v m, =?_refl k)

  pub lookup-delete :
      (k j : K) (m : List (K × V)) → lookup j (delete k m) ≡ (if k =? j then none else lookup j m)
  unfolding lookup delete
  lookup-delete k j [] = ground arith
  lookup-delete k j ((i, w) ∷ m) =
      ground (arith, e.beq_iff k j, e.beq_iff i k, e.beq_iff i j, lookup-delete k j m)

  -- A second write to a key replaces the first.
  pub insert-insert :
      (k : K) (v w : V) (m : List (K × V)) → insert k v (insert k w m) ≡ insert k v m
  unfolding insert
  insert-insert k v w [] = rw =?_refl
  insert-insert k v w ((i, u) ∷ m) = elim (Bool-cases (i =? k)) [
    | inl h ↦ rw h (rw =?_refl)
    | inr h ↦ rw h (rw h (ap (◌∷◌ (i, u)) (insert-insert k v w m)))
  ]

  -- A write adds an entry only for a key that has none.
  pub length-insert_new :
      (k : K) (v : V) (m : List (K × V)) → length (insert k v m) ≤ suc (length m)
  unfolding insert
  length-insert_new k v [] = omega arith
  length-insert_new k v ((j, w) ∷ m) = ground (arith, length-insert_new k v m)

  pub length-insert_old :
      (k : K) (v w : V) (m : List (K × V)) → lookup k m ≡ some w → length (insert k v m) ≡ length m
  unfolding lookup insert
  length-insert_old k v w [] h = cc
  length-insert_old k v w ((j, u) ∷ m) h = ground (arith, length-insert_old k v w m)

  pub length-delete : (k : K) (m : List (K × V)) → length (delete k m) ≤ length m
  unfolding delete
  length-delete k [] = omega arith
  length-delete k ((j, w) ∷ m) = ground (arith, length-delete k m)

  -- A delete of a key that is there drops an entry at least.
  pub length-delete_old :
      (k : K) (w : V) (m : List (K × V)) → lookup k m ≡ some w → length (delete k m) < length m
  unfolding lookup delete
  length-delete_old k w [] h = cc
  length-delete_old k w ((j, u) ∷ m) h = ground (arith, length-delete_old k w m, length-delete k m)

module _ {ℓ} {A : Type ℓ} ⦃e : Eq A⦄ where
  -- Membership in a set.
  unfoldable pub has : A → List A → Bool
  has a [] = false
  has a (x ∷ xs) = (x =? a) || has a xs

  unfoldable pub add : A → List A → List A
  add a xs = if has a xs then xs else a ∷ xs

  unfoldable pub remove : A → List A → List A
  remove a [] = []
  remove a (x ∷ xs) = if x =? a then remove a xs else x ∷ remove a xs

  pub has-add : (a b : A) (xs : List A) → has b (add a xs) ≡ ((a =? b) || has b xs)
  unfolding add has
  has-add a b xs = elim (Bool-cases (has a xs)) [
    | inl h ↦ rw h (ground (arith, h, e.beq_iff a b, =?_refl a))
    | inr h ↦ rw h
  ]

  pub has-remove : (a b : A) (xs : List A) → has b (remove a xs) ≡ (not (a =? b) && has b xs)
  unfolding remove has
  has-remove a b [] = ground arith
  has-remove a b (x ∷ xs) =
      ground (arith, e.beq_iff a b, e.beq_iff x a, e.beq_iff x b, has-remove a b xs)

  -- No member stands twice.
  abbrev pub Distinct : List A → Type 0
  Distinct [] = Unit
  Distinct (x ∷ xs) = (has x xs ≡ false) × Distinct xs

  pub add-Distinct : (a : A) (xs : List A) → Distinct xs → Distinct (add a xs)
  unfolding add
  add-Distinct a xs d = elim (Bool-cases (has a xs)) [ inl h ↦ rw h d | inr h ↦ rw h (h, d) ]

  pub remove-Distinct : (a : A) (xs : List A) → Distinct xs → Distinct (remove a xs)
  unfolding remove
  remove-Distinct a [] d = tt
  remove-Distinct a (x ∷ xs) d = elim (Bool-cases (x =? a)) [
    | inl h ↦ rw h (remove-Distinct a xs d.1)
    | inr h ↦ rw h (ground (arith, has-remove a x xs), remove-Distinct a xs d.1)
  ]
