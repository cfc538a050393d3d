-- ===== src/Releases.antt =====
-- internal/releases/releases.go: the table `app_releases`, and the order of the versions. The splitting
-- of a version at its dots and the reading of a number are Go's, as is the sort; a release is its
-- version, whether it is published, and the rest of its columns as one text.
pub mod Newest
mod Tests
use gang_chat_server.Base.{
  ℕ, String, Bool, true, false, List, [], ◌∷◌, Option, none, some, if◌then◌else◌, select, ◌≡◌, refl,
  Bool-cases, inl, inr,
}
use gang_chat_server.Base.Eq.{◌=?◌, string_eq, =?_refl}
use gang_chat_server.Base.Int.{ℤ, pos, ltb_ℤ}

pub record Release : Type 0 where
  pub version : String
  pub published : Bool
  pub texts : String
  pub created_at : ℕ
  pub updated_at : ℕ

pub data Order : Type 0 where
  less same greater : Order

-- One place of two versions, where the places before are the same.
unfoldable pub place : ℤ → ℤ → Order → Order
place l r rest = if ltb_ℤ l r then less else if ltb_ℤ r l then greater else rest

abbrev pub is_greater : Order → Bool
is_greater greater = true
is_greater _ = false

module _ (split : String → List String) (atoi : String → ℤ) where
  -- A place that a version lacks is zero.
  unfoldable pub compare_places : List String → List String → Order
  unfolding place
  compare_places [] [] = same
  compare_places [] (r ∷ rs) = place (pos 0) (atoi r) (compare_places [] rs)
  compare_places (l ∷ ls) [] = place (atoi l) (pos 0) (compare_places ls [])
  compare_places (l ∷ ls) (r ∷ rs) = place (atoi l) (atoi r) (compare_places ls rs)

  unfoldable pub compare_versions : String → String → Order
  unfolding compare_places
  compare_versions a b = compare_places (split a) (split b)

  unfoldable pub newer : Release → Release → Bool
  unfolding compare_versions
  newer x y = is_greater (compare_versions x.version y.version)

  module _ (sort : (Release → Release → Bool) → List Release → List Release) where
    unfoldable pub list : Bool → List Release → List Release
    unfolding newer
    list published_only rows =
        sort newer (if published_only then select (λ r. r.published) rows else rows)

    unfoldable pub latest : List Release → Option Release
    unfolding list
    latest rows = elim (list true rows) [ [] ↦ none | r ∷ rs ↦ some r ]

unfoldable pub get : String → List Release → Option Release
get version [] = none
get version (r ∷ rs) = if r.version =? version then some r else get version rs

-- INSERT … ON CONFLICT (version) DO UPDATE, which keeps `created_at`
unfoldable pub save : ℕ → Release → List Release → List Release
save now r [] = record r { created_at = now; updated_at = now } ∷ []
save now r (x ∷ xs) =
    let rest = x ∷ save now r xs in
    if x.version =? r.version
    then record r { created_at = x.created_at; updated_at = now } ∷ xs
    else rest

unfoldable pub remove_version : String → List Release → List Release
remove_version version [] = []
remove_version version (r ∷ rs) =
    if r.version =? version then remove_version version rs else r ∷ remove_version version rs

-- whether a row was deleted, and what is left
unfoldable pub delete_version : String → List Release → Bool × List Release
unfolding get remove_version
delete_version version rows =
    (elim (get version rows) [ none ↦ false | some r ↦ true ], remove_version version rows)

-- A saved release is found by its version, with the time it was first saved.
pub get-save :
    (now : ℕ) (r : Release) (rows : List Release)
    → get r.version (save now r rows)
      ≡ some (record r {
        created_at = elim (get r.version rows) [ none ↦ now | some x ↦ x.created_at ];
        updated_at = now;
      })
unfolding get save
get-save now r [] = rw (=?_refl r.version) refl
get-save now r (x ∷ xs) = elim (Bool-cases (x.version =? r.version)) [
  | inl t ↦ rw (t, =?_refl r.version) refl
  | inr f ↦ rw (f, f) (get-save now r xs)
]
