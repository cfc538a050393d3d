-- ===== src/Releases/Tests.antt =====
-- internal/releases/releases.go: the theorem on the newest release at two rows.
use gang_chat_server.Base.{String, Bool, true, false, List, [], ◌∷◌, ◌≡◌, refl, if◌then◌else◌, some}
use gang_chat_server.Base.Eq.{◌=?◌, string_eq}
use gang_chat_server.Base.Int.{ℤ, pos}
use gang_chat_server.Base.Sort.{sort_by, sort_by-IsSorted, All-sort_by, All-sort_by_conv}
use gang_chat_server.Releases.{Release, latest, newer}
use gang_chat_server.Releases.Newest.{IsNewest, latest-IsNewest}

abbrev split : String → List String
split v = if v =? "1.10" then "1" ∷ "10" ∷ [] else if v =? "1.9" then "1" ∷ "9" ∷ [] else "2" ∷ []

abbrev atoi : String → ℤ
atoi s = if s =? "10" then pos 10 else if s =? "9" then pos 9 else if s =? "2" then pos 2 else pos 1

abbrev release : String → Bool → Release
release v p = record { version = v; published = p; texts = ""; created_at = 1; updated_at = 1 }

abbrev rows : List Release
rows = release "1.9" true ∷ release "1.10" true ∷ release "2" false ∷ []

latest_of_rows : latest split atoi sort_by rows ≡ some (release "1.10" true)
unfolding latest newer sort_by
latest_of_rows = refl

latest-IsNewest_example : IsNewest split atoi rows (latest split atoi sort_by rows)
latest-IsNewest_example =
    latest-IsNewest split atoi sort_by (λ before xs o. sort_by-IsSorted before o xs)
      (λ before P xs h. All-sort_by before P xs h) (λ before P xs h. All-sort_by_conv before P xs h)
      rows
