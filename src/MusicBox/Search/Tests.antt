-- ===== src/MusicBox/Search/Tests.antt =====
-- internal/musicbox/search_resilience.go: the theorems at a coordinator with room for one entry.
use gang_chat_server.Base.{
  ℕ, zero, suc, ◌<◌, ◌≤◌, true, false, List, [], ◌∷◌, none, some, ◌≡◌, refl, arith,
}
use gang_chat_server.Base.Eq.{string_eq, nat_eq}
use gang_chat_server.MusicBox.Search.{
  Outcome, Coordinator, fresh, search, finish_call, is_success, attempts,
}
use gang_chat_server.MusicBox.Search.Bound.{IsBounded, finish_call-IsBounded, search-finish_call}
use gang_chat_server.MusicBox.Search.Attempts.{attempts-first_success}

abbrev small : Coordinator ℕ
small = record {
  policy = record { fresh_ttl = 10; stale_ttl = 30; max_entries = 1 };
  cache =
      ("a", record { results = 1 ∷ []; fresh_until = 10; stale_until = 30; stored_at = 0 }) ∷ [];
  in_flight = ("a", 4) ∷ [];
  calls = [];
  next_call = 5;
}

abbrev found : Outcome ℕ
found = record { results = 2 ∷ []; error = none }

abbrev lost : Outcome ℕ
lost = record { results = []; error = some "upstream" }

finish_call-IsBounded_example : IsBounded (finish_call "b" 4 12 found small)
finish_call-IsBounded_example =
    finish_call-IsBounded "b" 4 12 found small (omega arith, omega arith)

search-finish_call_example :
    search "b" 13 (finish_call "b" 4 12 found small)
    ≡ (finish_call "b" 4 12 found small, fresh (2 ∷ []))
search-finish_call_example = search-finish_call "b" 4 12 13 found small refl (omega arith)

-- A request while the results are fresh, and two after, whose calls fail.
abbrev outage : List (ℕ × ℕ × Outcome ℕ)
outage = (13, 14, lost) ∷ (30, 32, lost) ∷ (35, 41, lost) ∷ []

abbrev fetch : ℕ → Outcome ℕ
fetch zero = lost
fetch (suc n) = found

before_one : (j : ℕ) → 0 ≤ j → j < 1 → (is_success (fetch j) ≡ false) × (true ≡ true)
before_one zero h k = (refl, refl)
before_one (suc j) h k = ground arith

attempts-first_success_example : attempts fetch (λ n. true) 4 0 ≡ fetch 1
attempts-first_success_example =
    attempts-first_success fetch (λ n. true) 4 0 1 (omega arith) (omega arith) refl before_one
