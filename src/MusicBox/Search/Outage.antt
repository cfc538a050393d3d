-- ===== src/MusicBox/Search/Outage.antt =====
-- internal/musicbox/search_resilience.go: searches while the music service fails.
use gang_chat_server.Base.{ℕ, String, List, [], ◌∷◌, Option, none, some, ◌≡◌}
use gang_chat_server.Base.Eq.{string_eq, nat_eq}
use gang_chat_server.Base.Dict.{lookup}
use gang_chat_server.MusicBox.Search.{Outcome, Entry, Coordinator, request}

module _ {T : Type 0} where
  -- Requests for one key, one after the other: the time of each, the time at which its call would end,
  -- and with what.
  unfoldable pub requests :
      String → List (ℕ × ℕ × Outcome T) → Coordinator T → List (Option (Outcome T))
  unfolding request
  requests key [] c = []
  requests key ((now, end, o) ∷ rs) c =
      let (c', got) = request key now end o c in got ∷ requests key rs c'

  -- The results are kept for a key until they are too old, and no call for the key runs.
  record IsKept (key : String) (results : List T) (stale : ℕ) (c : Coordinator T) : Type 0 where
    entry : Entry T
    there : lookup key c.cache ≡ some entry
    same : entry.results ≡ results
    until : entry.stale_until ≡ stale
    idle : lookup key c.in_flight ≡ none
