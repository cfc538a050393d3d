-- ===== src/Auth/Challenges/Rows.antt =====
-- internal/auth: what the statements on the challenges leave in the rows.
use mathlib.Core.Option.{some-injective}
use gang_chat_server.Base.{
  String, List, [], ◌∷◌, some, ◌≡◌, Bool-cases, inl, inr, All, if_cases, ap,
}
use gang_chat_server.Base.Eq.{◌=?◌, string_eq}
use gang_chat_server.Auth.Challenges.{Challenge, by_id, update_row}

pub by_id-update_row :
    (id : String) (f : Challenge → Challenge) (cs : List Challenge) {c : Challenge}
    → ((d : Challenge) → (f d).id ≡ d.id)
    → by_id id cs ≡ some c
    → by_id id (update_row id f cs) ≡ some (f c)
unfolding by_id update_row
by_id-update_row id f [] same e = cc
by_id-update_row id f (d ∷ cs) {c} same e = elim (Bool-cases (d.id =? id)) [
  | inl t ↦
      let found : d ≡ c = some-injective d c (rw (by_id, t) at e) in
      simp (t, same d) (ap (λ x. some (f x)) found)
  | inr g ↦ rw (by_id, g) (rw g (by_id-update_row id f cs same (rw (by_id, g) at e)))
]

-- An update keeps what it gives its own row.
pub All-update_row {κ} :
    (P : Challenge → Type κ) (id : String) (f : Challenge → Challenge) (cs : List Challenge)
    → ((c : Challenge) → P c → P (f c))
    → All P cs
    → All P (update_row id f cs)
unfolding update_row
All-update_row P id f [] keeps h = tt
All-update_row P id f (c ∷ cs) keeps h =
    (if_cases P (c.id =? id) (λ _. keeps c h.0) (λ _. h.0), All-update_row P id f cs keeps h.1)
