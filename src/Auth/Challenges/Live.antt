-- ===== src/Auth/Challenges/Live.antt =====
-- internal/auth: how many challenges of a subject are not yet consumed.
use mathlib.Core.Option.{some-injective}
use gang_chat_server.Base.{
  ℕ, ◌+◌, ◌≤◌, String, Bool, true, false, ◌&&◌, List, [], ◌∷◌, some, ◌≡◌, refl, arith, Bool-cases,
  inl, inr, if◌then◌else◌, ◌∙◌, ap,
}
use gang_chat_server.Base.Eq.{◌=?◌, string_eq, =?→eq, =?_refl}
use gang_chat_server.Auth.Challenges.{Challenge, is_null, by_id, update_row, consume_others}

abbrev pub id_count : String → List Challenge → ℕ
id_count id [] = 0
id_count id (c ∷ cs) = (if c.id =? id then 1 else 0) + id_count id cs

abbrev pub live_count : String → List Challenge → ℕ
live_count s [] = 0
live_count s (c ∷ cs) =
    (if (c.subject =? s) && is_null c.consumed_at then 1 else 0) + live_count s cs

pub id_count-none :
    (id : String) (cs : List Challenge) → is_null (by_id id cs) ≡ true → id_count id cs ≡ 0
unfolding by_id
id_count-none id [] h = refl
id_count-none id (c ∷ cs) h = ground (arith, h, id_count-none id cs)

pub id_count-update_row :
    (j id : String) (f : Challenge → Challenge) (cs : List Challenge)
    → ((d : Challenge) → (f d).id ≡ d.id)
    → id_count j (update_row id f cs) ≡ id_count j cs
unfolding update_row
id_count-update_row j id f [] same = refl
id_count-update_row j id f (c ∷ cs) same =
    ground (arith, same c, id_count-update_row j id f cs same)

pub id_count-consume_others :
    (j : String) (now : ℕ) (s id : String) (cs : List Challenge)
    → id_count j (consume_others now s id cs) ≡ id_count j cs
unfolding consume_others
id_count-consume_others j now s id [] = refl
id_count-consume_others j now s id (c ∷ cs) = ground (arith, id_count-consume_others j now s id cs)

pub live_count-consume_others :
    (s : String) (now : ℕ) (subject id : String) (cs : List Challenge)
    → id_count id cs ≡ 0
    → live_count s (consume_others now subject id cs)
      ≡ (if subject =? s then 0 else live_count s cs)
unfolding consume_others
live_count-consume_others s now subject id [] h = ground arith
live_count-consume_others s now subject id (c ∷ cs) h = ground (
  arith,
  string_eq.beq_iff c.subject subject,
  string_eq.beq_iff c.subject s,
  string_eq.beq_iff subject s,
  live_count-consume_others s now subject id cs,
)

update_row-absent :
    (id : String) (f : Challenge → Challenge) (cs : List Challenge)
    → id_count id cs ≡ 0
    → update_row id f cs ≡ cs
unfolding update_row
update_row-absent id f [] h = refl
update_row-absent id f (c ∷ cs) h = elim (Bool-cases (c.id =? id)) [
  | inl t ↦ ground (arith, h, t)
  | inr g ↦ rw (update_row, g) (ap (◌∷◌ c) (update_row-absent id f cs (ground (arith, h))))
]

weaker : (a b : Bool) (n : ℕ) → (if a && b then 1 else 0) + n ≤ (if a && true then 1 else 0) + n
weaker a b n = ground arith

-- An update of a row that is live adds no live row.
pub live_count-update_row :
    (s id : String) (f : Challenge → Challenge) (cs : List Challenge) {c : Challenge}
    → ((d : Challenge) → (f d).subject ≡ d.subject)
    → id_count id cs ≤ 1
    → by_id id cs ≡ some c
    → is_null c.consumed_at ≡ true
    → live_count s (update_row id f cs) ≤ live_count s cs
unfolding by_id update_row
live_count-update_row s id f [] same one e live = omega arith
live_count-update_row s id f (d ∷ cs) {c} same one e live = elim (Bool-cases (d.id =? id)) [
  | inl t ↦
      let found : d ≡ c = some-injective d c (rw (by_id, t) at e) in
      let open_row : is_null d.consumed_at ≡ true = ap (λ x. is_null x.consumed_at) found ∙ live in
      let rest = update_row-absent id f cs (ground (arith, one, t)) in
      simp (t, same d, open_row, rest)
        (weaker (d.subject =? s) (is_null (f d).consumed_at) (live_count s cs))
  | inr g ↦
      let rest =
        live_count-update_row s id f cs same (ground (arith, one)) (rw (by_id, g) at e) live in
      rw g (omega (arith, rest))
]

-- An update that consumes adds no live row.
pub live_count-consumed :
    (s id : String) (f : Challenge → Challenge) (cs : List Challenge)
    → ((d : Challenge) → is_null (f d).consumed_at ≡ false)
    → live_count s (update_row id f cs) ≤ live_count s cs
unfolding update_row
live_count-consumed s id f [] gone = omega arith
live_count-consumed s id f (c ∷ cs) gone =
    ground (arith, gone c, live_count-consumed s id f cs gone)

-- The other challenges are consumed, and not the one that is named.
consume_others_own :
    (now : ℕ) (s : String) (c : Challenge) (cs : List Challenge)
    → consume_others now s c.id (c ∷ cs) ≡ c ∷ consume_others now s c.id cs
unfolding consume_others
consume_others_own now s c cs = elim (Bool-cases (c.subject =? s)) [
  | inl t ↦ rw (consume_others, t, =?_refl c.id) refl
  | inr f ↦ rw (consume_others, f) refl
]

pub id_count-created :
    (j : String) (now : ℕ) (s : String) (c : Challenge) (cs : List Challenge)
    → id_count c.id cs ≡ 0
    → id_count j cs ≤ 1
    → id_count j (consume_others now s c.id (c ∷ cs)) ≤ 1
id_count-created j now s c cs absent one =
    rw (id_count-consume_others j now s c.id (c ∷ cs)) (elim (Bool-cases (c.id =? j)) [
      | inl t ↦ rw t (ground (arith, ap (λ x. id_count x cs) (=?→eq c.id j t), absent))
      | inr f ↦ rw f (omega (arith, one))
    ])

pub live_count-created :
    (s : String) (now : ℕ) (c : Challenge) (cs : List Challenge)
    → id_count c.id cs ≡ 0
    → live_count s cs ≤ 1
    → live_count s (consume_others now c.subject c.id (c ∷ cs)) ≤ 1
live_count-created s now c cs absent one =
    rw (consume_others_own now c.subject c cs)
      (ground (arith, live_count-consume_others s now c.subject c.id cs absent, one))
