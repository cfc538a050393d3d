-- ===== src/MusicBox/Stream/Pages.antt =====
-- internal/musicbox/media_stream.go, `completeOggPages`: how many whole Ogg pages a file that is
-- still being written begins with. The file's bytes are numbers.
use gang_chat_server.Base.{
  ℕ, zero, suc, ◌+◌, ◌≤◌, Bool, false, if◌then◌else◌, List, [], ◌∷◌, ◌++◌, Option, none, some, ◌≡◌,
  arith, Bool-cases, Option-cases, inl, inr, get_elem?, ◌==◌,
}

-- io.ReadFull: all of the bytes, or none.
unfoldable pub read_full : ℕ → List ℕ → Option (List ℕ × List ℕ)
read_full zero bytes = some ([], bytes)
read_full (suc n) [] = none
read_full (suc n) (b ∷ bytes) = elim (read_full n bytes) [
  | none ↦ none
  | some (block, rest) ↦ some (b ∷ block, rest)
]

unfoldable pub total : List ℕ → ℕ
total [] = 0
total (size ∷ sizes) = size + total sizes

unfoldable pub is_page_header : List ℕ → Bool
is_page_header (o ∷ g ∷ g' ∷ s ∷ header) =
    if o == 79 then if g == 103 then if g' == 103 then s == 83 else false else false else false
is_page_header header = false

-- header[26]
unfoldable pub segment_count : List ℕ → ℕ
segment_count header = elim (get_elem? header 26) [ none ↦ 0 | some n ↦ n ]

unfoldable pub skip_payload : Option (List ℕ × List ℕ) → Option (List ℕ)
unfolding read_full total
skip_payload none = none
skip_payload (some (segments, rest)) = elim (read_full (total segments) rest) [
  | none ↦ none
  | some (payload, next) ↦ some next
]

unfoldable pub skip_body : Option (List ℕ × List ℕ) → Option (List ℕ)
unfolding is_page_header segment_count skip_payload
skip_body none = none
skip_body (some (header, rest)) =
    if is_page_header header then skip_payload (read_full (segment_count header) rest) else none

-- One page: what follows it, where it is whole.
unfoldable pub skip_page : List ℕ → Option (List ℕ)
unfolding skip_body
skip_page bytes = skip_body (read_full 27 bytes)

unfoldable pub complete_ogg_pages : ℕ → List ℕ → ℕ
unfolding skip_page
complete_ogg_pages zero bytes = 0
complete_ogg_pages (suc limit) bytes = elim (skip_page bytes) [
  | none ↦ 0
  | some rest ↦ suc (complete_ogg_pages limit rest)
]

pub complete_ogg_pages-le_limit :
    (limit : ℕ) (bytes : List ℕ) → complete_ogg_pages limit bytes ≤ limit
unfolding complete_ogg_pages
complete_ogg_pages-le_limit zero bytes = ground arith
complete_ogg_pages-le_limit (suc limit) bytes = elim (Option-cases (skip_page bytes)) [
  | inl e ↦ rw (e, complete_ogg_pages) (ground arith)
  | inr (rest, e) ↦
      rw (e, complete_ogg_pages) (ground (arith, complete_ogg_pages-le_limit limit rest))
]

-- What a step reads of the beginning of a file, it reads of a longer one too.
read_full-append :
    (n : ℕ) (bytes more block rest : List ℕ)
    → read_full n bytes ≡ some (block, rest)
    → read_full n (bytes ++ more) ≡ some (block, rest ++ more)
unfolding read_full
read_full-append zero bytes more block rest e = cc
read_full-append (suc n) [] more block rest e = cc
read_full-append (suc n) (b ∷ bytes) more block rest e = elim (Option-cases (read_full n bytes)) [
  | inl f ↦ grind arith
  | inr ((block', rest'), f) ↦
      let longer = read_full-append n bytes more block' rest' f in ground arith
]

skip_payload-append :
    (more rest segments next : List ℕ)
    → skip_payload (some (segments, rest)) ≡ some next
    → skip_payload (some (segments, rest ++ more)) ≡ some (next ++ more)
unfolding skip_payload
skip_payload-append more rest segments next e =
    elim (Option-cases (read_full (total segments) rest)) [
      | inl f ↦ ground arith
      | inr ((payload, next'), f) ↦
          let longer = read_full-append (total segments) rest more payload next' f in ground arith
    ]

skip_body-append :
    (more header rest next : List ℕ)
    → skip_body (some (header, rest)) ≡ some next
    → skip_body (some (header, rest ++ more)) ≡ some (next ++ more)
unfolding skip_body
skip_body-append more header rest next = elim (Bool-cases (is_page_header header)) [
  | inl h ↦ rw h (elim (Option-cases (read_full (segment_count header) rest)) [
    | inl f ↦ rw f (λ e. cc)
    | inr ((segments, rest'), f) ↦
        rw (f, read_full-append (segment_count header) rest more segments rest' f)
          (skip_payload-append more rest' segments next)
  ])
  | inr h ↦ rw h (λ e. cc)
]

skip_page-append :
    (bytes more next : List ℕ)
    → skip_page bytes ≡ some next
    → skip_page (bytes ++ more) ≡ some (next ++ more)
unfolding skip_page
skip_page-append bytes more next = elim (Option-cases (read_full 27 bytes)) [
  | inl f ↦ rw f (λ e. cc)
  | inr ((header, rest), f) ↦
      rw (f, read_full-append 27 bytes more header rest f) (skip_body-append more header rest next)
]

-- Writing more bytes to a file never lowers the number of whole pages that are counted at its
-- start.
pub complete_ogg_pages-append :
    (limit : ℕ) (bytes more : List ℕ)
    → complete_ogg_pages limit bytes ≤ complete_ogg_pages limit (bytes ++ more)
unfolding complete_ogg_pages
complete_ogg_pages-append zero bytes more = ground arith
complete_ogg_pages-append (suc limit) bytes more = elim (Option-cases (skip_page bytes)) [
  | inl e ↦ rw (e, complete_ogg_pages) (ground arith)
  | inr (rest, e) ↦
      rw (e, skip_page-append bytes more rest e, complete_ogg_pages)
        (ground (arith, complete_ogg_pages-append limit rest more))
]
