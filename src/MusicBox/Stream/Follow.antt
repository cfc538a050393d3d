-- ===== src/MusicBox/Stream/Follow.antt =====
-- internal/musicbox/media_stream.go, `followReader.Read`: reading a file that is still being written.
-- The file and the stream's end are a source that changes with time. A round of the loop looks at
-- `done` at one time and reads at a later one; the schedule says when. `rounds` that run out stand
-- for a reader that still waits.
pub mod Whole
use gang_chat_server.Base.{
  ℕ, zero, suc, ◌+◌, ◌≤◌, ◌<◌, String, Bool, true, false, if◌then◌else◌, List, [], ◌∷◌, ◌++◌,
  Option, none, some, ◌≡◌, ◌≢◌, refl, sym, ap, subst, ◌∙◌, arith, Bool-cases, inl, inr, length,
  ◌==◌, take, drop, take-append-drop,
}
use mathlib.Core.List.{append_assoc, append-nil}

-- The transcode only appends, and ends the stream after its last write.
pub record Source : Type 0 where
  pub content : ℕ → List ℕ
  pub finished : ℕ → Bool
  pub failure : Option String
  pub grows : (t t' : ℕ) → t ≤ t' → (more : List ℕ) × (content t' ≡ content t ++ more)
  pub final : (t t' : ℕ) → t ≤ t' → finished t ≡ true → content t' ≡ content t

pub data ReadResult : Type 0 where
  chunk : List ℕ → ReadResult
  end_of_file : ReadResult
  failed : String → ReadResult
  read_error : String → ReadResult
  cancelled : String → ReadResult
  waits : ReadResult

-- A round: the time of the look at `done`, how much later the read is, the error of a read that
-- gives no byte for another reason than the end, and the context's error where the wait after the read
-- ends by it.
pub record Round : Type 0 where
  pub looks : ℕ
  pub delay : ℕ
  pub fault : Option String
  pub stopped : Option String

unfoldable pub ending : Option String → ReadResult
ending none = end_of_file
ending (some e) = failed e

module _ (src : Source) where
  -- What the loop does after a wait, `rest` being what its later rounds give.
  abbrev pub wait : Option String → ReadResult → ReadResult
  wait none rest = rest
  wait (some e) rest = cancelled e

  -- What a round does with what it read.
  unfoldable pub serve : Option String → Option String → Bool → List ℕ → ReadResult → ReadResult
  unfolding ending
  serve (some e) stopped done bytes rest = read_error e
  serve none stopped done [] rest = if done then ending src.failure else wait stopped rest
  serve none stopped done (x ∷ xs) rest = chunk (x ∷ xs)

  -- The loop: reads of at most `size` bytes at the reader's place in the file.
  unfoldable pub read_on : List Round → ℕ → ℕ → ReadResult
  unfolding serve
  read_on [] size offset = waits
  read_on (r ∷ rounds) size offset =
      let rest = read_on rounds size offset in
      serve r.fault r.stopped (src.finished r.looks)
        (take size (drop offset (src.content (r.looks + r.delay)))) rest

  -- A read into an empty buffer gives nothing at once.
  unfoldable pub read : List Round → ℕ → ℕ → ReadResult
  unfolding read_on
  read rounds size offset = if size == 0 then chunk [] else read_on rounds size offset

  -- A reader that has copied some bytes, and reads on until a read gives no chunk: all the bytes that
  -- it copied, and the last result.
  unfoldable pub copy : List (List Round) → ℕ → List ℕ → List ℕ × ReadResult
  copy [] size out = (out, waits)
  copy (rounds ∷ reads) size out = elim (read rounds size (length out)) [
    | chunk bytes ↦ copy reads size (out ++ bytes)
    | end_of_file ↦ (out, end_of_file)
    | failed e ↦ (out, failed e)
    | read_error e ↦ (out, read_error e)
    | cancelled e ↦ (out, cancelled e)
    | waits ↦ (out, waits)
  ]

-- The rounds follow one another from a time on.
abbrev pub RoundsFrom : ℕ → List Round → Type 0
RoundsFrom t [] = Unit
RoundsFrom t (r ∷ rs) = (t ≤ r.looks) × RoundsFrom (r.looks + r.delay) rs

abbrev pub end_of : ℕ → List Round → ℕ
end_of t [] = t
end_of t (r ∷ rs) = end_of (r.looks + r.delay) rs

abbrev pub ReadsFrom : ℕ → List (List Round) → Type 0
ReadsFrom t [] = Unit
ReadsFrom t (rs ∷ reads) = RoundsFrom t rs × ReadsFrom (end_of t rs) reads

abbrev pub end_of_all : ℕ → List (List Round) → ℕ
end_of_all t [] = t
end_of_all t (rs ∷ reads) = end_of_all (end_of t rs) reads

-- A reader does not wait for ever: a round that sees the end, or any before it, answers.
serve_answers :
    (src : Source) (fault stopped : Option String) (done : Bool) (bs : List ℕ) (rest : ReadResult)
    → (done ≡ false → rest ≢ waits)
    → serve src fault stopped done bs rest ≢ waits
unfolding serve ending
serve_answers src (some x) stopped done bs rest h e = cc
serve_answers src none stopped true [] rest h e = answers src.failure e
  where
    answers : (o : Option String) → ending o ≢ waits
    answers none e = cc
    answers (some x) e = cc
serve_answers src none none false [] rest h e = h refl e
serve_answers src none (some x) false [] rest h e = cc
serve_answers src none stopped done (x ∷ xs) rest h e = cc

read_on_answers :
    (src : Source) (before : List Round) (r : Round) (after : List Round) (size offset : ℕ)
    → src.finished r.looks ≡ true
    → read_on src (before ++ r ∷ after) size offset ≢ waits
unfolding read_on
read_on_answers src [] r after size offset done =
    serve_answers src r.fault r.stopped (src.finished r.looks) _ (read_on src after size offset)
      (λ writing. cc)
read_on_answers src (b ∷ before) r after size offset done =
    serve_answers src b.fault b.stopped (src.finished b.looks) _
      (read_on src (before ++ r ∷ after) size offset)
      (λ writing. read_on_answers src before r after size offset done)

-- A read of a file that a transcode writes gives bytes, the end, the failure or an error, and does
-- not wait on, once one of its rounds has seen the stream finished.
pub read_answers :
    (src : Source) (before : List Round) (r : Round) (after : List Round) (size offset : ℕ)
    → src.finished r.looks ≡ true
    → read src (before ++ r ∷ after) size offset ≢ waits
unfolding read
read_answers src before r after size offset done e = elim (Bool-cases (size == 0)) [
  | inl empty ↦ cc (rw empty at e)
  | inr some_room ↦ read_on_answers src before r after size offset done (rw some_room at e)
]
