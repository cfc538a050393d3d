-- ===== src/MusicBox/Stream/Outcome.antt =====
-- internal/musicbox/media_stream.go: the end of a stream, and what a player may open.
use gang_chat_server.Base.{
  String, Bool, true, false, List, [], ◌∷◌, none, some, ◌≡◌, ◌≢◌, refl, ap, ◌∙◌, arith, ◌⊎◌, ◌&&◌,
  ◌||◌, if◌then◌else◌, Option, Bool-cases, inl, inr,
}
use gang_chat_server.Base.Eq.{string_eq}
use gang_chat_server.MusicBox.Stream.{
  MediaStream, new_media_stream, open_stream, Event, marks, fails, publishes, step, run,
  or_unavailable, no_error, is_playable, mark_playable, fail, publish,
}

-- A stream is published or has failed exactly when it is done, and not both.
pub record IsConsistent (s : MediaStream) : Type 0 where
  pub open_no_error : s.done ≡ false → s.err ≡ none
  pub open_unpublished : s.done ≡ false → s.published ≡ false
  pub ended : s.done ≡ true → (s.published ≡ true) ⊎ (s.err ≢ none)
  pub not_both : s.published ≡ true → s.err ≡ none

step-IsConsistent : (e : Event) (s : MediaStream) → IsConsistent s → IsConsistent (step e s)
unfolding step
step-IsConsistent marks s v = ground arith
step-IsConsistent (fails err) s v = ground arith
step-IsConsistent (publishes none) s v = ground arith
step-IsConsistent (publishes (some e)) s v = ground arith

run-IsConsistent : (es : List Event) (s : MediaStream) → IsConsistent s → IsConsistent (run es s)
unfolding run
run-IsConsistent [] s v = v
run-IsConsistent (e ∷ es) s v = run-IsConsistent es (step e s) (step-IsConsistent e s v)

abbrev pub was_marked : List Event → Bool
was_marked [] = false
was_marked (marks ∷ es) = true
was_marked (fails err ∷ es) = was_marked es
was_marked (publishes rename ∷ es) = was_marked es

-- How the first failure or publication ends the stream: with an error, or with none.
abbrev pub first_end : List Event → Option (Option String)
first_end [] = none
first_end (marks ∷ es) = first_end es
first_end (fails err ∷ es) = some (some (or_unavailable err))
first_end (publishes rename ∷ es) = some rename

-- What a stream tells of itself after some events: it is marked when one of them marked it, and it
-- has ended as the first failure or publication among them says. Players may use it while it is
-- marked and has not failed.
pub record Tells (es : List Event) (s : MediaStream) : Type 0 where
  pub marked : s.playable ≡ was_marked es
  pub ended_once : s.done ≡ elim (first_end es) [ none ↦ false | some err ↦ true ]
  pub in_place : s.published ≡ elim (first_end es) [ none ↦ false | some err ↦ no_error err ]
  pub error : s.err ≡ elim (first_end es) [ none ↦ none | some err ↦ err ]
  pub usable :
      is_playable s
      ≡ (was_marked es && elim (first_end es) [ none ↦ true | some err ↦ no_error err ])

abbrev first_of : Option (Option String) → Option (Option String) → Option (Option String)
first_of none later = later
first_of (some e) later = some e

-- How a stream has ended so far.
abbrev end_so_far : MediaStream → Option (Option String)
end_so_far s = if s.done then some s.err else none

-- What the events make of a stream that is consistent, by how it had ended before them.
run_told :
    (es : List Event) (s : MediaStream)
    → IsConsistent s
    → ((run es s).playable ≡ (s.playable || was_marked es))
      × (end_so_far (run es s) ≡ first_of (end_so_far s) (first_end es))
unfolding run step mark_playable fail publish
run_told [] s v = (ground arith, ground arith)
run_told (marks ∷ es) s v =
    let (m, d) = run_told es (step marks s) (step-IsConsistent marks s v) in
    (ground (arith, m), ground (arith, d))
run_told (fails err ∷ es) s v =
    let (m, d) = run_told es (step (fails err) s) (step-IsConsistent (fails err) s v) in
    (ground (arith, m), ground (arith, d))
run_told (publishes none ∷ es) s v =
    let (m, d) = run_told es (step (publishes none) s) (step-IsConsistent (publishes none) s v) in
    (ground (arith, m), ground (arith, d))
run_told (publishes (some e) ∷ es) s v =
    let after = step (publishes (some e)) s in
    let (m, d) = run_told es after (step-IsConsistent (publishes (some e)) s v) in
    (ground (arith, m), ground (arith, d))

-- The fields of a consistent stream follow from whether it is marked and how it ended.
Tells-intro :
    (es : List Event) (s : MediaStream)
    → IsConsistent s
    → s.playable ≡ was_marked es
    → end_so_far s ≡ first_end es
    → Tells es s
unfolding is_playable
Tells-intro es s v m d = elim (Bool-cases s.done) [
  | inl over ↦
      let e : first_end es ≡ some s.err = ground (arith, over, d) in
      record {
        marked = m;
        ended_once = rw e over;
        in_place = rw e (ground (arith, over));
        error = rw e refl;
        usable = rw (e, m) refl;
      }
  | inr going ↦
      let e : first_end es ≡ none = ground (arith, going, d) in
      record {
        marked = m;
        ended_once = rw e going;
        in_place = rw e (v.open_unpublished going);
        error = rw e (v.open_no_error going);
        usable = rw (e, m, v.open_no_error going) refl;
      }
]

-- Whatever marks, failures and publishes a new stream gets, its fields stay consistent, and they
-- say what happened: it is marked playable exactly when one of the events marked it, it is done,
-- published or failed as the first failure or publication among the events ended it, and players
-- may use it exactly while it is marked and has not failed.
pub run-new_media_stream :
    (tmp final owner : String) (es : List Event)
    → let s = run es (new_media_stream tmp final owner) in IsConsistent s × Tells es s
unfolding new_media_stream
run-new_media_stream tmp final owner es =
    let new = new_media_stream tmp final owner in
    let start : IsConsistent new = record {
      open_no_error = λ h. refl;
      open_unpublished = λ h. refl;
      ended = λ h. cc;
      not_both = λ h. refl;
    } in
    let v = run-IsConsistent es new start in
    let (m, d) = run_told es new start in (v, Tells-intro es (run es new) v m d)

step_done :
    (e : Event) (s : MediaStream)
    → s.done ≡ true
    → (p : Bool) × (step e s ≡ record s { playable = p })
unfolding step
step_done marks s h = (true, refl)
step_done (fails err) s h = (s.playable, ground arith)
step_done (publishes rename) s h = (s.playable, ground arith)

run_done_playable :
    (es : List Event) (s : MediaStream)
    → s.done ≡ true
    → (p : Bool) × (run es s ≡ record s { playable = p })
unfolding run
run_done_playable [] s h = (s.playable, refl)
run_done_playable (e ∷ es) s h =
    let (p, at) = step_done e s h in
    let (q, after) = run_done_playable es (record s { playable = p }) h in
    (q, ap (run es) at ∙ after)

-- The first outcome stays: whatever happens to a stream that is done, it stays done, published or
-- failed as it was, and readers open the same file or get the same error.
pub run_done :
    (es : List Event) (s : MediaStream)
    → s.done ≡ true
    → ((run es s).done ≡ true)
      × ((run es s).published ≡ s.published)
      × ((run es s).err ≡ s.err)
      × (open_stream (run es s) ≡ open_stream s)
unfolding open_stream
run_done es s h = let (p, e) = run_done_playable es s h in rw e (h, refl, refl, refl)
