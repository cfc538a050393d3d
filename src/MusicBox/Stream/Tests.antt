-- ===== src/MusicBox/Stream/Tests.antt =====
-- internal/musicbox/media_stream.go: the theorems at one transcode and one file.
use gang_chat_server.Base.{ℕ, ◌≤◌, true, List, [], ◌∷◌, ◌++◌, none, some, ◌≡◌, ◌≢◌, refl, arith}
use gang_chat_server.MusicBox.Stream.{Event, run, new_media_stream}
use gang_chat_server.MusicBox.Stream.Outcome.{IsConsistent, Tells, run-new_media_stream}
use gang_chat_server.MusicBox.Stream.Follow.{
  Source, Round, waits, serve, read, read_on, copy, read_answers,
}
use gang_chat_server.MusicBox.Stream.Follow.Whole.{copies_whole_file}
use gang_chat_server.MusicBox.Stream.Pages.{
  complete_ogg_pages, complete_ogg_pages-append, skip_page, skip_body, is_page_header,
  segment_count, skip_payload, read_full, total,
}

-- A file that was whole from the start.
abbrev whole : Source
whole = record {
  content = λ t. 5 ∷ 6 ∷ [];
  finished = λ t. true;
  failure = none;
  grows = λ t t' h. ([], refl);
  final = λ t t' h e. refl;
}

abbrev round_at : ℕ → Round
round_at t = record { looks = t; delay = 0; fault = none; stopped = none }

abbrev two_reads : List (List Round)
two_reads = (round_at 0 ∷ []) ∷ (round_at 1 ∷ []) ∷ []

copies_whole_file_example :
    (whole.failure ≡ none) × (whole.content 3 ≡ (copy whole two_reads 4 []).0)
unfolding copy read read_on serve
copies_whole_file_example =
    copies_whole_file whole 4 (omega arith) two_reads 3 ((omega arith, tt), ((omega arith, tt), tt))
      refl (omega arith)

read_answers_example : read whole ([] ++ round_at 0 ∷ []) 4 2 ≢ waits
read_answers_example = read_answers whole [] (round_at 0) [] 4 2 refl

-- A page with no segment.
abbrev page : List ℕ
page =
    79 ∷ 103 ∷ 103 ∷ 83 ∷ 0 ∷ 0 ∷ 0 ∷ 0 ∷ 0 ∷ 0 ∷ 0 ∷ 0 ∷ 0 ∷ 0 ∷ 0 ∷ 0 ∷ 0 ∷ 0 ∷ 0 ∷ 0 ∷ 0 ∷ 0 ∷ 0
    ∷ 0 ∷ 0 ∷ 0 ∷ 0 ∷ []

one_page : complete_ogg_pages 3 (page ++ 79 ∷ []) ≡ 1
unfolding complete_ogg_pages skip_page skip_body is_page_header segment_count skip_payload read_full
    total
one_page = refl

complete_ogg_pages-append_example : complete_ogg_pages 3 page ≤ complete_ogg_pages 3 (page ++ page)
complete_ogg_pages-append_example = complete_ogg_pages-append 3 page page

-- A mark, a publication and a failure that comes too late.
abbrev happenings : List Event
happenings = Event.marks ∷ Event.publishes none ∷ Event.fails (some "late") ∷ []

run-new_media_stream_example :
    let s = run happenings (new_media_stream "a.tmp" "a.ogg" "room") in
    IsConsistent s × Tells happenings s
run-new_media_stream_example = run-new_media_stream "a.tmp" "a.ogg" "room" happenings
