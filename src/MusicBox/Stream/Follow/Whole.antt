-- ===== src/MusicBox/Stream/Follow/Whole.antt =====
-- internal/musicbox/media_stream.go, `followReader.Read`: what a reader has of the file.
use gang_chat_server.Base.{
  ℕ, zero, suc, ◌+◌, ◌≤◌, ◌<◌, String, false, List, [], ◌∷◌, ◌++◌, Option, none, some, ◌≡◌, refl,
  sym, ap, subst, ◌∙◌, arith, Bool-cases, inl, inr, length, ◌==◌, take, drop, take-append-drop,
}
use mathlib.Core.List.{append_assoc, append-nil}
use gang_chat_server.MusicBox.Stream.Follow.{
  Source, ReadResult, chunk, end_of_file, failed, read_error, cancelled, waits, Round, ending, wait,
  serve, read_on, read, copy, RoundsFrom, end_of, ReadsFrom, end_of_all,
}

end_of-le : (t : ℕ) (rs : List Round) → RoundsFrom t rs → t ≤ end_of t rs
end_of-le t [] f = omega arith
end_of-le t (r ∷ rs) f = omega (arith, end_of-le (r.looks + r.delay) rs f.1)

end_of_all-le : (t : ℕ) (reads : List (List Round)) → ReadsFrom t reads → t ≤ end_of_all t reads
end_of_all-le t [] f = omega arith
end_of_all-le t (rs ∷ reads) f =
    omega (arith, end_of-le t rs f.0, end_of_all-le (end_of t rs) reads f.1)

module _ {ℓ} {A : Type ℓ} where
  take-drop :
      (size : ℕ) (out more : List A) → take size (drop (length out) (out ++ more)) ≡ take size more
  take-drop size [] more = refl
  take-drop size (x ∷ out) more = take-drop size out more

  -- A read gives no byte only where none is left.
  take_empty : (size : ℕ) (more : List A) → 0 < size → take size more ≡ [] → more ≡ []
  take_empty zero more h e = elim h [ ]
  take_empty (suc n) [] h e = refl
  take_empty (suc n) (x ∷ more) h e = cc

module _ (src : Source) (size : ℕ) (some_room : 0 < size) where
  -- What the reader has is the beginning of the file.
  abbrev IsPrefixAt : ℕ → List ℕ → Type 0
  IsPrefixAt t out = (more : List ℕ) × (src.content t ≡ out ++ more)

  prefix_later : (t t' : ℕ) (out : List ℕ) → t ≤ t' → IsPrefixAt t out → IsPrefixAt t' out
  prefix_later t t' out h (more, e) =
      let (m, g) = src.grows t t' h in (more ++ m, g ∙ ap (λ l. l ++ m) e ∙ append_assoc out more m)

  -- The bytes are the whole file, at a time and at every later one.
  abbrev IsWholeFrom : ℕ → List ℕ → Type 0
  IsWholeFrom t out = (u : ℕ) → t ≤ u → src.content u ≡ out

  -- What a result says of the file, given what the reader had.
  abbrev Told : ℕ → List ℕ → ReadResult → Type 0
  Told t out (chunk bytes) = IsPrefixAt t (out ++ bytes)
  Told t out end_of_file = (src.failure ≡ none) × IsWholeFrom t out
  Told t out (failed e) = (src.failure ≡ some e) × IsWholeFrom t out
  Told t out (read_error e) = IsPrefixAt t out
  Told t out (cancelled e) = IsPrefixAt t out
  Told t out waits = IsPrefixAt t out

  ending-Told :
      (t : ℕ) (out : List ℕ) (o : Option String)
      → src.failure ≡ o
      → IsWholeFrom t out
      → Told t out (ending o)
  unfolding ending
  ending-Told t out none e k = (e, k)
  ending-Told t out (some x) e k = (e, k)

  wait-Told :
      (t : ℕ) (out : List ℕ) (stopped : Option String) (rest : ReadResult)
      → IsPrefixAt t out
      → Told t out rest
      → Told t out (wait src stopped rest)
  wait-Told t out none rest p told = told
  wait-Told t out (some e) rest p told = p

  served :
      (fault stopped : Option String) (looks at end : ℕ) (bs out more : List ℕ) (rest : ReadResult)
      → looks ≤ at
      → at ≤ end
      → take size more ≡ bs
      → src.content at ≡ out ++ more
      → Told end out rest
      → Told end out (serve src fault stopped (src.finished looks) bs rest)
  unfolding serve
  served (some x) stopped looks at end bs out more rest h k b e told =
      prefix_later at end out k (more, e)
  served none stopped looks at end [] out more rest h k b e told =
      elim (Bool-cases (src.finished looks)) [
        | inl done ↦
            let whole : src.content at ≡ out =
              e ∙ ap (λ l. out ++ l) (take_empty size more some_room b) ∙ append-nil out in
            let kept : IsWholeFrom end out = λ u v.
              src.final looks u (omega arith) done ∙ sym (src.final looks at h done) ∙ whole in
            rw done (ending-Told end out src.failure refl kept)
        | inr writing ↦
            rw writing (wait-Told end out stopped rest (prefix_later at end out k (more, e)) told)
      ]
  served none stopped looks at end (x ∷ xs) out more rest h k b e told =
      let parts : more ≡ (x ∷ xs) ++ drop size more =
        sym (take-append-drop size more) ∙ ap (λ l. l ++ drop size more) b in
      prefix_later at end (out ++ x ∷ xs) k (
        drop size more,
        e ∙ ap (λ l. out ++ l) parts ∙ sym (append_assoc out (x ∷ xs) (drop size more)),
      )

  read_on-Told :
      (t : ℕ) (rs : List Round) (out : List ℕ)
      → RoundsFrom t rs
      → IsPrefixAt t out
      → Told (end_of t rs) out (read_on src rs size (length out))
  unfolding read_on
  read_on-Told t [] out f p = p
  read_on-Told t (r ∷ rs) out f p =
      let at = r.looks + r.delay in
      let (more, e) = prefix_later t at out (omega arith) p in
      let bytes : take size more ≡ take size (drop (length out) (src.content at)) =
        rw e (sym (take-drop size out more)) in
      served r.fault r.stopped r.looks at (end_of at rs) _ out more
        (read_on src rs size (length out)) (omega arith) (end_of-le at rs f.1) bytes e
        (read_on-Told at rs out f.1 (more, e))

  read-Told :
      (t : ℕ) (rs : List Round) (out : List ℕ)
      → RoundsFrom t rs
      → IsPrefixAt t out
      → Told (end_of t rs) out (read src rs size (length out))
  unfolding read
  read-Told t rs out f p =
      let room : (size == 0) ≡ false = ground (arith, some_room) in
      rw room (read_on-Told t rs out f p)

  Told-later : (t u : ℕ) (out : List ℕ) (r : ReadResult) → t ≤ u → Told t out r → Told u out r
  Told-later t u out (chunk bytes) h told = prefix_later t u (out ++ bytes) h told
  Told-later t u out end_of_file h (e, k) = (e, λ v w. k v (omega arith))
  Told-later t u out (failed x) h (e, k) = (e, λ v w. k v (omega arith))
  Told-later t u out (read_error x) h told = prefix_later t u out h told
  Told-later t u out (cancelled x) h told = prefix_later t u out h told
  Told-later t u out waits h told = prefix_later t u out h told

  -- One read, and the reads after it where it gives a chunk.
  copy-step :
      (t : ℕ) (rs : List Round) (reads : List (List Round)) (out : List ℕ) (r : ReadResult)
      → ReadsFrom t (rs ∷ reads)
      → read src rs size (length out) ≡ r
      → Told (end_of t rs) out r
      → ((bytes : List ℕ)
          → IsPrefixAt (end_of t rs) (out ++ bytes)
          → Told
              (end_of_all t (rs ∷ reads))
              (copy src reads size (out ++ bytes)).0
              (copy src reads size (out ++ bytes)).1)
      → Told
          (end_of_all t (rs ∷ reads))
          (copy src (rs ∷ reads) size out).0
          (copy src (rs ∷ reads) size out).1
  unfolding copy
  copy-step t rs reads out (chunk bytes) f e told go_on = rw (e, copy) (go_on bytes told)
  copy-step t rs reads out end_of_file f e told go_on =
      rw (e, copy) (Told-later _ _ out end_of_file (end_of_all-le (end_of t rs) reads f.1) told)
  copy-step t rs reads out (failed x) f e told go_on =
      rw (e, copy) (Told-later _ _ out (failed x) (end_of_all-le (end_of t rs) reads f.1) told)
  copy-step t rs reads out (read_error x) f e told go_on =
      rw (e, copy) (Told-later _ _ out (read_error x) (end_of_all-le (end_of t rs) reads f.1) told)
  copy-step t rs reads out (cancelled x) f e told go_on =
      rw (e, copy) (Told-later _ _ out (cancelled x) (end_of_all-le (end_of t rs) reads f.1) told)
  copy-step t rs reads out waits f e told go_on =
      rw (e, copy) (Told-later _ _ out waits (end_of_all-le (end_of t rs) reads f.1) told)

  copy-Told :
      (t : ℕ) (reads : List (List Round)) (out : List ℕ)
      → ReadsFrom t reads
      → IsPrefixAt t out
      → Told (end_of_all t reads) (copy src reads size out).0 (copy src reads size out).1
  unfolding copy
  copy-Told t [] out f p = p
  copy-Told t (rs ∷ reads) out f p =
      copy-step t rs reads out (read src rs size (length out)) f refl (read-Told t rs out f.0 p)
        (λ bytes q. copy-Told (end_of t rs) reads (out ++ bytes) f.1 q)

  -- A reader that follows a file while a transcode still writes it, reading with a buffer that is
  -- not empty, and that reaches the end of the file: the transcode did not fail, and the bytes
  -- that the reader copied are the whole file, at that time and later.
  pub copies_whole_file :
      (reads : List (List Round)) (t : ℕ)
      → ReadsFrom 0 reads
      → (copy src reads size []).1 ≡ end_of_file
      → end_of_all 0 reads ≤ t
      → (src.failure ≡ none) × (src.content t ≡ (copy src reads size []).0)
  copies_whole_file reads t f e h =
      let told =
        subst (Told (end_of_all 0 reads) (copy src reads size []).0) e
          (copy-Told 0 reads [] f (src.content 0, refl)) in
      (told.0, told.1 t h)
