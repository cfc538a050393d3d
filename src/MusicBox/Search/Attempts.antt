-- ===== src/MusicBox/Search/Attempts.antt =====
-- internal/musicbox/search_resilience.go, the attempts of `run`: one after another, until one finds
-- something, a wait is cut short, or none is left.
use gang_chat_server.Base.{
  ℕ, zero, suc, ◌+◌, ◌≤◌, ◌<◌, Bool, true, false, ◌≡◌, refl, ap, ◌==◌, arith, Bool-cases, inl, inr,
}
use gang_chat_server.MusicBox.Search.{Outcome, is_success, attempts}

module _ {T : Type 0} where
  -- Where one of the attempts within the retries finds something, none before it does and no wait
  -- before it is cut short, the call gives what that attempt found.
  pub attempts-first_success :
      (fetch : ℕ → Outcome T) (waits : ℕ → Bool) (left n i : ℕ)
      → n ≤ i
      → i ≤ n + left
      → is_success (fetch i) ≡ true
      → ((j : ℕ) → n ≤ j → j < i → (is_success (fetch j) ≡ false) × (waits j ≡ true))
      → attempts fetch waits left n ≡ fetch i
  unfolding attempts
  attempts-first_success fetch waits zero n i h k ok before = ap fetch (omega arith)
  attempts-first_success fetch waits (suc left) n i h k ok before = elim (Bool-cases (n == i)) [
    | inl here ↦ let same : n ≡ i = ground arith in rw (same, ok) refl
    | inr later ↦
        let (bad, waited) = before n (omega arith) (ground arith) in
        rw (bad, waited)
          (attempts-first_success fetch waits left (suc n) i (ground arith) (omega arith) ok
            (λ j l. before j (omega arith)))
  ]
