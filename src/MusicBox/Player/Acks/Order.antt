-- ===== src/MusicBox/Player/Acks/Order.antt =====
-- internal/musicbox/player.go: the order in which the commands' channels are closed; a second close of
-- one would panic.
use gang_chat_server.Base.{
  ℕ, ◌+◌, ◌≤◌, ◌<◌, Bool, true, not, ltb, List, [], ◌∷◌, ◌++◌, Option, none, some, ◌≡◌, refl, subst,
  arith, length, Option-cases, if_either, inl, inr,
}
use gang_chat_server.MusicBox.Types.{QueueItem}
use gang_chat_server.MusicBox.Advance.{Transition}
use gang_chat_server.MusicBox.Player.{
  CommandKind, Command, Player, Phase, idle, track, leaving, gone, PlayResult, Loop, Input,
  takes_command, reads_packet, reads_end, times_out, disconnects, wakes, puts, send, notify,
  disconnect, select, after_track, result, ran_out, handle_playback_command, idle_command, finish,
  command_at, packet_at, take_command, step_at, step, run, run_from,
}
use gang_chat_server.MusicBox.Player.Acks.{
  closed, Closes, Closes-select, Closes-after_track, Closes-idle_command, Closes-handled,
}

-- Each acknowledgement is of a later command than the one closed before it.
abbrev pub IsDescending : ℕ → List ℕ → Type 0
IsDescending n [] = Unit
IsDescending n (a ∷ older) = (a < n) × IsDescending a older

-- The commands that wait, from one number to another.
abbrev Ascends : ℕ → List Command → ℕ → Type 0
Ascends lo [] hi = lo ≤ hi
Ascends lo (c ∷ cs) hi = elim c.ack [
  | none ↦ Ascends lo cs hi
  | some a ↦ (lo ≤ a) × Ascends (a + 1) cs hi
]

abbrev pub IsOrdered : {S : Type 0} → Loop S → Type 0
IsOrdered l = (mid : ℕ) × (IsDescending mid l.player.acked × Ascends mid l.player.cmd l.next_ack)

lower : {mid a : ℕ} (older : List ℕ) → mid ≤ a → IsDescending mid older → IsDescending a older
lower [] h d = d
lower (x ∷ older) h d = (omega arith, d.1)

-- The head of the queue is taken, and its acknowledgement closed.
close-head :
    (c : Command) (cs : List Command) (older : List ℕ) (mid hi : ℕ)
    → IsDescending mid older
    → Ascends mid (c ∷ cs) hi
    → (mid' : ℕ) × (IsDescending mid' (closed c.ack older) × Ascends mid' cs hi)
close-head c cs older mid hi = elim (Option-cases c.ack) [
  | inl e ↦ rw e (λ d a. (mid, (d, a)))
  | inr (a, e) ↦ rw e (λ d asc. (a + 1, ((omega arith, lower older asc.0 d), asc.1)))
]

Ascends-top : (lo hi hi' : ℕ) (cs : List Command) → hi ≤ hi' → Ascends lo cs hi → Ascends lo cs hi'
Ascends-top lo hi hi' [] h = λ a. omega arith
Ascends-top lo hi hi' (c ∷ cs) h = elim (Option-cases c.ack) [
  | inl e ↦ rw e (Ascends-top lo hi hi' cs h)
  | inr (a, e) ↦ rw e (λ asc. (asc.0, Ascends-top (a + 1) hi hi' cs h asc.1))
]

Ascends-le : (lo hi : ℕ) (cs : List Command) → Ascends lo cs hi → lo ≤ hi
Ascends-le lo hi [] = λ h. h
Ascends-le lo hi (c ∷ cs) = elim (Option-cases c.ack) [
  | inl e ↦ rw e (Ascends-le lo hi cs)
  | inr (a, e) ↦ rw e (λ asc. omega (arith, Ascends-le (a + 1) hi cs asc.1, asc.0))
]

-- A command that may join the queue: it has no acknowledgement, or the next number.
abbrev Joins : Option ℕ → ℕ → ℕ → Type 0
Joins none hi hi' = hi ≤ hi'
Joins (some a) hi hi' = (a ≡ hi) × (hi + 1 ≤ hi')

Ascends-join :
    (lo hi hi' : ℕ) (cs : List Command) (c : Command)
    → Joins c.ack hi hi'
    → Ascends lo cs hi
    → Ascends lo (cs ++ c ∷ []) hi'
Ascends-join lo hi hi' [] c = elim (Option-cases c.ack) [
  | inl e ↦ rw e (λ j a. omega arith)
  | inr (n, e) ↦ rw e (λ j a. (omega (arith, j.0), omega (arith, j.0, j.1)))
]
Ascends-join lo hi hi' (d ∷ cs) c = elim (Option-cases d.ack) [
  | inl e ↦ rw e (Ascends-join lo hi hi' cs c)
  | inr (a, e) ↦ rw e (λ j asc. (asc.0, Ascends-join (a + 1) hi hi' cs c j asc.1))
]

Joins-le : (o : Option ℕ) (hi hi' : ℕ) → Joins o hi hi' → hi ≤ hi'
Joins-le none hi hi' j = j
Joins-le (some a) hi hi' j = omega (arith, j.1)

send-Ascends :
    (c : Command) (p : Player) (lo hi hi' : ℕ)
    → Joins c.ack hi hi'
    → IsDescending lo p.acked
    → Ascends lo p.cmd hi
    → let q = (send c p).0 in IsDescending lo q.acked × Ascends lo q.cmd hi'
unfolding send
send-Ascends c p lo hi hi' j d a =
    let stays : IsDescending lo p.acked × Ascends lo p.cmd hi' =
      (d, Ascends-top lo hi hi' p.cmd (Joins-le c.ack hi hi' j) a) in
    if_either (λ (r : Player × Bool). IsDescending lo r.0.acked × Ascends lo r.0.cmd hi') p.stopped
      stays
      (if_either (λ (r : Player × Bool). IsDescending lo r.0.acked × Ascends lo r.0.cmd hi')
        (ltb (length p.cmd) 8) (d, Ascends-join lo hi hi' p.cmd c j a) stays)

module _ {S : Type 0} (advance : S → Option QueueItem → Transition → ℕ → S × Option QueueItem)
    (on_state on_priority_state : Player → S → S) where
  -- A part of the loop that closes one acknowledgement, after the head of the queue was taken.
  head-IsOrdered :
      (c : Command) (cs : List Command) (l l' : Loop S)
      → l.player.cmd ≡ c ∷ cs
      → Closes c.ack (record l { player = record l.player { cmd = cs } }) l'
      → IsOrdered l
      → IsOrdered l'
  head-IsOrdered c cs l l' e (f, (g, h)) (mid, (d, a)) =
      let (mid', (d', a')) =
        close-head c cs l.player.acked mid l.next_ack d
          (subst (λ xs. Ascends mid xs l.next_ack) e a) in
      (mid', (rw f d', rw (g, h) a'))

  -- A part of the loop that closes none.
  none-IsOrdered : (l l' : Loop S) → Closes none l l' → IsOrdered l → IsOrdered l'
  none-IsOrdered l l' (f, (g, h)) (mid, (d, a)) = (mid, (rw f d, rw (g, h) a))

  take_command-IsOrdered :
      (p : Phase) (cs : List Command) (l : Loop S)
      → l.player.cmd ≡ cs
      → IsOrdered l
      → IsOrdered (take_command advance on_state on_priority_state p cs l)
  unfolding take_command command_at
  take_command-IsOrdered p [] l e h = h
  take_command-IsOrdered leaving (c ∷ cs) l e h = h
  take_command-IsOrdered gone (c ∷ cs) l e h = h
  take_command-IsOrdered idle (c ∷ cs) l e h =
      let l' = record l { player = record l.player { cmd = cs } } in
      head-IsOrdered c cs l (idle_command advance on_state on_priority_state c.kind c.ack c.item l')
        e (Closes-idle_command advance on_state on_priority_state c.kind c.ack c.item l') h
  take_command-IsOrdered (track item elapsed) (c ∷ cs) l e h =
      let l' = record l { player = record l.player { cmd = cs } } in
      head-IsOrdered c cs l
        (finish advance on_state on_priority_state item (
          handle_playback_command advance on_state on_priority_state c.kind c.ack c.item elapsed
            l'))
        e (Closes-handled advance on_state on_priority_state item c.kind c.ack c.item elapsed l') h

  ran_out-IsOrdered :
      (item : QueueItem) (r : PlayResult) (l : Loop S)
      → r.ack ≡ none
      → IsOrdered l
      → IsOrdered (after_track advance on_state on_priority_state item r l)
  ran_out-IsOrdered item r l e =
      none-IsOrdered l (after_track advance on_state on_priority_state item r l) (
        subst (λ a. Closes a l (after_track advance on_state on_priority_state item r l)) e
          (Closes-after_track advance on_state on_priority_state item r l))

  packet_at-IsOrdered :
      (item : QueueItem) (elapsed : ℕ) (duration : Option ℕ) (written : Bool) (l : Loop S)
      → IsOrdered l
      → IsOrdered (packet_at advance on_state on_priority_state item elapsed duration written l)
  unfolding packet_at
  packet_at-IsOrdered item elapsed duration written l h = if_either IsOrdered l.player.paused h (
      if_either IsOrdered (not l.player.connected)
        (ran_out-IsOrdered item (result true Transition.natural elapsed none none) l refl h)
        (if_either IsOrdered written h (ran_out-IsOrdered item (ran_out elapsed) l refl h)))

  sent-IsOrdered :
      (c : Command) (n : ℕ) (l : Loop S)
      → Joins c.ack l.next_ack n
      → IsOrdered l
      → IsOrdered (record l { player = (send c l.player).0; next_ack = n })
  sent-IsOrdered c n l o (mid, (d, a)) = (mid, send-Ascends c l.player mid l.next_ack n o d a)

  step_at-IsOrdered :
      (p : Phase) (input : Input) (l : Loop S)
      → IsOrdered l
      → IsOrdered (step_at advance on_state on_priority_state p input l)
  unfolding step_at disconnect notify
  step_at-IsOrdered p takes_command l h = take_command-IsOrdered p l.player.cmd l refl h
  step_at-IsOrdered p wakes l h =
      sent-IsOrdered (record { kind = CommandKind.wake; ack = none; item = none }) l.next_ack l
        (omega arith) h
  step_at-IsOrdered p (puts k o) l h =
      sent-IsOrdered (record { kind = k; ack = some l.next_ack; item = o }) (l.next_ack + 1) l
        (refl, omega arith) h
  step_at-IsOrdered (track item elapsed) (reads_packet duration written) l h =
      packet_at-IsOrdered item elapsed duration written l h
  step_at-IsOrdered (track item elapsed) reads_end l h =
      if_either IsOrdered l.player.paused h (ran_out-IsOrdered item (ran_out elapsed) l refl h)
  step_at-IsOrdered idle times_out l h = h
  step_at-IsOrdered leaving disconnects l h = h
  step_at-IsOrdered idle (reads_packet duration written) l h = h
  step_at-IsOrdered idle reads_end l h = h
  step_at-IsOrdered idle disconnects l h = h
  step_at-IsOrdered (track item elapsed) times_out l h = h
  step_at-IsOrdered (track item elapsed) disconnects l h = h
  step_at-IsOrdered leaving (reads_packet duration written) l h = h
  step_at-IsOrdered leaving reads_end l h = h
  step_at-IsOrdered leaving times_out l h = h
  step_at-IsOrdered gone (reads_packet duration written) l h = h
  step_at-IsOrdered gone reads_end l h = h
  step_at-IsOrdered gone times_out l h = h
  step_at-IsOrdered gone disconnects l h = h

  run-IsOrdered :
      (inputs : List Input) (l : Loop S)
      → IsOrdered l
      → IsOrdered (run advance on_state on_priority_state inputs l)
  unfolding run step
  run-IsOrdered [] l h = h
  run-IsOrdered (input ∷ inputs) l h =
      run-IsOrdered inputs (step advance on_state on_priority_state input l)
        (step_at-IsOrdered l.phase input l h)

  -- Whatever a player that starts without an item, a command or an acknowledgement gets, the
  -- commands it acknowledges are acknowledged in the order in which they were put, each at most
  -- once: no acknowledgement channel is closed twice.
  pub run-acks_in_order :
      (inputs : List Input) (l l' : Loop S)
      → l.player.acked ≡ []
      → l.player.cmd ≡ []
      → run advance on_state on_priority_state inputs
          (run_from advance on_state on_priority_state none l)
        ≡ l'
      → IsDescending l'.next_ack l'.player.acked
  unfolding run_from
  run-acks_in_order inputs l l' no_acks empty e =
      let start : IsOrdered l = (0, (rw no_acks tt, rw empty (omega arith))) in
      let first =
        none-IsOrdered l (select advance on_state on_priority_state l)
          (Closes-select advance on_state on_priority_state l) start in
      let (mid, (d, a)) =
        subst IsOrdered e
          (run-IsOrdered inputs (select advance on_state on_priority_state l) first) in
      lower l'.player.acked (Ascends-le mid l'.next_ack l'.player.cmd a) d
