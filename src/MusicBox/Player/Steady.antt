-- ===== src/MusicBox/Player/Steady.antt =====
-- internal/musicbox/player.go: the player's fields at each place of its loop. Here
-- the parts that end a track or choose one; the child has every step.
pub mod Run
use gang_chat_server.Base.{
  ℕ, ◌+◌, ◌≤◌, ◌<◌, String, Bool, true, false, if◌then◌else◌, ◌&&◌, ◌||◌, not, ◌==◌, ltb, ltb→lt,
  List, [], ◌∷◌, ◌++◌, Option, none, some, ◌≡◌, ◌≢◌, refl, sym, subst, arith, length, length-append,
  Bool-cases, Option-cases, if_either, inl, inr,
}
use gang_chat_server.MusicBox.Types.{QueueItem, PlaybackState}
use gang_chat_server.MusicBox.Advance.{Transition}
use gang_chat_server.MusicBox.Player.{
  CommandKind, Command, Player, Phase, idle, track, leaving, gone, PlayResult, Loop, Input,
  takes_command, reads_packet, reads_end, times_out, disconnects, wakes, puts, command_capacity,
  milliseconds, acknowledge, snapshot, send, notify, set_paused, set_current, set_priority_current,
  clear_current, disconnect, begin_item, select, move_on, after_track, result, ran_out,
  handle_playback_command, idle_command, finish, command_at, packet_at, packet_duration,
  take_command, step_at, step, run, run_from, acknowledge_in,
}

-- What the player's fields say at each place of the loop: whether it stopped, its current item, the
-- position, and whether it is done.
abbrev pub Agrees : Phase → Bool → Option QueueItem → ℕ → Bool → Type 0
Agrees idle s item ms d = (s ≡ false) × ((item ≡ none) × (ms ≡ 0))
Agrees (track it elapsed) s item ms d =
    (s ≡ false) × ((item ≡ some it) × (ms ≡ milliseconds elapsed))
Agrees leaving s item ms d = s ≡ false
Agrees gone s item ms d = (s ≡ true) × ((item ≡ none) × (d ≡ true))

-- And the command queue has no more than it has room for.
abbrev pub IsSteady : {S : Type 0} → Loop S → Type 0
IsSteady l =
    Agrees l.phase l.player.stopped l.player.current l.player.position_ms l.player.done
    × (length l.player.cmd ≤ command_capacity)

-- The player runs.
abbrev pub IsUp : {S : Type 0} → Loop S → Type 0
IsUp l = (l.player.stopped ≡ false) × (length l.player.cmd ≤ command_capacity)

pub send-bound : (c : Command) (p : Player) → length p.cmd ≤ 8 → length (send c p).0.cmd ≤ 8
unfolding send
send-bound c p h = elim (Bool-cases p.stopped) [
  | inl s ↦ rw s h
  | inr s ↦ elim (Bool-cases (ltb (length p.cmd) 8)) [
    | inl k ↦ rw (s, k) (ground (arith, length-append p.cmd (c ∷ []), ltb→lt (length p.cmd) 8 k))
    | inr k ↦ rw (s, k) h
  ]
]

pub send-Agrees :
    (ph : Phase) (c : Command) (p : Player)
    → Agrees ph p.stopped p.current p.position_ms p.done
    → let q = (send c p).0 in Agrees ph q.stopped q.current q.position_ms q.done
unfolding send
send-Agrees ph c p h =
    if_either (λ (r : Player × Bool). Agrees ph r.0.stopped r.0.current r.0.position_ms r.0.done)
      p.stopped h
      (if_either (λ (r : Player × Bool). Agrees ph r.0.stopped r.0.current r.0.position_ms r.0.done)
        (ltb (length p.cmd) 8) h h)

pub acknowledge-IsSteady :
    {S : Type 0} (a : Option ℕ) (l : Loop S) → IsSteady l → IsSteady (acknowledge_in a l)
unfolding acknowledge
acknowledge-IsSteady none l h = h
acknowledge-IsSteady (some a) l h = h

pub acknowledge-IsUp : {S : Type 0} (a : Option ℕ) (l : Loop S) → IsUp l → IsUp (acknowledge_in a l)
unfolding acknowledge
acknowledge-IsUp none l h = h
acknowledge-IsUp (some a) l h = h

module _ {S : Type 0} (advance : S → Option QueueItem → Transition → ℕ → S × Option QueueItem)
    (on_state on_priority_state : Player → S → S) where
  clear_current-lem :
      (l : Loop S)
      → IsUp l
      → let p = (clear_current advance on_state on_priority_state l).player in
        (p.stopped ≡ false) × ((p.current ≡ none) × ((p.position_ms ≡ 0) × (length p.cmd ≤ 8)))
  unfolding clear_current notify
  clear_current-lem l h = elim (Option-cases l.player.current) [
    | inl e ↦ elim (Bool-cases (l.player.position_ms == 0)) [
      | inl z ↦ rw (e, z) (h.0, (refl, (refl, h.1)))
      | inr z ↦ rw (e, z) (h.0, (refl, (refl, h.1)))
    ]
    | inr (item, e) ↦ rw e (h.0, (refl, (refl, h.1)))
  ]

  pub set_paused-IsSteady :
      (v : Bool) (l : Loop S)
      → IsSteady l
      → IsSteady (set_paused advance on_state on_priority_state v l)
  unfolding set_paused notify
  set_paused-IsSteady v l h =
      elim (Bool-cases ((l.player.paused && not v) || (not l.player.paused && v))) [
        | inl e ↦ rw e h
        | inr e ↦ rw e h
      ]

  begin_item-IsSteady :
      (o : Option QueueItem) (l : Loop S)
      → IsUp l
      → IsSteady (begin_item advance on_state on_priority_state o l)
  unfolding begin_item set_current notify
  begin_item-IsSteady none l h = let c = clear_current-lem l h in ((c.0, (c.1.0, c.1.1.0)), c.1.1.1)
  begin_item-IsSteady (some item) l h = ((h.0, (refl, refl)), h.1)

  pub select-IsSteady :
      (l : Loop S) → IsUp l → IsSteady (select advance on_state on_priority_state l)
  unfolding select
  select-IsSteady l h = begin_item-IsSteady _ (record l { manager = _ }) h

  move_on-IsSteady :
      (a : Option ℕ) (o : Option QueueItem) (l : Loop S)
      → IsUp l
      → IsSteady (move_on advance on_state on_priority_state a o l)
  unfolding move_on set_current notify
  move_on-IsSteady a none l h =
      let c = clear_current-lem l h in
      let l' = clear_current advance on_state on_priority_state l in
      select-IsSteady (acknowledge_in a l') (acknowledge-IsUp a l' (c.0, c.1.1.1))
  move_on-IsSteady a (some item) l h =
      acknowledge-IsSteady a
        (record (set_current advance on_state on_priority_state item l) { phase = track item 0 })
        ((h.0, (refl, refl)), h.1)

  pub after_track-IsSteady :
      (item : QueueItem) (r : PlayResult) (l : Loop S)
      → IsUp l
      → IsSteady (after_track advance on_state on_priority_state item r l)
  unfolding after_track set_priority_current
  after_track-IsSteady item r l h = elim (Bool-cases r.stop) [
    | inl s ↦ rw s (acknowledge-IsSteady r.ack (record l { phase = leaving }) h)
    | inr s ↦ elim (Option-cases r.priority) [
      | inl e ↦ rw (s, e) (move_on-IsSteady r.ack _ (record l { manager = _ }) h)
      | inr (next, e) ↦
          rw (s, e)
            (acknowledge-IsSteady r.ack
              (record (set_priority_current advance on_state on_priority_state next l) {
                phase = track next 0;
              })
              ((h.0, (refl, refl)), h.1))
    ]
  ]
