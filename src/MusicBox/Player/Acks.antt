-- ===== src/MusicBox/Player/Acks.antt =====
-- internal/musicbox/player.go, `acknowledge`: which part of the loop closes which acknowledgement.
pub mod Order
use gang_chat_server.Base.{
  ℕ, ◌+◌, ◌≤◌, ◌<◌, String, Bool, true, false, if◌then◌else◌, ◌&&◌, ◌||◌, not, ◌==◌, ap, ◌∙◌, ltb,
  ltb→lt, List, [], ◌∷◌, ◌++◌, Option, none, some, ◌≡◌, ◌≢◌, refl, sym, subst, arith, length,
  length-append, Bool-cases, Option-cases, if_either, inl, inr,
}
use gang_chat_server.MusicBox.Types.{QueueItem, PlaybackState}
use gang_chat_server.MusicBox.Advance.{Transition}
use gang_chat_server.MusicBox.Player.{
  CommandKind, Command, Player, Phase, idle, track, leaving, gone, PlayResult, Loop, Input,
  takes_command, reads_packet, reads_end, times_out, disconnects, wakes, puts, command_capacity,
  milliseconds, acknowledge, snapshot, send, notify, set_paused, set_current, set_priority_current,
  clear_current, disconnect, begin_item, select, move_on, after_track, result, ran_out,
  handle_playback_command, idle_command, finish, command_at, packet_at, packet_duration,
  take_command, step_at, step, run, run_from, acknowledge_in,
}

abbrev pub closed : Option ℕ → List ℕ → List ℕ
closed none older = older
closed (some a) older = a ∷ older

-- A part of the loop closes one acknowledgement, and leaves the commands that wait.
abbrev pub Closes : {S : Type 0} → Option ℕ → Loop S → Loop S → Type 0
Closes a l l' =
    (l'.player.acked ≡ closed a l.player.acked)
    × ((l'.player.cmd ≡ l.player.cmd) × (l'.next_ack ≡ l.next_ack))

Closes-acknowledge : {S : Type 0} (a : Option ℕ) (l : Loop S) → Closes a l (acknowledge_in a l)
unfolding acknowledge
Closes-acknowledge none l = (refl, (refl, refl))
Closes-acknowledge (some a) l = (refl, (refl, refl))

Closes-then :
    {S : Type 0} (a : Option ℕ) (l l' l'' : Loop S)
    → Closes none l l'
    → Closes a l' l''
    → Closes a l l''
Closes-then a l l' l'' (e, (f, g)) (e', (f', g')) = (e' ∙ ap (closed a) e, (f' ∙ f, g' ∙ g))

Closes-first :
    {S : Type 0} (a : Option ℕ) (l l' l'' : Loop S)
    → Closes a l l'
    → Closes none l' l''
    → Closes a l l''
Closes-first a l l' l'' (e, (f, g)) (e', (f', g')) = (e' ∙ e, (f' ∙ f, g' ∙ g))

module _ {S : Type 0} (advance : S → Option QueueItem → Transition → ℕ → S × Option QueueItem)
    (on_state on_priority_state : Player → S → S) where
  Closes-clear_current :
      (l : Loop S) → Closes none l (clear_current advance on_state on_priority_state l)
  unfolding clear_current notify
  Closes-clear_current l = elim (Option-cases l.player.current) [
    | inl e ↦ rw e (
        if_either (Closes none l) (l.player.position_ms == 0) (refl, (refl, refl))
          (refl, (refl, refl)))
    | inr (item, e) ↦ rw e (refl, (refl, refl))
  ]

  Closes-set_paused :
      (v : Bool) (l : Loop S) → Closes none l (set_paused advance on_state on_priority_state v l)
  unfolding set_paused notify
  Closes-set_paused v l =
      if_either (Closes none l) ((l.player.paused && not v) || (not l.player.paused && v))
        (refl, (refl, refl)) (refl, (refl, refl))

  Closes-begin_item :
      (o : Option QueueItem) (l : Loop S)
      → Closes none l (begin_item advance on_state on_priority_state o l)
  unfolding begin_item set_current notify
  Closes-begin_item none l = Closes-clear_current l
  Closes-begin_item (some item) l = (refl, (refl, refl))

  pub Closes-select : (l : Loop S) → Closes none l (select advance on_state on_priority_state l)
  unfolding select
  Closes-select l = Closes-begin_item _ (record l { manager = _ })

  Closes-move_on :
      (a : Option ℕ) (o : Option QueueItem) (l : Loop S)
      → Closes a l (move_on advance on_state on_priority_state a o l)
  unfolding move_on set_current notify
  Closes-move_on a none l =
      let l' = clear_current advance on_state on_priority_state l in
      let l'' = acknowledge_in a l' in
      Closes-then a l l' (select advance on_state on_priority_state l'') (Closes-clear_current l) (
        Closes-first a l' l'' (select advance on_state on_priority_state l'')
          (Closes-acknowledge a l') (Closes-select l''))
  Closes-move_on a (some item) l =
      Closes-acknowledge a (set_current advance on_state on_priority_state item l)

  pub Closes-after_track :
      (item : QueueItem) (r : PlayResult) (l : Loop S)
      → Closes r.ack l (after_track advance on_state on_priority_state item r l)
  unfolding after_track set_priority_current
  Closes-after_track item r l =
      if_either (Closes r.ack l) r.stop (Closes-acknowledge r.ack l)
        (elim (Option-cases r.priority) [
          | inl e ↦ rw e (Closes-move_on r.ack _ (record l { manager = _ }))
          | inr (next, e) ↦ rw e (
              Closes-acknowledge r.ack
                (set_priority_current advance on_state on_priority_state next l))
        ])

  selects :
      (a : Option ℕ) (l : Loop S)
      → Closes a l (select advance on_state on_priority_state (acknowledge_in a l))
  selects a l =
      Closes-first a l (acknowledge_in a l)
        (select advance on_state on_priority_state (acknowledge_in a l)) (Closes-acknowledge a l)
        (Closes-select (acknowledge_in a l))

  pub Closes-idle_command :
      (k : CommandKind) (a : Option ℕ) (o : Option QueueItem) (l : Loop S)
      → Closes a l (idle_command advance on_state on_priority_state k a o l)
  unfolding idle_command set_priority_current
  Closes-idle_command CommandKind.stop a o l = Closes-acknowledge a l
  Closes-idle_command CommandKind.play_now a (some item) l =
      selects a (set_priority_current advance on_state on_priority_state item l)
  Closes-idle_command CommandKind.play_now a none l = selects a l
  Closes-idle_command CommandKind.skip a o l = selects a l
  Closes-idle_command CommandKind.previous a o l = selects a l
  Closes-idle_command CommandKind.pause a o l = selects a l
  Closes-idle_command CommandKind.resume a o l = selects a l
  Closes-idle_command CommandKind.wake a o l = selects a l

  pub Closes-handled :
      (item : QueueItem) (k : CommandKind) (a : Option ℕ) (o : Option QueueItem) (elapsed : ℕ)
      (l : Loop S)
      → Closes a l (
          finish advance on_state on_priority_state item
            (handle_playback_command advance on_state on_priority_state k a o elapsed l))
  unfolding handle_playback_command finish
  Closes-handled item CommandKind.stop a o elapsed l =
      Closes-after_track item (result true Transition.natural elapsed a none) l
  Closes-handled item CommandKind.skip a o elapsed l =
      Closes-after_track item (result false Transition.next elapsed a none) l
  Closes-handled item CommandKind.previous a o elapsed l =
      Closes-after_track item (result false Transition.previous elapsed a none) l
  Closes-handled item CommandKind.play_now a (some next) elapsed l =
      Closes-after_track item (result false Transition.natural elapsed a (some next)) l
  Closes-handled item CommandKind.play_now a none elapsed l = Closes-acknowledge a l
  Closes-handled item CommandKind.pause a o elapsed l =
      let l' = set_paused advance on_state on_priority_state true l in
      Closes-then a l l' (acknowledge_in a l') (Closes-set_paused true l) (Closes-acknowledge a l')
  Closes-handled item CommandKind.resume a o elapsed l =
      let l' = set_paused advance on_state on_priority_state false l in
      Closes-then a l l' (acknowledge_in a l') (Closes-set_paused false l) (Closes-acknowledge a l')
  Closes-handled item CommandKind.wake a o elapsed l = Closes-acknowledge a l
