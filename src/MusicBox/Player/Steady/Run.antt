-- ===== src/MusicBox/Player/Steady/Run.antt =====
-- internal/musicbox/player.go: every step of the loop, and what a snapshot says.
use gang_chat_server.Base.{
  ℕ, ◌+◌, ◌≤◌, String, Bool, true, false, ◌&&◌, ◌||◌, not, List, [], ◌∷◌, Option, none, some, ◌≡◌,
  ◌≢◌, refl, sym, subst, arith, length, Bool-cases, if_either, inl, inr,
}
use gang_chat_server.MusicBox.Types.{QueueItem, PlaybackState}
use gang_chat_server.MusicBox.Advance.{Transition}
use gang_chat_server.MusicBox.Player.{
  CommandKind, Command, Player, Phase, idle, track, leaving, gone, PlayResult, Loop, Input,
  takes_command, reads_packet, reads_end, times_out, disconnects, wakes, puts, milliseconds,
  snapshot, send, notify, set_paused, set_priority_current, disconnect, result, ran_out,
  handle_playback_command, idle_command, finish, command_at, packet_at, take_command, step_at, step,
  run, run_from, acknowledge_in,
}
use gang_chat_server.MusicBox.Player.Steady.{
  Agrees, IsSteady, IsUp, send-bound, send-Agrees, acknowledge-IsSteady, acknowledge-IsUp,
  set_paused-IsSteady, select-IsSteady, after_track-IsSteady,
}

module _ {S : Type 0} (advance : S → Option QueueItem → Transition → ℕ → S × Option QueueItem)
    (on_state on_priority_state : Player → S → S) where
  finish-IsSteady :
      (item : QueueItem) (r : Loop S × Option PlayResult)
      → IsUp r.0
      → (r.1 ≡ none → IsSteady r.0)
      → IsSteady (finish advance on_state on_priority_state item r)
  unfolding finish
  finish-IsSteady item (l, none) up h = h refl
  finish-IsSteady item (l, some r) up h =
      after_track-IsSteady advance on_state on_priority_state item r l up

  set_paused-IsUp :
      (v : Bool) (l : Loop S) → IsUp l → IsUp (set_paused advance on_state on_priority_state v l)
  unfolding set_paused notify
  set_paused-IsUp v l h =
      if_either IsUp ((l.player.paused && not v) || (not l.player.paused && v)) h h

  handled-IsUp :
      (k : CommandKind) (a : Option ℕ) (o : Option QueueItem) (elapsed : ℕ) (l : Loop S)
      → IsUp l
      → IsUp (handle_playback_command advance on_state on_priority_state k a o elapsed l).0
  unfolding handle_playback_command
  handled-IsUp CommandKind.stop a o elapsed l h = h
  handled-IsUp CommandKind.skip a o elapsed l h = h
  handled-IsUp CommandKind.previous a o elapsed l h = h
  handled-IsUp CommandKind.play_now a (some item) elapsed l h = h
  handled-IsUp CommandKind.play_now a none elapsed l h = acknowledge-IsUp a l h
  handled-IsUp CommandKind.pause a o elapsed l h =
      acknowledge-IsUp a (set_paused advance on_state on_priority_state true l)
        (set_paused-IsUp true l h)
  handled-IsUp CommandKind.resume a o elapsed l h =
      acknowledge-IsUp a (set_paused advance on_state on_priority_state false l)
        (set_paused-IsUp false l h)
  handled-IsUp CommandKind.wake a o elapsed l h = acknowledge-IsUp a l h

  handled-IsSteady :
      (k : CommandKind) (a : Option ℕ) (o : Option QueueItem) (elapsed : ℕ) (l : Loop S)
      → IsSteady l
      → IsSteady (handle_playback_command advance on_state on_priority_state k a o elapsed l).0
  unfolding handle_playback_command
  handled-IsSteady CommandKind.stop a o elapsed l h = h
  handled-IsSteady CommandKind.skip a o elapsed l h = h
  handled-IsSteady CommandKind.previous a o elapsed l h = h
  handled-IsSteady CommandKind.play_now a (some item) elapsed l h = h
  handled-IsSteady CommandKind.play_now a none elapsed l h = acknowledge-IsSteady a l h
  handled-IsSteady CommandKind.pause a o elapsed l h =
      acknowledge-IsSteady a (set_paused advance on_state on_priority_state true l)
        (set_paused-IsSteady advance on_state on_priority_state true l h)
  handled-IsSteady CommandKind.resume a o elapsed l h =
      acknowledge-IsSteady a (set_paused advance on_state on_priority_state false l)
        (set_paused-IsSteady advance on_state on_priority_state false l h)
  handled-IsSteady CommandKind.wake a o elapsed l h = acknowledge-IsSteady a l h

  idle_command-IsSteady :
      (k : CommandKind) (a : Option ℕ) (o : Option QueueItem) (l : Loop S)
      → IsUp l
      → IsSteady (idle_command advance on_state on_priority_state k a o l)
  unfolding idle_command set_priority_current
  idle_command-IsSteady CommandKind.stop a o l h =
      acknowledge-IsSteady a (record l { phase = leaving }) h
  idle_command-IsSteady CommandKind.play_now a (some item) l h =
      let l' = set_priority_current advance on_state on_priority_state item l in
      select-IsSteady advance on_state on_priority_state (acknowledge_in a l')
        (acknowledge-IsUp a l' h)
  idle_command-IsSteady CommandKind.play_now a none l h =
      select-IsSteady advance on_state on_priority_state (acknowledge_in a l)
        (acknowledge-IsUp a l h)
  idle_command-IsSteady CommandKind.skip a o l h =
      select-IsSteady advance on_state on_priority_state (acknowledge_in a l)
        (acknowledge-IsUp a l h)
  idle_command-IsSteady CommandKind.previous a o l h =
      select-IsSteady advance on_state on_priority_state (acknowledge_in a l)
        (acknowledge-IsUp a l h)
  idle_command-IsSteady CommandKind.pause a o l h =
      select-IsSteady advance on_state on_priority_state (acknowledge_in a l)
        (acknowledge-IsUp a l h)
  idle_command-IsSteady CommandKind.resume a o l h =
      select-IsSteady advance on_state on_priority_state (acknowledge_in a l)
        (acknowledge-IsUp a l h)
  idle_command-IsSteady CommandKind.wake a o l h =
      select-IsSteady advance on_state on_priority_state (acknowledge_in a l)
        (acknowledge-IsUp a l h)

  -- The phase, and the queue, stand beside the loop that has them.
  AgreesAt : Phase → Loop S → Type 0
  AgreesAt p l = Agrees p l.player.stopped l.player.current l.player.position_ms l.player.done

  take_command-IsSteady :
      (p : Phase) (cs : List Command) (l : Loop S)
      → AgreesAt p l
      → length cs ≤ 8
      → IsSteady l
      → IsSteady (take_command advance on_state on_priority_state p cs l)
  unfolding take_command command_at AgreesAt
  take_command-IsSteady p [] l at b h = h
  take_command-IsSteady leaving (c ∷ cs) l at b h = h
  take_command-IsSteady gone (c ∷ cs) l at b h = h
  take_command-IsSteady idle (c ∷ cs) l at b h =
      idle_command-IsSteady c.kind c.ack c.item (record l { player = record l.player { cmd = cs } })
        (at.0, omega arith)
  take_command-IsSteady (track item elapsed) (c ∷ cs) l at b h =
      let l' = record l { player = record l.player { cmd = cs } } in
      finish-IsSteady item
        (handle_playback_command advance on_state on_priority_state c.kind c.ack c.item elapsed l')
        (handled-IsUp c.kind c.ack c.item elapsed l' (at.0, omega arith))
        (λ e. handled-IsSteady c.kind c.ack c.item elapsed l' (h.0, omega arith))

  packet_at-IsSteady :
      (item : QueueItem) (elapsed : ℕ) (duration : Option ℕ) (written : Bool) (l : Loop S)
      → AgreesAt (track item elapsed) l
      → IsSteady l
      → IsSteady (packet_at advance on_state on_priority_state item elapsed duration written l)
  unfolding packet_at AgreesAt
  packet_at-IsSteady item elapsed duration written l at h =
      let up : IsUp l = (at.0, h.1) in
      if_either IsSteady l.player.paused h (
        if_either IsSteady (not l.player.connected)
          (after_track-IsSteady advance on_state on_priority_state item
            (result true Transition.natural elapsed none none) l up)
          (if_either IsSteady written ((at.0, (at.1.0, refl)), h.1)
            (after_track-IsSteady advance on_state on_priority_state item (ran_out elapsed) l up)))

  sent-IsSteady :
      (c : Command) (n : ℕ) (l : Loop S)
      → IsSteady l
      → IsSteady (record l { player = (send c l.player).0; next_ack = n })
  sent-IsSteady c n l h = (send-Agrees l.phase c l.player h.0, send-bound c l.player h.1)

  step_at-IsSteady :
      (p : Phase) (input : Input) (l : Loop S)
      → AgreesAt p l
      → IsSteady l
      → IsSteady (step_at advance on_state on_priority_state p input l)
  unfolding step_at AgreesAt disconnect notify
  step_at-IsSteady p takes_command l at h = take_command-IsSteady p l.player.cmd l at h.1 h
  step_at-IsSteady p wakes l at h =
      sent-IsSteady (record { kind = CommandKind.wake; ack = none; item = none }) l.next_ack l h
  step_at-IsSteady p (puts k o) l at h =
      sent-IsSteady (record { kind = k; ack = some l.next_ack; item = o }) (l.next_ack + 1) l h
  step_at-IsSteady (track item elapsed) (reads_packet duration written) l at h =
      packet_at-IsSteady item elapsed duration written l at h
  step_at-IsSteady (track item elapsed) reads_end l at h =
      if_either IsSteady l.player.paused h (
        after_track-IsSteady advance on_state on_priority_state item (ran_out elapsed) l
          (at.0, h.1))
  step_at-IsSteady idle times_out l at h = (at.0, h.1)
  step_at-IsSteady leaving disconnects l at h = ((refl, (refl, refl)), h.1)
  step_at-IsSteady idle (reads_packet duration written) l at h = h
  step_at-IsSteady idle reads_end l at h = h
  step_at-IsSteady idle disconnects l at h = h
  step_at-IsSteady (track item elapsed) times_out l at h = h
  step_at-IsSteady (track item elapsed) disconnects l at h = h
  step_at-IsSteady leaving (reads_packet duration written) l at h = h
  step_at-IsSteady leaving reads_end l at h = h
  step_at-IsSteady leaving times_out l at h = h
  step_at-IsSteady gone (reads_packet duration written) l at h = h
  step_at-IsSteady gone reads_end l at h = h
  step_at-IsSteady gone times_out l at h = h
  step_at-IsSteady gone disconnects l at h = h

  pub run-IsSteady :
      (inputs : List Input) (l : Loop S)
      → IsSteady l
      → IsSteady (run advance on_state on_priority_state inputs l)
  unfolding run step AgreesAt
  run-IsSteady [] l h = h
  run-IsSteady (input ∷ inputs) l h =
      run-IsSteady inputs (step advance on_state on_priority_state input l)
        (step_at-IsSteady l.phase input l h.0 h)

  -- The player that starts with no item.
  run_from-IsSteady :
      (l : Loop S)
      → l.player.stopped ≡ false
      → l.player.cmd ≡ []
      → IsSteady (run_from advance on_state on_priority_state none l)
  unfolding run_from
  run_from-IsSteady l up empty =
      select-IsSteady advance on_state on_priority_state l
        (up, subst (λ cs. length cs ≤ 8) (sym empty) (omega arith))

-- What a snapshot is to say at each place of the loop but the one between a stop and the disconnect.
abbrev pub shown : Phase → Bool → PlaybackState × (String × ℕ)
shown (track item elapsed) true = (PlaybackState.paused, (item.id, milliseconds elapsed))
shown (track item elapsed) false = (PlaybackState.playing, (item.id, milliseconds elapsed))
shown p b = (PlaybackState.stopped, ("", 0))

snapshot-shown :
    (ph : Phase) (p : Player)
    → Agrees ph p.stopped p.current p.position_ms p.done
    → ph ≢ leaving
    → snapshot p ≡ shown ph p.paused
unfolding snapshot
snapshot-shown idle p (up, (empty, zero_ms)) n = rw (up, empty) refl
snapshot-shown (track item elapsed) p (up, (playing_it, ms)) n = elim (Bool-cases p.paused) [
  | inl e ↦ rw (up, playing_it, ms, e) refl
  | inr e ↦ rw (up, playing_it, ms, e) refl
]
snapshot-shown leaving p h n = elim (n refl) [ ]
snapshot-shown gone p (stopped, (empty, done)) n = rw stopped refl

module _ {S : Type 0} (advance : S → Option QueueItem → Transition → ℕ → S × Option QueueItem)
    (on_state on_priority_state : Player → S → S) where
  -- Whatever a running player that starts without an item or a command gets, its snapshot shows
  -- where its loop is, unless it is between a stop and the disconnect: the track in play with the
  -- time of it that was written, paused or playing, or that nothing plays.
  pub run-snapshot :
      (inputs : List Input) (l l' : Loop S)
      → l.player.stopped ≡ false
      → l.player.cmd ≡ []
      → run advance on_state on_priority_state inputs
          (run_from advance on_state on_priority_state none l)
        ≡ l'
      → l'.phase ≢ leaving
      → snapshot l'.player ≡ shown l'.phase l'.player.paused
  run-snapshot inputs l l' up empty e n =
      let first = run_from-IsSteady advance on_state on_priority_state l up empty in
      let last =
        subst IsSteady e (run-IsSteady advance on_state on_priority_state inputs _ first) in
      snapshot-shown l'.phase l'.player last.0 n
