-- ===== src/MusicBox/Player.antt =====
-- internal/musicbox/player.go: the loop that plays one room's tracks, its command queue and the state
-- that the manager sees. The manager is a state that the callbacks change. Durations are nanoseconds.
-- The loop is cut at the places where it waits: `step` is what it does with what it gets there.
mod Tests
pub mod Steady
pub mod Acks
use gang_chat_server.Base.{
  ℕ, ◌+◌, ◌/◌, String, Bool, true, false, if◌then◌else◌, ◌&&◌, ◌||◌, not, ltb, ◌==◌, List, [], ◌∷◌,
  ◌++◌, Option, none, some, length,
}
use gang_chat_server.MusicBox.Types.{QueueItem, PlaybackState}
use gang_chat_server.MusicBox.Advance.{Transition}

pub data CommandKind : Type 0 where
  pause resume skip previous play_now stop wake : CommandKind

-- The channel that acknowledges a command is a number.
pub record Command : Type 0 where
  pub kind : CommandKind
  pub ack : Option ℕ
  pub item : Option QueueItem

pub record Player : Type 0 where
  pub paused : Bool
  pub stopped : Bool
  pub current : Option QueueItem
  pub position_ms : ℕ
  pub cmd : List Command
  pub done : Bool
  pub connected : Bool
  -- the acknowledgements that were closed, the last one first
  pub acked : List ℕ

-- Where the loop waits: for a track, in one after some time of it, and after its end, before and
-- after the deferred disconnect.
pub data Phase : Type 0 where
  idle : Phase
  track : QueueItem → ℕ → Phase
  leaving : Phase
  gone : Phase

pub record PlayResult : Type 0 where
  pub stop : Bool
  pub transition : Transition
  pub position_ms : ℕ
  pub ack : Option ℕ
  pub priority : Option QueueItem

-- The player's lock is free between any two of these; the manager's state goes along.
pub record Loop (S : Type 0) : Type 0 where
  pub player : Player
  pub phase : Phase
  pub manager : S
  pub next_ack : ℕ

pub data Input : Type 0 where
  takes_command : Input
  -- a packet's duration, where it has one, and whether the track took it
  reads_packet : Option ℕ → Bool → Input
  reads_end : Input
  times_out : Input
  disconnects : Input
  -- a client sends a wake, or a command that it waits for
  wakes : Input
  puts : CommandKind → Option QueueItem → Input

abbrev pub command_capacity : ℕ
command_capacity = 8

abbrev pub default_packet_ns : ℕ
default_packet_ns = 20000000

abbrev pub milliseconds : ℕ → ℕ
milliseconds ns = ns / 1000000

unfoldable pub acknowledge : Option ℕ → Player → Player
acknowledge none p = p
acknowledge (some a) p = record p { acked = a ∷ p.acked }

unfoldable pub is_playing : Player → Bool
is_playing p = elim p.current [ none ↦ false | some item ↦ not p.stopped && not p.paused ]

-- snapshot
unfoldable pub snapshot : Player → PlaybackState × (String × ℕ)
snapshot p = if p.stopped then (PlaybackState.stopped, ("", 0)) else elim p.current [
  | none ↦ (PlaybackState.stopped, ("", 0))
  | some item ↦
      if p.paused
      then (PlaybackState.paused, (item.id, p.position_ms))
      else (PlaybackState.playing, (item.id, p.position_ms))
]

-- A send that does not wait for room.
unfoldable pub send : Command → Player → Player × Bool
send c p =
    if p.stopped
    then (p, false)
    else if ltb (length p.cmd) command_capacity
    then (record p { cmd = p.cmd ++ c ∷ [] }, true)
    else (p, false)

abbrev pub acknowledge_in : {S : Type 0} → Option ℕ → Loop S → Loop S
acknowledge_in a l = record l { player = acknowledge a l.player }

abbrev pub result : Bool → Transition → ℕ → Option ℕ → Option QueueItem → PlayResult
result s t elapsed a priority = record {
  stop = s;
  transition = t;
  position_ms = milliseconds elapsed;
  ack = a;
  priority = priority;
}

abbrev pub ran_out : ℕ → PlayResult
ran_out elapsed = result false Transition.natural elapsed none none

abbrev pub packet_duration : Option ℕ → ℕ
packet_duration none = default_packet_ns
packet_duration (some d) = if d == 0 then default_packet_ns else d

module _ {S : Type 0} (advance : S → Option QueueItem → Transition → ℕ → S × Option QueueItem)
    (on_state on_priority_state : Player → S → S) where
  unfoldable pub notify : Loop S → Loop S
  notify l = record l { manager = on_state l.player l.manager }

  unfoldable pub set_paused : Bool → Loop S → Loop S
  unfolding notify
  set_paused v l =
      let next = record l { player = record l.player { paused = v } } in
      if (l.player.paused && not v) || (not l.player.paused && v) then notify next else next

  unfoldable pub set_current : QueueItem → Loop S → Loop S
  unfolding notify
  set_current item l =
      notify (record l { player = record l.player { current = some item; position_ms = 0 } })

  unfoldable pub set_priority_current : QueueItem → Loop S → Loop S
  set_priority_current item l =
      let p = record l.player { current = some item; position_ms = 0; paused = false } in
      record l { player = p; manager = on_priority_state p l.manager }

  unfoldable pub clear_current : Loop S → Loop S
  unfolding notify
  clear_current l =
      let next = record l { player = record l.player { current = none; position_ms = 0 } } in
      elim l.player.current [
        | none ↦ if l.player.position_ms == 0 then next else notify next
        | some item ↦ notify next
      ]

  unfoldable pub disconnect : Loop S → Loop S
  unfolding notify
  disconnect l = notify (record l {
    player = record l.player { stopped = true; current = none; connected = false; done = true };
    phase = gone;
  })

  -- The loop's item is what `advance` gives, or it waits.
  unfoldable pub begin_item : Option QueueItem → Loop S → Loop S
  unfolding set_current clear_current
  begin_item none l = record (clear_current l) { phase = idle }
  begin_item (some item) l = record (set_current item l) { phase = track item 0 }

  -- The head of the loop, without an item.
  unfoldable pub select : Loop S → Loop S
  unfolding begin_item
  select l =
      let (m, item) = advance l.manager none Transition.natural 0 in
      begin_item item (record l { manager = m })

  unfoldable pub move_on : Option ℕ → Option QueueItem → Loop S → Loop S
  unfolding select set_current clear_current
  move_on ack none l = select (acknowledge_in ack (clear_current l))
  move_on ack (some item) l = record (acknowledge_in ack (set_current item l)) {
    phase = track item 0;
  }

  -- What the loop does with the result of a track.
  unfoldable pub after_track : QueueItem → PlayResult → Loop S → Loop S
  unfolding move_on set_priority_current
  after_track item r l =
      if r.stop then record (acknowledge_in r.ack l) { phase = leaving } else elim r.priority [
        | some next ↦ record (acknowledge_in r.ack (set_priority_current next l)) {
          phase = track next 0;
        }
        | none ↦
            let (m, next) = advance l.manager (some item) r.transition r.position_ms in
            move_on r.ack next (record l { manager = m })
      ]

  unfoldable pub handle_playback_command :
      CommandKind → Option ℕ → Option QueueItem → ℕ → Loop S → Loop S × Option PlayResult
  unfolding set_paused
  handle_playback_command stop a item elapsed l =
      (l, some (result true Transition.natural elapsed a none))
  handle_playback_command skip a item elapsed l =
      (l, some (result false Transition.next elapsed a none))
  handle_playback_command previous a item elapsed l =
      (l, some (result false Transition.previous elapsed a none))
  handle_playback_command play_now a (some item) elapsed l =
      (l, some (result false Transition.natural elapsed a (some item)))
  handle_playback_command play_now a none elapsed l = (acknowledge_in a l, none)
  handle_playback_command pause a item elapsed l = (acknowledge_in a (set_paused true l), none)
  handle_playback_command resume a item elapsed l = (acknowledge_in a (set_paused false l), none)
  handle_playback_command wake a item elapsed l = (acknowledge_in a l, none)

  -- idleWait
  unfoldable pub idle_command : CommandKind → Option ℕ → Option QueueItem → Loop S → Loop S
  unfolding select set_priority_current
  idle_command stop a item l = record (acknowledge_in a l) { phase = leaving }
  idle_command play_now a (some item) l = select (acknowledge_in a (set_priority_current item l))
  idle_command k a item l = select (acknowledge_in a l)

  unfoldable pub finish : QueueItem → Loop S × Option PlayResult → Loop S
  unfolding after_track
  finish item (l, none) = l
  finish item (l, some r) = after_track item r l

  unfoldable pub command_at : Phase → Command → Loop S → Loop S
  unfolding idle_command finish handle_playback_command
  command_at idle c l = idle_command c.kind c.ack c.item l
  command_at (track item elapsed) c l =
      finish item (handle_playback_command c.kind c.ack c.item elapsed l)
  command_at leaving c l = l
  command_at gone c l = l

  unfoldable pub packet_at : QueueItem → ℕ → Option ℕ → Bool → Loop S → Loop S
  unfolding after_track
  packet_at item elapsed duration written l =
      let later = elapsed + packet_duration duration in
      if l.player.paused
      then l
      else if not l.player.connected
      then after_track item (result true Transition.natural elapsed none none) l
      else if written
      then record l {
        player = record l.player { position_ms = milliseconds later };
        phase = track item later;
      }
      else after_track item (ran_out elapsed) l

  unfoldable pub take_command : Phase → List Command → Loop S → Loop S
  unfolding command_at
  take_command p [] l = l
  take_command leaving (c ∷ cs) l = l
  take_command gone (c ∷ cs) l = l
  take_command p (c ∷ cs) l = command_at p c (record l { player = record l.player { cmd = cs } })

  unfoldable pub step_at : Phase → Input → Loop S → Loop S
  unfolding take_command packet_at after_track disconnect send
  step_at p takes_command l = take_command p l.player.cmd l
  step_at (track item elapsed) (reads_packet duration written) l =
      packet_at item elapsed duration written l
  step_at (track item elapsed) reads_end l =
      if l.player.paused then l else after_track item (ran_out elapsed) l
  step_at idle times_out l = record l { phase = leaving }
  step_at leaving disconnects l = disconnect l
  step_at p wakes l = record l {
    player = (send (record { kind = wake; ack = none; item = none }) l.player).0;
  }
  step_at p (puts kind item) l = record l {
    player = (send (record { kind = kind; ack = some l.next_ack; item = item }) l.player).0;
    next_ack = l.next_ack + 1;
  }
  step_at p input l = l

  unfoldable pub step : Input → Loop S → Loop S
  unfolding step_at
  step input l = step_at l.phase input l

  unfoldable pub run : List Input → Loop S → Loop S
  unfolding step
  run [] l = l
  run (input ∷ inputs) l = run inputs (step input l)

  -- runFrom
  unfoldable pub run_from : Option QueueItem → Loop S → Loop S
  unfolding select
  run_from none l = select l
  run_from (some item) l = record l { phase = track item 0 }
