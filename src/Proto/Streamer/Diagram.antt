-- ===== src/Proto/Streamer/Diagram.antt =====
-- What each event does to the Streamer in each state: the transition table, read as a function.
use slimstream.Base.{Bool, true, false, not, ◌≡◌, refl, if◌then◌else◌}
use slimstream.Util.Time.{Timestamp}
use slimstream.Util.StateMachine.{process_event}
use slimstream.Proto.Streamer.State.{Event, State, StreamingApi, Streamer}
use slimstream.Proto.Streamer.Machine.{
  fire, is_draining, is_ready_to_buffer, is_ready_to_play, state_change_to_preparing,
  state_change_to_buffering, state_change_to_playing, state_change_to_stopped,
}

abbrev pub into : {T : Type 0} → State → Streamer T → Bool × Streamer T
into st s = (true, record s { state = st })

module _ {T : Type 0} (api : StreamingApi T) (now : Timestamp) (s : Streamer T) where
  abbrev pub respond : State → Event → Bool × Streamer T
  respond State.stopped Event.start = into State.started s
  respond st Event.start = into st s
  respond State.started Event.prepare = into State.preparing (state_change_to_preparing now s)
  respond State.preparing Event.prepare = into State.preparing s
  respond State.preparing Event.buffer =
      if is_ready_to_buffer now s
      then into State.buffering (state_change_to_buffering now s)
      else (false, s)
  respond State.buffering Event.buffer = into State.buffering s
  respond State.playing Event.buffer = into State.playing s
  respond State.buffering Event.play =
      if is_ready_to_play s then into State.playing (state_change_to_playing s) else (false, s)
  respond State.playing Event.play = into State.playing s
  respond State.preparing Event.drain = into State.draining s
  respond State.buffering Event.drain = into State.draining s
  respond State.playing Event.drain = into State.draining s
  respond State.draining Event.drain = into State.draining s
  respond State.started Event.drain = into State.started s
  respond State.started Event.flushed = into State.started s
  respond State.playing Event.flushed = into State.playing s
  respond State.draining Event.flushed =
      if not (is_draining s) then into State.started s else (false, s)
  respond State.stopped Event.stop = into State.stopped s
  respond st Event.stop = into State.stopped (state_change_to_stopped api now s)
  respond st e = (false, s)

  fire-respond_at : (st : State) (e : Event) → s.state ≡ st → fire api now e s ≡ respond st e
  unfolding fire process_event
  fire-respond_at State.started Event.start p = rw (p, process_event)
  fire-respond_at State.preparing Event.start p = rw (p, process_event)
  fire-respond_at State.buffering Event.start p = rw (p, process_event)
  fire-respond_at State.playing Event.start p = rw (p, process_event)
  fire-respond_at State.draining Event.start p = rw (p, process_event)
  fire-respond_at State.stopped Event.start p = rw (p, process_event)
  fire-respond_at _ _ p = rw (p, process_event)

  -- In every state of the Streamer, and for every event, time and kind of HTTP session, the search in
  -- the transition table answers and does what the diagram `respond` says.
  pub fire-respond : (e : Event) → fire api now e s ≡ respond s.state e
  fire-respond e = fire-respond_at s.state e refl
