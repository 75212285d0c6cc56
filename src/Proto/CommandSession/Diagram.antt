-- ===== src/Proto/CommandSession/Diagram.antt =====
-- What each event does to a session in each state: the transition table, read as a function.
use slimstream.Base.{Bool, true, false, ◌≡◌, refl, if◌then◌else◌}
use slimstream.Util.StateMachine.{process_event}
use slimstream.Proto.CommandSession.State.{Event, State, Session, Env}
use slimstream.Proto.CommandSession.Machine.{
  fire, is_ready_to_prepare, is_ready_to_buffer, is_ready_to_play, state_change_to_preparing,
  state_change_to_playing, state_change_to_stopped,
}

abbrev pub into : State → Session → Bool × Session
into st s = (true, record s { state = st })

module _ (env : Env) (h : Session → Session) (s : Session) where
  abbrev pub react : State → Event → Bool × Session
  react State.stopped Event.start = into State.started s
  react st Event.start = into st s
  react State.started Event.handshake = into State.draining s
  react State.started Event.prepare =
      if is_ready_to_prepare s
      then into State.preparing (state_change_to_preparing s)
      else (false, s)
  react State.preparing Event.prepare = into State.preparing s
  react State.buffering Event.prepare = into State.buffering s
  react State.playing Event.prepare = into State.playing s
  react State.preparing Event.buffer =
      if is_ready_to_buffer s then into State.buffering s else (false, s)
  react State.buffering Event.buffer = into State.buffering s
  react State.playing Event.buffer = into State.playing s
  react State.buffering Event.play =
      if is_ready_to_play s then into State.playing (state_change_to_playing env s) else (false, s)
  react State.playing Event.play = into State.playing s
  react State.preparing Event.drain = into State.draining s
  react State.buffering Event.drain = into State.draining s
  react State.playing Event.drain = into State.draining s
  react State.draining Event.drain = into State.draining s
  react State.started Event.drain = into State.started s
  react State.started Event.flushed = into State.started s
  react State.preparing Event.flushed = into State.preparing s
  react State.playing Event.flushed = into State.playing s
  react State.draining Event.flushed = into State.started s
  react State.stopped Event.stop = into State.stopped s
  react st Event.stop = into State.stopped (state_change_to_stopped s)
  react st e = (false, h s)

  fire-react_at : (st : State) (e : Event) → s.state ≡ st → fire env e h s ≡ react st e
  unfolding fire
  fire-react_at State.started Event.start p = rw (p, process_event)
  fire-react_at State.preparing Event.start p = rw (p, process_event)
  fire-react_at State.buffering Event.start p = rw (p, process_event)
  fire-react_at State.playing Event.start p = rw (p, process_event)
  fire-react_at State.draining Event.start p = rw (p, process_event)
  fire-react_at State.stopped Event.start p = rw (p, process_event)
  fire-react_at _ _ p = rw (p, process_event)

  -- In every state of a session, and for every event, error handler and surroundings, the search in
  -- the transition table answers and does what the diagram `react` says.
  pub fire-react : (e : Event) → fire env e h s ≡ react s.state e
  fire-react e = fire-react_at s.state e refl
