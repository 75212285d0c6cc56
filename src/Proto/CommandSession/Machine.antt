-- ===== src/Proto/CommandSession/Machine.antt =====
-- The transition table of a CommandSession, its guards and its actions.
use slimstream.Base.{Bool, true, false, not, ◌&&◌, Option, none, some, List, [], ◌∷◌, ◌==◌}
use slimstream.Base.Int.{pos}
use slimstream.Util.Time.{earlier}
use slimstream.Util.StateMachine.{Transition, Machine, process_event}
use slimstream.Proto.Server.Strm.{CommandSelection, make_start, make_at}
use slimstream.Proto.CommandSession.State.{
  Event, State, same_event, same_state, Session, Env, strm, overflow, emit, send,
}

abbrev pub has_value {ℓ} : {A : Type ℓ} → Option A → Bool
has_value none = false
has_value (some a) = true

abbrev pub value_or {ℓ} : {A : Type ℓ} → Option A → A → A
value_or none d = d
value_or (some a) d = a

abbrev pub is_ready_to_prepare : Session → Bool
is_ready_to_prepare s = not (s.sampling_rate == 0)

abbrev pub is_ready_to_buffer : Session → Bool
is_ready_to_buffer s = is_ready_to_prepare s && has_value s.streaming_session

abbrev pub is_ready_to_play : Session → Bool
is_ready_to_play s =
    is_ready_to_prepare s
    && is_ready_to_buffer s
    && has_value s.time_offset
    && s.client_buffer_is_ready

unfoldable pub state_change_to_preparing : Session → Session
unfolding send
state_change_to_preparing s =
    let s' = record s {
      client_buffer_is_ready = false;
      streaming_session = none;
      playback_drift_base = none;
    } in
    elim (make_start s.format_selection s.streaming_port s.sampling_rate s.client_id) [
      | none ↦ emit overflow s'
      | some c ↦ send (strm c) s'
    ]

unfoldable pub state_change_to_playing : Env → Session → Session
unfolding send
state_change_to_playing env s =
    send
      (strm (
        make_at CommandSelection.unpause
          (earlier env.playback_start_time (value_or s.time_offset (pos 0)))))
      s

unfoldable pub state_change_to_stopped : Session → Session
state_change_to_stopped s = record s { sampling_rate = 0 }

abbrev stay : Session → Session
stay s = s

abbrev always : Session → Bool
always s = true

abbrev entry :
    Event → State → State → (Session → Session) → (Session → Bool) → Transition Event State Session
entry e from to act test = record {
  event = e;
  from_state = from;
  to_state = to;
  action = act;
  guard = test;
}

abbrev pub transition_table : Env → List (Transition Event State Session)
transition_table env =
    entry Event.start State.started State.started stay always
    ∷ entry Event.start State.preparing State.preparing stay always
    ∷ entry Event.start State.buffering State.buffering stay always
    ∷ entry Event.start State.playing State.playing stay always
    ∷ entry Event.start State.draining State.draining stay always
    ∷ entry Event.start State.stopped State.started stay always
    ∷ entry Event.handshake State.started State.draining stay always
    ∷ entry Event.prepare State.started State.preparing state_change_to_preparing
        is_ready_to_prepare
    ∷ entry Event.prepare State.preparing State.preparing stay always
    ∷ entry Event.prepare State.buffering State.buffering stay always
    ∷ entry Event.prepare State.playing State.playing stay always
    ∷ entry Event.buffer State.preparing State.buffering stay is_ready_to_buffer
    ∷ entry Event.buffer State.buffering State.buffering stay always
    ∷ entry Event.buffer State.playing State.playing stay always
    ∷ entry Event.play State.buffering State.playing (state_change_to_playing env) is_ready_to_play
    ∷ entry Event.play State.playing State.playing stay always
    ∷ entry Event.drain State.preparing State.draining stay always
    ∷ entry Event.drain State.buffering State.draining stay always
    ∷ entry Event.drain State.playing State.draining stay always
    ∷ entry Event.drain State.draining State.draining stay always
    ∷ entry Event.drain State.started State.started stay always
    ∷ entry Event.flushed State.started State.started stay always
    ∷ entry Event.flushed State.preparing State.preparing stay always
    ∷ entry Event.flushed State.playing State.playing stay always
    ∷ entry Event.flushed State.draining State.started stay always
    ∷ entry Event.stop State.stopped State.stopped stay always
    ∷ entry Event.stop State.started State.stopped state_change_to_stopped always
    ∷ entry Event.stop State.preparing State.stopped state_change_to_stopped always
    ∷ entry Event.stop State.buffering State.stopped state_change_to_stopped always
    ∷ entry Event.stop State.playing State.stopped state_change_to_stopped always
    ∷ entry Event.stop State.draining State.stopped state_change_to_stopped always
    ∷ []

abbrev pub machine : Env → Machine Event State Session
machine env = record {
  same_event = same_event;
  same_state = same_state;
  state = λ s. s.state;
  with_state = λ s st. record s { state = st };
  transitions = transition_table env;
}

-- `stateMachine.processEvent`
unfoldable pub fire : Env → Event → (Session → Session) → Session → Bool × Session
unfolding process_event
fire env e handler s = process_event (machine env) e handler s
