-- ===== src/Proto/Streamer/Machine.antt =====
-- The transition table of the Streamer, its guards and its actions.
use slimstream.Base.{
  ℕ, Bool, true, false, not, Option, none, some, List, [], ◌∷◌, ltb, ◌==◌, if◌then◌else◌,
}
use slimstream.Base.Int.{ℤ, pos, ◌+ℤ◌, ◌*ℤ◌, tdiv, ltb_ℤ}
use slimstream.Util.Time.{Timestamp, Duration, elapsed, later}
use slimstream.Util.StateMachine.{Transition, Machine, process_event}
use slimstream.Proto.CommandSession.State.{Session}
use slimstream.Proto.CommandSession.Lifecycle
use slimstream.Proto.CommandSession.Machine.{
  is_ready_to_buffer as session_is_ready_to_buffer, is_ready_to_play as session_is_ready_to_play,
}
use slimstream.Proto.Streamer.State.{
  Event, State, same_event, same_state, StreamingApi, Streamer, update_all, count_if, session_env,
}

-- `calculateDuration` in units of 1 / `den` seconds
unfoldable pub calculate_duration : {T : Type 0} → Streamer T → ℤ → ℕ → ℤ
calculate_duration s frames den =
    if s.sampling_rate == 0 then pos 0 else tdiv (frames *ℤ pos den) s.sampling_rate

abbrev pub get_streaming_duration : {T : Type 0} → Streamer T → ℕ → ℤ
get_streaming_duration s den = calculate_duration s (pos s.streamed_frames) den

abbrev pub get_buffering_duration : {T : Type 0} → Streamer T → ℕ → ℤ
get_buffering_duration s den = calculate_duration s s.buffered_frames den

abbrev add_latency : Option Duration → Duration → Duration
add_latency none d = d
add_latency (some l) d = d +ℤ l

unfoldable pub total_latency : List (ℕ × Session) → Duration → Duration
total_latency [] d = d
total_latency ((k, s) ∷ m) d = total_latency m (add_latency s.latency d)

-- 1000 microseconds, and the latencies of all sessions
abbrev pub calculate_playback_delay : {T : Type 0} → Streamer T → Duration
calculate_playback_delay s = total_latency s.command_sessions (pos 1000)

unfoldable pub duration_to_frames : {T : Type 0} → Streamer T → Duration → ℤ
duration_to_frames s d =
    if s.sampling_rate == 0 then pos 0 else tdiv (d *ℤ pos s.sampling_rate) 1000000

-- The buffering duration is in milliseconds.
abbrev pub calculate_playback_start_time : {T : Type 0} → Streamer T → Timestamp
calculate_playback_start_time s =
    later s.buffering_started_at (get_buffering_duration s 1000 *ℤ pos 1000)

unfoldable pub is_draining : {T : Type 0} → Streamer T → Bool
is_draining s = ltb 0 (count_if Lifecycle.is_draining s.command_sessions)

-- more than 2000 milliseconds since the preparation began, or every session ready
unfoldable pub is_ready_to_buffer : {T : Type 0} → Timestamp → Streamer T → Bool
is_ready_to_buffer now s =
    if ltb_ℤ (pos 2000000) (elapsed now s.preparing_started_at)
    then true
    else count_if (λ c. not (session_is_ready_to_buffer c)) s.command_sessions == 0

-- more than 2000 milliseconds streamed, and every session ready
unfoldable pub is_ready_to_play : {T : Type 0} → Streamer T → Bool
is_ready_to_play s =
    if ltb_ℤ (pos 2000) (get_streaming_duration s 1000)
    then count_if (λ c. not (session_is_ready_to_play c)) s.command_sessions == 0
    else false

unfoldable pub state_change_to_preparing : {T : Type 0} → Timestamp → Streamer T → Streamer T
state_change_to_preparing now s =
    let s' = record s {
      preparing_started_at = now;
      streamed_frames = 0;
      buffered_frames = pos 0;
      streamed_chunks = 0;
      chunk_sequences = update_all (λ n. 0) s.chunk_sequences;
    } in
    record s' {
      command_sessions =
          update_all (Lifecycle.prepare (session_env now s') s.sampling_rate) s.command_sessions;
    }

unfoldable pub state_change_to_buffering : {T : Type 0} → Timestamp → Streamer T → Streamer T
state_change_to_buffering now s = record s { buffering_started_at = now }

unfoldable pub state_change_to_playing : {T : Type 0} → Streamer T → Streamer T
state_change_to_playing s =
    let s' = record s {
      buffered_frames = pos s.streamed_frames +ℤ duration_to_frames s (calculate_playback_delay s);
    } in
    record s' { playback_started_at = calculate_playback_start_time s' }

module _ {T : Type 0} (api : StreamingApi T) (now : Timestamp) where
  unfoldable pub state_change_to_stopped : Streamer T → Streamer T
  state_change_to_stopped s = record s {
    command_sessions = update_all (Lifecycle.stop (session_env now s)) s.command_sessions;
    streaming_sessions = update_all api.stop s.streaming_sessions;
  }

  abbrev stay : Streamer T → Streamer T
  stay s = s

  abbrev always : Streamer T → Bool
  always s = true

  abbrev entry :
      Event
      → State
      → State
      → (Streamer T → Streamer T)
      → (Streamer T → Bool)
      → Transition Event State (Streamer T)
  entry e from to act test = record {
    event = e;
    from_state = from;
    to_state = to;
    action = act;
    guard = test;
  }

  abbrev pub transition_table : List (Transition Event State (Streamer T))
  transition_table =
      entry Event.start State.started State.started stay always
      ∷ entry Event.start State.preparing State.preparing stay always
      ∷ entry Event.start State.buffering State.buffering stay always
      ∷ entry Event.start State.playing State.playing stay always
      ∷ entry Event.start State.draining State.draining stay always
      ∷ entry Event.start State.stopped State.started stay always
      ∷ entry Event.prepare State.started State.preparing (state_change_to_preparing now) always
      ∷ entry Event.prepare State.preparing State.preparing stay always
      ∷ entry Event.buffer State.preparing State.buffering (state_change_to_buffering now)
          (is_ready_to_buffer now)
      ∷ entry Event.buffer State.buffering State.buffering stay always
      ∷ entry Event.buffer State.playing State.playing stay always
      ∷ entry Event.play State.buffering State.playing state_change_to_playing is_ready_to_play
      ∷ entry Event.play State.playing State.playing stay always
      ∷ entry Event.drain State.preparing State.draining stay always
      ∷ entry Event.drain State.buffering State.draining stay always
      ∷ entry Event.drain State.playing State.draining stay always
      ∷ entry Event.drain State.draining State.draining stay always
      ∷ entry Event.drain State.started State.started stay always
      ∷ entry Event.flushed State.started State.started stay always
      ∷ entry Event.flushed State.playing State.playing stay always
      ∷ entry Event.flushed State.draining State.started stay (λ s. not (is_draining s))
      ∷ entry Event.stop State.stopped State.stopped stay always
      ∷ entry Event.stop State.started State.stopped state_change_to_stopped always
      ∷ entry Event.stop State.preparing State.stopped state_change_to_stopped always
      ∷ entry Event.stop State.buffering State.stopped state_change_to_stopped always
      ∷ entry Event.stop State.playing State.stopped state_change_to_stopped always
      ∷ entry Event.stop State.draining State.stopped state_change_to_stopped always
      ∷ []

  abbrev pub machine : Machine Event State (Streamer T)
  machine = record {
    same_event = same_event;
    same_state = same_state;
    state = λ s. s.state;
    with_state = λ s st. record s { state = st };
    transitions = transition_table;
  }

  -- `stateMachine.processEvent`, with an error handler that logs. That no handler of `consumeChunk`
  -- runs, which would also set its result, is seen from `machine`.
  unfoldable pub fire : Event → Streamer T → Bool × Streamer T
  fire e s = process_event machine e (λ t. t) s

  unfoldable pub start : Streamer T → Streamer T
  start s = (fire Event.start s).1

  -- The callback runs in a later handler.
  unfoldable pub stop : Streamer T → Streamer T
  stop s = (fire Event.stop s).1
