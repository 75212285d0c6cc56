-- ===== src/Proto/CommandSession/Lifecycle.antt =====
-- The operations by which the Streamer drives a session.
pub mod Invariant
use slimstream.Base.{
  ℕ, Bool, true, false, not, ◌&&◌, ◌||◌, Option, none, some, List, ◌==◌, if◌then◌else◌,
}
use slimstream.Chunk.{Chunk}
use slimstream.Proto.Server.Strm
use slimstream.Proto.Server.Strm.{CommandSelection}
use slimstream.Proto.CommandSession.State.{
  Event, State, same_state, Session, Env, strm, send, close_connection, ignore,
}
use slimstream.Proto.CommandSession.Machine.{fire}

abbrev pub is_draining : Session → Bool
is_draining s = same_state s.state State.draining

abbrev pub is_running : Session → Bool
is_running s = not (same_state s.state State.stopped)

unfoldable pub prepare : Env → ℕ → Session → Session
prepare env rate s =
    let (done, s') = fire env Event.prepare ignore (record s { sampling_rate = rate }) in
    if done then s' else record s' { sampling_rate = s.sampling_rate }

unfoldable pub set_streaming_session : Option ℕ → Session → Session
set_streaming_session k s = record s { streaming_session = k }

unfoldable pub start : Env → Session → Session
start env s = (fire env Event.start close_connection s).1

unfoldable pub stop : Env → Session → Session
stop env s =
    if is_running s
    then (fire env Event.stop ignore (
        if same_state s.state State.started
        then s
        else send (strm (Strm.make CommandSelection.stop)) s)).1
    else s

-- The steps of `consumeChunk`, in order. `feed k` is the answer of the streaming session `k` to the
-- chunk; a session with no streaming session drops it.
unfoldable pub enter_preparing : Env → Session → Session
enter_preparing env s =
    if same_state s.state State.started then prepare env env.streamer_sampling_rate s else s

unfoldable pub enter_buffering : Env → Session → Session
enter_buffering env s =
    if same_state s.state State.preparing then (fire env Event.buffer close_connection s).1 else s

unfoldable pub enter_playing : Env → Session → Session
enter_playing env s =
    if same_state s.state State.buffering && env.streamer_is_playing
    then (fire env Event.play close_connection s).1
    else s

unfoldable pub chunk_consumed : Env → Chunk → Session → Session
chunk_consumed env c s =
    record (if c.end_of_stream then (fire env Event.drain close_connection s).1 else s) {
      last_chunk_timestamp = c.timestamp;
      last_chunk_captured_frames = c.captured_frames;
    }

unfoldable pub feed_chunk : (ℕ → Bool) → Session → Bool
feed_chunk feed s = elim s.streaming_session [ none ↦ true | some k ↦ feed k ]

unfoldable pub distribute : Env → (ℕ → Bool) → Chunk → Session → Bool × Session
distribute env feed c s =
    if same_state s.state State.buffering || same_state s.state State.playing
    then (let s' = enter_playing env s in
        if feed_chunk feed s' then (true, chunk_consumed env c s') else (false, s'))
    else (true, s)

unfoldable pub consume_chunk : Env → (ℕ → Bool) → Chunk → Session → Bool × Session
consume_chunk env feed c s = distribute env feed c (enter_buffering env (enter_preparing env s))

-- the streaming session that `consumeChunk` hands the chunk to, if it gets so far
unfoldable pub fed_session : Env → Session → Option ℕ
fed_session env s =
    let s' = enter_buffering env (enter_preparing env s) in
    if same_state s'.state State.buffering || same_state s'.state State.playing
    then (enter_playing env s').streaming_session
    else none
