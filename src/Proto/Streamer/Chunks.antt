-- ===== src/Proto/Streamer/Chunks.antt =====
-- `consumeChunk` and `streamChunk` of the Streamer.
use slimstream.Base.{
  ℕ, ◌+◌, Bool, true, false, not, ◌||◌, Option, none, some, List, ◌==◌, if◌then◌else◌,
}
use slimstream.Chunk.{Chunk}
use slimstream.Util.Time.{Timestamp}
use slimstream.Proto.CommandSession.State.{Session, Env}
use slimstream.Proto.CommandSession.Lifecycle
use slimstream.Proto.Streamer.State.{
  Event, State, same_state, StreamingApi, Streamer, find, assign, session_env,
}
use slimstream.Proto.Streamer.Deliver.{deliver_all}
use slimstream.Proto.Streamer.Machine.{fire}

module _ {T : Type 0} (api : StreamingApi T) (now : Timestamp) where
  -- both maps of sessions
  abbrev pub Sessions : Type 0
  Sessions = List (ℕ × Session) × List (ℕ × T)

  -- the answer of a streaming session to a chunk
  abbrev pub feed_one : Chunk → Option T → Bool
  feed_one c none = false
  feed_one c (some t) = (api.consume_chunk c t).0

  abbrev pub feed : Chunk → List (ℕ × T) → ℕ → Bool
  feed c ts j = feed_one c (find j ts)

  -- the streaming session that was handed the chunk
  abbrev pub update_fed : Chunk → Option ℕ → List (ℕ × T) → List (ℕ × T)
  update_fed c none ts = ts
  update_fed c (some j) ts = elim (find j ts) [
    | none ↦ ts
    | some t ↦ assign j (api.consume_chunk c t).1 ts
  ]

  abbrev pub give_one : Env → Chunk → ℕ → Sessions → Option Session → Bool × Sessions
  give_one env c k w none = (false, w)
  give_one env c k (cs, ts) (some s) =
      let (consumed, s') = Lifecycle.consume_chunk env (feed c ts) c s in
      (consumed, (assign k s' cs, update_fed c (Lifecycle.fed_session env s) ts))

  -- `entry.first->consumeChunk(chunk)`; both maps that have the connection for a key change together,
  -- so the session is found
  unfoldable pub give : Env → Chunk → ℕ → Sessions → Bool × Sessions
  give env c k w = give_one env c k w (find k w.0)

  unfoldable pub count_chunk : Chunk → Bool → Streamer T → Streamer T
  count_chunk c result s =
      if result
      then (record s {
        streamed_chunks = s.streamed_chunks + 1;
        streamed_frames = s.streamed_frames + c.frames;
      })
      else s

  unfoldable pub stream_chunk : Chunk → Streamer T → Bool × Streamer T
  stream_chunk c s =
      let (result, seqs, (cs, ts)) =
        deliver_all (give (session_env now s) c) s.streamed_chunks s.chunk_sequences
          (s.command_sessions, s.streaming_sessions) in
      let s' = record s {
        chunk_sequences = seqs;
        command_sessions = cs;
        streaming_sessions = ts;
      } in
      (result, count_chunk c result s')

  -- The branches of `consumeChunk`, in order, each on the result so far and the Streamer.
  unfoldable pub step_started : Chunk → Bool × Streamer T → Bool × Streamer T
  step_started c (r, s) =
      if same_state s.state State.started
      then (if c.sampling_rate == 0
          then (true, s)
          else (let (prepared, s') =
                fire api now Event.prepare (record s { sampling_rate = c.sampling_rate }) in
              ((if prepared then false else r), s')))
      else (r, s)

  unfoldable pub step_preparing : Bool × Streamer T → Bool × Streamer T
  step_preparing (r, s) =
      if same_state s.state State.preparing then fire api now Event.buffer s else (r, s)

  unfoldable pub try_to_play : Streamer T → Streamer T
  try_to_play s = if same_state s.state State.buffering then (fire api now Event.play s).1 else s

  -- distributes the chunk if the sampling rate does not change
  unfoldable pub distribute : Chunk → Bool × Streamer T → Bool × Streamer T
  distribute c (r, s) = if s.sampling_rate == c.sampling_rate then stream_chunk c s else (r, s)

  unfoldable pub drain_at_end : Chunk → Bool × Streamer T → Bool × Streamer T
  drain_at_end c (r, s) =
      if not (s.sampling_rate == c.sampling_rate) || c.end_of_stream
      then (false, (fire api now Event.drain s).1)
      else (r, s)

  unfoldable pub step_streaming : Chunk → Bool × Streamer T → Bool × Streamer T
  step_streaming c (r, s) =
      if same_state s.state State.buffering || same_state s.state State.playing
      then drain_at_end c (distribute c (r, try_to_play s))
      else (r, s)

  unfoldable pub step_draining : Bool × Streamer T → Bool × Streamer T
  step_draining (r, s) =
      if same_state s.state State.draining then fire api now Event.flushed s else (r, s)

  unfoldable pub consume_chunk : Chunk → Streamer T → Bool × Streamer T
  consume_chunk c s = step_draining (step_streaming c (step_preparing (step_started c (false, s))))
