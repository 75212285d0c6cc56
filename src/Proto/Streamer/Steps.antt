-- ===== src/Proto/Streamer/Steps.antt =====
-- All that can happen to the Streamer, in any order: its callbacks and operations as steps.
pub mod Invariant
pub mod Sound
pub mod Streams
use slimstream.Base.{ℕ, ◌≡◌, Option, some}
use slimstream.Chunk.{Chunk}
use slimstream.Exception.{Exception, done}
use slimstream.Util.Time.{Timestamp}
use slimstream.Proto.Wire.{Bytes}
use slimstream.Proto.Server.Strm.{FormatSelection}
use slimstream.Proto.CommandSession.State.{Session}
use slimstream.Proto.CommandSession.Handlers.{ping, ping_timer_fired}
use slimstream.Proto.Streamer.State.{
  StreamingApi, Streamer, find, assign, session_env, make_streamer,
}
use slimstream.Proto.Streamer.Machine.{start, stop}
use slimstream.Proto.Streamer.Chunks.{consume_chunk}
use slimstream.Proto.Streamer.Sessions.{
  returned, failed, on_http_close, on_http_data, on_slim_proto_close, on_slim_proto_data,
  on_slim_proto_open, streaming_session_removed,
}

-- One step. A callback that throws leaves the Streamer as it is at the throw; there is no step out of
-- undefined behaviour.
pub data Step {T : Type 0} (api : StreamingApi T) : Streamer T → Streamer T → Type 0 where
  starts : {s : Streamer T} (now : Timestamp) → Step api s (start api now s)
  stops : {s : Streamer T} (now : Timestamp) → Step api s (stop api now s)
  consumes :
      {s : Streamer T} (now : Timestamp) (c : Chunk) → Step api s (consume_chunk api now c s).1
  opens :
      {s s' : Streamer T} (now : Timestamp) (k : ℕ)
      → on_slim_proto_open api now k s ≡ returned s'
      → Step api s s'
  receives :
      {s s' : Streamer T} (now t : Timestamp) (k : ℕ) (bs : Bytes)
      → on_slim_proto_data api now k bs t s ≡ returned s'
      → Step api s s'
  -- a task that a session left to the processor: its timer, and a ping
  timer_fires :
      {s : Streamer T} {c c' : Session} (now : Timestamp) (k : ℕ)
      → find k s.command_sessions ≡ some c
      → ping_timer_fired (session_env now s) c ≡ done c'
      → Step api s (record s { command_sessions = assign k c' s.command_sessions })
  pings :
      {s : Streamer T} {c c' : Session} (now : Timestamp) (k i : ℕ)
      → find k s.command_sessions ≡ some c
      → ping (session_env now s) i c ≡ done c'
      → Step api s (record s { command_sessions = assign k c' s.command_sessions })
  closes : {s : Streamer T} (now : Timestamp) (k : ℕ) → Step api s (on_slim_proto_close api now k s)
  http_receives :
      {s s' : Streamer T} (now : Timestamp) (k : ℕ) (bs : Bytes)
      → on_http_data api now k bs s ≡ returned s'
      → Step api s s'
  http_fails :
      {s s' : Streamer T} (now : Timestamp) (k : ℕ) (bs : Bytes) (e : Exception)
      → on_http_data api now k bs s ≡ failed e s'
      → Step api s s'
  http_closes : {s : Streamer T} (now : Timestamp) (k : ℕ) → Step api s (on_http_close api now k s)
  http_removes :
      {s : Streamer T} (now : Timestamp) (k : ℕ)
      → Step api s (streaming_session_removed api now k s)

pub data Reachable {T : Type 0} (api : StreamingApi T) : Streamer T → Type 0 where
  made :
      (now : Timestamp) (port : ℕ) (format : FormatSelection) (gain : Option ℕ)
      → Reachable api (make_streamer now port format gain)
  stepped : {s s' : Streamer T} → Reachable api s → Step api s s' → Reachable api s'
