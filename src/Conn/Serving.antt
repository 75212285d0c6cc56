-- ===== src/Conn/Serving.antt =====
-- The Streamer behind the TCP server of its command connections, as createCommandCallbacks of
-- src/SlimStreamer.cpp connects them.
pub mod Keys
pub mod Agrees
pub mod Open
use slimstream.Base.{ℕ, ◌≡◌, Option, some, List, [], ◌∷◌}
use slimstream.Chunk.{Chunk}
use slimstream.Exception.{Exception, done}
use slimstream.Util.Time.{Timestamp}
use slimstream.Proto.Wire.{Bytes}
use slimstream.Proto.Server.Strm.{FormatSelection}
use slimstream.Proto.CommandSession.State.{Session}
use slimstream.Proto.CommandSession.Handlers.{ping, ping_timer_fired}
use slimstream.Proto.Streamer.State.{
  StreamingApi, Streamer, find, assign, session_env, make_streamer,
}
use slimstream.Proto.Streamer.Machine.{start, stop}
use slimstream.Proto.Streamer.Chunks.{consume_chunk}
use slimstream.Proto.Streamer.Sessions.{
  Reply, returned, failed, undefined, on_http_close, on_http_data, on_slim_proto_close,
  on_slim_proto_data, on_slim_proto_open, streaming_session_removed,
}
use slimstream.Conn.Tcp.State.{Call, on_start, on_open, on_close, on_stop, on_data}

-- The callbacks of the user of the server.
abbrev pub command_callback :
    {T : Type 0}
    → StreamingApi T
    → Timestamp
    → Timestamp
    → ℕ
    → Call
    → Streamer T
    → Reply (Streamer T)
command_callback api now t k on_start s = returned s
command_callback api now t k on_open s = on_slim_proto_open api now k s
command_callback api now t k (on_data bytes) s = on_slim_proto_data api now k bytes t s
command_callback api now t k on_close s = returned (on_slim_proto_close api now k s)
command_callback api now t k on_stop s = returned s

-- What the Streamer does besides: all its steps but those of a command connection.
pub data Work {T : Type 0} (api : StreamingApi T) : Streamer T → Streamer T → Type 0 where
  starts : {s : Streamer T} (now : Timestamp) → Work api s (start api now s)
  stops : {s : Streamer T} (now : Timestamp) → Work api s (stop api now s)
  consumes :
      {s : Streamer T} (now : Timestamp) (c : Chunk) → Work api s (consume_chunk api now c s).1
  timer_fires :
      {s : Streamer T} {c c' : Session} (now : Timestamp) (k : ℕ)
      → find k s.command_sessions ≡ some c
      → ping_timer_fired (session_env now s) c ≡ done c'
      → Work api s (record s { command_sessions = assign k c' s.command_sessions })
  pings :
      {s : Streamer T} {c c' : Session} (now : Timestamp) (k i : ℕ)
      → find k s.command_sessions ≡ some c
      → ping (session_env now s) i c ≡ done c'
      → Work api s (record s { command_sessions = assign k c' s.command_sessions })
  http_receives :
      {s s' : Streamer T} (now : Timestamp) (k : ℕ) (bs : Bytes)
      → on_http_data api now k bs s ≡ returned s'
      → Work api s s'
  http_fails :
      {s s' : Streamer T} (now : Timestamp) (k : ℕ) (bs : Bytes) (e : Exception)
      → on_http_data api now k bs s ≡ failed e s'
      → Work api s s'
  http_closes : {s : Streamer T} (now : Timestamp) (k : ℕ) → Work api s (on_http_close api now k s)
  http_removes :
      {s : Streamer T} (now : Timestamp) (k : ℕ)
      → Work api s (streaming_session_removed api now k s)

-- The Streamer after the calls of a server, the newest first, with its other work in between.
pub data Served {T : Type 0} (api : StreamingApi T) : List (ℕ × Call) → Streamer T → Type 0 where
  made :
      (now : Timestamp) (port : ℕ) (format : FormatSelection) (gain : Option ℕ)
      → Served api [] (make_streamer now port format gain)
  calls :
      {cs : List (ℕ × Call)} {s s' : Streamer T} (now t : Timestamp) (k : ℕ) (c : Call)
      → Served api cs s
      → command_callback api now t k c s ≡ returned s'
      → Served api ((k, c) ∷ cs) s'
  works :
      {cs : List (ℕ × Call)} {s s' : Streamer T}
      → Served api cs s
      → Work api s s'
      → Served api cs s'
