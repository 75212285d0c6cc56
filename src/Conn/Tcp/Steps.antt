-- ===== src/Conn/Tcp/Steps.antt =====
-- All that can happen to the TCP server, in any order.
use slimstream.Base.{ℕ, ◌≡◌, Bool, some}
use slimstream.Proto.Wire.{Bytes}
use slimstream.Proto.Streamer.State.{find}
use slimstream.Conn.Tcp.State.{Waiting, Connection, Server, make_server}
use slimstream.Conn.Tcp.Server.{start, stop, close_socket, put, accepted, received, run_next}

-- There is no step out of undefined behaviour.
pub data Step : Server → Server → Type 0 where
  starts : {s s' : Server} → start s ≡ some s' → Step s s'
  stops : {s : Server} → Step s (stop s)
  accepts :
      {s s' : Server} {c : Connection} (error : Bool) (k : ℕ)
      → find k s.connections ≡ some c
      → c.waiting ≡ Waiting.accepting
      → accepted error k c s ≡ some s'
      → Step s s'
  receives :
      {s : Server} {c : Connection} (error : Bool) (bytes : Bytes) (k : ℕ)
      → find k s.connections ≡ some c
      → c.waiting ≡ Waiting.reading
      → Step s (received error bytes k c s)
  runs : {s s' : Server} → run_next s ≡ some s' → Step s s'
  -- the user stops a connection, in a callback or later
  closes :
      {s : Server} {c : Connection} (k : ℕ)
      → find k s.connections ≡ some c
      → Step s (put k (close_socket c) s)

pub data Reachable (m : ℕ) : Server → Type 0 where
  made : Reachable m (make_server m)
  stepped : {s s' : Server} → Reachable m s → Step s s' → Reachable m s'
