-- ===== src/Conn/Tcp/State.antt =====
-- The state of the TCP server. A connection is known by the number of connections made before it.
use slimstream.Base.{ℕ, Bool, false, List, []}
use slimstream.Proto.Wire.{Bytes}

-- The asynchronous call that a connection waits for.
pub data Waiting : Type 0 where
  accepting reading nothing : Waiting

-- `is_open` is the socket's.
pub record Connection : Type 0 where
  pub opened : Bool
  pub is_open : Bool
  pub waiting : Waiting

abbrev pub make_connection : Connection
make_connection = record { opened = false; is_open = false; waiting = nothing }

-- The calls of the five callbacks that the server's user gave. An exception of theirs is caught.
pub data Call : Type 0 where
  on_start on_open on_close on_stop : Call
  on_data : Bytes → Call

-- What was submitted to the processor, by `onStop` of a connection and by the server's stop callback.
pub data Handler : Type 0 where
  stop_connection : ℕ → Handler
  remove_connection : ℕ → Handler

-- `acceptor` says whether there is one. `handlers` has the oldest first, `calls` the newest.
pub record Server : Type 0 where
  pub started : Bool
  pub acceptor : Bool
  pub max_connections : ℕ
  pub next_id : ℕ
  pub connections : List (ℕ × Connection)
  pub handlers : List Handler
  pub calls : List (ℕ × Call)

-- the constructor
unfoldable pub make_server : ℕ → Server
make_server m = record {
  started = false;
  acceptor = false;
  max_connections = m;
  next_id = 0;
  connections = [];
  handlers = [];
  calls = [];
}
