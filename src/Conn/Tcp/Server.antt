-- ===== src/Conn/Tcp/Server.antt =====
-- The operations of the TCP server and of its connections. Undefined behaviour is none.
use slimstream.Base.{
  ℕ, ◌+◌, Bool, true, false, not, ◌&&◌, ◌||◌, Option, none, some, List, [], ◌∷◌, ◌++◌, ltb, ◌==◌,
  if◌then◌else◌,
}
use slimstream.Proto.Wire.{Bytes}
use slimstream.Proto.Streamer.State.{find, assign, update_all, count_if}
use slimstream.Conn.Tcp.State.{
  Waiting, Connection, make_connection, Call, on_start, on_open, on_close, on_stop, on_data,
  Handler, stop_connection, remove_connection, Server,
}

-- a callback of the user
abbrev pub call : ℕ → Call → Server → Server
call k c s = record s { calls = (k, c) ∷ s.calls }

abbrev pub submit : Handler → Server → Server
submit h s = record s { handlers = s.handlers ++ h ∷ [] }

-- a connection of the vector
abbrev pub put : ℕ → Connection → Server → Server
put k c s = record s { connections = assign k c s.connections }

unfoldable pub start_acceptor : Server → Server
start_acceptor s = if s.acceptor then s else record s { acceptor = true }

unfoldable pub stop_acceptor : Server → Server
stop_acceptor s = if s.acceptor then record s { acceptor = false } else s

-- The new connection calls the start callback, and is pushed to the vector.
abbrev pub added : Server → Server
added s =
    let s' = call s.next_id on_start s in
    record s' {
      next_id = s.next_id + 1;
      connections =
          s.connections ++ (s.next_id, record make_connection { waiting = Waiting.accepting }) ∷ [];
    }

-- `connectionPtr->start(*acceptorPtr)` needs the acceptor.
unfoldable pub add_connection : Server → Option Server
add_connection s = if s.acceptor then some (added s) else none

-- The acceptor is there after `startAcceptor`.
abbrev pub set_started : Option Server → Option Server
set_started none = none
set_started (some s) = some (record s { started = true })

unfoldable pub start : Server → Option Server
start s = set_started (add_connection (start_acceptor s))

-- `stop` of a connection: its socket is closed, and what it waits for ends with an error
abbrev pub close_socket : Connection → Connection
close_socket c = record c { is_open = false }

unfoldable pub stop : Server → Server
stop s =
    let s' = stop_acceptor (record s { started = false }) in
    record s' { connections = update_all close_socket s'.connections }

-- what the server does in its open callback, after the user's
unfoldable pub after_open : Server → Option Server
after_open s =
    let found_total = count_if (λ c. c.opened) s.connections in
    if found_total == 0 || ltb found_total s.max_connections
    then add_connection s
    else some (stop_acceptor s)

-- `onClose` of the connection `c`, which waits for nothing after it
unfoldable pub close_connection : ℕ → Connection → Server → Server
close_connection k c s =
    let s' = if c.opened then call k on_close s else s in
    submit (stop_connection k) (put k (record c { opened = false; waiting = Waiting.nothing }) s')

-- `async_read_some`
abbrev pub read_at : Option Connection → ℕ → List (ℕ × Connection) → List (ℕ × Connection)
read_at none k m = m
read_at (some c) k m = assign k (record c { waiting = Waiting.reading }) m

abbrev pub start_reading : ℕ → Option Server → Option Server
start_reading k none = none
start_reading k (some s) =
    some (record s { connections = read_at (find k s.connections) k s.connections })

-- `onOpen`
unfoldable pub open_connection : Bool → ℕ → Connection → Server → Option Server
open_connection error k c s =
    if error || not c.is_open
    then some (close_connection k c s)
    else start_reading k (
        if c.opened
        then some (put k c s)
        else after_open (call k on_open (put k (record c { opened = true }) s)))

-- The accept ends, and the socket is the accepted one, which is open unless there was an error.
unfoldable pub accepted : Bool → ℕ → Connection → Server → Option Server
accepted error k c s = open_connection error k (record c { is_open = not error }) s

-- `onData` after a read that got `bytes`; the connection reads on
unfoldable pub received : Bool → Bytes → ℕ → Connection → Server → Server
received error bytes k c s =
    if error
    then close_connection k c s
    else elim bytes [ [] ↦ s | b ∷ bs ↦ call k (on_data (b ∷ bs)) s ]

-- `std::remove_if` and `erase`
unfoldable pub erase_all : ℕ → List (ℕ × Connection) → List (ℕ × Connection)
erase_all k [] = []
erase_all k ((j, c) ∷ m) = if j == k then erase_all k m else (j, c) ∷ erase_all k m

abbrev pub remove : ℕ → Server → Server
remove k s = record s { connections = erase_all k s.connections }

abbrev pub run_handler : Handler → Server → Option Server
run_handler (stop_connection k) s = some (submit (remove_connection k) (call k on_stop s))
run_handler (remove_connection k) s =
    let s' = remove k s in
    if s'.started && not s'.acceptor then add_connection (start_acceptor s') else some s'

-- the oldest handler runs
abbrev pub run_first : List Handler → Server → Option Server
run_first [] s = some s
run_first (h ∷ hs) s = run_handler h (record s { handlers = hs })

unfoldable pub run_next : Server → Option Server
run_next s = run_first s.handlers s
