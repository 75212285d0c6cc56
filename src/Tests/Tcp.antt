-- ===== src/Tests/Tcp.antt =====
-- The TCP server at concrete inputs.
use slimstream.Base.{◌≡◌, refl, true, false, arith, none, some, [], ◌∷◌}
use slimstream.Proto.Streamer.State.{find, assign, count_if}
use slimstream.Base.Int.{pos}
use slimstream.Proto.Wire.{Bytes}
use slimstream.Proto.Server.Strm.{flac}
use slimstream.Proto.Streamer.State.{StreamingApi, Streamer, make_streamer}
use slimstream.Proto.Streamer.Sessions.{returned, on_slim_proto_open}
use slimstream.Conn.Serving.{calls, made as made_streamer}
use slimstream.Conn.Serving.Open.{open-returns}
use slimstream.Conn.Tcp.State.{
  Waiting, Connection, Server, on_start, on_open, on_stop, stop_connection, remove_connection,
  make_server,
}
use slimstream.Conn.Tcp.Server.{
  start, add_connection, start_acceptor, stop_acceptor, accepted, open_connection, after_open,
  received, close_connection, run_next, erase_all,
}
use slimstream.Conn.Tcp.Steps.{Reachable, made, stepped, starts, accepts, receives}
use slimstream.Conn.Tcp.Life.{Alive}
use slimstream.Conn.Tcp.Life.Steps.{Reachable-Alive}
use slimstream.Conn.Tcp.Limit as Limit
use slimstream.Conn.Tcp.Limit.Room.{Room}
use slimstream.Conn.Tcp.Limit.Steps.{Calm-Room}
use slimstream.Conn.Tcp.Deaf as Deaf
use slimstream.Conn.Tcp.Deaf.{failed_accept-Deaf}

abbrev waiting_for_one : Connection
waiting_for_one = record { opened = false; is_open = false; waiting = Waiting.accepting }

-- a server with a limit of one connection, which waits for its first accept
abbrev begun : Server
begun = record {
  started = true;
  acceptor = true;
  max_connections = 1;
  next_id = 1;
  connections = (0, waiting_for_one) ∷ [];
  handlers = [];
  calls = (0, on_start) ∷ [];
}

abbrev reading_one : Connection
reading_one = record { opened = true; is_open = true; waiting = Waiting.reading }

-- its connection is opened: the limit is reached, and the acceptor goes
abbrev full : Server
full = record {
  started = true;
  acceptor = false;
  max_connections = 1;
  next_id = 1;
  connections = (0, reading_one) ∷ [];
  handlers = [];
  calls = (0, on_open) ∷ (0, on_start) ∷ [];
}

begun_lem : start (make_server 1) ≡ some begun
unfolding start make_server start_acceptor add_connection
begun_lem = refl

full_lem : accepted false 0 waiting_for_one begun ≡ some full
unfolding accepted open_connection after_open assign find count_if stop_acceptor
full_lem = refl

found_lem : find 0 begun.connections ≡ some waiting_for_one
unfolding find
found_lem = refl

found_full : find 0 full.connections ≡ some reading_one
unfolding find
found_full = refl

Reachable-full : Reachable 1 full
Reachable-full = stepped (stepped made (starts begun_lem)) (accepts false 0 found_lem refl full_lem)

Reachable-Alive_example : Alive none (received true [] 0 reading_one full)
Reachable-Alive_example =
    Reachable-Alive (stepped Reachable-full (receives true [] 0 found_full refl))

Calm-Room_example : Room 1 (received true [] 0 reading_one full)
Calm-Room_example = Calm-Room (omega arith) (
    Limit.receives true [] 0
      (Limit.accepts false 0 (Limit.begins begun_lem) (λ e. refl) found_lem refl full_lem)
      found_full refl)

-- the accept fails
abbrev closed_one : Connection
closed_one = record { opened = false; is_open = false; waiting = Waiting.nothing }

abbrev failed : Server
failed = record begun { connections = (0, closed_one) ∷ []; handlers = stop_connection 0 ∷ [] }

abbrev told : Server
told = record failed {
  handlers = remove_connection 0 ∷ [];
  calls = (0, on_stop) ∷ (0, on_start) ∷ [];
}

abbrev emptied : Server
emptied = record told { connections = []; handlers = [] }

failed_lem : accepted true 0 waiting_for_one begun ≡ some failed
unfolding accepted open_connection close_connection assign
failed_lem = refl

told_lem : run_next failed ≡ some told
unfolding run_next
told_lem = refl

emptied_lem : run_next told ≡ some emptied
unfolding run_next erase_all
emptied_lem = refl

failed_accept-Deaf_example : Deaf.Deaf 1 emptied
unfolding count_if
failed_accept-Deaf_example =
    failed_accept-Deaf 0 begun found_lem refl refl refl failed_lem
      (Deaf.runs (Deaf.runs Deaf.here told_lem) emptied_lem)

-- a Streamer whose streaming sessions are their clients' IDs
abbrev api : StreamingApi Bytes
api = record {
  make = λ id rate. id;
  client_id = λ t. t;
  is_running = λ t. true;
  start = λ t. t;
  on_request = λ bytes t. t;
  consume_chunk = λ c t. (true, t);
  stop = λ t. t;
}

abbrev streamer : Streamer Bytes
streamer = make_streamer (pos 0) 9000 flac none

open-returns_example :
    (t : Streamer Bytes) × (on_slim_proto_open api (pos 5) 0 streamer ≡ returned t)
open-returns_example =
    open-returns api (pos 5) 0 [] ((0, on_start) ∷ []) streamer Reachable-full refl
      (calls (pos 0) (pos 0) 0 on_start (made_streamer (pos 0) 9000 flac none) refl)
