-- ===== src/Conn/Udp.antt =====
-- src/slim/conn/udp/Server.hpp: the UDP server, with the data callback of src/SlimStreamer.cpp, which
-- answers the discovery requests of players.
pub mod Answers
use slimstream.Base.{
  ℕ, ◌+◌, ◌-◌, Bool, true, false, Option, none, some, List, [], ◌∷◌, length, if◌then◌else◌,
}
use slimstream.Proto.Wire.{Bytes}

-- The peer's endpoint: that of a new object, or where a datagram came from.
pub data Endpoint : Type 0 where
  unset : Endpoint
  from : ℕ → Endpoint

-- `socket` says whether there is one; it is open then. `receptions` counts those under way. `sent` has
-- the datagrams and where they went, newest first.
pub record Server : Type 0 where
  pub started : Bool
  pub socket : Bool
  pub peer : Option Endpoint
  pub receptions : ℕ
  pub sent : List (Bytes × Endpoint)

-- the constructor
abbrev pub make_server : Server
make_server = record { started = false; socket = false; peer = none; receptions = 0; sent = [] }

unfoldable pub receive_data : Server → Server
receive_data s = if s.socket then record s { receptions = s.receptions + 1 } else s

unfoldable pub open_socket : Server → Server
open_socket s = receive_data (record s { socket = true; peer = some unset })

-- A reception under way ends with an error.
unfoldable pub close_socket : Server → Server
close_socket s = if s.socket then record s { socket = false } else s

unfoldable pub start : Server → Server
start s = record (open_socket s) { started = true }

unfoldable pub stop : Server → Server
stop s = record (close_socket s) { peer = none; started = false }

-- the number of bytes sent; `fails` is what the network says of the datagram
abbrev pub send_to : Bool → Bytes → Option Endpoint → Server → ℕ × Server
send_to true bytes e s = (0, s)
send_to false bytes none s = (0, s)
send_to false bytes (some e) s = (length bytes, record s { sent = (bytes, e) ∷ s.sent })

unfoldable pub write : Bool → Bytes → Server → ℕ × Server
write fails bytes s = if s.socket then send_to fails bytes s.peer s else (0, s)

-- the data callback of `createDiscoveryCallbacks`
unfoldable pub answer : Bool → Server → Server
answer fails s = (write fails (b'E' ∷ []) s).1

-- `onData`, when a reception ends: with an error, or with a datagram, whose endpoint is then the peer's
-- if the server still has one
abbrev pub set_peer : ℕ → Option Endpoint → Option Endpoint
set_peer k none = none
set_peer k (some e) = some (from k)

unfoldable pub on_data : Bool → Bool → ℕ → Server → Server
on_data error fails k s =
    let ended = record s { receptions = s.receptions - 1 } in
    if error then ended else receive_data (answer fails (record ended { peer = set_peer k s.peer }))
