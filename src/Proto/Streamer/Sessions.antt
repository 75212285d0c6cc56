-- ===== src/Proto/Streamer/Sessions.antt =====
-- The callbacks of the servers: sessions come, receive and go.
pub mod ClientId
use slimstream.Base.{
  ℕ, zero, suc, ◌+◌, ◌/◌, ◌%◌, Option, none, some, List, [], ◌∷◌, ltb, ◌==◌, if◌then◌else◌,
}
use slimstream.Exception.{Exception, missing_client_id, no_correlated_session}
use slimstream.Util.Time.{Timestamp}
use slimstream.Proto.Wire.{Bytes, same_bytes}
use slimstream.Proto.CommandSession.State.{Session, make_session}
use slimstream.Proto.CommandSession.Lifecycle
use slimstream.Proto.CommandSession.Request.{Round, processed, raised, broken, on_request}
use slimstream.Proto.Streamer.State.{StreamingApi, Streamer, find, assign, erase, session_env}

-- the decimal digits of a number, before those in the buffer: `ss << n`. A number has no more digits
-- than itself and one.
unfoldable pub digits : ℕ → ℕ → Bytes → Bytes
digits zero n out = out
digits (suc fuel) n out =
    let rest = digits fuel (n / 10) ((48 + n % 10) ∷ out) in
    if ltb n 10 then (48 + n) ∷ out else rest

abbrev pub to_decimal : ℕ → Bytes
to_decimal n = digits (suc n) n []

-- what follows the first `=` (byte 61)
unfoldable pub parse_client_id : Bytes → Option Bytes
parse_client_id [] = none
parse_client_id (b ∷ bs) = if b == 61 then some bs else parse_client_id bs

-- `findSessionByID`: the key of the session found
module _ {V : Type 0} (get_client_id : V → Bytes) where
  unfoldable pub find_session_by_id : List (ℕ × V) → Bytes → Option ℕ
  find_session_by_id [] id = none
  find_session_by_id ((k, v) ∷ m) id =
      if same_bytes (get_client_id v) id then some k else find_session_by_id m id

-- What a callback comes to: the Streamer, which an exception leaves behind too.
pub data Reply (X : Type 0) : Type 0 where
  returned : X → Reply X
  failed : Exception → X → Reply X
  undefined : Reply X

-- sets the reference of the command session that was found
abbrev pub refer_at : Option ℕ → ℕ → Option Session → List (ℕ × Session) → List (ℕ × Session)
refer_at r k none cs = cs
refer_at r k (some s) cs = assign k (Lifecycle.set_streaming_session r s) cs

unfoldable pub set_reference : Option ℕ → Option ℕ → List (ℕ × Session) → List (ℕ × Session)
set_reference r none cs = cs
set_reference r (some k) cs = refer_at r k (find k cs) cs

-- `addSession`, which keeps a session that is there
abbrev pub add_at : {V : Type 0} → Option V → ℕ → V → List (ℕ × V) → List (ℕ × V)
add_at none k v m = assign k v m
add_at (some w) k v m = m

unfoldable pub add_session : {V : Type 0} → ℕ → V → List (ℕ × V) → List (ℕ × V)
add_session k v m = add_at (find k m) k v m

module _ {T : Type 0} (api : StreamingApi T) (now : Timestamp) where
  abbrev find_command_session : Bytes → Streamer T → Option ℕ
  find_command_session id s = find_session_by_id (λ c. c.client_id) s.command_sessions id

  abbrev stop_connection : ℕ → Streamer T → Streamer T
  stop_connection k s = record s { stopped_connections = k ∷ s.stopped_connections }

  -- `removeSession`: the session is stopped, and taken out of the map by the callback of `stop`. That
  -- callback runs at once if the streaming session does not run, and in a later handler otherwise.
  unfoldable pub remove_streaming_session : ℕ → T → Streamer T → Streamer T
  remove_streaming_session k t s =
      if api.is_running t
      then record s { streaming_sessions = assign k (api.stop t) s.streaming_sessions }
      else record s { streaming_sessions = erase k s.streaming_sessions }

  -- that later handler
  unfoldable pub streaming_session_removed : ℕ → Streamer T → Streamer T
  streaming_session_removed k s = record s { streaming_sessions = erase k s.streaming_sessions }

  abbrev pub close_stream : ℕ → Option T → Streamer T → Streamer T
  close_stream k none s = s
  close_stream k (some t) s = remove_streaming_session k t (record s {
    command_sessions =
        set_reference none (find_command_session (api.client_id t) s) s.command_sessions;
  })

  unfoldable pub on_http_close : ℕ → Streamer T → Streamer T
  on_http_close k s = close_stream k (find k s.streaming_sessions) s

  -- a connection that has no streaming session yet
  abbrev pub open_stream : ℕ → Bytes → Bytes → Option ℕ → Streamer T → Reply (Streamer T)
  open_stream k id bytes none s = failed no_correlated_session (stop_connection k s)
  open_stream k id bytes (some j) s = returned (record s {
    command_sessions = set_reference (some k) (some j) s.command_sessions;
    streaming_sessions =
        add_session k (api.on_request bytes (api.start (api.make id s.sampling_rate)))
          s.streaming_sessions;
  })

  abbrev pub on_first_data : ℕ → Bytes → Option Bytes → Streamer T → Reply (Streamer T)
  on_first_data k bytes none s = failed missing_client_id s
  on_first_data k bytes (some id) s = open_stream k id bytes (find_command_session id s) s

  abbrev pub on_stream_data : ℕ → Bytes → Option T → Streamer T → Reply (Streamer T)
  on_stream_data k bytes none s = on_first_data k bytes (parse_client_id bytes) s
  on_stream_data k bytes (some t) s =
      returned
        (record s { streaming_sessions = assign k (api.on_request bytes t) s.streaming_sessions })

  unfoldable pub on_http_data : ℕ → Bytes → Streamer T → Reply (Streamer T)
  on_http_data k bytes s = on_stream_data k bytes (find k s.streaming_sessions) s

  unfoldable pub on_http_open : ℕ → Streamer T → Streamer T
  on_http_open k s = s

  -- A command session runs the callback of its `stop` at once.
  abbrev pub close_session : ℕ → Option Session → Streamer T → Streamer T
  close_session k none s = s
  close_session k (some c) s = record s {
    chunk_sequences = erase k s.chunk_sequences;
    command_sessions = erase k s.command_sessions;
  }

  unfoldable pub on_slim_proto_close : ℕ → Streamer T → Streamer T
  on_slim_proto_close k s = close_session k (find k s.command_sessions) s

  abbrev pub put_round : ℕ → Option Round → Streamer T → Reply (Streamer T)
  put_round k none s = undefined
  put_round k (some (processed n c)) s =
      returned (record s { command_sessions = assign k c s.command_sessions })
  put_round k (some (raised e c)) s =
      returned (stop_connection k (record s { command_sessions = assign k c s.command_sessions }))
  put_round k (some broken) s = undefined

  abbrev pub data_for : ℕ → Bytes → Timestamp → Option Session → Streamer T → Reply (Streamer T)
  data_for k bytes t none s = returned (stop_connection k s)
  data_for k bytes t (some c) s = put_round k (on_request (session_env now s) bytes t c) s

  -- An exception is caught, and the connection is stopped.
  unfoldable pub on_slim_proto_data : ℕ → Bytes → Timestamp → Streamer T → Reply (Streamer T)
  on_slim_proto_data k bytes t s = data_for k bytes t (find k s.command_sessions) s

  -- the session that a new connection gets
  abbrev pub new_session : Streamer T → Session
  new_session s =
      Lifecycle.start (session_env now s)
        (make_session now (to_decimal (s.next_id + 1)) s.streaming_port s.format s.gain)

  -- For a connection that has a session, the new one is dropped, and its pointer is left in
  -- `sessionToChunkSequenceMap`.
  abbrev pub open_session : ℕ → Option Session → Streamer T → Reply (Streamer T)
  open_session k none s = returned (record s {
    next_id = s.next_id + 1;
    chunk_sequences = assign k s.streamed_chunks s.chunk_sequences;
    command_sessions = add_session k (new_session s) s.command_sessions;
  })
  open_session k (some d) s = undefined

  unfoldable pub on_slim_proto_open : ℕ → Streamer T → Reply (Streamer T)
  on_slim_proto_open k s = open_session k (find k s.command_sessions) s
