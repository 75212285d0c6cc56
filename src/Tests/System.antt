-- ===== src/Tests/System.antt =====
-- The Streamer with HTTP sessions that encode WAV, at concrete inputs.
use slimstream.Base.{ℕ, ◌≡◌, refl, arith, none, some, [], ◌∷◌}
use slimstream.Base.Int.{pos}
use slimstream.Encoder.{Wave, make_wave, wave_api, wave_laws}
use slimstream.Util.StateMachine.{process_event}
use slimstream.Proto.Wire.{Bytes, same_bytes}
use slimstream.Proto.Server.Strm.{flac}
use slimstream.Proto.Streamer.State.{Streamer, make_streamer, find, assign}
use slimstream.Proto.Streamer.Machine.{fire, start}
use slimstream.Proto.Streamer.Sessions.{
  Reply, returned, on_slim_proto_open, on_http_data, find_session_by_id, parse_client_id, digits,
  add_session,
}
use slimstream.Proto.Streamer.Steps.{starts, opens, http_receives}
use slimstream.Proto.StreamingSession.State.{Session, make_session}
use slimstream.Proto.CommandSession.Lifecycle as Lifecycles
use slimstream.Proto.CommandSession.Machine as Machines
use slimstream.Proto.CommandSession.State as States
use slimstream.Proto.StreamingSession.Lifecycle as Lifecycle
use slimstream.Proto.System.{streaming_sessions, Reachable, made, stepped, streamer}
use slimstream.Proto.System.Whole.{Whole, Flowing, system-Whole, system-Flowing}

abbrev memory : Bytes
memory = 0 ∷ 0 ∷ 0 ∷ 0 ∷ []

abbrev build : ℕ → Wave
build rate = make_wave 2 16 16 rate [] []

abbrev streamer_of : Reply (Streamer (Session Wave)) → Streamer (Session Wave)
streamer_of (returned s) = s
streamer_of _ = make_streamer (pos 0) 9000 flac none

abbrev begun : Streamer (Session Wave)
begun =
    start (streaming_sessions wave_api [] memory build) (pos 5)
      (make_streamer (pos 0) 9000 flac none)

abbrev opened : Streamer (Session Wave)
opened =
    streamer_of (on_slim_proto_open (streaming_sessions wave_api [] memory build) (pos 10) 4 begun)

-- `GET /stream?player=1`
abbrev request : Bytes
request = b'G' ∷ b'E' ∷ b'T' ∷ b'=' ∷ b'1' ∷ []

abbrev served : Streamer (Session Wave)
served =
    streamer_of
      (on_http_data (streaming_sessions wave_api [] memory build) (pos 20) 7 request opened)

opened_lem :
    on_slim_proto_open (streaming_sessions wave_api [] memory build) (pos 10) 4 begun
    ≡ returned opened
unfolding on_slim_proto_open start fire process_event make_streamer find
opened_lem = refl

served_lem :
    on_http_data (streaming_sessions wave_api [] memory build) (pos 20) 7 request opened
    ≡ returned served
unfolding on_http_data on_slim_proto_open start fire process_event make_streamer find
    find_session_by_id parse_client_id digits add_session assign same_bytes Lifecycles.start
    Machines.fire States.make_session
served_lem = refl

Reachable-served : Reachable wave_api [] memory build served
Reachable-served =
    stepped
      (stepped (stepped (made (pos 0) 9000 flac none) (streamer (starts (pos 5))))
        (streamer (opens (pos 10) 4 opened_lem)))
      (streamer (http_receives (pos 20) 7 request served_lem))

abbrev serving : Session Wave
serving =
    Lifecycle.on_request wave_api request
      (Lifecycle.start wave_api [] (make_session memory (b'1' ∷ []) (build 0)))

found_lem : find 7 served.streaming_sessions ≡ some serving
unfolding on_http_data on_slim_proto_open start fire process_event make_streamer find
    find_session_by_id parse_client_id digits add_session assign same_bytes Lifecycles.start
    Machines.fire States.make_session
found_lem = refl

system-Whole_example : Whole wave_api memory served
system-Whole_example = system-Whole wave_api [] memory build Reachable-served

system-Flowing_example : Flowing 4 serving
system-Flowing_example =
    system-Flowing wave_api [] memory build 7 wave_laws (omega arith) found_lem Reachable-served
