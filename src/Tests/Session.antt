-- ===== src/Tests/Session.antt =====
-- A new session that receives a DSCO command.
use slimstream.Base.{ℕ, ◌≡◌, ◌↔◌, refl, arith, true, false, none, some, [], ◌∷◌}
use slimstream.Base.Int.{pos}
use slimstream.Chunk.{Chunk}
use slimstream.Exception.{fault}
use slimstream.Util.Ring.Refine.{contents}
use slimstream.Proto.Wire.{Bytes}
use slimstream.Proto.Server.Strm.{flac}
use slimstream.Proto.Client.Commands.{Stat, label, dsco, convert_stat}
use slimstream.Proto.Client.Inbound.{make}
use slimstream.Proto.Client.Inbound.Laws.{Deserialized, make-Deserialized}
use slimstream.Proto.CommandSession.State.{Session, Env, make_session}
use slimstream.Proto.CommandSession.Invariant.{Inv, make_session-Inv}
use slimstream.Proto.CommandSession.Handlers.{on_stat_event, find_event_handler}
use slimstream.Proto.CommandSession.Handlers.Invariant.{Keeps}
use slimstream.Proto.CommandSession.Handlers.Faults.{Faulty, on_stat_event-fault}
use slimstream.Proto.CommandSession.Request.{Round, push_all, on_request}
use slimstream.Proto.CommandSession.Request.Ends.{Ended, on_request-ends}

abbrev env : Env
env = record {
  now = pos 5000;
  streamer_sampling_rate = 44100;
  streamer_is_playing = true;
  playback_start_time = pos 9000;
}

abbrev session : Session
session = make_session (pos 1000) (b'1' ∷ []) 9000 flac none

abbrev sound : Inv session
sound = make_session-Inv (pos 1000) (b'1' ∷ []) 9000 flac none

abbrev dsco_bytes : Bytes
dsco_bytes = b'D' ∷ b'S' ∷ b'C' ∷ b'O' ∷ 0 ∷ 0 ∷ 0 ∷ 1 ∷ 2 ∷ []

on_request-ends_example :
    (r : Round) × (on_request env dsco_bytes (pos 6000) session ≡ some r)
    × Ended (contents (push_all session.command_ring_buffer dsco_bytes)) r
on_request-ends_example = on_request-ends env dsco_bytes (pos 6000) session sound

-- a STAT command that is all zeroes but for its event
abbrev stat_of : ℕ → Stat
stat_of event =
    convert_stat (b'S' ∷ b'T' ∷ b'A' ∷ b'T' ∷ 0 ∷ 0 ∷ 0 ∷ 53 ∷ b'S' ∷ b'T' ∷ b'M' ∷ event ∷ [])

abbrev kept : Keeps session.command_ring_buffer session
kept = record { inv = sound; same_ring = refl }

on_stat_event-fault_example :
    (on_stat_event env (stat_of b'l') (pos 6000) session ≡ fault)
    ↔ Faulty (stat_of b'l') session (find_event_handler (stat_of b'l').event)
on_stat_event-fault_example = on_stat_event-fault env (stat_of b'l') (pos 6000) session

abbrev chunk : Chunk
chunk = record {
  end_of_stream = false;
  sampling_rate = 44100;
  channels = 2;
  bytes_per_sample = 4;
  buffer = [];
  frames = 100;
  captured_frames = 100;
  timestamp = pos 5000;
}

make-Deserialized_example :
    Deserialized 9
      (label dsco)
      (push_all session.command_ring_buffer dsco_bytes)
      (make 9 (label dsco) (push_all session.command_ring_buffer dsco_bytes))
make-Deserialized_example =
    make-Deserialized 9 (label dsco) (push_all session.command_ring_buffer dsco_bytes) (omega arith)
