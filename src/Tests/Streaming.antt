-- ===== src/Tests/Streaming.antt =====
-- A Streamer whose HTTP sessions take every chunk.
use slimstream.Base.{ℕ, ◌+◌, ◌≤◌, ◌≡◌, ltb, refl, arith, Bool, true, false, none, List, [], ◌∷◌}
use slimstream.Base.Int.{pos}
use slimstream.Chunk.{Chunk}
use slimstream.Proto.Wire.{Bytes}
use slimstream.Proto.Server.Strm.{flac}
use slimstream.Proto.Streamer.State.{State, StreamingApi, Streamer, make_streamer, count_if}
use slimstream.Proto.Streamer.Machine.{start, is_draining}
use slimstream.Proto.Streamer.Deliver.{deliver_all}
use slimstream.Proto.Streamer.Deliver.InStep.{no_entry, entry, Delivered, deliver_all-Delivered}
use slimstream.Proto.Streamer.Chunks.{consume_chunk}
use slimstream.Proto.Streamer.Sessions.{Reply, returned, on_slim_proto_open}
use slimstream.Proto.Streamer.Loss.{consume_chunk-loses}

-- a streaming session is its client's ID
abbrev api : StreamingApi Bytes
api = record {
  make = λ id rate. id;
  client_id = λ t. t;
  is_running = λ t. true;
  start = λ t. t;
  on_request = λ bytes t. t;
  consume_chunk = λ c t. (true, t);
  stop = λ t. t;
}

abbrev fresh : Streamer Bytes
fresh = make_streamer (pos 0) 9000 flac none

abbrev streamer_of : Reply (Streamer Bytes) → Streamer Bytes
streamer_of (returned s) = s
streamer_of _ = fresh

abbrev opened : Streamer Bytes
opened = streamer_of (on_slim_proto_open api (pos 10) 4 (start api (pos 5) fresh))

abbrev chunk : Chunk
chunk = record {
  end_of_stream = false;
  sampling_rate = 44100;
  channels = 2;
  bytes_per_sample = 4;
  buffer = [];
  frames = 100;
  captured_frames = 100;
  timestamp = pos 5000;
}

abbrev give : ℕ → ℕ → Bool × ℕ
give k w = (ltb k 3, w + 1)

abbrev entries : List (ℕ × ℕ)
entries = (1, 5) ∷ (2, 6) ∷ (3, 5) ∷ []

deliver_all-Delivered_example :
    Delivered give 5 (λ w. 1 ≤ w) (λ k w p. omega arith) entries 1 (deliver_all give 5 entries 1)
deliver_all-Delivered_example =
    deliver_all-Delivered give 5 (λ w. 1 ≤ w) (λ k w p. omega arith) entries 1
      (entry (omega arith) (omega arith)
        (entry (omega arith) (omega arith) (entry (omega arith) (omega arith) no_entry)))
      (omega arith)

abbrev in_state : State → Streamer Bytes
in_state st = record fresh { state = st; sampling_rate = 48000 }

consume_chunk-loses_example :
    consume_chunk api (pos 20) chunk (in_state State.playing)
    ≡ (true, record (in_state State.playing) { state = State.started })
unfolding is_draining make_streamer count_if
consume_chunk-loses_example =
    consume_chunk-loses api (pos 20) chunk (in_state State.playing) refl refl refl
