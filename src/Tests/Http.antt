-- ===== src/Tests/Http.antt =====
-- An HTTP session with a WAV encoder and buffers of four bytes.
use slimstream.Base.{ℕ, ◌≡◌, ◌⊎◌, refl, arith, Bool, true, false, [], ◌∷◌, ◌++◌, if◌then◌else◌}
use slimstream.Base.Int.{pos}
use slimstream.Chunk.{Chunk}
use slimstream.Encoder.{Wave, make_wave, wave_api, wave_laws}
use slimstream.Util.BufferPool
use slimstream.Util.BufferPool.{get_available_size}
use slimstream.Proto.Wire.{Bytes}
use slimstream.Proto.StreamingSession.State.{Session, make_session}
use slimstream.Proto.StreamingSession.Transfer.{on_encoded, on_encoded_all}
use slimstream.Proto.StreamingSession.Lifecycle.{chunk_bytes, start, consume_chunk, run_next}
use slimstream.Proto.StreamingSession.Invariant.{Inv}
use slimstream.Proto.StreamingSession.Bytes.{unsent, Taken, on_encoded-Taken}
use slimstream.Proto.StreamingSession.Awake.{IsAwake}
use slimstream.Proto.StreamingSession.Steps.{
  starts, consumes, runs, made, stepped, Reachable-Inv, Reachable-IsAwake, Served, Reachable-Served,
}
use slimstream.Proto.StreamingSession.Sending
use slimstream.Proto.StreamingSession.Progress.{total}
use slimstream.Proto.StreamingSession.Sending.{Sends, Healthy, Sends-Healthy, Sends-total, taken_of}
use slimstream.Proto.StreamingSession.Rounds.{Ready, rounds}
use slimstream.Proto.StreamingSession.Drain.{drains}
use slimstream.Proto.StreamingSession.Ends.{last_chunk-lost, consume_chunk-whole}

abbrev memory : Bytes
memory = 0 ∷ 0 ∷ 0 ∷ 0 ∷ []

abbrev wave : Wave
wave = make_wave 2 16 16 48000 [] []

-- a frame of two channels
abbrev one_frame : Bool → Chunk
one_frame end = record {
  end_of_stream = end;
  sampling_rate = 48000;
  channels = 2;
  bytes_per_sample = 4;
  buffer = 1 ∷ 2 ∷ 3 ∷ 4 ∷ 5 ∷ 6 ∷ 7 ∷ 8 ∷ [];
  frames = 1;
  captured_frames = 1;
  timestamp = pos 0;
}

abbrev started : Session Wave
started = start wave_api [] (make_session memory [] wave)

abbrev fed : Session Wave
fed = (consume_chunk wave_api (one_frame false) started).1

abbrev sending : Session Wave
sending = run_next fed

Reachable-Inv_example : Inv 4 sending
Reachable-Inv_example =
    Reachable-Inv wave_api memory wave_laws (omega arith)
      (stepped (stepped (stepped (made [] wave) (starts [])) (consumes (one_frame false))) runs)

Reachable-Served_example : Served sending.write sending.transfer_buffer_queue sending.handlers
Reachable-Served_example =
    Reachable-Served wave_api memory wave_laws (omega arith)
      (stepped (stepped (stepped (made [] wave) (starts [])) (consumes (one_frame false))) runs)

abbrev begins : Sends 4 [] started
unfolding make_wave
begins = Sending.begins memory [] [] wave refl

started-Healthy : Healthy 4 [] started
started-Healthy = Sends-Healthy (omega arith) begins

fed-Sends : Sends 4 ([] ++ taken_of 4 (one_frame false) started) fed
unfolding make_wave make_session start
fed-Sends = Sending.takes (one_frame false) refl refl begins

Sends-total_example : sending.sent ++ unsent sending ≡ [] ++ taken_of 4 (one_frame false) started
Sends-total_example = Sends-total (omega arith) (Sending.runs fed-Sends)

on_encoded-Taken_example :
    Taken 4 (1 ∷ 2 ∷ 3 ∷ 4 ∷ 5 ∷ []) started (on_encoded 5 (1 ∷ 2 ∷ 3 ∷ 4 ∷ 5 ∷ []) started)
on_encoded-Taken_example =
    on_encoded-Taken 5 (1 ∷ 2 ∷ 3 ∷ 4 ∷ 5 ∷ []) started (omega arith) started-Healthy.live

fed-Healthy : Healthy 4 ([] ++ taken_of 4 (one_frame false) started) fed
fed-Healthy = Sends-Healthy (omega arith) fed-Sends

fed-IsAwake : IsAwake fed
fed-IsAwake =
    Reachable-IsAwake wave_api memory
      (stepped (stepped (made [] wave) (starts [])) (consumes (one_frame false)))

fed-Ready : Ready 4 fed
fed-Ready = record { inv = fed-Healthy.live.inv; awake = fed-IsAwake; opened = fed-Healthy.opened }

drains_example :
    (k : ℕ) × ((rounds 4 k fed).transfer_buffer_queue ≡ []) × ((rounds 4 k fed).sent ≡ total fed)
drains_example = drains fed fed-Ready

last_chunk-lost_example :
    ((consume_chunk wave_api (one_frame true) fed).0 ≡ true)
    × ((consume_chunk wave_api (one_frame true) fed).1.sent ≡ fed.sent)
    × (unsent (consume_chunk wave_api (one_frame true) fed).1
        ≡ (if fed.transferring then unsent fed else []))
unfolding get_available_size consume_chunk start make_session BufferPool.make make_wave
    on_encoded_all on_encoded BufferPool.first_free BufferPool.get_data BufferPool.copy
    BufferPool.set_free
last_chunk-lost_example = last_chunk-lost (one_frame true) fed fed-Healthy refl refl refl

consume_chunk-whole_example :
    (consume_chunk wave_api (one_frame false) started ≡ (false, started))
    ⊎ (((consume_chunk wave_api (one_frame false) started).0 ≡ true)
        × (total (consume_chunk wave_api (one_frame false) started).1
            ≡ total started ++ chunk_bytes (one_frame false)))
unfolding make_wave make_session start
consume_chunk-whole_example =
    consume_chunk-whole (one_frame false) started started-Healthy refl refl (omega arith)
