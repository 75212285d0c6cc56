-- ===== src/Tests/Capture.antt =====
-- A device of two channels, the last of which carries the markers; three producers; two consumers.
use slimstream.Base.{replicate, ℕ, ◌+◌, ◌≡◌, ◌<◌, refl, arith, true, false, none, List, [], ◌∷◌}
use slimstream.Base.Int.{pos}
use slimstream.Chunk.{Chunk}
use slimstream.Alsa.Parameters.{Parameters}
use slimstream.Alsa.Source
use slimstream.Alsa.Source.{Source, Read, period, failed, produce_period, produce, initialize_slot}
use slimstream.Alsa.Source.Marks.{in_stream, data_frames, marks}
use slimstream.Alsa.Source.Period.{outcome, produce_period-outcome}
use slimstream.Alsa.Source.Streams.{Framed, total_frames, produce-Framed, produce-total_frames}
use slimstream.Multiplexor
use slimstream.Multiplexor.{ProducerApi, Multiplexor}
use slimstream.Multiplexor.Turns.{Turn, Silent, calls, Turn-comes}
use slimstream.Demultiplexor
use slimstream.Demultiplexor.{ConsumerApi, Demultiplexor}
use slimstream.Demultiplexor.Routing.{Routed, consume_chunk-Routed}

abbrev parameters : Parameters
parameters = record {
  device_name = [];
  channels = 2;
  bits_per_sample = 8;
  sampling_rate = 44100;
  queue_size = 2;
  frames_per_chunk = 4;
  periods = 2;
}

-- a stream begins, has data in two frames, and ends
abbrev samples : List ℕ
samples = 9 ∷ 1 ∷ 7 ∷ 3 ∷ 8 ∷ 3 ∷ 9 ∷ 2 ∷ []

abbrev slot : Chunk
slot = record {
  end_of_stream = false;
  sampling_rate = 0;
  channels = 0;
  bytes_per_sample = 0;
  buffer = 0 ∷ 0 ∷ 0 ∷ 0 ∷ [];
  frames = 0;
  captured_frames = 0;
  timestamp = pos 0;
}

abbrev source : Source
source = record { producing = false; captured_frames = 0; is_beginning_of_stream = true }

produce_period-outcome_example :
    produce_period parameters false slot (pos 1) samples 4 source
    ≡ outcome parameters slot
        (pos 1)
        samples
        source
        false
        (data_frames (marks parameters samples) false 0 4)
        (in_stream (marks parameters samples) false 4)
produce_period-outcome_example =
    produce_period-outcome parameters slot (pos 1) samples source false 4 (omega arith)

abbrev new_slot : Chunk
new_slot = initialize_slot parameters (replicate 4 0) (record slot { buffer = [] })

abbrev reads : List Read
reads = period false slot (pos 1) samples 4 ∷ period false slot (pos 2) (9 ∷ 9 ∷ []) 1 ∷ failed ∷ []

produce-Framed_example : Framed true (produce parameters reads source).0
produce-Framed_example = produce-Framed parameters reads source

produce-total_frames_example :
    0 + total_frames (produce parameters reads source).0
    ≡ (produce parameters reads source).1.captured_frames
produce-total_frames_example = produce-total_frames parameters reads source

two_frames : (produce parameters reads source).1.captured_frames ≡ 2
unfolding produce produce_period Source.contains_data Source.copy_data Source.read_bytes
two_frames = refl

-- a producer that has nothing
abbrev silent_api : ProducerApi ℕ ℕ
silent_api = record {
  is_running = λ p. true;
  produce_chunk = λ p k. (none, p + 1, k);
  skip_chunk = λ p. (none, p);
  start = λ p. p;
}

silent : Silent silent_api
silent p k = refl

abbrev three : Multiplexor ℕ
three = Multiplexor.switch_to_next_producer (Multiplexor.make (0 ∷ 0 ∷ 0 ∷ []))

three-Turn : Turn 3 1 three
unfolding Multiplexor.make Multiplexor.switch_to_next_producer
three-Turn = record {
  size = refl;
  index = refl;
  current = refl;
  in_range = omega arith;
  few = omega arith;
}

Turn-comes_example : (j : ℕ) × (j < 3) × Turn 3 0 (calls silent_api j three 5).0
Turn-comes_example = Turn-comes silent_api 0 three 5 silent three-Turn (omega arith)

-- a consumer is its sampling rate
abbrev rates : ConsumerApi ℕ
rates = record {
  get_sampling_rate = λ c. c;
  is_running = λ c. true;
  consume_chunk = λ chunk c. (true, c);
  start = λ c. c;
  stop = λ c. c;
}

consume_chunk-Routed_example :
    Routed rates slot
      (Demultiplexor.make (44100 ∷ 0 ∷ []))
      (Demultiplexor.consume_chunk rates slot (Demultiplexor.make (44100 ∷ 0 ∷ [])))
consume_chunk-Routed_example = consume_chunk-Routed rates slot (Demultiplexor.make (44100 ∷ 0 ∷ []))
