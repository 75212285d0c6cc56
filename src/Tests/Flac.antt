-- ===== src/Tests/Flac.antt =====
-- The FLAC encoder over a library that passes on what it reads, at concrete inputs.
use slimstream.Base.{ℕ, ◌+◌, refl, arith, true, List, [], ◌∷◌, ◌++◌}
use slimstream.Encoder.Flac.{FlacApi, Flac, make_flac, start}
use slimstream.Encoder.Flac.Words.{Sample, Handed, encode-Handed}
use slimstream.Encoder.Flac.Ends.{StartedAs, start_calls, start-StartedAs}

-- a stream is the memory that was read
abbrev recorder : FlacApi (List ℕ)
recorder = record {
  set_verify = λ b f. (true, f);
  set_compression_level = λ n f. (true, f);
  set_streamable_subset = λ b f. (true, f);
  set_channels = λ n f. (true, f);
  set_sample_rate = λ n f. (true, f);
  set_bits_per_sample = λ n f. (true, f);
  init = λ f. (true, f);
  process_interleaved = λ memory n f. (true, memory ∷ [], f ++ memory);
  finish = λ f. (true, [], f);
}

abbrev stopped : Flac (List ℕ)
stopped = make_flac [] 2 32 32 44100 [] []

abbrev running : Flac (List ℕ)
running = record stopped { running = true; down_scale = true }

abbrev sample : ℕ → Sample
sample n = record { b0 = n; b1 = n + 1; b2 = n + 2; b3 = n + 3 }

-- two frames of two channels
encode-Handed_example :
    Handed recorder running 1 (sample 10 ∷ sample 20 ∷ sample 30 ∷ sample 40 ∷ [])
unfolding make_flac
encode-Handed_example =
    encode-Handed recorder running 1 (sample 10) (sample 20 ∷ sample 30 ∷ sample 40 ∷ []) refl refl
      refl (omega arith) refl

start-StartedAs_example :
    StartedAs stopped (start_calls recorder stopped) [] (start recorder stopped)
unfolding make_flac
start-StartedAs_example = start-StartedAs stopped recorder refl refl
