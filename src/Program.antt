-- ===== src/Program.antt =====
-- src/SlimStreamer.cpp: the devices, the consumers of files, and how the program puts them together.
use slimstream.Base.{ℕ, ◌*◌, ◌/◌, ◌%◌, ◌^◌, true, some, List, [], ◌∷◌, map}
use slimstream.Exception.{Parameter, Outcome, done, ◌>>=◌}
use slimstream.Alsa.Parameters.{Parameters, get_logical_channels}
use slimstream.Encoder.{EncoderApi}
use slimstream.EncoderBuilder.{EncoderBuilder, get_format, get_header, get_sampling_rate, build}
use slimstream.FileConsumer
use slimstream.FileConsumer.{FileConsumer}
use slimstream.Demultiplexor
use slimstream.Demultiplexor.{Demultiplexor}
use slimstream.Multiplexor
use slimstream.Multiplexor.{Multiplexor}
use slimstream.Proto.Server.Strm.{FormatSelection, pcm}
use slimstream.Proto.StreamingSession.State.{text}

pub record Device : Type 0 where
  pub rate : ℕ
  pub name : List ℕ

abbrev device : ℕ → List ℕ → Device
device rate name = record { rate = rate; name = name }

unfoldable pub devices : List Device
devices =
    device 8000 (text "hw:1,1,1")
    ∷ device 11025 (text "hw:1,1,2")
    ∷ device 12000 (text "hw:1,1,3")
    ∷ device 16000 (text "hw:1,1,4")
    ∷ device 22500 (text "hw:1,1,5")
    ∷ device 24000 (text "hw:1,1,6")
    ∷ device 32000 (text "hw:1,1,7")
    ∷ device 44100 (text "hw:2,1,1")
    ∷ device 48000 (text "hw:2,1,2")
    ∷ device 88200 (text "hw:2,1,3")
    ∷ device 96000 (text "hw:2,1,4")
    ∷ device 176400 (text "hw:2,1,5")
    ∷ device 192000 (text "hw:2,1,6")
    ∷ []

-- the parameters of a source; a chunk lasts 100 milliseconds
abbrev pub source_of : Parameters → Device → Parameters
source_of p d = record p {
  sampling_rate = d.rate;
  device_name = d.name;
  frames_per_chunk = d.rate * 100 % 2 ^ 32 / 1000;
}

-- A source is known by its parameters.
unfoldable pub create_producers : Parameters → List Parameters
create_producers p = map (source_of p) devices

-- `std::move` of a vector into a new one: the new one, and what is left of the old one
abbrev pub move : {A : Type 0} → List A → List A × List A
move xs = (xs, [])

-- What is known of a source by the constructor of its file. `width` is the number of bits of a value,
-- which ALSA gives for the format.
module _ {K E : Type 0} (api : EncoderApi E) (callback : K) (order : List Parameter) where
  -- the constructor of FileConsumer, which takes a builder
  unfoldable pub create_file_consumer : EncoderBuilder K E → Outcome (FileConsumer E)
  create_file_consumer b = get_header b >>= λ header. get_sampling_rate b >>= λ rate.
      build order (record b { encoded_callback = some callback }) >>= λ e.
      done (FileConsumer.make api e header rate)

  abbrev pub configured : ℕ → Parameters → EncoderBuilder K E → EncoderBuilder K E
  configured width p b = record b {
    channels = some (get_logical_channels p);
    sampling_rate = some p.sampling_rate;
    bits_per_sample = some p.bits_per_sample;
    bits_per_value = some width;
  }

  -- one consumer for each producer
  unfoldable pub create_file_consumers :
      ℕ → List Parameters → EncoderBuilder K E → Outcome (List (FileConsumer E))
  create_file_consumers width [] b = done []
  create_file_consumers width (p ∷ ps) b = create_file_consumer (configured width p b) >>= λ c.
      create_file_consumers width ps (configured width p b) >>= λ cs. done (c ∷ cs)

  -- a header is written to files of PCM data
  abbrev pub with_header : FormatSelection → EncoderBuilder K E → EncoderBuilder K E
  with_header pcm b = record b { header = some true }
  with_header f b = b

  -- Producer and consumer of a program that writes files: the vector of producers is moved to the
  -- multiplexor first, and the consumers are made for what the move leaves of it.
  unfoldable pub create_file_mode :
      ℕ
      → List Parameters
      → EncoderBuilder K E
      → Outcome (Multiplexor Parameters × Demultiplexor (FileConsumer E))
  create_file_mode width producers b = get_format b >>= λ f.
      create_file_consumers width (move producers).1 (with_header f b) >>= λ consumers.
      done (Multiplexor.make (move producers).0, Demultiplexor.make consumers)
