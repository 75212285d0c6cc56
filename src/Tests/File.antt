-- ===== src/Tests/File.antt =====
-- A file with two channels of 16 bits.
use slimstream.Base.{◌≡◌, arith, true, false, List, [], ◌∷◌, length}
use slimstream.Base.Int.{pos}
use slimstream.Encoder.{make_wave, wave_api}
use slimstream.Proto.Wire.{load32}
use slimstream.FileConsumer.{header_bytes, make}
use slimstream.FileConsumer.Header.{
  Move, consumes, starts, header_ends, moves, header_bytes-sizes, moves-writer,
}

header_bytes-sizes_example :
    (length (header_bytes 1044 2 16 44100) ≡ 44)
    × (load32 (header_bytes 1044 2 16 44100) 4 ≡ 1044)
    × (load32 (header_bytes 1044 2 16 44100) 40 ≡ 1044)
header_bytes-sizes_example = header_bytes-sizes 1044 2 16 44100 (omega arith)

abbrev some_moves : List Move
some_moves =
    header_ends false 44
    ∷ starts
    ∷ consumes (record {
      end_of_stream = false;
      sampling_rate = 44100;
      channels = 2;
      bytes_per_sample = 2;
      buffer = 1 ∷ 2 ∷ 3 ∷ 4 ∷ [];
      frames = 1;
      captured_frames = 1;
      timestamp = pos 0;
    })
    ∷ []

moves-writer_example :
    (moves some_moves (make wave_api (make_wave 2 16 16 44100 [] []) true 44100)).writer
    ≡ (make wave_api (make_wave 2 16 16 44100 [] []) true 44100).writer
moves-writer_example = moves-writer some_moves true 2 16 16 44100 [] []
