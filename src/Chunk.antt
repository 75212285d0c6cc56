-- ===== src/Chunk.antt =====
-- src/slim/Chunk.hpp: a piece of captured PCM data.
use slimstream.Base.{ℕ, Bool, List, length, ◌==◌, if◌then◌else◌}
use slimstream.Util.Time.{Timestamp}

pub record Chunk : Type 0 where
  pub end_of_stream : Bool
  pub sampling_rate : ℕ
  pub channels : ℕ
  pub bytes_per_sample : ℕ
  pub buffer : List ℕ
  pub frames : ℕ
  pub captured_frames : ℕ
  pub timestamp : Timestamp

-- `clear`: the buffer keeps its bytes
unfoldable pub clear : Chunk → Chunk
clear c = record c { frames = 0; captured_frames = 0 }

-- `allocateBuffer`; `memory` is a new buffer of that size
unfoldable pub allocate_buffer : ℕ → List ℕ → Chunk → Chunk
allocate_buffer size memory c =
    clear (if length c.buffer == size then c else record c { buffer = memory })
