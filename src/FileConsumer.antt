-- ===== src/FileConsumer.antt =====
-- src/slim/FileConsumer.hpp: the consumer that encodes chunks to a file, with the header of a WAV file if
-- one is required.
pub mod Header
use slimstream.Base.{
  ℕ, ◌+◌, ◌*◌, ◌/◌, ◌%◌, ◌^◌, Bool, true, false, List, [], ◌∷◌, ◌++◌, map, take, if◌then◌else◌,
}
use slimstream.Chunk.{Chunk}
use slimstream.Encoder.{EncoderApi}
use slimstream.Proto.Wire.{Bytes, store16, store32}

-- what the writer was told, the oldest first
pub data Written : Type 0 where
  rewind : ℕ → Written
  write_async : Bytes → Written

pub record FileConsumer (E : Type 0) : Type 0 where
  pub writer : List Written
  pub encoder : E
  pub header_required : Bool
  pub sampling_rate : ℕ
  pub running : Bool
  pub bytes_written : ℕ

-- The fields of the header. `size` is cut to 32 bits, and so are the products of unsigned integers.
unfoldable pub header_bytes : ℕ → ℕ → ℕ → ℕ → Bytes
header_bytes size channels bits_per_sample sampling_rate =
    let bytes_per_frame = channels * (bits_per_sample / 8) % 2 ^ 32 in
    let byte_rate = sampling_rate * bytes_per_frame % 2 ^ 32 in
    (b'R' ∷ b'I' ∷ b'F' ∷ b'F' ∷ [])
    ++ store32 (size % 2 ^ 32)
    ++ (b'W' ∷ b'A' ∷ b'V' ∷ b'E' ∷ [])
    ++ (b'f' ∷ b'm' ∷ b't' ∷ b' ' ∷ [])
    ++ (16 ∷ 0 ∷ 0 ∷ 0 ∷ [])
    ++ (1 ∷ 0 ∷ [])
    ++ store16 channels
    ++ store32 sampling_rate
    ++ store32 byte_rate
    ++ store16 bytes_per_frame
    ++ store16 bits_per_sample
    ++ (b'd' ∷ b'a' ∷ b't' ∷ b'a' ∷ [])
    ++ store32 (size % 2 ^ 32)

module _ {E : Type 0} (api : EncoderApi E) where
  unfoldable pub write_header : ℕ → FileConsumer E → FileConsumer E
  write_header size f = record f {
    writer =
        f.writer
        ++ rewind 0
          ∷ write_async (
              header_bytes size (api.get_channels f.encoder) (api.get_bits_per_sample f.encoder)
                f.sampling_rate)
          ∷ [];
  }

  -- the constructor, with the encoder that was built
  unfoldable pub make : E → Bool → ℕ → FileConsumer E
  make e header rate =
      let f : FileConsumer E = record {
        writer = [];
        encoder = e;
        header_required = header;
        sampling_rate = rate;
        running = false;
        bytes_written = 0;
      } in
      if header then write_header 0 f else f

  -- the encoded callback, for each piece
  abbrev pub write_pieces : List Bytes → FileConsumer E → FileConsumer E
  write_pieces pieces f = record f {
    writer = f.writer ++ map (λ (bs : Bytes). write_async bs) pieces;
  }

  -- the size is a `std::size_t`
  abbrev pub chunk_size : Chunk → ℕ
  chunk_size c = c.frames * c.bytes_per_sample * c.channels % 2 ^ 64

  unfoldable pub consume_chunk : Chunk → FileConsumer E → Bool × FileConsumer E
  consume_chunk c f =
      let (pieces, e) = api.encode (take (chunk_size c) c.buffer) f.encoder in
      let f' = write_pieces pieces (record f { encoder = e }) in
      (true, record f' { bytes_written = (f'.bytes_written + chunk_size c) % 2 ^ 64 })

  unfoldable pub start : FileConsumer E → FileConsumer E
  start f = record f { running = true }

  -- the callback that `stop` is given is not called
  unfoldable pub stop : FileConsumer E → FileConsumer E
  stop f = record f { running = false }

  -- the callback of the header's write
  unfoldable pub header_written : Bool → ℕ → FileConsumer E → FileConsumer E
  header_written error written f =
      if error then f else record f { bytes_written = (f.bytes_written + written) % 2 ^ 64 }

  -- the destructor
  unfoldable pub finish : FileConsumer E → FileConsumer E
  finish f = if f.header_required then write_header f.bytes_written f else f
