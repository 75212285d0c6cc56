-- ===== src/FileConsumer/Header.antt =====
-- What a file holds.
use slimstream.Base.{
  ℕ, ◌^◌, ◌<◌, ◌≡◌, refl, ap, ◌∙◌, Bool, true, false, List, [], ◌∷◌, ◌++◌, map, length, append-nil,
  arith, if_false, if_intro,
}
use slimstream.Chunk.{Chunk}
use slimstream.Encoder.{Wave, make_wave, wave_api}
use slimstream.Proto.Wire.{Bytes, store16, store32, load32}
use slimstream.FileConsumer.{
  Written, write_async, make, write_header, FileConsumer, header_bytes, consume_chunk, start, stop,
  header_written,
}

-- For a size below 2 ^ 32, a header has 44 bytes, and both of its size fields, at 4 and at 40, hold
-- that size.
pub header_bytes-sizes :
    (size channels bits rate : ℕ)
    → size < 2 ^ 32
    → (length (header_bytes size channels bits rate) ≡ 44)
      × (load32 (header_bytes size channels bits rate) 4 ≡ size)
      × (load32 (header_bytes size channels bits rate) 40 ≡ size)
unfolding header_bytes store16 store32 load32
header_bytes-sizes size channels bits rate h = (refl, omega arith, omega arith)

-- a chunk, a start or a stop, or the end of the header's write
pub data Move : Type 0 where
  consumes : Chunk → Move
  starts stops : Move
  header_ends : Bool → ℕ → Move

unfoldable pub move : Move → FileConsumer Wave → FileConsumer Wave
move (consumes c) f = (consume_chunk wave_api c f).1
move starts f = start wave_api f
move stops f = stop wave_api f
move (header_ends error n) f = header_written wave_api error n f

unfoldable pub moves : List Move → FileConsumer Wave → FileConsumer Wave
moves [] f = f
moves (m ∷ ms) f = moves ms (move m f)

-- an encoder that was not started, and what the writer was told
Unstarted : List Written → FileConsumer Wave → Type 0
Unstarted told f = (f.encoder.running ≡ false) × (f.writer ≡ told)

move-Unstarted :
    (told : List Written) (m : Move) (f : FileConsumer Wave)
    → Unstarted told f
    → Unstarted told (move m f)
unfolding Unstarted move consume_chunk start stop header_written
move-Unstarted told (consumes c) f (idle, e) = (
  idle,
  ap (λ (pieces : List Bytes). f.writer ++ map (λ (bs : Bytes). write_async bs) pieces)
        (if_false f.encoder.running _ [] idle)
      ∙ append-nil f.writer
      ∙ e,
)
move-Unstarted told starts f u = u
move-Unstarted told stops f u = u
move-Unstarted told (header_ends error n) f u =
    if_intro {A = FileConsumer Wave} (λ g. (g.encoder.running ≡ false) × (g.writer ≡ told)) error u
      u

moves-Unstarted :
    (told : List Written) (ms : List Move) (f : FileConsumer Wave)
    → Unstarted told f
    → Unstarted told (moves ms f)
unfolding moves
moves-Unstarted told [] f u = u
moves-Unstarted told (m ∷ ms) f u = moves-Unstarted told ms (move m f) (move-Unstarted told m f u)

-- A consumer with a new WAV encoder, whatever chunks it consumes, however the write of its header
-- ends, and whenever it is started and stopped, writes nothing but what its constructor wrote: it
-- never starts its encoder.
pub moves-writer :
    (ms : List Move) (header : Bool) (ch bs bv rate : ℕ) (ex mm : Bytes)
    → (moves ms (make wave_api (make_wave ch bs bv rate ex mm) header rate)).writer
      ≡ (make wave_api (make_wave ch bs bv rate ex mm) header rate).writer
unfolding Unstarted make make_wave write_header
moves-writer ms header ch bs bv rate ex mm =
    (moves-Unstarted _ ms (make wave_api (make_wave ch bs bv rate ex mm) header rate)
      (by_header header, refl)).1
  where
    by_header :
        (h : Bool) → (make wave_api (make_wave ch bs bv rate ex mm) h rate).encoder.running ≡ false
    by_header true = refl
    by_header false = refl
