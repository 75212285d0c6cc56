-- ===== src/Alsa/Source.antt =====
-- src/slim/alsa/Source.cpp and Source.hpp: the periods that a device delivers become chunks in a queue,
-- and these go to a consumer. The queue is known by what it does: `full` says that it calls the overflow
-- handler, and otherwise it offers a slot, which is a chunk with a buffer.
pub mod Marks
pub mod Extract
pub mod Period
pub mod Bounds
pub mod Streams
use slimstream.Base.{
  ℕ, zero, suc, ◌+◌, ◌-◌, ◌*◌, Bool, true, false, not, Option, none, some, List, [], ◌∷◌, ◌++◌,
  length, drop, get_or, min, ◌==◌, ◌&&◌, ◌||◌, if◌then◌else◌,
}
use slimstream.Chunk.{Chunk, clear, allocate_buffer}
use slimstream.Util.Time.{Timestamp}
use slimstream.Alsa.Parameters.{
  Parameters, get_frames_per_chunk, get_logical_channels, bytes_per_sample, bytes_per_frame,
  bytes_per_payload,
}

-- the members of a source that its producer thread uses, and `isBeginningOfStream` of `produce`
pub record Source : Type 0 where
  pub producing : Bool
  pub captured_frames : ℕ
  pub is_beginning_of_stream : Bool

-- `StreamMarker`
abbrev pub beginning_of_stream : ℕ
beginning_of_stream = 1

abbrev pub end_of_stream : ℕ
end_of_stream = 2

abbrev pub data_marker : ℕ
data_marker = 3

-- `count` bytes of a buffer from a position on
unfoldable pub read_bytes : List ℕ → ℕ → ℕ → List ℕ
read_bytes buffer i zero = []
read_bytes buffer i (suc count) = get_or buffer i 0 ∷ read_bytes buffer (i + 1) count

-- the destination from its pointer on, the copied frames, and `producing`
abbrev pub Copied : Type 0
Copied = List ℕ × ℕ × Bool

-- a frame goes to the destination; what is behind it comes next
abbrev pub copied_frame : List ℕ → Copied → Copied
copied_frame bytes (dst, copied, producing) = (bytes ++ dst, suc copied, producing)

-- what the chunk and the source get of a copy
abbrev pub put_copied : Chunk → Source → Copied → Source × Option Chunk
put_copied slot s (dst, copied, producing) = (
  record {
    producing = producing;
    captured_frames = s.captured_frames + copied;
    is_beginning_of_stream = false;
  },
  some
      (record slot { buffer = dst; frames = copied; captured_frames = s.captured_frames + copied }),
)

module _ (p : Parameters) where
  -- the last byte of a frame
  abbrev pub marker : List ℕ → ℕ → ℕ
  marker buffer i = get_or buffer ((i + 1) * bytes_per_frame p - 1) 0

  -- The frames of a period are few enough for an `int`. `containsData` from frame `i` on, on so many frames: the frame it finds, and `producing`
  unfoldable pub contains_data : List ℕ → ℕ → ℕ → Bool → Option ℕ × Bool
  contains_data buffer zero i producing = (none, producing)
  contains_data buffer (suc frames) i producing =
      let started = contains_data buffer frames (i + 1) true in
      let ended = contains_data buffer frames (i + 1) false in
      let same = contains_data buffer frames (i + 1) producing in
      let value = marker buffer i in
      if value == beginning_of_stream
      then started
      else (if value == end_of_stream
          then ended
          else (if value == data_marker && producing then (some i, producing) else same))

  -- the bytes of a frame less those of the last channel
  abbrev pub payload : List ℕ → ℕ → List ℕ
  payload buffer i = read_bytes buffer (i * bytes_per_frame p) (bytes_per_payload p)

  -- `copyData` from frame `i` on: the destination from its pointer on, the copied frames, `producing`
  unfoldable pub copy_data : List ℕ → ℕ → ℕ → List ℕ → Bool → Copied
  copy_data src zero i dst producing = (dst, 0, producing)
  copy_data src (suc frames) i dst producing =
      let started = copy_data src frames (i + 1) dst true in
      let ended = copy_data src frames (i + 1) dst false in
      let same = copy_data src frames (i + 1) dst producing in
      let next =
        copy_data src frames (i + 1) (drop (get_logical_channels p * bytes_per_sample p) dst)
          producing in
      let value = marker src i in
      if value == beginning_of_stream
      then started
      else (if value == end_of_stream
          then ended
          else (if value == data_marker && producing
              then copied_frame (payload src i) next
              else same))

  -- the meta data of a chunk
  abbrev pub with_meta : Timestamp → Bool → Chunk → Chunk
  with_meta timestamp end slot = record slot {
    timestamp = timestamp;
    sampling_rate = p.sampling_rate;
    channels = get_logical_channels p;
    bytes_per_sample = bytes_per_sample p;
    end_of_stream = end;
  }

  -- What a period of data comes to: the chunk that is put into the queue, if any. `from` is the frame
  -- that `containsData` found.
  abbrev pub enqueue_found :
      Bool → Chunk → Timestamp → List ℕ → ℕ → Source → Option ℕ → Source × Option Chunk
  enqueue_found full slot timestamp src frames s (some from) =
      if full
      then (s, none)
      else put_copied (with_meta timestamp false slot) s
          (copy_data src (frames - min from frames) from slot.buffer s.producing)
  enqueue_found full slot timestamp src frames s none =
      if s.is_beginning_of_stream || full then (s, none) else (
        record s { is_beginning_of_stream = true },
        some (record (clear (with_meta timestamp true slot)) {
          captured_frames = s.captured_frames;
        }),
      )

  -- one round of the loop in `produce`, with so many frames read
  unfoldable pub produce_period :
      Bool → Chunk → Timestamp → List ℕ → ℕ → Source → Source × Option Chunk
  produce_period full slot timestamp src zero s = (s, none)
  produce_period full slot timestamp src (suc frames) s =
      let (found, producing) = contains_data src (suc frames) 0 s.producing in
      enqueue_found full slot timestamp src (suc frames) (record s { producing = producing }) found

-- the buffer size of the queue's slots, and the initializer that the constructor gives to the queue
abbrev pub slot_size : Parameters → ℕ
slot_size p = get_frames_per_chunk p * get_logical_channels p * bytes_per_sample p

abbrev pub initialize_slot : Parameters → List ℕ → Chunk → Chunk
initialize_slot p memory slot = allocate_buffer (slot_size p) memory slot

-- What `snd_pcm_readi` delivers: so many frames of a buffer, with what the queue then does; or an error,
-- which `restore` never mends.
pub data Read : Type 0 where
  period : Bool → Chunk → Timestamp → List ℕ → ℕ → Read
  failed : Read

abbrev pub add_chunk : Option Chunk → List Chunk → List Chunk
add_chunk none cs = cs
add_chunk (some c) cs = c ∷ cs

-- The loop of `produce`, on what is read: the chunks that go into the queue, and the source.
unfoldable pub produce : Parameters → List Read → Source → List Chunk × Source
produce p [] s = ([], s)
produce p (failed ∷ reads) s = ([], s)
produce p (period full slot timestamp src frames ∷ reads) s =
    let (s', chunk) = produce_period p full slot timestamp src frames s in
    let (chunks, last) = produce p reads s' in (add_chunk chunk chunks, last)

-- The consumer's side of the queue: what `producer` does with the oldest chunk, if there is one.
-- `consuming` is the member of that name, and `delay` the result.
pub record Produced (S : Type 0) : Type 0 where
  pub removed : Bool
  pub delay : Option ℕ
  pub consuming : Bool
  pub consumer : S

module _ {S : Type 0} where
  abbrev pub on_consumed : Chunk → Bool × S → Produced S
  on_consumed c (true, k) = record {
    removed = true;
    delay = if c.end_of_stream then none else some 0;
    consuming = not c.end_of_stream;
    consumer = k;
  }
  on_consumed c (false, k) = record {
    removed = false;
    delay = some 10;
    consuming = true;
    consumer = k;
  }

  unfoldable pub producer : (Chunk → S → Bool × S) → Option Chunk → Bool → S → Produced S
  producer consume none consuming k = record {
    removed = false;
    delay = if consuming then some 10 else none;
    consuming = consuming;
    consumer = k;
  }
  producer consume (some c) consuming k = on_consumed c (consume c k)

  abbrev pub produce_chunk : (Chunk → S → Bool × S) → Option Chunk → Bool → S → Produced S
  produce_chunk consume c consuming k = producer consume c consuming k

  abbrev pub skip_chunk : Option Chunk → Bool → S → Produced S
  skip_chunk c consuming k = producer (λ c k. (true, k)) c consuming k
