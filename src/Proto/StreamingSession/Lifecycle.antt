-- ===== src/Proto/StreamingSession/Lifecycle.antt =====
-- The operations of an HTTP session, and the handlers it left to the processor.
use slimstream.Base.{
  ◌+◌, ◌*◌, ◌^◌, ◌%◌, Bool, true, false, ◌==◌, none, List, [], ◌∷◌, ◌++◌, take, ltb, if◌then◌else◌,
}
use slimstream.Chunk.{Chunk}
use slimstream.Encoder.{EncoderApi}
use slimstream.Util.BufferPool
use slimstream.Proto.Wire.{Bytes, same_bytes}
use slimstream.Proto.StreamingSession.State.{Callback, Handler, transfer, run, Session, text}
use slimstream.Proto.StreamingSession.Transfer.{on_encoded_all, flush, transfer_task}

-- the bytes of a chunk that are encoded, as far as its buffer has them; the product is a `std::size_t`
abbrev pub chunk_bytes : Chunk → Bytes
chunk_bytes c = take (c.frames * c.bytes_per_sample * c.channels % 2 ^ 64) c.buffer

-- The build supplies the version.
abbrev pub response : Bytes → Bytes → Bytes
response version mime =
    text "HTTP/1.1 200 OK\r\nServer: SlimStreamer ("
    ++ version
    ++ text ")\r\nConnection: close\r\nContent-Type: "
    ++ mime
    ++ text "\r\n\r\n"

module _ {E : Type 0} where
  -- a result of the encoder: what it gave to the encoded callback, and the encoder
  abbrev pub encoded : List Bytes × E → Session E → Session E
  encoded (pieces, e) s = on_encoded_all pieces (record s { encoder = e })

  abbrev pub run_handler : Handler → Session E → Session E
  run_handler transfer s = transfer_task s
  run_handler (run cb) s = record s { called = s.called ++ cb ∷ [] }

  -- the processor runs the oldest handler
  abbrev pub run_first : List Handler → Session E → Session E
  run_first [] s = s
  run_first (h ∷ hs) s = run_handler h (record s { handlers = hs })

  unfoldable pub run_next : Session E → Session E
  run_next s = run_first s.handlers s

  -- the oldest timer fires
  abbrev pub fire_first : List Callback → Session E → Session E
  fire_first [] s = s
  fire_first (cb ∷ cbs) s = flush cb (record s { timers = cbs })

  unfoldable pub fire_timer : Session E → Session E
  fire_timer s = fire_first s.timers s

module _ {E : Type 0} (api : EncoderApi E) where
  unfoldable pub stop : Callback → Session E → Session E
  stop cb s =
      if s.running
      then flush cb (encoded (api.stop s.encoder) s)
      else record s { called = s.called ++ cb ∷ [] }

  abbrev pub encode_chunk : Chunk → Session E → Session E
  encode_chunk c s =
      let s' = encoded (api.encode (chunk_bytes c) s.encoder) s in
      record s' { frames_provided = s'.frames_provided + c.frames }

  abbrev pub feed : Chunk → Session E → Bool × Session E
  feed c s =
      if ltb (BufferPool.get_available_size s.buffer_pool) 10
      then (false, s)
      else (if c.sampling_rate == api.get_sampling_rate s.encoder
          then (true, encode_chunk c (if c.end_of_stream then stop none s else s))
          else (true, stop none s))

  unfoldable pub consume_chunk : Chunk → Session E → Bool × Session E
  consume_chunk c s = if s.running then feed c s else (true, s)

  -- `bytes` is the memory from the received bytes on: three bytes are read, whatever their number
  unfoldable pub on_request : Bytes → Session E → Session E
  on_request bytes s =
      if s.running
      then (if same_bytes (take 3 bytes) (b'G' ∷ b'E' ∷ b'T' ∷ []) then s else stop none s)
      else s

  -- `write` sends nothing on a closed socket
  unfoldable pub start : Bytes → Session E → Session E
  start version s =
      let s' = record s { encoder = api.start s.encoder; running = true } in
      if s.is_open
      then (record s' {
        responses = s.responses ++ response version (api.get_mime s'.encoder) ∷ [];
      })
      else s'
