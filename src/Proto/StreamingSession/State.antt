-- ===== src/Proto/StreamingSession/State.antt =====
-- The state of an HTTP session, its connection's socket and its handlers included.
use Prim.Native.Char.{code}
use Prim.Native.String.{String, [] as []ˢ, ◌∷◌ as ◌∷ˢ◌}
use slimstream.Base.{ℕ, ◌++◌, Bool, true, false, Option, none, List, [], ◌∷◌}
use slimstream.Util.BufferPool
use slimstream.Util.BufferPool.{BufferPool}
use slimstream.Proto.Wire.{Bytes}

-- the bytes of an ASCII text
unfoldable pub text : String → Bytes
text []ˢ = []
text (c ∷ˢ s) = code c ∷ text s

-- `buffer` is the position in the pool
pub record TransferDataChunk : Type 0 where
  pub buffer : ℕ
  pub size : ℕ
  pub offset : ℕ

-- What was passed to `stop`. `[] {}`, the one of the session's own calls, is `none`.
abbrev pub Callback : Type 0
Callback = Option ℕ

-- a handler that the session submitted to the processor
pub data Handler : Type 0 where
  transfer : Handler
  run : Callback → Handler

-- `write` is the memory that an asynchronous write has yet to send; `sent` is what such writes have
-- sent, `responses` what was written otherwise. `handlers` and `timers`, the deferred calls of `flush`,
-- have the oldest first; `called` has the callbacks that ran.
pub record Session (E : Type 0) : Type 0 where
  pub client_id : Bytes
  pub encoder : E
  pub running : Bool
  pub transferring : Bool
  pub buffer_pool : BufferPool
  pub transfer_buffer_queue : List TransferDataChunk
  pub frames_provided : ℕ
  pub is_open : Bool
  pub write : Option TransferDataChunk
  pub sent : Bytes
  pub responses : List Bytes
  pub handlers : List Handler
  pub timers : List Callback
  pub called : List Callback

abbrev pub pool_size : ℕ
pool_size = 64

abbrev pub buffer_size : ℕ
buffer_size = 4096

-- the constructor, for an encoder that was built and an open socket; `memory` is what the buffers hold
unfoldable pub make_session : {E : Type 0} → Bytes → Bytes → E → Session E
make_session memory id e = record {
  client_id = id;
  encoder = e;
  running = false;
  transferring = false;
  buffer_pool = BufferPool.make pool_size memory;
  transfer_buffer_queue = [];
  frames_provided = 0;
  is_open = true;
  write = none;
  sent = [];
  responses = [];
  handlers = [];
  timers = [];
  called = [];
}

abbrev pub submit_handler : {E : Type 0} → Handler → Session E → Session E
submit_handler h s = record s { handlers = s.handlers ++ h ∷ [] }
