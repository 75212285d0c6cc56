-- ===== src/Proto/StreamingSession/Steps.antt =====
-- All that can happen to an HTTP session, in any order.
use slimstream.Base.{ℕ, Bool, false, ◌<◌, refl, length, Option, some, List, [], ◌∷◌}
use slimstream.Chunk.{Chunk}
use slimstream.Encoder.{EncoderApi, EncoderLaws}
use slimstream.Proto.Wire.{Bytes}
use slimstream.Proto.StreamingSession.State.{
  TransferDataChunk, Handler, Callback, Session, make_session,
}
use slimstream.Proto.StreamingSession.Transfer.{complete}
use slimstream.Proto.StreamingSession.Lifecycle.{
  stop, consume_chunk, on_request, start, run_next, fire_timer,
}
use slimstream.Proto.StreamingSession.Queue.{Queue}
use slimstream.Proto.StreamingSession.Invariant.{Inv, Flight, idle, busy, make-Inv, complete-Inv}
use slimstream.Proto.StreamingSession.Invariant.Operations.{
  stop-Inv, consume_chunk-Inv, on_request-Inv, start-Inv, run_next-Inv, fire_timer-Inv,
}
use slimstream.Proto.StreamingSession.Awake.{
  Posted, Awake, flying, posted, IsAwake, nothing_to_send, complete-IsAwake, stop-IsAwake,
  consume_chunk-IsAwake, on_request-IsAwake, start-IsAwake, run_next-IsAwake, fire_timer-IsAwake,
}

pub data Step {E : Type 0} (api : EncoderApi E) : Session E → Session E → Type 0 where
  starts : {s : Session E} (version : Bytes) → Step api s (start api version s)
  stops : {s : Session E} (cb : Callback) → Step api s (stop api cb s)
  receives : {s : Session E} (bs : Bytes) → Step api s (on_request api bs s)
  consumes : {s : Session E} (c : Chunk) → Step api s (consume_chunk api c s).1
  runs : {s : Session E} → Step api s (run_next s)
  timer_fires : {s : Session E} → Step api s (fire_timer s)
  -- a write ends, with or without an error, when `k` bytes are sent
  writes : {s : Session E} (error : Bool) (k : ℕ) → Step api s (complete error k s)
  -- the socket is closed by another part
  closes : {s : Session E} → Step api s (record s { is_open = false })

pub data Reachable {E : Type 0} (api : EncoderApi E) (memory : Bytes) : Session E → Type 0 where
  made : (id : Bytes) (e : E) → Reachable api memory (make_session memory id e)
  stepped : {s s' : Session E} → Reachable api memory s → Step api s s' → Reachable api memory s'

-- What a session has for its queue: nothing to do, the write under way, or the transfer task.
pub data Served : Option TransferDataChunk → Queue → List Handler → Type 0 where
  empty : {w : Option TransferDataChunk} {hs : List Handler} → Served w [] hs
  written : {c : TransferDataChunk} {q : Queue} {hs : List Handler} → Served (some c) (c ∷ q) hs
  waits : {w : Option TransferDataChunk} {q : Queue} {hs : List Handler} → Posted hs → Served w q hs

served :
    {t : Bool} {w : Option TransferDataChunk} {q : Queue} {hs : List Handler}
    → Flight t w q
    → Awake t q hs
    → Served w q hs
served busy flying = written
served idle nothing_to_send = empty
served f (posted p) = waits p

module _ {E : Type 0} (api : EncoderApi E) (memory : Bytes) where
  Step-Inv : {n : ℕ} {s s' : Session E} → EncoderLaws api → Inv n s → Step api s s' → Inv n s'
  Step-Inv {s} laws v (starts version) = start-Inv api version s v
  Step-Inv {s} laws v (stops cb) = stop-Inv api cb s v
  Step-Inv {s} laws v (receives bs) = on_request-Inv api bs s v
  Step-Inv {s} laws v (consumes c) = consume_chunk-Inv api c s laws v
  Step-Inv {s} laws v runs = run_next-Inv s v
  Step-Inv {s} laws v timer_fires = fire_timer-Inv s v
  Step-Inv {s} laws v (writes error k) = complete-Inv error k s v
  Step-Inv {s} laws v closes = record { stock = v.stock; flight = v.flight }

  -- With an encoder that is silent once it is stopped and buffers that are not empty, in every
  -- reachable state a buffer of the pool is free or held by one chunk of the queue, each chunk has
  -- bytes left to send, only a running session has a queue, and a write is under way exactly while
  -- the session is transferring, for the rest of the first chunk.
  pub Reachable-Inv :
      {s : Session E}
      → EncoderLaws api
      → 0 < length memory
      → Reachable api memory s
      → Inv (length memory) s
  Reachable-Inv laws p (made id e) = make-Inv memory id e refl p
  Reachable-Inv laws p (stepped r m) = Step-Inv laws (Reachable-Inv laws p r) m

  Step-IsAwake : {s s' : Session E} → IsAwake s → Step api s s' → IsAwake s'
  Step-IsAwake {s} a (starts version) = start-IsAwake api version s a
  Step-IsAwake {s} a (stops cb) = stop-IsAwake api cb s a
  Step-IsAwake {s} a (receives bs) = on_request-IsAwake api bs s a
  Step-IsAwake {s} a (consumes c) = consume_chunk-IsAwake api c s a
  Step-IsAwake {s} a runs = run_next-IsAwake s a
  Step-IsAwake {s} a timer_fires = fire_timer-IsAwake s a
  Step-IsAwake {s} a (writes error k) = complete-IsAwake error k s a
  Step-IsAwake {s} a closes = a

  pub Reachable-IsAwake : {s : Session E} → Reachable api memory s → IsAwake s
  unfolding make_session
  Reachable-IsAwake (made id e) = nothing_to_send
  Reachable-IsAwake (stepped r m) = Step-IsAwake (Reachable-IsAwake r) m

  -- With an encoder that is silent once it is stopped and buffers that are not empty, in every
  -- reachable state the queue is empty, or an asynchronous write of its first chunk is under way, which
  -- will end with its callback, or the transfer task is among the handlers.
  pub Reachable-Served :
      {s : Session E}
      → EncoderLaws api
      → 0 < length memory
      → Reachable api memory s
      → Served s.write s.transfer_buffer_queue s.handlers
  Reachable-Served laws p r = served (Reachable-Inv laws p r).flight (Reachable-IsAwake r)
