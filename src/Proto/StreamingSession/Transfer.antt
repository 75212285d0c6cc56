-- ===== src/Proto/StreamingSession/Transfer.antt =====
-- The encoded callback, `transferTask`, the callback of its write, and `flush`.
use slimstream.Base.{
  ℕ, zero, suc, ◌+◌, ◌-◌, Bool, true, false, Option, none, some, List, [], ◌∷◌, ◌++◌, length, take,
  drop, ltb, if◌then◌else◌,
}
use slimstream.Util.BufferPool
use slimstream.Util.BufferPool.{BufferPool}
use slimstream.Proto.Wire.{Bytes}
use slimstream.Proto.StreamingSession.State.{
  TransferDataChunk, Callback, transfer, run, Session, submit_handler,
}

-- the memory that a write sends
abbrev pub memory_of : BufferPool → TransferDataChunk → Bytes
memory_of pool w = drop w.offset (take w.size (BufferPool.get_data pool w.buffer))

-- the queue is emptied
unfoldable pub pop_all : List TransferDataChunk → BufferPool → BufferPool
pop_all [] pool = pool
pop_all (c ∷ q) pool = pop_all q (BufferPool.release c.buffer pool)

module _ {E : Type 0} where
  -- a piece of encoded data, copied to the buffer at position `i` and put at the end of the queue
  abbrev pub enqueue : Bytes → ℕ → Session E → Session E
  enqueue piece i s = submit_handler transfer (record s {
    buffer_pool = BufferPool.copy piece i (BufferPool.lend (some i) s.buffer_pool);
    transfer_buffer_queue =
        s.transfer_buffer_queue ++ (record { buffer = i; size = length piece; offset = 0 }) ∷ [];
  })

  -- One round of the encoded callback's loop, with what the allocation came to: the rest is skipped
  -- when no buffer is left, and otherwise goes to `next`.
  abbrev pub put_piece : (Bytes → Session E → Session E) → Bytes → Session E → Option ℕ → Session E
  put_piece next bytes s none = s
  put_piece next bytes s (some i) =
      let chunk_size = BufferPool.get_buffer_size s.buffer_pool i in
      next (drop chunk_size bytes) (enqueue (take chunk_size bytes) i s)

  -- The encoded callback's loop on the bytes from `offset` on. The fuel is their number: a buffer is
  -- not empty.
  unfoldable pub on_encoded : ℕ → Bytes → Session E → Session E
  on_encoded zero bytes s = s
  on_encoded (suc fuel) [] s = s
  on_encoded (suc fuel) (b ∷ bs) s =
      put_piece (λ rest s'. on_encoded fuel rest s') (b ∷ bs) s
        (BufferPool.allocate s.buffer_pool).0

  -- all calls of the encoded callback that an operation of the encoder makes
  unfoldable pub on_encoded_all : List Bytes → Session E → Session E
  on_encoded_all [] s = s
  on_encoded_all (bs ∷ rest) s = on_encoded_all rest (on_encoded (length bs) bs s)

  -- `pop` destroys the chunk, and its buffer goes back to the pool
  abbrev pub pop : List TransferDataChunk → Session E → Session E
  pop [] s = s
  pop (c ∷ q) s = record s {
    buffer_pool = BufferPool.release c.buffer s.buffer_pool;
    transfer_buffer_queue = q;
  }

  -- the guard's work on leaving the write's callback
  abbrev pub leave : Session E → Session E
  leave s = submit_handler transfer (record s { transferring = false })

  abbrev pub on_transferred : ℕ → List TransferDataChunk → Session E → Session E
  on_transferred n [] s = leave s
  on_transferred n (c ∷ q) s =
      if ltb n (c.size - c.offset)
      then leave (record s { transfer_buffer_queue = (record c { offset = c.offset + n }) ∷ q })
      else leave (pop (c ∷ q) s)

  -- the write's callback
  abbrev pub on_written : Bool → ℕ → Session E → Session E
  on_written error n s =
      if error
      then leave (pop s.transfer_buffer_queue s)
      else on_transferred n s.transfer_buffer_queue s

  -- An asynchronous write comes to its end: `n` bytes of its memory have been sent, as the memory is by
  -- now.
  abbrev pub complete_at : Bool → ℕ → Option TransferDataChunk → Session E → Session E
  complete_at error n none s = s
  complete_at error n (some w) s =
      on_written error n
        (record s { write = none; sent = s.sent ++ take n (memory_of s.buffer_pool w) })

  unfoldable pub complete : Bool → ℕ → Session E → Session E
  complete error n s = complete_at error n s.write s

  -- `writeAsync`; on a closed socket it calls the callback at once, with an error
  abbrev pub write_async : TransferDataChunk → Session E → Session E
  write_async c s = if s.is_open then record s { write = some c } else on_written true 0 s

  abbrev pub transfer_first : List TransferDataChunk → Session E → Session E
  transfer_first [] s = s
  transfer_first (c ∷ q) s =
      if s.transferring then s else write_async c (record s { transferring = true })

  unfoldable pub transfer_task : Session E → Session E
  transfer_task s = transfer_first s.transfer_buffer_queue s

  -- the callback that `stop` gives to `flush`; `connection.stop` closes the socket
  abbrev pub on_flushed : Callback → Session E → Session E
  on_flushed cb s = submit_handler (run cb) (record s { running = false; is_open = false })

  unfoldable pub flush : Callback → Session E → Session E
  flush cb s =
      if s.transferring
      then record s { timers = s.timers ++ cb ∷ [] }
      else on_flushed cb (record s {
        buffer_pool = pop_all s.transfer_buffer_queue s.buffer_pool;
        transfer_buffer_queue = [];
      })
