-- ===== src/Proto/StreamingSession/Awake.antt =====
-- What a session has for the chunks that wait: its flag `transferring`, or the transfer task.
use mathlib.Core.Path.{subst}
use slimstream.Base.{
  ℕ, zero, suc, ◌-◌, ◌≡◌, refl, sym, Bool, true, false, Option, none, some, List, [], ◌∷◌, ◌++◌,
  length, take, ltb, ◌==◌, if_intro, if_cases,
}
use slimstream.Chunk.{Chunk}
use slimstream.Encoder.{EncoderApi}
use slimstream.Util.BufferPool.{first_free, get_available_size}
use slimstream.Proto.Wire.{Bytes, same_bytes}
use slimstream.Proto.StreamingSession.State.{
  TransferDataChunk, Callback, Handler, transfer, run, Session,
}
use slimstream.Proto.StreamingSession.Transfer.{
  leave, memory_of, put_piece, on_encoded, on_encoded_all, on_transferred, on_written, complete,
  complete_at, transfer_first, transfer_task, flush, pop,
}
use slimstream.Proto.StreamingSession.Lifecycle.{
  encoded, stop, encode_chunk, consume_chunk, on_request, start, run_first, run_next, fire_first,
  fire_timer,
}
use slimstream.Proto.StreamingSession.Queue.{Queue}

-- `transferTask` is among the handlers
pub data Posted : List Handler → Type 0 where
  next : {hs : List Handler} → Posted (transfer ∷ hs)
  later : {h : Handler} {hs : List Handler} → Posted hs → Posted (h ∷ hs)

-- `transferring`, the queue and the handlers of a session
pub data Awake : Bool → Queue → List Handler → Type 0 where
  flying : {q : Queue} {hs : List Handler} → Awake true q hs
  nothing_to_send : {hs : List Handler} → Awake false [] hs
  posted : {t : Bool} {q : Queue} {hs : List Handler} → Posted hs → Awake t q hs

abbrev pub IsAwake : {E : Type 0} → Session E → Type 0
IsAwake s = Awake s.transferring s.transfer_buffer_queue s.handlers

posted_last : (hs : List Handler) → Posted (hs ++ transfer ∷ [])
posted_last [] = next
posted_last (h ∷ hs) = later (posted_last hs)

posted_more : {hs : List Handler} (h : Handler) → Posted hs → Posted (hs ++ h ∷ [])
posted_more h next = next
posted_more h (later p) = later (posted_more h p)

-- The handler of a callback is not the one that is waited for.
pub without :
    {t : Bool} {q : Queue} {cb : Callback} {hs : List Handler}
    → Awake t q (run cb ∷ hs)
    → Awake t q hs
without flying = flying
without nothing_to_send = nothing_to_send
without (posted (later p)) = posted p

module _ {E : Type 0} where
  on_encoded-IsAwake :
      (fuel : ℕ) (bs : Bytes) (s : Session E) → IsAwake s → IsAwake (on_encoded fuel bs s)
  unfolding on_encoded
  on_encoded-IsAwake zero bs s a = a
  on_encoded-IsAwake (suc fuel) [] s a = a
  on_encoded-IsAwake (suc fuel) (b ∷ bs) s a =
      put (λ rest s'. on_encoded fuel rest s') (λ rest s'. on_encoded-IsAwake fuel rest s')
        (first_free s.buffer_pool)
    where
      put :
          (next : Bytes → Session E → Session E)
          → ((bytes : Bytes) (s : Session E) → IsAwake s → IsAwake (next bytes s))
          → (o : Option ℕ) → IsAwake (put_piece next (b ∷ bs) s o)
      put go h none = a
      put go h (some i) = h _ _ (posted (posted_last s.handlers))

  on_encoded_all-IsAwake :
      (pieces : List Bytes) (s : Session E) → IsAwake s → IsAwake (on_encoded_all pieces s)
  unfolding on_encoded_all
  on_encoded_all-IsAwake [] s a = a
  on_encoded_all-IsAwake (bs ∷ rest) s a =
      on_encoded_all-IsAwake rest _ (on_encoded-IsAwake (length bs) bs s a)

  encoded-IsAwake : (r : List Bytes × E) (s : Session E) → IsAwake s → IsAwake (encoded r s)
  encoded-IsAwake r s a = on_encoded_all-IsAwake r.0 (record s { encoder = r.1 }) a

  -- The callback of a write leaves `transferTask` behind, on each of its branches.
  leave-IsAwake : (s : Session E) → IsAwake (leave s)
  leave-IsAwake s = posted (posted_last s.handlers)

  on_transferred-IsAwake : (k : ℕ) (q : Queue) (s : Session E) → IsAwake (on_transferred k q s)
  on_transferred-IsAwake k [] s = leave-IsAwake s
  on_transferred-IsAwake k (c ∷ q) s =
      if_intro {A = Session E} IsAwake (ltb k (c.size - c.offset)) (posted (posted_last s.handlers))
        (posted (posted_last s.handlers))

  on_written-IsAwake : (error : Bool) (k : ℕ) (s : Session E) → IsAwake (on_written error k s)
  on_written-IsAwake error k s =
      if_intro {A = Session E} IsAwake error (leave-IsAwake (pop s.transfer_buffer_queue s))
        (on_transferred-IsAwake k s.transfer_buffer_queue s)

  pub complete-IsAwake :
      (error : Bool) (k : ℕ) (s : Session E) → IsAwake s → IsAwake (complete error k s)
  unfolding complete
  complete-IsAwake error k s a = at_end s.write
    where
      at_end : (w : Option TransferDataChunk) → IsAwake (complete_at error k w s)
      at_end none = a
      at_end (some w) =
          on_written-IsAwake error k
            (record s { write = none; sent = s.sent ++ take k (memory_of s.buffer_pool w) })

  -- A task that finds nothing to do needs no handler.
  transfer_first-IsAwake :
      (q : Queue) (s : Session E) → s.transfer_buffer_queue ≡ q → IsAwake (transfer_first q s)
  transfer_first-IsAwake [] s e = by_flag s.transferring
    where
      by_flag : (t : Bool) → Awake t s.transfer_buffer_queue s.handlers
      by_flag true = flying
      by_flag false = subst (λ q. Awake false q s.handlers) (sym e) nothing_to_send
  transfer_first-IsAwake (c ∷ q) s e =
      if_cases {A = Session E} IsAwake s.transferring
        (λ t. subst (λ b. Awake b s.transfer_buffer_queue s.handlers) (sym t) flying)
        (λ _.
          if_intro {A = Session E} IsAwake s.is_open flying
            (on_written-IsAwake true 0 (record s { transferring = true })))

  pub run_next-IsAwake : (s : Session E) → IsAwake s → IsAwake (run_next s)
  unfolding run_next transfer_task
  run_next-IsAwake s a = first s.handlers a
    where
      first :
          (hs : List Handler)
          → Awake s.transferring s.transfer_buffer_queue hs
          → IsAwake (run_first hs s)
      first [] b = a
      first (transfer ∷ hs) b =
          transfer_first-IsAwake s.transfer_buffer_queue (record s { handlers = hs }) refl
      first (run cb ∷ hs) b = without b

  flush-IsAwake : (cb : Callback) (s : Session E) → IsAwake s → IsAwake (flush cb s)
  unfolding flush
  flush-IsAwake cb s a =
      if_cases {A = Session E} IsAwake s.transferring (λ _. a)
        (λ t. subst (λ b. Awake b [] (s.handlers ++ run cb ∷ [])) (sym t) nothing_to_send)

  pub fire_timer-IsAwake : (s : Session E) → IsAwake s → IsAwake (fire_timer s)
  unfolding fire_timer
  fire_timer-IsAwake s a = first s.timers
    where
      first : (cbs : List Callback) → IsAwake (fire_first cbs s)
      first [] = a
      first (cb ∷ cbs) = flush-IsAwake cb (record s { timers = cbs }) a

module _ {E : Type 0} (api : EncoderApi E) where
  pub stop-IsAwake : (cb : Callback) (s : Session E) → IsAwake s → IsAwake (stop api cb s)
  unfolding stop
  stop-IsAwake cb s a =
      if_intro {A = Session E} IsAwake s.running
        (flush-IsAwake cb _ (encoded-IsAwake (api.stop s.encoder) s a)) a

  encode_chunk-IsAwake : (c : Chunk) (s : Session E) → IsAwake s → IsAwake (encode_chunk api c s)
  encode_chunk-IsAwake c s a = encoded-IsAwake (api.encode _ s.encoder) s a

  pub consume_chunk-IsAwake :
      (c : Chunk) (s : Session E) → IsAwake s → IsAwake (consume_chunk api c s).1
  unfolding consume_chunk
  consume_chunk-IsAwake c s a =
      if_intro {A = Bool × Session E} (λ r. IsAwake r.1) s.running
        (if_intro {A = Bool × Session E} (λ r. IsAwake r.1)
          (ltb (get_available_size s.buffer_pool) 10) a
          (if_intro {A = Bool × Session E} (λ r. IsAwake r.1)
            (c.sampling_rate == api.get_sampling_rate s.encoder)
            (encode_chunk-IsAwake c _
              (if_intro {A = Session E} IsAwake c.end_of_stream (stop-IsAwake none s a) a))
            (stop-IsAwake none s a)))
        a

  pub on_request-IsAwake : (bs : Bytes) (s : Session E) → IsAwake s → IsAwake (on_request api bs s)
  unfolding on_request
  on_request-IsAwake bs s a =
      if_intro {A = Session E} IsAwake s.running
        (if_intro {A = Session E} IsAwake (same_bytes _ _) a (stop-IsAwake none s a)) a

  pub start-IsAwake : (version : Bytes) (s : Session E) → IsAwake s → IsAwake (start api version s)
  unfolding start
  start-IsAwake version s a = if_intro {A = Session E} IsAwake s.is_open a a
