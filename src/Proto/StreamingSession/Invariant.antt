-- ===== src/Proto/StreamingSession/Invariant.antt =====
-- What holds of an HTTP session between two of its operations.
pub mod Operations
use mathlib.Core.Path.{subst}
use slimstream.Base.{
  ℕ, zero, suc, ◌+◌, ◌-◌, ◌≤◌, ◌<◌, ◌≡◌, refl, sym, ap, ◌∙◌, Bool, true, false, Option, none, some,
  List, [], ◌∷◌, ◌++◌, length, take, drop, min, ltb, arith, if◌then◌else◌, if_intro, if_cases,
  if_true, if_false, ◌==◌, length-take, length-drop, inl, inr, Bool-cases, Option-cases,
}
use slimstream.Chunk.{Chunk}
use slimstream.Encoder.{EncoderApi, EncoderLaws}
use slimstream.Util.BufferPool
use slimstream.Util.BufferPool.{BufferPool, set_free, first_free, get_data, get_available_size}
use slimstream.Util.BufferPool.Laws.{
  is_lent, Lending, exhausted, lent, first_free-Lending, Uniform, make-Uniform, available-make,
  length-make, is_lent-set_free, get_data-set_free, set_free-Uniform, Uniform-size,
}
use slimstream.Proto.Wire.{Bytes, same_bytes}
use slimstream.Proto.StreamingSession.State.{
  TransferDataChunk, Callback, Handler, transfer, run, Session, make_session, pool_size,
}
use slimstream.Proto.StreamingSession.Transfer.{
  enqueue, on_encoded, on_encoded_all, pop, leave, memory_of, put_piece, on_transferred, on_written,
  complete, complete_at, write_async, transfer_first, transfer_task, pop_all, on_flushed, flush,
}
use slimstream.Proto.StreamingSession.Lifecycle.{
  stop, encode_chunk, feed, consume_chunk, on_request, start, run_handler, run_first, run_next,
  fire_first, fire_timer, encoded, chunk_bytes,
}
use slimstream.Proto.StreamingSession.Queue.{
  Held, no_chunk, chunk, Quiet, live, quiet, Stock, enqueue-Stock, pop-Stock, pop_all-Stock,
  free_size, partly_sent,
}

-- A write is under way exactly while the session is transferring, and it sends the rest of the first
-- chunk in the queue.
pub data Flight : Bool → Option TransferDataChunk → List TransferDataChunk → Type 0 where
  idle : {q : List TransferDataChunk} → Flight false none q
  busy : {c : TransferDataChunk} {q : List TransferDataChunk} → Flight true (some c) (c ∷ q)

pub record Inv {E : Type 0} (n : ℕ) (s : Session E) : Type 0 where
  pub stock : Stock n s.buffer_pool s.transfer_buffer_queue s.running
  pub flight : Flight s.transferring s.write s.transfer_buffer_queue

-- `Inv` of a session that runs
pub record Live {E : Type 0} (n : ℕ) (s : Session E) : Type 0 where
  pub inv : Inv n s
  pub running : s.running ≡ true

Flight-append :
    {t : Bool} {w : Option TransferDataChunk} {q : List TransferDataChunk} (c : TransferDataChunk)
    → Flight t w q
    → Flight t w (q ++ c ∷ [])
Flight-append c idle = idle
Flight-append c busy = busy

module _ {E : Type 0} {n : ℕ} where
  running_queue : {s : Session E} → Live n s → Stock n s.buffer_pool s.transfer_buffer_queue true
  running_queue {s} v = subst (Stock n s.buffer_pool s.transfer_buffer_queue) v.running v.inv.stock

  pub make-Inv :
      (memory id : Bytes) (e : E) → length memory ≡ n → 0 < n → Inv n (make_session memory id e)
  unfolding make_session
  make-Inv memory id e h p = record {
    stock = record {
      positive = p;
      uniform =
          subst (λ k. Uniform k (BufferPool.make pool_size memory)) h
            (make-Uniform pool_size memory);
      held = no_chunk;
      counted =
          let a = available-make pool_size memory in
          let l = length-make pool_size memory in omega (arith, a, l);
      still = quiet;
    };
    flight = idle;
  }

  pub enqueue-Live :
      (b : ℕ) (bs : Bytes) (i : ℕ) (s : Session E)
      → Lending s.buffer_pool (some i)
      → Live n s
      → Live n (enqueue (take (length (get_data s.buffer_pool i)) (b ∷ bs)) i s)
  enqueue-Live b bs i s (lent f l a) v =
      let size = free_size s.buffer_pool i l v.inv.stock.uniform in
      let taken = length-take (length (get_data s.buffer_pool i)) (b ∷ bs) in
      record {
        inv = record {
          stock = subst (Stock n _ _) (sym v.running) (
              enqueue-Stock i _ f l a (omega (arith, size, taken, v.inv.stock.positive))
                (omega (arith, size, taken)) (running_queue v));
          flight = Flight-append _ v.inv.flight;
        };
        running = v.running;
      }

  put_piece-Live :
      (next : Bytes → Session E → Session E)
      → ((bytes : Bytes) (s : Session E) → Live n s → Live n (next bytes s))
      → (b : ℕ) (bs : Bytes) (s : Session E) (o : Option ℕ) → Lending s.buffer_pool o
      → Live n s
      → Live n (put_piece next (b ∷ bs) s o)
  put_piece-Live next h b bs s none l v = v
  put_piece-Live next h b bs s (some i) l v = h _ _ (enqueue-Live b bs i s l v)

  pub on_encoded-Live :
      (fuel : ℕ) (bs : Bytes) (s : Session E) → Live n s → Live n (on_encoded fuel bs s)
  unfolding on_encoded
  on_encoded-Live zero bs s v = v
  on_encoded-Live (suc fuel) [] s v = v
  on_encoded-Live (suc fuel) (b ∷ bs) s v =
      put_piece-Live _ (λ rest s'. on_encoded-Live fuel rest s') b bs s (first_free s.buffer_pool)
        (first_free-Lending s.buffer_pool) v

  pub on_encoded_all-Live :
      (pieces : List Bytes) (s : Session E) → Live n s → Live n (on_encoded_all pieces s)
  unfolding on_encoded_all
  on_encoded_all-Live [] s v = v
  on_encoded_all-Live (bs ∷ rest) s v =
      on_encoded_all-Live rest _ (on_encoded-Live (length bs) bs s v)

  -- The callback of a write leaves a session with no write.
  leave-Inv :
      (s : Session E)
      → s.write ≡ none
      → Stock n s.buffer_pool s.transfer_buffer_queue s.running
      → Inv n (leave s)
  leave-Inv s w v = record {
    stock = v;
    flight = subst (λ o. Flight false o s.transfer_buffer_queue) (sym w) idle;
  }

  pop-leave :
      (c : TransferDataChunk) (q : List TransferDataChunk) (s : Session E)
      → s.write ≡ none
      → s.running ≡ true
      → Stock n s.buffer_pool (c ∷ q) true
      → Inv n (leave (pop (c ∷ q) s))
  pop-leave c q s w r v = leave-Inv (pop (c ∷ q) s) w (subst (Stock n _ q) (sym r) (pop-Stock v))

  -- `s` is in the middle of the callback of the write of its first chunk.
  on_written-Inv :
      (error : Bool) (k : ℕ) (c : TransferDataChunk) (q : List TransferDataChunk) (s : Session E)
      → s.write ≡ none
      → s.running ≡ true
      → Stock n s.buffer_pool (c ∷ q) true
      → Inv n (if error then leave (pop (c ∷ q) s) else on_transferred k (c ∷ q) s)
  on_written-Inv true k c q s w r v = pop-leave c q s w r v
  on_written-Inv false k c q s w r v =
      if_cases (Inv n) (ltb k (c.size - c.offset))
        (λ lt.
          leave-Inv (record s { transfer_buffer_queue = (record c { offset = c.offset + k }) ∷ q })
            w (subst (Stock n _ _) (sym r) (partly_sent k lt v)))
        (λ _. pop-leave c q s w r v)

  -- A session with a first chunk in its queue runs.
  first_runs :
      {c : TransferDataChunk} {q : List TransferDataChunk} (s : Session E)
      → s.transfer_buffer_queue ≡ c ∷ q
      → Stock n s.buffer_pool s.transfer_buffer_queue s.running
      → (s.running ≡ true) × Stock n s.buffer_pool (c ∷ q) true
  first_runs {c} {q} s e v = (r, subst (Stock n s.buffer_pool (c ∷ q)) r first)
    where
      first : Stock n s.buffer_pool (c ∷ q) s.running
      first = subst (λ p. Stock n s.buffer_pool p s.running) e v

      runs : {b : Bool} → Quiet b (c ∷ q) → b ≡ true
      runs live = refl

      r : s.running ≡ true
      r = runs first.still

  complete-Inv_at :
      (error : Bool) (k : ℕ) {t : Bool} {w : Option TransferDataChunk} {q : List TransferDataChunk}
      (s : Session E)
      → s.transfer_buffer_queue ≡ q
      → Flight t w q
      → Inv n s
      → Inv n (complete_at error k w s)
  complete-Inv_at error k s e idle v = v
  complete-Inv_at error k s e (busy {c} {q}) v =
      let (r, first) = first_runs s e v.stock in
      let s' = record s { write = none; sent = s.sent ++ take k (memory_of s.buffer_pool c) } in
      subst (λ p. Inv n (if error then leave (pop p s') else on_transferred k p s')) (sym e)
        (on_written-Inv error k c q s' refl r first)

  pub complete-Inv : (error : Bool) (k : ℕ) (s : Session E) → Inv n s → Inv n (complete error k s)
  unfolding complete
  complete-Inv error k s v = complete-Inv_at error k s refl v.flight v

  transfer_first-Inv :
      {t : Bool} {w : Option TransferDataChunk} (q : List TransferDataChunk) (s : Session E)
      → s.transfer_buffer_queue ≡ q
      → s.transferring ≡ t
      → s.write ≡ w
      → Flight t w q
      → Inv n s
      → Inv n (transfer_first q s)
  transfer_first-Inv [] s eq et ew f v = v
  transfer_first-Inv (c ∷ q) s eq et ew busy v =
      subst (Inv n) (sym (if_true s.transferring s _ et)) v
  transfer_first-Inv (c ∷ q) s eq et ew idle v =
      let (r, first) = first_runs s eq v.stock in
      subst (Inv n) (sym (if_false s.transferring s _ et)) (
        if_intro (Inv n) s.is_open
          (record { stock = v.stock; flight = subst (Flight true (some c)) (sym eq) busy })
          (subst (λ p. Inv n (leave (pop p (record s { transferring = true })))) (sym eq)
            (pop-leave c q (record s { transferring = true }) ew r first)))

  pub transfer_task-Inv : (s : Session E) → Inv n s → Inv n (transfer_task s)
  unfolding transfer_task
  transfer_task-Inv s v = transfer_first-Inv s.transfer_buffer_queue s refl refl refl v.flight v

  pub flush-Inv : (cb : Callback) (s : Session E) → Inv n s → Inv n (flush cb s)
  unfolding flush pop_all
  flush-Inv cb s v =
      if_cases (Inv n) s.transferring (λ _. record { stock = v.stock; flight = v.flight })
        (λ t. record {
          stock = emptied s.running s.transfer_buffer_queue v.stock;
          flight =
              subst (λ b. Flight b s.write []) (sym t)
                (grounded (subst (λ b. Flight b s.write s.transfer_buffer_queue) t v.flight));
        })
    where
      emptied :
          (r : Bool) (q : List TransferDataChunk)
          → Stock n s.buffer_pool q r
          → Stock n (pop_all q s.buffer_pool) [] false
      emptied true q v = pop_all-Stock q s.buffer_pool v
      emptied false [] v = v
      emptied false (c ∷ q) v = elim v.still [ ]

      grounded :
          {w : Option TransferDataChunk} {q : List TransferDataChunk}
          → Flight false w q
          → Flight false w []
      grounded idle = idle
