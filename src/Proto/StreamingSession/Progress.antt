-- ===== src/Proto/StreamingSession/Progress.antt =====
-- What goes on sending keeps: the bytes that a session has sent and has yet to send.
use mathlib.Core.Path.{subst}
use slimstream.Base.{
  ℕ, ◌+◌, ◌-◌, ◌≤◌, ◌≡◌, refl, sym, ap, ◌∙◌, Bool, true, false, Option, none, List, [], ◌∷◌, ◌++◌,
  take, ltb, arith, append_assoc, length-drop, length-take, take-append-drop, drop-drop, take-all,
  if_intro, if_cases, if_true,
}
use slimstream.Util.BufferPool
use slimstream.Util.BufferPool.{BufferPool, get_available_size, get_data}
use slimstream.Proto.Wire.{Bytes}
use slimstream.Proto.StreamingSession.State.{TransferDataChunk, Handler, transfer, run, Session}
use slimstream.Proto.StreamingSession.Transfer.{
  memory_of, on_transferred, complete, complete_at, transfer_first, transfer_task,
}
use slimstream.Proto.StreamingSession.Lifecycle.{run_first, run_next}
use slimstream.Proto.StreamingSession.Queue.{Queue}
use slimstream.Proto.StreamingSession.Bytes.{pending, pending-set_free, unsent}
use slimstream.Proto.StreamingSession.Invariant.{Flight, idle, busy, Inv}

-- all that a session has sent or will send
abbrev pub total : {E : Type 0} → Session E → Bytes
total s = s.sent ++ unsent s

split_memory :
    (pool : BufferPool) (c : TransferDataChunk) (k : ℕ)
    → take k (memory_of pool c) ++ memory_of pool (record c { offset = c.offset + k })
      ≡ memory_of pool c
split_memory pool c k =
    ap (λ xs. take k (memory_of pool c) ++ xs)
      (drop-drop c.offset k (take c.size (get_data pool c.buffer)))
    ∙ take-append-drop k (memory_of pool c)

whole_memory :
    (pool : BufferPool) (c : TransferDataChunk) (k : ℕ)
    → ltb k (c.size - c.offset) ≡ false
    → take k (memory_of pool c) ≡ memory_of pool c
whole_memory pool c k h = take-all k (memory_of pool c) (
    let d = length-drop c.offset (take c.size (get_data pool c.buffer)) in
    let t = length-take c.size (get_data pool c.buffer) in
    let le : c.size - c.offset ≤ k = ground (arith, h) in omega (arith, d, t, le))

-- What goes on sending leaves this as it is.
pub record Same {E : Type 0} (s s' : Session E) : Type 0 where
  pub total_is : total s' ≡ total s
  pub running_is : s'.running ≡ s.running
  pub encoder_is : s'.encoder ≡ s.encoder
  pub is_open_is : s'.is_open ≡ s.is_open

module _ {E : Type 0} where
  on_transferred-Same :
      (k : ℕ) (c : TransferDataChunk) (q : Queue) (s : Session E)
      → s.transfer_buffer_queue ≡ c ∷ q
      → Same s (
          on_transferred k
            (c ∷ q)
            (record s { write = none; sent = s.sent ++ take k (memory_of s.buffer_pool c) }))
  on_transferred-Same k c q s e =
      if_cases (Same s) (ltb k (c.size - c.offset))
        (λ _. record {
          total_is =
              append_assoc s.sent (take k (memory_of s.buffer_pool c)) _
              ∙ ap (λ xs. s.sent ++ xs)
                  (sym (append_assoc (take k (memory_of s.buffer_pool c)) _ _)
                    ∙ ap (λ xs. xs ++ pending s.buffer_pool q) (split_memory s.buffer_pool c k))
              ∙ ap (λ p. s.sent ++ pending s.buffer_pool p) (sym e);
          running_is = refl;
          encoder_is = refl;
          is_open_is = refl;
        })
        (λ h. record {
          total_is =
              append_assoc s.sent (take k (memory_of s.buffer_pool c)) _
              ∙ ap (λ xs. s.sent ++ xs)
                  (ap (λ xs. xs ++ pending (BufferPool.set_free true c.buffer s.buffer_pool) q)
                      (whole_memory s.buffer_pool c k h)
                    ∙ ap (λ xs. memory_of s.buffer_pool c ++ xs)
                        (pending-set_free true c.buffer s.buffer_pool q))
              ∙ ap (λ p. s.sent ++ pending s.buffer_pool p) (sym e);
          running_is = refl;
          encoder_is = refl;
          is_open_is = refl;
        })

  Same-refl : (s : Session E) → Same s s
  Same-refl s = record { total_is = refl; running_is = refl; encoder_is = refl; is_open_is = refl }

  complete_at-Same :
      {t : Bool} {w : Option TransferDataChunk} {q : Queue} (k : ℕ) (s : Session E)
      → s.transfer_buffer_queue ≡ q
      → Flight t w q
      → Same s (complete_at false k w s)
  complete_at-Same k s e idle = Same-refl s
  complete_at-Same k s e (busy {c} {q}) =
      let s' = record s { write = none; sent = s.sent ++ take k (memory_of s.buffer_pool c) } in
      subst (λ p. Same s (on_transferred k p s')) (sym e) (on_transferred-Same k c q s e)

  -- The end of a write without an error loses nothing, however little it has sent.
  pub complete-Same : {n : ℕ} (k : ℕ) (s : Session E) → Inv n s → Same s (complete false k s)
  unfolding complete
  complete-Same k s v = complete_at-Same k s refl v.flight

  transfer_first-Same : (q : Queue) (s : Session E) → s.is_open ≡ true → Same s (transfer_first q s)
  transfer_first-Same [] s o = Same-refl s
  transfer_first-Same (c ∷ q) s o = if_intro (Same s) s.transferring (Same-refl s) (
      subst (Same s) (sym (if_true s.is_open _ _ o))
        (record { total_is = refl; running_is = refl; encoder_is = refl; is_open_is = refl }))

  pub run_next-Same : (s : Session E) → s.is_open ≡ true → Same s (run_next s)
  unfolding run_next transfer_task
  run_next-Same s o = first s.handlers
    where
      first : (hs : List Handler) → Same s (run_first hs s)
      first [] = Same-refl s
      first (transfer ∷ hs) =
          let r = transfer_first-Same s.transfer_buffer_queue (record s { handlers = hs }) o in
          record {
            total_is = r.total_is;
            running_is = r.running_is;
            encoder_is = r.encoder_is;
            is_open_is = r.is_open_is;
          }
      first (run cb ∷ hs) = record {
        total_is = refl;
        running_is = refl;
        encoder_is = refl;
        is_open_is = refl;
      }
