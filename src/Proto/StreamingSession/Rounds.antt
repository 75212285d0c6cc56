-- ===== src/Proto/StreamingSession/Rounds.antt =====
-- Rounds of an open session: a handler runs, and the write under way ends without an error.
use mathlib.Core.Path.{subst}
use slimstream.Base.{
  ℕ, zero, suc, ◌-◌, ◌≡◌, ◌≢◌, refl, sym, ap, ◌∙◌, true, false, Option, none, List, [], ◌∷◌, ◌++◌,
  length, ltb, arith, if_true, if_false, if_cases, take,
}
use slimstream.Util.BufferPool.{BufferPool}
use slimstream.Proto.StreamingSession.State.{TransferDataChunk, Handler, transfer, run, Session}
use slimstream.Proto.StreamingSession.Transfer.{
  leave, pop, memory_of, on_transferred, complete, complete_at, transfer_first, transfer_task,
}
use slimstream.Proto.StreamingSession.Lifecycle.{run_first, run_next}
use slimstream.Proto.StreamingSession.Queue.{Queue, Held, chunk}
use slimstream.Proto.StreamingSession.Invariant.{Flight, busy, Inv, complete-Inv}
use slimstream.Proto.StreamingSession.Invariant.Operations.{run_next-Inv}
use slimstream.Proto.StreamingSession.Awake.{IsAwake, complete-IsAwake, run_next-IsAwake}
use slimstream.Proto.StreamingSession.Progress.{total, run_next-Same, complete-Same}

module _ {E : Type 0} where
  -- A handler runs, and the write that is then under way, if any, ends with all its bytes sent.
  abbrev pub round : ℕ → Session E → Session E
  round n s = complete false n (run_next s)

  unfoldable pub rounds : ℕ → ℕ → Session E → Session E
  rounds n zero s = s
  rounds n (suc k) s = rounds n k (round n s)

-- what a round keeps
pub record Ready {E : Type 0} (n : ℕ) (s : Session E) : Type 0 where
  pub inv : Inv n s
  pub awake : IsAwake s
  pub opened : s.is_open ≡ true

-- The first chunk is no larger than a buffer.
first_fits :
    {n : ℕ} {pool : BufferPool} {c : TransferDataChunk} {q : Queue}
    → Held n pool (c ∷ q)
    → ltb n (c.size - c.offset) ≡ false
first_fits (chunk l o s h t) = ground (arith, s)

module _ {E : Type 0} {n : ℕ} where
  pub round-Ready : (s : Session E) → Ready n s → Ready n (round n s)
  round-Ready s r =
      let v = run_next-Inv s r.inv in
      let ran = run_next-Same s r.opened in
      let ended = complete-Same n (run_next s) v in
      record {
        inv = complete-Inv false n (run_next s) v;
        awake = complete-IsAwake false n (run_next s) (run_next-IsAwake s r.awake);
        opened = ended.is_open_is ∙ ran.is_open_is ∙ r.opened;
      }

  pub round-total : (s : Session E) → Ready n s → total (round n s) ≡ total s
  round-total s r =
      let v = run_next-Inv s r.inv in
      (complete-Same n (run_next s) v).total_is ∙ (run_next-Same s r.opened).total_is

  -- A write that ends with all its bytes sent leaves a shorter queue.
  complete_at-shorter :
      {w : Option TransferDataChunk} {q : Queue} (s : Session E)
      → s.transfer_buffer_queue ≡ q
      → Flight true w q
      → Inv n s
      → suc (length (complete_at false n w s).transfer_buffer_queue) ≡ length q
  complete_at-shorter s e (busy {c} {q}) v =
      let s' = record s { write = none; sent = s.sent ++ take n (memory_of s.buffer_pool c) } in
      ap (λ p. suc (length (on_transferred n p s').transfer_buffer_queue)) e
      ∙ ap (λ (t : Session E). suc (length t.transfer_buffer_queue))
          (if_false (ltb n (c.size - c.offset)) _ (leave (pop (c ∷ q) s'))
            (first_fits (subst (Held n s.buffer_pool) e v.stock.held)))

  complete-shorter :
      (s : Session E)
      → s.transferring ≡ true
      → Inv n s
      → suc (length (complete false n s).transfer_buffer_queue) ≡ length s.transfer_buffer_queue
  unfolding complete
  complete-shorter s t v =
      complete_at-shorter s refl (subst (λ b. Flight b s.write s.transfer_buffer_queue) t v.flight)
        v

  pub rounds-Ready : (k : ℕ) (s : Session E) → Ready n s → Ready n (rounds n k s)
  unfolding rounds
  rounds-Ready zero s r = r
  rounds-Ready (suc k) s r = rounds-Ready k (round n s) (round-Ready s r)

  pub rounds-total : (k : ℕ) (s : Session E) → Ready n s → total (rounds n k s) ≡ total s
  unfolding rounds
  rounds-total zero s r = refl
  rounds-total (suc k) s r = rounds-total k (round n s) (round-Ready s r) ∙ round-total s r

module _ {E : Type 0} where
  -- a write is under way, for the same queue
  abbrev pub Sending : Session E → Session E → Type 0
  Sending s s' = (s'.transferring ≡ true) × (s'.transfer_buffer_queue ≡ s.transfer_buffer_queue)

  pub transfer_first-Sending :
      (q : Queue) (s : Session E) → s.is_open ≡ true → q ≢ [] → Sending s (transfer_first q s)
  transfer_first-Sending [] s o ne = absurd (ne refl)
  transfer_first-Sending (c ∷ q) s o ne =
      if_cases (Sending s) s.transferring (λ t. (t, refl))
        (λ _. subst (Sending s) (sym (if_true s.is_open _ _ o)) (refl, refl))

  pub run_first-Sending :
      (hs : List Handler) (s : Session E)
      → s.is_open ≡ true
      → s.transfer_buffer_queue ≢ []
      → s.transferring ≡ true
      → Sending s (run_first hs s)
  unfolding transfer_task
  run_first-Sending [] s o ne t = (t, refl)
  run_first-Sending (transfer ∷ hs) s o ne t =
      transfer_first-Sending s.transfer_buffer_queue (record s { handlers = hs }) o ne
  run_first-Sending (run cb ∷ hs) s o ne t = (t, refl)

module _ {E : Type 0} {n : ℕ} where
  pub Sending-round :
      (s : Session E)
      → Ready n s
      → Sending s (run_next s)
      → suc (length (round n s).transfer_buffer_queue) ≡ length s.transfer_buffer_queue
  Sending-round s r (t, e) = complete-shorter (run_next s) t (run_next-Inv s r.inv) ∙ ap length e
