-- ===== src/Proto/StreamingSession/Drain.antt =====
-- An open session sends all that is in its queue, if its writes end without an error.
use mathlib.Core.Path.{subst}
use slimstream.Base.{
  ℕ, zero, suc, ◌+◌, ◌≤◌, ◌≡◌, ◌≢◌, ◌⊎◌, refl, sym, ap, ◌∙◌, Bool, false, Option, none, List, [],
  ◌∷◌, ◌++◌, length, arith, Bool-cases, inl, inr, append-nil,
}
use slimstream.Proto.StreamingSession.State.{
  TransferDataChunk, Handler, Callback, transfer, run, Session,
}
use slimstream.Proto.StreamingSession.Transfer.{complete, complete_at, transfer_task}
use slimstream.Proto.StreamingSession.Lifecycle.{run_first, run_next}
use slimstream.Proto.StreamingSession.Queue.{Queue}
use slimstream.Proto.StreamingSession.Bytes.{pending}
use slimstream.Proto.StreamingSession.Invariant.{Flight, idle}
use slimstream.Proto.StreamingSession.Awake.{
  Posted, next, later, Awake, flying, nothing_to_send, posted,
}
use slimstream.Proto.StreamingSession.Progress.{total}
use slimstream.Proto.StreamingSession.Rounds.{
  round, rounds, Ready, round-Ready, rounds-Ready, rounds-total, Sending, transfer_first-Sending,
  run_first-Sending, Sending-round,
}

abbrev Shrinks : {E : Type 0} → ℕ → Session E → Type 0
Shrinks n s =
    (k : ℕ) × (suc (length (rounds n k s).transfer_buffer_queue) ≡ length s.transfer_buffer_queue)

rounds-add :
    {E : Type 0} (n k j : ℕ) (s : Session E) → rounds n (k + j) s ≡ rounds n j (rounds n k s)
unfolding rounds
rounds-add n zero j s = let e : 0 + j ≡ j = omega arith in ap (λ i. rounds n i s) e
rounds-add n (suc k) j s =
    let e : suc k + j ≡ suc (k + j) = omega arith in
    ap (λ i. rounds n i s) e ∙ rounds-add n k j (round n s)

empty_or_not : (q : Queue) → (q ≡ []) ⊎ (q ≢ [])
empty_or_not [] = inl refl
empty_or_not (c ∷ q) = inr (λ e. cc)

module _ {E : Type 0} {n : ℕ} where
  -- one round, when the transfer task is the next handler
  wake_now :
      {hs : List Handler} (s : Session E)
      → s.handlers ≡ transfer ∷ hs
      → Ready n s
      → s.transfer_buffer_queue ≢ []
      → suc (length (round n s).transfer_buffer_queue) ≡ length s.transfer_buffer_queue
  unfolding run_next transfer_task
  wake_now {hs} s e r ne = Sending-round s r (
      subst (λ p. Sending s (run_first p s)) (sym e)
        (transfer_first-Sending s.transfer_buffer_queue (record s { handlers = hs }) r.opened ne))

  -- a callback runs while no write is under way
  idle_round :
      {hs : List Handler} {cb : Callback} (s : Session E)
      → s.handlers ≡ run cb ∷ hs
      → s.transferring ≡ false
      → Ready n s
      → round n s ≡ record s { handlers = hs; called = s.called ++ cb ∷ [] }
  unfolding run_next complete
  idle_round {hs} {cb} s e t r =
      ap (λ p. complete false n (run_first p s)) e
      ∙ ap (λ w. complete_at false n w (record s { handlers = hs; called = s.called ++ cb ∷ [] }))
          (no_write (subst (λ b. Flight b s.write s.transfer_buffer_queue) t r.inv.flight))
    where
      no_write : {w : Option TransferDataChunk} {q : Queue} → Flight false w q → w ≡ none
      no_write idle = refl

  wake :
      {hs : List Handler} (s : Session E)
      → Posted hs
      → s.handlers ≡ hs
      → Ready n s
      → s.transfer_buffer_queue ≢ []
      → Shrinks n s
  unfolding rounds run_next
  wake s next e r ne = (1, wake_now s e r ne)
  wake s (later {h = transfer} p) e r ne = (1, wake_now s e r ne)
  wake s (later {h = run cb} {hs} p) e r ne = elim (Bool-cases s.transferring) [
    | inl t ↦ (1, Sending-round s r (run_first-Sending s.handlers s r.opened ne t))
    | inr t ↦
        let same = idle_round s e t r in
        let (k, shrinks) =
          wake (round n s) p (ap (λ (x : Session E). x.handlers) same) (round-Ready s r)
            (subst (λ (x : Session E). x.transfer_buffer_queue ≢ []) (sym same) ne) in
        (suc k, shrinks ∙ ap (λ (x : Session E). length x.transfer_buffer_queue) same)
  ]

  progress :
      {t : Bool} {q : Queue} {hs : List Handler} (s : Session E)
      → Awake t q hs
      → s.transferring ≡ t
      → s.transfer_buffer_queue ≡ q
      → s.handlers ≡ hs
      → Ready n s
      → s.transfer_buffer_queue ≢ []
      → Shrinks n s
  unfolding rounds run_next
  progress s flying et eq eh r ne =
      (1, Sending-round s r (run_first-Sending s.handlers s r.opened ne et))
  progress s nothing_to_send et eq eh r ne = absurd (ne eq)
  progress s (posted p) et eq eh r ne = wake s p eh r ne

  empties :
      (m : ℕ) (s : Session E)
      → length s.transfer_buffer_queue ≤ m
      → Ready n s
      → (k : ℕ) × ((rounds n k s).transfer_buffer_queue ≡ [])
  unfolding rounds
  empties zero s le r = (0, none_left s.transfer_buffer_queue le)
    where
      none_left : (q : Queue) → length q ≤ 0 → q ≡ []
      none_left [] h = refl
      none_left (c ∷ q) h = absurd (omega (arith, h))
  empties (suc m) s le r = elim (empty_or_not s.transfer_buffer_queue) [
    | inl e ↦ (0, e)
    | inr ne ↦
        let (k, shrinks) = progress s r.awake refl refl refl r ne in
        let (j, e) = empties m (rounds n k s) (omega (arith, shrinks, le)) (rounds-Ready k s r) in
        (k + j, ap (λ (x : Session E). x.transfer_buffer_queue) (rounds-add n k j s) ∙ e)
  ]

  -- An open session that satisfies its invariant and has a write under way, or the transfer task
  -- among its handlers, if it has something to send, has after some rounds an empty queue, and has
  -- sent all it had to send.
  pub drains :
      (s : Session E)
      → Ready n s
      → (k : ℕ) × ((rounds n k s).transfer_buffer_queue ≡ []) × ((rounds n k s).sent ≡ total s)
  drains s r =
      let (k, e) = empties (length s.transfer_buffer_queue) s (omega arith) r in
      let sent = rounds-total k s r in
      (
        k,
        e,
        sym (append-nil _)
            ∙ ap (λ q. (rounds n k s).sent ++ pending (rounds n k s).buffer_pool q) (sym e)
            ∙ sent,
      )
