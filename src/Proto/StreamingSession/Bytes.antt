-- ===== src/Proto/StreamingSession/Bytes.antt =====
-- The bytes that a session has yet to send, and those it takes of what it is given.
use slimstream.Base.{
  ℕ, zero, suc, ◌+◌, ◌*◌, ◌≤◌, ◌≡◌, refl, sym, ap, ◌∙◌, Bool, true, false, Option, none, some, [],
  ◌∷◌, ◌++◌, length, take, drop, arith, append-nil, append_assoc, length-drop, take-nil, take-add,
  take-append_length,
}
use slimstream.Util.BufferPool.{
  BufferPool, set_free, copy, get_data, first_free, get_available_size,
}
use slimstream.Util.BufferPool.Laws.{
  is_lent, Lending, exhausted, lent, first_free-Lending, get_data-set_free, get_data-copy_ne,
  get_data-copy_self, available-copy,
}
use slimstream.Proto.Wire.{Bytes}
use slimstream.Proto.StreamingSession.State.{TransferDataChunk, Session}
use slimstream.Proto.StreamingSession.Transfer.{memory_of, enqueue, put_piece, on_encoded}
use slimstream.Proto.StreamingSession.Queue.{
  holds, holds-head, holds-tail, free-fresh, free_size, Queue,
}
use slimstream.Proto.StreamingSession.Invariant.{Live, enqueue-Live}

abbrev pub pending : BufferPool → Queue → Bytes
pending pool [] = []
pending pool (c ∷ q) = memory_of pool c ++ pending pool q

pending-append :
    (pool : BufferPool) (q : Queue) (c : TransferDataChunk)
    → pending pool (q ++ c ∷ []) ≡ pending pool q ++ memory_of pool c
pending-append pool [] c = append-nil _
pending-append pool (d ∷ q) c =
    ap (λ bs. memory_of pool d ++ bs) (pending-append pool q c)
    ∙ sym (append_assoc (memory_of pool d) (pending pool q) (memory_of pool c))

-- Only the buffers' memory counts, and of that the memory of the buffers that are held.
pub pending-set_free :
    (b : Bool) (i : ℕ) (pool : BufferPool) (q : Queue)
    → pending (set_free b i pool) q ≡ pending pool q
pending-set_free b i pool [] = refl
pending-set_free b i pool (c ∷ q) =
    rw (get_data-set_free b pool i c.buffer, pending-set_free b i pool q)

pending-copy :
    (bs : Bytes) (i : ℕ) (pool : BufferPool) (q : Queue)
    → holds i q ≡ false
    → pending (copy bs i pool) q ≡ pending pool q
pending-copy bs i pool [] h = refl
pending-copy bs i pool (c ∷ q) h = rw (
  get_data-copy_ne bs pool i c.buffer (holds-head c q i h),
  pending-copy bs i pool q (holds-tail i c q h),
)

filled :
    (piece : Bytes) (i : ℕ) (pool : BufferPool)
    → is_lent pool i ≡ true
    → memory_of (copy piece i pool) (record { buffer = i; size = length piece; offset = 0 }) ≡ piece
filled piece i pool l =
    ap (λ m. take (length piece) m) (get_data-copy_self piece pool i l)
    ∙ take-append_length piece (drop (length piece) (get_data pool i))

-- the bytes of a session's queue
abbrev pub unsent : {E : Type 0} → Session E → Bytes
unsent s = pending s.buffer_pool s.transfer_buffer_queue

module _ {E : Type 0} {n : ℕ} where
  unsent-enqueue :
      (piece : Bytes) (i : ℕ) (s : Session E)
      → is_lent s.buffer_pool i ≡ false
      → is_lent (set_free false i s.buffer_pool) i ≡ true
      → Live n s
      → unsent (enqueue piece i s) ≡ unsent s ++ piece
  unsent-enqueue piece i s f l v =
      pending-append (copy piece i lending) s.transfer_buffer_queue _
      ∙ ap (λ bs. pending (copy piece i lending) s.transfer_buffer_queue ++ bs)
          (filled piece i lending l)
      ∙ ap (λ bs. bs ++ piece)
          (pending-copy piece i lending s.transfer_buffer_queue (free-fresh i f v.inv.stock.held)
            ∙ pending-set_free false i s.buffer_pool s.transfer_buffer_queue)
    where
      lending : BufferPool
      lending = set_free false i s.buffer_pool

-- the number of bytes that there are free buffers for
abbrev pub room : {E : Type 0} → ℕ → Session E → ℕ
room n s = get_available_size s.buffer_pool * n

-- What the loop of the encoded callback keeps: as many of the bytes as there is room for.
pub record Taken {E : Type 0} (n : ℕ) (bs : Bytes) (s s' : Session E) : Type 0 where
  pub unsent_is : unsent s' ≡ unsent s ++ take (room n s) bs
  pub sent_is : s'.sent ≡ s.sent
  pub is_open_is : s'.is_open ≡ s.is_open

module _ {E : Type 0} {n : ℕ} where
  put_piece-Taken :
      (next : Bytes → Session E → Session E) (fuel : ℕ)
      → ((bytes : Bytes) (s : Session E)
          → length bytes ≤ fuel
          → Live n s
          → Taken n bytes s (next bytes s))
      → (b : ℕ) (bs : Bytes) (s : Session E) (o : Option ℕ) → Lending s.buffer_pool o
      → length bs ≤ fuel
      → Live n s
      → Taken n (b ∷ bs) s (put_piece next (b ∷ bs) s o)
  put_piece-Taken next fuel h b bs s none (exhausted a) p v = record {
    unsent_is =
        let e : 0 ≡ room n s = (let z : 0 ≡ 0 * n = omega arith in z ∙ ap (λ k. k * n) (sym a)) in
        sym (append-nil (unsent s)) ∙ ap (λ k. unsent s ++ take k (b ∷ bs)) e;
    sent_is = refl;
    is_open_is = refl;
  }
  put_piece-Taken next fuel h b bs s (some i) (lent f l a) p v = record {
    unsent_is =
        rest.unsent_is
        ∙ ap (λ xs. xs ++ take (room n filling) (drop m (b ∷ bs)))
            (unsent-enqueue (take m (b ∷ bs)) i s f l v)
        ∙ append_assoc (unsent s) (take m (b ∷ bs)) _
        ∙ ap (λ xs. unsent s ++ xs)
            (sym (take-add m (room n filling) (b ∷ bs)) ∙ ap (λ k. take k (b ∷ bs)) (sym room_is));
    sent_is = rest.sent_is;
    is_open_is = rest.is_open_is;
  }
    where
      m : ℕ
      m = length (get_data s.buffer_pool i)

      filling : Session E
      filling = enqueue (take m (b ∷ bs)) i s

      size : m ≡ n
      size = free_size s.buffer_pool i l v.inv.stock.uniform

      shorter : length (drop m (b ∷ bs)) ≤ fuel
      shorter = let d = length-drop m (b ∷ bs) in omega (arith, d, size, p, v.inv.stock.positive)

      rest : Taken n (drop m (b ∷ bs)) filling (next (drop m (b ∷ bs)) filling)
      rest = h _ _ shorter (enqueue-Live b bs i s (lent f l a) v)

      room_is : room n s ≡ m + room n filling
      room_is =
          let c = available-copy (take m (b ∷ bs)) (set_free false i s.buffer_pool) i in
          ap (λ k. k * n) (a ∙ ap suc (sym c))
          ∙ (let e : suc (get_available_size filling.buffer_pool) * n
                  ≡ n + get_available_size filling.buffer_pool * n =
                omega arith in
              e ∙ ap (λ k. k + room n filling) (sym size))

  -- For a session that satisfies its invariant and runs, on fuel of at least the number of bytes,
  -- the loop puts into the queue the bytes that there is room for, and sends none.
  pub on_encoded-Taken :
      (fuel : ℕ) (bs : Bytes) (s : Session E)
      → length bs ≤ fuel
      → Live n s
      → Taken n bs s (on_encoded fuel bs s)
  unfolding on_encoded
  on_encoded-Taken zero [] s p v = record {
    unsent_is = sym (ap (λ xs. unsent s ++ xs) (take-nil (room n s)) ∙ append-nil (unsent s));
    sent_is = refl;
    is_open_is = refl;
  }
  on_encoded-Taken zero (b ∷ bs) s p v = absurd (omega (arith, p))
  on_encoded-Taken (suc fuel) [] s p v = record {
    unsent_is = sym (ap (λ xs. unsent s ++ xs) (take-nil (room n s)) ∙ append-nil (unsent s));
    sent_is = refl;
    is_open_is = refl;
  }
  on_encoded-Taken (suc fuel) (b ∷ bs) s p v =
      put_piece-Taken (λ rest s'. on_encoded fuel rest s') fuel
        (λ rest s'. on_encoded-Taken fuel rest s') b bs s (first_free s.buffer_pool)
        (first_free-Lending s.buffer_pool) (omega (arith, p)) v
