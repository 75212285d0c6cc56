-- ===== src/Proto/StreamingSession/Queue.antt =====
-- The chunks in the queue and the buffers they hold.
use slimstream.Base.{
  ℕ, suc, ◌+◌, ◌-◌, ◌≤◌, ◌<◌, ◌≡◌, ◌≢◌, refl, sym, ap, ◌∙◌, Bool, true, false, List, [], ◌∷◌, ◌++◌,
  length, arith, if◌then◌else◌, ◌==◌, ltb, if_cases, length-append,
}
use slimstream.Util.BufferPool.{BufferPool, set_free, get_data, copy, get_available_size}
use slimstream.Util.BufferPool.Laws.{
  is_lent, Uniform, set_free-Uniform, copy-Uniform, is_lent-set_free, is_lent-copy, length-set_free,
  get_data-set_free, Uniform-size, length-copy, available-release, available-copy,
}
use slimstream.Proto.StreamingSession.State.{TransferDataChunk}
use slimstream.Proto.StreamingSession.Transfer.{pop_all}

abbrev pub Queue : Type 0
Queue = List TransferDataChunk

-- whether a chunk of the queue holds the buffer at a position
unfoldable pub holds : ℕ → Queue → Bool
holds i [] = false
holds i (c ∷ q) = let rest = holds i q in if c.buffer == i then true else rest

-- Each chunk has a lent buffer of its own, and bytes left to send.
pub data Held (n : ℕ) (pool : BufferPool) : Queue → Type 0 where
  no_chunk : Held n pool []
  chunk :
      {c : TransferDataChunk} {q : Queue}
      → is_lent pool c.buffer ≡ true
      → c.offset < c.size
      → c.size ≤ n
      → holds c.buffer q ≡ false
      → Held n pool q
      → Held n pool (c ∷ q)

-- Only a running session has chunks to send.
pub data Quiet : Bool → Queue → Type 0 where
  live : {q : Queue} → Quiet true q
  quiet : Quiet false []

-- A queue and the pool it has its buffers from: a buffer is either free or held by one chunk.
pub record Stock (n : ℕ) (pool : BufferPool) (q : Queue) (running : Bool) : Type 0 where
  pub positive : 0 < n
  pub uniform : Uniform n pool
  pub held : Held n pool q
  pub counted : get_available_size pool + length q ≡ length pool
  pub still : Quiet running q

pub holds-tail :
    (i : ℕ) (c : TransferDataChunk) (q : Queue) → holds i (c ∷ q) ≡ false → holds i q ≡ false
unfolding holds
holds-tail i c q h = ground arith

pub holds-head :
    (c : TransferDataChunk) (q : Queue) (i : ℕ) → holds i (c ∷ q) ≡ false → i ≢ c.buffer
unfolding holds
holds-head c q i h = ground arith

holds-append :
    (i : ℕ) (c : TransferDataChunk) (q : Queue)
    → i ≢ c.buffer
    → holds i q ≡ false
    → holds i (q ++ c ∷ []) ≡ false
unfolding holds
holds-append i c [] ne h = ground arith
holds-append i c (d ∷ q) ne h = ground (arith, holds-append i c q ne (holds-tail i d q h))

-- A free buffer is held by no chunk.
pub free-fresh :
    {n : ℕ} {pool : BufferPool} {q : Queue} (i : ℕ)
    → is_lent pool i ≡ false
    → Held n pool q
    → holds i q ≡ false
unfolding holds
free-fresh i f no_chunk = refl
free-fresh {pool} i f (chunk {c} {q} l o s h t) =
    if_cases (λ b. b ≡ false) (c.buffer == i)
      (λ e. let eq : c.buffer ≡ i = ground (arith, e) in absurd (clash eq)) (λ _. free-fresh i f t)
  where
    clash : c.buffer ≡ i → ⊥
    clash e = cc

-- Buffers that stay lent stay held.
Held-agree :
    {n : ℕ} {pool pool' : BufferPool} {q : Queue}
    → ((j : ℕ) → is_lent pool j ≡ true → is_lent pool' j ≡ true)
    → Held n pool q
    → Held n pool' q
Held-agree f no_chunk = no_chunk
Held-agree f (chunk l o s h t) = chunk (f _ l) o s h (Held-agree f t)

Held-release :
    {n : ℕ} {pool : BufferPool} {q : Queue} (i : ℕ)
    → holds i q ≡ false
    → Held n pool q
    → Held n (set_free true i pool) q
Held-release i f no_chunk = no_chunk
Held-release {pool} i f (chunk {c} {q} l o s h t) =
    chunk (is_lent-set_free true pool i c.buffer (holds-head c q i f) ∙ l) o s h
      (Held-release i (holds-tail i c q f) t)

Held-append :
    {n : ℕ} {pool : BufferPool} {q : Queue} (c : TransferDataChunk)
    → is_lent pool c.buffer ≡ true
    → c.offset < c.size
    → c.size ≤ n
    → holds c.buffer q ≡ false
    → Held n pool q
    → Held n pool (q ++ c ∷ [])
unfolding holds
Held-append c l o s f no_chunk = chunk l o s refl no_chunk
Held-append c l o s f (chunk {c = d} {q} l' o' s' h t) =
    chunk l' o' s' (holds-append d.buffer c q (λ e. holds-head d q c.buffer f (sym e)) h)
      (Held-append c l o s (holds-tail c.buffer d q f) t)

-- What a buffer that can be lent holds.
pub free_size :
    {n : ℕ} (pool : BufferPool) (i : ℕ)
    → is_lent (set_free false i pool) i ≡ true
    → Uniform n pool
    → length (get_data pool i) ≡ n
free_size pool i l u =
    sym (ap length (get_data-set_free false pool i i))
    ∙ Uniform-size i l (set_free-Uniform false i u)

-- A buffer is lent, filled, and held by a new chunk at the end of the queue.
pub enqueue-Stock :
    {n : ℕ} {pool : BufferPool} {q : Queue} (i : ℕ) (piece : List ℕ)
    → is_lent pool i ≡ false
    → is_lent (set_free false i pool) i ≡ true
    → get_available_size pool ≡ suc (get_available_size (set_free false i pool))
    → 0 < length piece
    → length piece ≤ n
    → Stock n pool q true
    → Stock n
        (copy piece i (set_free false i pool))
        (q ++ (record { buffer = i; size = length piece; offset = 0 }) ∷ [])
        true
enqueue-Stock {n} {pool} {q} i piece f l a p s v = record {
  positive = v.positive;
  uniform = copy-Uniform piece i s (set_free-Uniform false i v.uniform);
  held =
      Held-append _ (is_lent-copy piece (set_free false i pool) i i ∙ l) p s (free-fresh i f v.held)
        (Held-agree still_lent v.held);
  counted =
      let al = available-copy piece (set_free false i pool) i in
      let le = length-copy piece (set_free false i pool) i in
      let ls = length-set_free false pool i in
      let la = length-append q ((record { buffer = i; size = length piece; offset = 0 }) ∷ []) in
      omega (arith, al, le, ls, la, a, v.counted);
  still = live;
}
  where
    still_lent :
        (j : ℕ) → is_lent pool j ≡ true → is_lent (copy piece i (set_free false i pool)) j ≡ true
    still_lent j lj =
        is_lent-copy piece (set_free false i pool) i j
        ∙ is_lent-set_free false pool i j (λ e. clash e)
        ∙ lj
      where
        clash : i ≡ j → ⊥
        clash e = cc

-- A chunk leaves, and its buffer is free again.
pub pop-Stock :
    {n : ℕ} {pool : BufferPool} {c : TransferDataChunk} {q : Queue}
    → Stock n pool (c ∷ q) true
    → Stock n (set_free true c.buffer pool) q true
pop-Stock {n} {pool} {c} {q} v = elim v.held [
  | chunk l o s h t ↦ record {
    positive = v.positive;
    uniform = set_free-Uniform true c.buffer v.uniform;
    held = Held-release c.buffer h t;
    counted =
        let ar = available-release pool c.buffer l in
        let ls = length-set_free true pool c.buffer in omega (arith, ar, ls, v.counted);
    still = live;
  }
]

pub pop_all-Stock :
    {n : ℕ} (q : Queue) (pool : BufferPool)
    → Stock n pool q true
    → Stock n (pop_all q pool) [] false
unfolding pop_all
pop_all-Stock [] pool v = record {
  positive = v.positive;
  uniform = v.uniform;
  held = no_chunk;
  counted = v.counted;
  still = quiet;
}
pop_all-Stock (c ∷ q) pool v = pop_all-Stock q (set_free true c.buffer pool) (pop-Stock v)

-- Some bytes of the first chunk are sent.
pub partly_sent :
    {n : ℕ} {c : TransferDataChunk} {q : List TransferDataChunk} {pool : BufferPool} (k : ℕ)
    → ltb k (c.size - c.offset) ≡ true
    → Stock n pool (c ∷ q) true
    → Stock n pool ((record c { offset = c.offset + k }) ∷ q) true
partly_sent k lt v = elim v.held [
  | chunk l o s h t ↦ record {
    positive = v.positive;
    uniform = v.uniform;
    held = chunk l (ground (arith, o, lt)) s h t;
    counted = v.counted;
    still = live;
  }
]
