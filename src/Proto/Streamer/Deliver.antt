-- ===== src/Proto/Streamer/Deliver.antt =====
-- The loop of `streamChunk`: a chunk is offered to each session that has not consumed it yet.
pub mod InStep
use slimstream.Base.{ℕ, ◌+◌, Bool, true, false, ◌&&◌, List, [], ◌∷◌, leb, if◌then◌else◌}

-- `give k w` offers the chunk to session `k`, and answers whether it was consumed.
module _ {W : Type 0} (give : ℕ → W → Bool × W) (streamed_chunks : ℕ) where
  -- one entry: whether nothing is left to do for it, its new sequence number, and the new world
  unfoldable pub visit : ℕ → ℕ → W → Bool × ℕ × W
  visit k n w =
      if leb n streamed_chunks
      then (let (consumed, w') = give k w in (consumed, (if consumed then n + 1 else n), w'))
      else (true, n, w)

  unfoldable pub deliver_all : List (ℕ × ℕ) → W → Bool × List (ℕ × ℕ) × W
  deliver_all [] w = (true, [], w)
  deliver_all ((k, n) ∷ es) w =
      let (ok, n', w') = visit k n w in
      let (all_ok, es', w'') = deliver_all es w' in (ok && all_ok, (k, n') ∷ es', w'')
