-- ===== src/Proto/Streamer/Counting.antt =====
-- What a chunk does to the sequence numbers of the sessions, and to the number of streamed chunks.
use slimstream.Base.{ℕ, ◌+◌, ◌≡◌, Bool, false, List, if◌then◌else◌}
use slimstream.Chunk.{Chunk}
use slimstream.Util.Time.{Timestamp}
use slimstream.Proto.Streamer.State.{State, StreamingApi, Streamer, update_all, session_env}
use slimstream.Proto.Streamer.Maps.{keys}
use slimstream.Proto.Streamer.Deliver.InStep.{InStep, behind, refusals, is_empty, offers}
use slimstream.Proto.Streamer.Chunks.{
  Sessions, give, step_started, step_preparing, try_to_play, consume_chunk,
}
use slimstream.Proto.Streamer.Invariant.{Inv}

-- No number is changed.
pub record Same {T : Type 0} (s s' : Streamer T) : Type 0 where
  pub numbers : s'.chunk_sequences ≡ s.chunk_sequences
  pub total : s'.streamed_chunks ≡ s.streamed_chunks

-- No number is changed, or all of them are set to 0.
pub data Carried {T : Type 0} (s s' : Streamer T) : Type 0 where
  carried_on : Same s s' → Carried s s'
  restarted :
      s'.chunk_sequences ≡ update_all (λ n. 0) s.chunk_sequences
      → s'.streamed_chunks ≡ 0
      → Carried s s'

module _ {T : Type 0} (api : StreamingApi T) (now : Timestamp) where
  abbrev SameAs : Streamer T → Bool × Streamer T → Type 0
  SameAs s r = Same s r.1

  abbrev CarriedTo : Streamer T → Bool × Streamer T → Type 0
  CarriedTo s r = Carried s r.1

  -- the Streamer at the time it may distribute the chunk
  abbrev pub prepared : Chunk → Streamer T → Streamer T
  prepared c s = try_to_play api now (step_preparing api now (step_started api now c (false, s))).1

  -- the answers of the sessions of `q` that are behind, each of them being offered the chunk once
  abbrev pub answers : Chunk → Streamer T → List (ℕ × Bool) × Sessions api now
  answers c q =
      offers (give api now (session_env now q) c) (behind q.streamed_chunks q.chunk_sequences)
        (q.command_sessions, q.streaming_sessions)

  -- What becomes of the numbers of `q`: the chunk is not distributed, or it is.
  pub data Counted (c : Chunk) (q r : Streamer T) : Type 0 where
    not_distributed : Same q r → Counted c q r
    distributed :
        InStep q.streamed_chunks r.chunk_sequences
        → behind q.streamed_chunks r.chunk_sequences ≡ refusals (answers c q).0
        → keys r.chunk_sequences ≡ keys q.chunk_sequences
        → r.streamed_chunks ≡ (
            if is_empty (refusals (answers c q).0)
            then q.streamed_chunks + 1
            else q.streamed_chunks)
        → Counted c q r

  abbrev CountedOf : Chunk → Streamer T → Bool × Streamer T → Type 0
  CountedOf c q r = Counted c q r.1

  -- what a chunk does to the sequence numbers of `s`
  pub record Accounted (c : Chunk) (s : Streamer T) : Type 0 where
    pub before : Inv s
    pub carried : Carried s (prepared c s)
    pub counted : Counted c (prepared c s) (consume_chunk api now c s).1
