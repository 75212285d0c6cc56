-- ===== src/Proto/Streamer/Loss.antt =====
-- What becomes of a chunk at the end of a stream.
use slimstream.Base.{
  ◌≡◌, refl, ap, ◌∙◌, ◌⊎◌, Bool, true, false, not, ◌||◌, ◌==◌, inl, inr, if_true, if_false,
}
use slimstream.Chunk.{Chunk}
use slimstream.Util.Time.{Timestamp}
use slimstream.Proto.Streamer.State.{Event, State, same_state, StreamingApi, Streamer}
use slimstream.Proto.Streamer.Machine.{fire, is_draining}
use slimstream.Proto.Streamer.Diagram.{respond, fire-respond}
use slimstream.Proto.Streamer.Chunks.{
  step_started, step_preparing, try_to_play, distribute, drain_at_end, step_streaming,
  step_draining, consume_chunk,
}

module _ {T : Type 0} (api : StreamingApi T) (now : Timestamp) where
  -- the steps that pass by a Streamer that plays or drains
  step_started-later :
      (c : Chunk) (r : Bool) (s : Streamer T)
      → (s.state ≡ State.playing) ⊎ (s.state ≡ State.draining)
      → step_started api now c (r, s) ≡ (r, s)
  unfolding step_started
  step_started-later c r s (inl p) = if_false _ _ _ (ap (λ st. same_state st State.started) p)
  step_started-later c r s (inr p) = if_false _ _ _ (ap (λ st. same_state st State.started) p)

  step_preparing-later :
      (r : Bool) (s : Streamer T)
      → (s.state ≡ State.playing) ⊎ (s.state ≡ State.draining)
      → step_preparing api now (r, s) ≡ (r, s)
  unfolding step_preparing
  step_preparing-later r s (inl p) = if_false _ _ _ (ap (λ st. same_state st State.preparing) p)
  step_preparing-later r s (inr p) = if_false _ _ _ (ap (λ st. same_state st State.preparing) p)

  before_streaming :
      (c : Chunk) (s : Streamer T)
      → (s.state ≡ State.playing) ⊎ (s.state ≡ State.draining)
      → consume_chunk api now c s ≡ step_draining api now (step_streaming api now c (false, s))
  unfolding consume_chunk
  before_streaming c s p =
      ap (λ x. step_draining api now (step_streaming api now c (step_preparing api now x)))
        (step_started-later c false s p)
      ∙ ap (λ x. step_draining api now (step_streaming api now c x))
          (step_preparing-later false s p)

  distribute_other :
      (c : Chunk) (r : Bool) (s : Streamer T)
      → (s.sampling_rate == c.sampling_rate) ≡ false
      → distribute api now c (r, s) ≡ (r, s)
  unfolding distribute
  distribute_other c r s h = if_false _ _ _ h

  drain_other :
      (c : Chunk) (r : Bool) (s : Streamer T)
      → (s.sampling_rate == c.sampling_rate) ≡ false
      → drain_at_end api now c (r, s) ≡ (false, (fire api now Event.drain s).1)
  unfolding drain_at_end
  drain_other c r s h = if_true _ _ _ (ap (λ b. not b || c.end_of_stream) h)

  try_to_play-playing : (s : Streamer T) → s.state ≡ State.playing → try_to_play api now s ≡ s
  unfolding try_to_play
  try_to_play-playing s p = if_false _ _ _ (ap (λ st. same_state st State.buffering) p)

  drain_playing :
      (s : Streamer T)
      → s.state ≡ State.playing
      → (fire api now Event.drain s).1 ≡ record s { state = State.draining }
  drain_playing s p =
      ap (λ r. r.1)
        (fire-respond api now s Event.drain ∙ ap (λ st. respond api now s st Event.drain) p)

  step_streaming-other :
      (c : Chunk) (s : Streamer T)
      → s.state ≡ State.playing
      → (s.sampling_rate == c.sampling_rate) ≡ false
      → step_streaming api now c (false, s) ≡ (false, record s { state = State.draining })
  unfolding step_streaming
  step_streaming-other c s p h =
      if_true _ _ _ (ap (λ st. same_state st State.buffering || same_state st State.playing) p)
      ∙ ap (λ x. drain_at_end api now c (distribute api now c (false, x))) (try_to_play-playing s p)
      ∙ ap (drain_at_end api now c) (distribute_other c false s h)
      ∙ drain_other c false s h
      ∙ ap (λ x. (false, x)) (drain_playing s p)

  step_draining-respond :
      (r : Bool) (s : Streamer T)
      → s.state ≡ State.draining
      → step_draining api now (r, s) ≡ respond api now s State.draining Event.flushed
  unfolding step_draining
  step_draining-respond r s p =
      if_true _ _ _ (ap (λ st. same_state st State.draining) p)
      ∙ fire-respond api now s Event.flushed
      ∙ ap (λ st. respond api now s st Event.flushed) p

  -- A chunk of another sampling rate, while the Streamer plays and no session drains, is answered as
  -- consumed, and nothing changes but the state, which is `started`: no session is given the chunk.
  pub consume_chunk-loses :
      (c : Chunk) (s : Streamer T)
      → s.state ≡ State.playing
      → (s.sampling_rate == c.sampling_rate) ≡ false
      → is_draining s ≡ false
      → consume_chunk api now c s ≡ (true, record s { state = State.started })
  unfolding is_draining
  consume_chunk-loses c s p h d =
      before_streaming c s (inl p)
      ∙ ap (step_draining api now) (step_streaming-other c s p h)
      ∙ step_draining-respond false (record s { state = State.draining }) refl
      ∙ if_true _ _ _ (ap not d)
