-- ===== src/Proto/Streamer/Invariant.antt =====
-- What holds of the Streamer between two of its operations.
use slimstream.Base.{
  ℕ, ◌≡◌, refl, sym, ◌∙◌, Bool, true, false, not, ◌||◌, if_intro, Option, none, some, List, [], ◌∷◌,
  ◌==◌,
}
use slimstream.Chunk.{Chunk}
use slimstream.Util.Time.{Timestamp}
use slimstream.Proto.CommandSession.State.{Session, Env}
use slimstream.Proto.Streamer.State.{
  Event, State, same_state, StreamingApi, Streamer, find, update_all, session_env,
}
use slimstream.Proto.Streamer.Maps.{keys, keys-update_all, keys-replace}
use slimstream.Proto.Streamer.Machine.{
  fire, is_draining, is_ready_to_buffer, is_ready_to_play, state_change_to_preparing,
  state_change_to_buffering, state_change_to_playing, state_change_to_stopped,
}
use slimstream.Proto.Streamer.Diagram.{respond, fire-respond}
use slimstream.Proto.Streamer.Deliver.InStep.{
  InStep, AllAt, AllAt-InStep, Delivered, all_at, deliver_all-Delivered,
}
use slimstream.Proto.Streamer.Chunks.{
  Sessions, give, give_one, count_chunk, stream_chunk, step_started, step_preparing, try_to_play,
  distribute, drain_at_end, step_streaming, step_draining, consume_chunk,
}

-- The number of every session is that of the streamed chunks or one more; and a sequence number is
-- kept for each command session and for nothing else.
pub record Inv {T : Type 0} (s : Streamer T) : Type 0 where
  pub in_step : InStep s.streamed_chunks s.chunk_sequences
  pub same_keys : keys s.chunk_sequences ≡ keys s.command_sessions

zero-AllAt : (m : List (ℕ × ℕ)) → AllAt 0 (update_all (λ n. 0) m)
unfolding update_all
zero-AllAt [] = AllAt.no_entry
zero-AllAt ((k, n) ∷ m) = AllAt.entry refl (zero-AllAt m)

module _ {T : Type 0} (api : StreamingApi T) (now : Timestamp) where
  with_state-Inv : (st : State) (s : Streamer T) → Inv s → Inv (record s { state = st })
  with_state-Inv st s v = record { in_step = v.in_step; same_keys = v.same_keys }

  preparing-Inv : (s : Streamer T) → Inv s → Inv (state_change_to_preparing now s)
  unfolding state_change_to_preparing
  preparing-Inv s v = record {
    in_step = AllAt-InStep (zero-AllAt s.chunk_sequences);
    same_keys =
        keys-update_all _ s.chunk_sequences
        ∙ v.same_keys
        ∙ sym (keys-update_all _ s.command_sessions);
  }

  stopped-Inv : (s : Streamer T) → Inv s → Inv (state_change_to_stopped api now s)
  unfolding state_change_to_stopped
  stopped-Inv s v = record {
    in_step = v.in_step;
    same_keys = v.same_keys ∙ sym (keys-update_all _ s.command_sessions);
  }

  buffering-Inv : (s : Streamer T) → Inv s → Inv (state_change_to_buffering now s)
  unfolding state_change_to_buffering
  buffering-Inv s v = record { in_step = v.in_step; same_keys = v.same_keys }

  playing-Inv : (s : Streamer T) → Inv s → Inv (state_change_to_playing s)
  unfolding state_change_to_playing
  playing-Inv s v = record { in_step = v.in_step; same_keys = v.same_keys }

  abbrev InvOf : Bool × Streamer T → Type 0
  InvOf r = Inv r.1

  respond-Inv : (st : State) (e : Event) (s : Streamer T) → Inv s → Inv (respond api now s st e).1
  respond-Inv State.started Event.start s v = with_state-Inv _ s v
  respond-Inv State.preparing Event.start s v = with_state-Inv _ s v
  respond-Inv State.buffering Event.start s v = with_state-Inv _ s v
  respond-Inv State.playing Event.start s v = with_state-Inv _ s v
  respond-Inv State.draining Event.start s v = with_state-Inv _ s v
  respond-Inv State.stopped Event.start s v = with_state-Inv _ s v
  respond-Inv State.started Event.prepare s v = with_state-Inv _ _ (preparing-Inv s v)
  respond-Inv State.preparing Event.buffer s v =
      if_intro InvOf (is_ready_to_buffer now s) (with_state-Inv _ _ (buffering-Inv s v)) v
  respond-Inv State.buffering Event.play s v =
      if_intro InvOf (is_ready_to_play s) (with_state-Inv _ _ (playing-Inv s v)) v
  respond-Inv State.draining Event.flushed s v =
      if_intro InvOf (not (is_draining s)) (with_state-Inv _ s v) v
  respond-Inv State.started Event.stop s v = with_state-Inv _ _ (stopped-Inv s v)
  respond-Inv State.preparing Event.stop s v = with_state-Inv _ _ (stopped-Inv s v)
  respond-Inv State.buffering Event.stop s v = with_state-Inv _ _ (stopped-Inv s v)
  respond-Inv State.playing Event.stop s v = with_state-Inv _ _ (stopped-Inv s v)
  respond-Inv State.draining Event.stop s v = with_state-Inv _ _ (stopped-Inv s v)
  respond-Inv _ _ s v = record { in_step = v.in_step; same_keys = v.same_keys }

  pub fire-Inv : (e : Event) (s : Streamer T) → Inv s → Inv (fire api now e s).1
  fire-Inv e s v = rw (fire-respond api now s e) (respond-Inv s.state e s v)

  -- Handing a chunk to a session keeps the command sessions' keys.
  give_one-keys :
      (env : Env) (c : Chunk) (k : ℕ) (ks : List ℕ) (w : Sessions api now) (o : Option Session)
      → find k w.0 ≡ o
      → keys w.0 ≡ ks
      → keys (give_one api now env c k w o).1.0 ≡ ks
  give_one-keys env c k ks w none f e = e
  give_one-keys env c k ks (cs, ts) (some d) f e = keys-replace k _ cs f ∙ e

  give-keys :
      (env : Env) (c : Chunk) (ks : List ℕ) (k : ℕ) (w : Sessions api now)
      → keys w.0 ≡ ks
      → keys (give api now env c k w).1.0 ≡ ks
  unfolding give
  give-keys env c ks k w e = give_one-keys env c k ks w (find k w.0) refl e

  -- `streamChunk` counts the chunk only when all sessions have consumed it.
  pub stream_chunk-Inv : (c : Chunk) (s : Streamer T) → Inv s → Inv (stream_chunk api now c s).1
  unfolding stream_chunk count_chunk
  stream_chunk-Inv c s v = counted _ (
      deliver_all-Delivered (give api now (session_env now s) c) s.streamed_chunks
        (λ w. keys w.0 ≡ keys s.command_sessions)
        (give-keys (session_env now s) c (keys s.command_sessions)) s.chunk_sequences
        (s.command_sessions, s.streaming_sessions) v.in_step refl)
    where
      counted :
          (r : Bool × List (ℕ × ℕ) × Sessions api now)
          → Delivered
              (give api now (session_env now s) c)
              s.streamed_chunks
              (λ w. keys w.0 ≡ keys s.command_sessions)
              (give-keys (session_env now s) c (keys s.command_sessions))
              s.chunk_sequences
              (s.command_sessions, s.streaming_sessions)
              r
          → Inv (
              count_chunk api now c r.0 (record s {
                chunk_sequences = r.1;
                command_sessions = r.2.0;
                streaming_sessions = r.2.1;
              }))
      counted (true, es, w) d = record {
        in_step = AllAt-InStep (all_at _ _ _ _ d refl);
        same_keys = d.same_keys ∙ v.same_keys ∙ sym d.kept;
      }
      counted (false, es, w) d = record {
        in_step = d.in_step;
        same_keys = d.same_keys ∙ v.same_keys ∙ sym d.kept;
      }

  pub step_started-Inv :
      (c : Chunk) (r : Bool) (s : Streamer T) → Inv s → Inv (step_started api now c (r, s)).1
  unfolding step_started
  step_started-Inv c r s v =
      if_intro InvOf (same_state s.state State.started)
        (if_intro InvOf (c.sampling_rate == 0) v
          (fire-Inv Event.prepare _ (record { in_step = v.in_step; same_keys = v.same_keys })))
        v

  pub step_preparing-Inv :
      (r : Bool) (s : Streamer T) → Inv s → Inv (step_preparing api now (r, s)).1
  unfolding step_preparing
  step_preparing-Inv r s v =
      if_intro InvOf (same_state s.state State.preparing) (fire-Inv Event.buffer s v) v

  pub try_to_play-Inv : (s : Streamer T) → Inv s → Inv (try_to_play api now s)
  unfolding try_to_play
  try_to_play-Inv s v =
      if_intro Inv (same_state s.state State.buffering) (fire-Inv Event.play s v) v

  distribute-Inv :
      (c : Chunk) (r : Bool) (s : Streamer T) → Inv s → Inv (distribute api now c (r, s)).1
  unfolding distribute
  distribute-Inv c r s v =
      if_intro InvOf (s.sampling_rate == c.sampling_rate) (stream_chunk-Inv c s v) v

  drain_at_end-Inv :
      (c : Chunk) (r : Bool) (s : Streamer T) → Inv s → Inv (drain_at_end api now c (r, s)).1
  unfolding drain_at_end
  drain_at_end-Inv c r s v =
      if_intro InvOf (not (s.sampling_rate == c.sampling_rate) || c.end_of_stream)
        (fire-Inv Event.drain s v) v

  step_streaming-Inv :
      (c : Chunk) (r : Bool) (s : Streamer T) → Inv s → Inv (step_streaming api now c (r, s)).1
  unfolding step_streaming
  step_streaming-Inv c r s v =
      if_intro InvOf (same_state s.state State.buffering || same_state s.state State.playing)
        (drain_at_end-Inv c _ _ (distribute-Inv c r _ (try_to_play-Inv s v))) v

  step_draining-Inv : (r : Bool) (s : Streamer T) → Inv s → Inv (step_draining api now (r, s)).1
  unfolding step_draining
  step_draining-Inv r s v =
      if_intro InvOf (same_state s.state State.draining) (fire-Inv Event.flushed s v) v

  -- Whatever a chunk does to the Streamer and to its sessions, the invariant is kept.
  pub consume_chunk-Inv : (c : Chunk) (s : Streamer T) → Inv s → Inv (consume_chunk api now c s).1
  unfolding consume_chunk
  consume_chunk-Inv c s v =
      step_draining-Inv _ _
        (step_streaming-Inv c _ _ (step_preparing-Inv _ _ (step_started-Inv c false s v)))
