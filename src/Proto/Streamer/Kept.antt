-- ===== src/Proto/Streamer/Kept.antt =====
-- What the chunks and events of the Streamer keep of its sessions.
use slimstream.Base.{
  ℕ, ◌≡◌, ◌≢◌, refl, arith, Bool, false, not, ◌||◌, if_intro, if_cases, leb, List, [], ◌∷◌, ◌==◌,
}
use slimstream.Chunk.{Chunk}
use slimstream.Util.Time.{Timestamp}
use slimstream.Proto.CommandSession.State.{Session, Env}
use slimstream.Proto.CommandSession.Lifecycle
use slimstream.Proto.Streamer.State.{
  Event, State, same_state, StreamingApi, Streamer, update_all, session_env,
}
use slimstream.Proto.Streamer.Machine.{
  fire, is_draining, is_ready_to_buffer, is_ready_to_play, state_change_to_preparing,
  state_change_to_buffering, state_change_to_playing, state_change_to_stopped,
}
use slimstream.Proto.Streamer.Diagram.{respond, fire-respond}
use slimstream.Proto.Streamer.Deliver.{visit, deliver_all}
use slimstream.Proto.Streamer.Chunks.{
  Sessions, give, count_chunk, stream_chunk, step_started, step_preparing, try_to_play, distribute,
  drain_at_end, step_streaming, step_draining, consume_chunk,
}

deliver_all-keeps :
    {W : Type 0} (give : ℕ → W → Bool × W) (total : ℕ) (P : W → Type 0)
    → ((k : ℕ) (w : W) → P w → P (give k w).1)
    → (es : List (ℕ × ℕ)) (w : W) → P w
    → P (deliver_all give total es w).2
unfolding deliver_all visit
deliver_all-keeps give total P keep [] w p = p
deliver_all-keeps give total P keep ((k, n) ∷ es) w p =
    deliver_all-keeps give total P keep es _
      (if_intro {A = Bool × ℕ × _} (λ r. P r.2) (leb n total) (keep k w p) p)

-- What holds of the maps of sessions, whatever the Streamer does to them for a chunk or an event.
pub record Kept {T : Type 0} (api : StreamingApi T) (now : Timestamp)
    (P : List (ℕ × Session) → List (ℕ × T) → Type 0) : Type 0 where
  pub of_prepare :
      (env : Env) (rate : ℕ) (cs : List (ℕ × Session)) (ts : List (ℕ × T))
      → rate ≢ 0
      → P cs ts
      → P (update_all (Lifecycle.prepare env rate) cs) ts
  pub of_stop :
      (env : Env) (cs : List (ℕ × Session)) (ts : List (ℕ × T))
      → P cs ts
      → P (update_all (Lifecycle.stop env) cs) (update_all api.stop ts)
  pub of_give :
      (env : Env) (c : Chunk) (k : ℕ) (w : Sessions api now)
      → P w.0 w.1
      → P (give api now env c k w).1.0 (give api now env c k w).1.1

module _ {T : Type 0} {P : List (ℕ × Session) → List (ℕ × T) → Type 0} (api : StreamingApi T)
    (now : Timestamp) (kept : Kept api now P) where
  abbrev pub Holds : Streamer T → Type 0
  Holds s = P s.command_sessions s.streaming_sessions

  abbrev HoldsOf : Bool × Streamer T → Type 0
  HoldsOf r = Holds r.1

  preparing-Holds :
      (s : Streamer T) → s.sampling_rate ≢ 0 → Holds s → Holds (state_change_to_preparing now s)
  unfolding state_change_to_preparing
  preparing-Holds s r a =
      kept.of_prepare _ s.sampling_rate s.command_sessions s.streaming_sessions r a

  stopped-Holds : (s : Streamer T) → Holds s → Holds (state_change_to_stopped api now s)
  unfolding state_change_to_stopped
  stopped-Holds s a = kept.of_stop _ s.command_sessions s.streaming_sessions a

  buffering-Holds : (s : Streamer T) → Holds s → Holds (state_change_to_buffering now s)
  unfolding state_change_to_buffering
  buffering-Holds s a = a

  playing-Holds : (s : Streamer T) → Holds s → Holds (state_change_to_playing s)
  unfolding state_change_to_playing
  playing-Holds s a = a

  respond-Holds :
      (st : State) (e : Event) (s : Streamer T)
      → (e ≡ Event.prepare → s.sampling_rate ≢ 0)
      → Holds s
      → Holds (respond api now s st e).1
  respond-Holds State.started Event.start s r a = a
  respond-Holds State.preparing Event.start s r a = a
  respond-Holds State.buffering Event.start s r a = a
  respond-Holds State.playing Event.start s r a = a
  respond-Holds State.draining Event.start s r a = a
  respond-Holds State.stopped Event.start s r a = a
  respond-Holds State.started Event.prepare s r a = preparing-Holds s (r refl) a
  respond-Holds State.preparing Event.buffer s r a =
      if_intro HoldsOf (is_ready_to_buffer now s) (buffering-Holds s a) a
  respond-Holds State.buffering Event.play s r a =
      if_intro HoldsOf (is_ready_to_play s) (playing-Holds s a) a
  respond-Holds State.draining Event.flushed s r a = if_intro HoldsOf (not (is_draining s)) a a
  respond-Holds State.started Event.stop s r a = stopped-Holds s a
  respond-Holds State.preparing Event.stop s r a = stopped-Holds s a
  respond-Holds State.buffering Event.stop s r a = stopped-Holds s a
  respond-Holds State.playing Event.stop s r a = stopped-Holds s a
  respond-Holds State.draining Event.stop s r a = stopped-Holds s a
  respond-Holds _ _ s r a = a

  pub fire-Holds :
      (e : Event) (s : Streamer T)
      → (e ≡ Event.prepare → s.sampling_rate ≢ 0)
      → Holds s
      → Holds (fire api now e s).1
  fire-Holds e s r a = rw (fire-respond api now s e) (respond-Holds s.state e s r a)

  stream_chunk-Holds : (c : Chunk) (s : Streamer T) → Holds s → Holds (stream_chunk api now c s).1
  unfolding stream_chunk count_chunk
  stream_chunk-Holds c s a =
      let both =
        deliver_all-keeps (give api now (session_env now s) c) s.streamed_chunks (λ w. P w.0 w.1)
          (kept.of_give (session_env now s) c) s.chunk_sequences
          (s.command_sessions, s.streaming_sessions) a in
      if_intro Holds _ both both

  started-Holds :
      (c : Chunk) (r : Bool) (s : Streamer T) → Holds s → Holds (step_started api now c (r, s)).1
  unfolding step_started
  started-Holds c r s a =
      if_intro HoldsOf (same_state s.state State.started)
        (if_cases HoldsOf (c.sampling_rate == 0) (λ z. a)
          (λ n.
            fire-Holds Event.prepare (record s { sampling_rate = c.sampling_rate })
              (λ e z. ground (arith, n, z)) a))
        a

  buffer-Holds : (r : Bool) (s : Streamer T) → Holds s → Holds (step_preparing api now (r, s)).1
  unfolding step_preparing
  buffer-Holds r s a =
      if_intro HoldsOf (same_state s.state State.preparing)
        (fire-Holds Event.buffer s (λ e. ground (arith, e)) a) a

  play-Holds : (s : Streamer T) → Holds s → Holds (try_to_play api now s)
  unfolding try_to_play
  play-Holds s a =
      if_intro Holds (same_state s.state State.buffering)
        (fire-Holds Event.play s (λ e. ground (arith, e)) a) a

  distribute-Holds :
      (c : Chunk) (r : Bool) (s : Streamer T) → Holds s → Holds (distribute api now c (r, s)).1
  unfolding distribute
  distribute-Holds c r s a =
      if_intro HoldsOf (s.sampling_rate == c.sampling_rate) (stream_chunk-Holds c s a) a

  drain-Holds :
      (c : Chunk) (r : Bool) (s : Streamer T) → Holds s → Holds (drain_at_end api now c (r, s)).1
  unfolding drain_at_end
  drain-Holds c r s a =
      if_intro HoldsOf (not (s.sampling_rate == c.sampling_rate) || c.end_of_stream)
        (fire-Holds Event.drain s (λ e. ground (arith, e)) a) a

  streaming-Holds :
      (c : Chunk) (r : Bool) (s : Streamer T) → Holds s → Holds (step_streaming api now c (r, s)).1
  unfolding step_streaming
  streaming-Holds c r s a =
      if_intro HoldsOf (same_state s.state State.buffering || same_state s.state State.playing)
        (drain-Holds c _ _ (distribute-Holds c r _ (play-Holds s a))) a

  flushed-Holds : (r : Bool) (s : Streamer T) → Holds s → Holds (step_draining api now (r, s)).1
  unfolding step_draining
  flushed-Holds r s a =
      if_intro HoldsOf (same_state s.state State.draining)
        (fire-Holds Event.flushed s (λ e. ground (arith, e)) a) a

  pub chunk-Holds : (c : Chunk) (s : Streamer T) → Holds s → Holds (consume_chunk api now c s).1
  unfolding consume_chunk
  chunk-Holds c s a =
      flushed-Holds _ _ (streaming-Holds c _ _ (buffer-Holds _ _ (started-Holds c false s a)))
