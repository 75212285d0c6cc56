-- ===== src/Proto/CommandSession/Lifecycle/Invariant.antt =====
-- The operations that the Streamer calls, and the invariant of a session.
use slimstream.Base.{
  ℕ, ◌≡◌, ◌≢◌, refl, Bool, true, Option, arith, if◌then◌else◌, if_intro, Bool-cases, inl, inr,
}
use slimstream.Chunk.{Chunk}
use slimstream.Proto.Server.Strm
use slimstream.Proto.Server.Strm.{CommandSelection}
use slimstream.Proto.CommandSession.State.{
  Event, State, Session, Env, same_state, strm, send, close_connection, ignore,
}
use slimstream.Proto.CommandSession.Machine.{fire, state_change_to_preparing}
use slimstream.Proto.CommandSession.Diagram.{react, fire-react}
use slimstream.Proto.CommandSession.Invariant.{Inv, fire-Inv, send-Inv, close_connection-Inv}
use slimstream.Proto.CommandSession.Lifecycle.{
  prepare, set_streaming_session, start, stop, enter_preparing, enter_buffering, enter_playing,
  chunk_consumed, feed_chunk, distribute, consume_chunk, is_running,
}

fire_closing-Inv :
    (env : Env) (e : Event) (s : Session) → Inv s → Inv (fire env e close_connection s).1
fire_closing-Inv env e s v = fire-Inv env e close_connection s v (close_connection-Inv v)

prepare-Inv_at :
    (env : Env) (rate : ℕ) (s : Session) (st : State)
    → s.state ≡ st
    → (st ≢ State.started → rate ≢ 0)
    → Inv s
    → Inv (
        let (done, s') = react env ignore (record s { sampling_rate = rate }) st Event.prepare in
        if done then s' else record s' { sampling_rate = s.sampling_rate })
unfolding state_change_to_preparing send
prepare-Inv_at env rate s State.started p r v = ground arith
prepare-Inv_at env rate s State.preparing p r v = ground arith
prepare-Inv_at env rate s State.buffering p r v = ground arith
prepare-Inv_at env rate s State.playing p r v = ground arith
prepare-Inv_at env rate s State.draining p r v = ground arith
prepare-Inv_at env rate s State.stopped p r v = ground arith

pub prepare-Inv : (env : Env) (rate : ℕ) (s : Session) → rate ≢ 0 → Inv s → Inv (prepare env rate s)
unfolding prepare
prepare-Inv env rate s r v =
    rw (fire-react env ignore (record s { sampling_rate = rate }) Event.prepare)
      (prepare-Inv_at env rate s s.state refl (λ _. r) v)

pub start-Inv : (env : Env) (s : Session) → Inv s → Inv (start env s)
unfolding start
start-Inv env s v = fire_closing-Inv env Event.start s v

pub stop-Inv : (env : Env) (s : Session) → Inv s → Inv (stop env s)
unfolding stop
stop-Inv env s v =
    if_intro Inv (is_running s) (fire-Inv env Event.stop ignore _ (stopping s v) (stopping s v)) v
  where
    stopping :
        (s : Session)
        → Inv s
        → Inv (
            if same_state s.state State.started
            then s
            else send (strm (Strm.make CommandSelection.stop)) s)
    stopping s v = if_intro Inv (same_state s.state State.started) v (send-Inv _ v)

pub set_streaming_session-Inv :
    (k : Option ℕ) (s : Session) → Inv s → Inv (set_streaming_session k s)
unfolding set_streaming_session
set_streaming_session-Inv k s v = ground arith

-- In `started` the guard refuses a rate of 0, and the old rate is restored.
prepare_started-Inv :
    (env : Env) (rate : ℕ) (s : Session)
    → s.state ≡ State.started
    → Inv s
    → Inv (prepare env rate s)
unfolding prepare
prepare_started-Inv env rate s p v =
    rw (fire-react env ignore (record s { sampling_rate = rate }) Event.prepare)
      (prepare-Inv_at env rate s s.state refl (λ n. absurd (n p)) v)

same_state_started : (st : State) → same_state st State.started ≡ true → st ≡ State.started
same_state_started st h = ground arith

enter_preparing-Inv : (env : Env) (s : Session) → Inv s → Inv (enter_preparing env s)
unfolding enter_preparing
enter_preparing-Inv env s v = elim (Bool-cases (same_state s.state State.started)) [
  | inl y ↦
      rw y (prepare_started-Inv env env.streamer_sampling_rate s (same_state_started s.state y) v)
  | inr n ↦ rw n v
]

enter_buffering-Inv : (env : Env) (s : Session) → Inv s → Inv (enter_buffering env s)
unfolding enter_buffering
enter_buffering-Inv env s v = if_intro Inv _ (fire_closing-Inv env Event.buffer s v) v

enter_playing-Inv : (env : Env) (s : Session) → Inv s → Inv (enter_playing env s)
unfolding enter_playing
enter_playing-Inv env s v = if_intro Inv _ (fire_closing-Inv env Event.play s v) v

stamp-Inv :
    (c : Chunk) (s : Session)
    → Inv s
    → Inv (record s {
      last_chunk_timestamp = c.timestamp;
      last_chunk_captured_frames = c.captured_frames;
    })
stamp-Inv c s v = ground arith

chunk_consumed-Inv : (env : Env) (c : Chunk) (s : Session) → Inv s → Inv (chunk_consumed env c s)
unfolding chunk_consumed
chunk_consumed-Inv env c s v =
    stamp-Inv c _ (if_intro Inv c.end_of_stream (fire_closing-Inv env Event.drain s v) v)

distribute-Inv :
    (env : Env) (feed : ℕ → Bool) (c : Chunk) (s : Session)
    → Inv s
    → Inv (distribute env feed c s).1
unfolding distribute
distribute-Inv env feed c s v =
    if_intro {A = Bool × Session} (λ r. Inv r.1) _
      (if_intro {A = Bool × Session} (λ r. Inv r.1) (feed_chunk feed (enter_playing env s))
        (chunk_consumed-Inv env c _ (enter_playing-Inv env s v)) (enter_playing-Inv env s v))
      v

-- For a sound session, any surroundings, any answer of the streaming session and any chunk: the session
-- is sound after `consume_chunk`, whether the chunk was consumed or not.
pub consume_chunk-Inv :
    (env : Env) (feed : ℕ → Bool) (c : Chunk) (s : Session)
    → Inv s
    → Inv (consume_chunk env feed c s).1
unfolding consume_chunk
consume_chunk-Inv env feed c s v =
    distribute-Inv env feed c _ (enter_buffering-Inv env _ (enter_preparing-Inv env s v))
