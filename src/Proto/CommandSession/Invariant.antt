-- ===== src/Proto/CommandSession/Invariant.antt =====
-- What holds of a session between two of its operations.
use slimstream.Base.{
  ℕ, ◌≤◌, ◌≡◌, ◌≢◌, refl, Bool, true, false, List, [], ◌∷◌, Option, arith, length, replicate,
}
use slimstream.Util.Time.{Timestamp}
use slimstream.Proto.Wire.{Bytes}
use slimstream.Util.Ring.{get_capacity}
use slimstream.Util.Ring.Inv.{IsValid, make-IsValid}
use slimstream.Proto.Server.Strm.{FormatSelection}
use slimstream.Proto.CommandSession.State.{
  Event, State, Session, Env, Effect, Outgoing, write, strm, send, close_connection, ring_capacity,
  make_session,
}
use slimstream.Proto.CommandSession.Machine.{
  fire, state_change_to_preparing, state_change_to_playing, state_change_to_stopped,
}
use slimstream.Proto.CommandSession.Diagram.{react, fire-react}

-- the command is a Time ping
abbrev pub IsPing : Outgoing → Type 0
IsPing (strm c) = c.command ≡ b't'
IsPing _ = ⊥

-- The last thing written is a Time ping.
abbrev pub LastIsPing : List Effect → Type 0
LastIsPing [] = ⊥
LastIsPing (write c ∷ es) = IsPing c
LastIsPing (_ ∷ es) = LastIsPing es

-- a stream is announced to the client, and not yet ended
abbrev pub is_streaming : State → Bool
is_streaming State.preparing = true
is_streaming State.buffering = true
is_streaming State.playing = true
is_streaming _ = false

pub record Inv (s : Session) : Type 0 where
  pub ring : IsValid s.command_ring_buffer
  pub ring_room : get_capacity s.command_ring_buffer ≡ ring_capacity
  pub rated : is_streaming s.state ≡ true → s.sampling_rate ≢ 0
  pub unrated : s.state ≡ State.stopped → s.sampling_rate ≡ 0
  pub measured : s.measuring_latency ≡ true → LastIsPing s.effects
  pub probes_fit : length s.probes.elements ≤ s.probes.capacity

pub send-Inv : {s : Session} (c : Outgoing) → Inv s → Inv (send c s)
unfolding send
send-Inv c v = ground arith

pub close_connection-Inv : {s : Session} → Inv s → Inv (close_connection s)
unfolding close_connection
close_connection-Inv v = ground arith

react-Inv :
    (env : Env) (h : Session → Session) (s : Session) (st : State) (e : Event)
    → s.state ≡ st
    → Inv s
    → Inv (h s)
    → Inv (react env h s st e).1
unfolding state_change_to_preparing state_change_to_playing state_change_to_stopped send
react-Inv env h s State.started Event.start p v w = ground arith
react-Inv env h s State.preparing Event.start p v w = ground arith
react-Inv env h s State.buffering Event.start p v w = ground arith
react-Inv env h s State.playing Event.start p v w = ground arith
react-Inv env h s State.draining Event.start p v w = ground arith
react-Inv env h s State.stopped Event.start p v w = ground arith
react-Inv env h s _ _ p v w = ground arith

-- No event breaks the invariant, if its error handler does not.
pub fire-Inv :
    (env : Env) (e : Event) (h : Session → Session) (s : Session)
    → Inv s
    → Inv (h s)
    → Inv (fire env e h s).1
fire-Inv env e h s v w = rw (fire-react env h s e) (react-Inv env h s s.state e refl v w)

react-ring :
    (env : Env) (h : Session → Session) (s : Session) (st : State) (e : Event)
    → (h s).command_ring_buffer ≡ s.command_ring_buffer
    → (react env h s st e).1.command_ring_buffer ≡ s.command_ring_buffer
unfolding state_change_to_preparing state_change_to_playing state_change_to_stopped send
react-ring env h s State.started Event.start k = ground arith
react-ring env h s State.preparing Event.start k = ground arith
react-ring env h s State.buffering Event.start k = ground arith
react-ring env h s State.playing Event.start k = ground arith
react-ring env h s State.draining Event.start k = ground arith
react-ring env h s State.stopped Event.start k = ground arith
react-ring env h s _ _ k = ground arith

pub ring-fire :
    (env : Env) (e : Event) (h : Session → Session) (s : Session)
    → (h s).command_ring_buffer ≡ s.command_ring_buffer
    → (fire env e h s).1.command_ring_buffer ≡ s.command_ring_buffer
ring-fire env e h s k = rw (fire-react env h s e) (react-ring env h s s.state e k)

-- A new session is sound, whatever it is made of.
pub make_session-Inv :
    (now : Timestamp) (id : Bytes) (port : ℕ) (format : FormatSelection) (gain : Option ℕ)
    → Inv (make_session now id port format gain)
unfolding make_session
make_session-Inv now id port format gain = record {
  ring = make-IsValid (replicate ring_capacity 0) (omega arith);
  ring_room = refl;
  rated = λ h. ground (arith, h);
  unrated = λ h. refl;
  measured = λ h. ground (arith, h);
  probes_fit = omega arith;
}
