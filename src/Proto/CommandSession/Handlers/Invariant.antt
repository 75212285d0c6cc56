-- ===== src/Proto/CommandSession/Handlers/Invariant.antt =====
-- The handlers, the invariant of a session and its ring of received bytes.
use slimstream.Base.{
  ℕ, ◌≡◌, ◌∙◌, true, false, Option, none, some, [], ◌∷◌, arith, length-set, length-append, if_intro,
  Bool-cases, inl, inr, ◌==◌,
}
use slimstream.Exception.{Outcome, done, fault, ◌>>=◌}
use slimstream.Util.Ring.{Ring}
use slimstream.Util.Time.{Timestamp, Duration}
use slimstream.Proto.Wire.{Bytes}
use slimstream.Proto.Server.Strm.{CommandSelection, command-make}
use slimstream.Proto.Client.Commands.{Stat, convert_helo}
use slimstream.Proto.CommandSession.State
use slimstream.Proto.CommandSession.State.{
  Event, State, Session, Env, ProbeValues, Probes, same_state, blank_probe, strm, aude, audg, send,
  emit, post_ping, close_connection, ignore,
}
use slimstream.Proto.CommandSession.Machine.{fire}
use slimstream.Proto.CommandSession.Probes.{push_back, clear}
use slimstream.Proto.CommandSession.Invariant.{Inv, fire-Inv, ring-fire}
use slimstream.Proto.CommandSession.Handlers.{
  put_probe, ping_command, ping, ping_timer_fired, start_timer, greet, shake_hands, on_stmf,
  on_stml, on_stms, on_stmu, on_stmt, update_drift, evaluate_probes, continue_probing, is_measured,
  is_settled, accurate_index, reply_values, handle_event, spoil_unless_stmt, dispatch_event,
  on_stat_event, StatEvent, stmf, stml, stms, stmt, stmu,
}

-- The session is sound, and holds the ring `r`.
pub record Keeps (r : Ring ℕ) (s : Session) : Type 0 where
  pub inv : Inv s
  pub same_ring : s.command_ring_buffer ≡ r

-- A handler that ends leaves such a session; it throws nothing.
pub data KeepsAfter (r : Ring ℕ) : Outcome Session → Type 0 where
  after : {s : Session} → Keeps r s → KeepsAfter r (done s)
  undefined : KeepsAfter r fault

pub send-Keeps : {r : Ring ℕ} {s : Session} (c : State.Outgoing) → Keeps r s → Keeps r (send c s)
unfolding send
send-Keeps c k = ground arith

pub fire-Keeps :
    {r : Ring ℕ} (env : Env) (e : Event) (h : Session → Session) (s : Session)
    → Keeps r s
    → Keeps r (h s)
    → Keeps r (fire env e h s).1
fire-Keeps env e h s k l = record {
  inv = fire-Inv env e h s k.inv l.inv;
  same_ring = ring-fire env e h s (cc (k.same_ring, l.same_ring)) ∙ k.same_ring;
}

put_probe-KeepsAfter :
    {r : Ring ℕ} (i : ℕ) (f : ProbeValues → ProbeValues) (s : Session) (o : Option ProbeValues)
    → Keeps r s
    → KeepsAfter r (put_probe i f s o)
unfolding put_probe
put_probe-KeepsAfter i f s none k = undefined
put_probe-KeepsAfter i f s (some p) k = after (ground (arith, length-set s.probes.elements i (f p)))

measuring-Keeps :
    {r : Ring ℕ} (i : ℕ) (s : Session)
    → Keeps r s
    → Keeps r (record (send (strm (ping_command i)) s) { measuring_latency = true })
unfolding send
measuring-Keeps i s k = ground (arith, command-make CommandSelection.time)

-- A ping is the last thing written when the measurement starts.
pub ping-KeepsAfter :
    {r : Ring ℕ} (env : Env) (i : ℕ) (s : Session) → Keeps r s → KeepsAfter r (ping env i s)
unfolding ping
ping-KeepsAfter env i s k = put_probe-KeepsAfter i _ _ _ (measuring-Keeps i s k)

push_probe-Keeps :
    {r : Ring ℕ} (v : ProbeValues) (s : Session)
    → Keeps r s
    → Keeps r (record s { probes = push_back s.probes v })
unfolding push_back
push_probe-Keeps v s k = ground (arith, length-append s.probes.elements (v ∷ []))

-- For a sound session: the handler of the ping timer throws nothing, and it leaves a sound session with
-- the ring of received bytes as it was, or is undefined.
pub ping_timer_fired-KeepsAfter :
    {r : Ring ℕ} (env : Env) (s : Session) → Keeps r s → KeepsAfter r (ping_timer_fired env s)
unfolding ping_timer_fired
ping_timer_fired-KeepsAfter env s k =
    ping-KeepsAfter env _ _ (push_probe-Keeps (blank_probe env.now) _ (timer_off k))
  where
    timer_off : {r : Ring ℕ} → Keeps r s → Keeps r (record s { ping_timer = false })
    timer_off k = ground arith

start_timer-Keeps :
    {r : Ring ℕ} (seconds : ℕ) (s : Session) → Keeps r s → Keeps r (start_timer seconds s)
start_timer-Keeps seconds s k = ground arith

closing-Keeps : {r : Ring ℕ} (s : Session) → Keeps r s → Keeps r (close_connection s)
unfolding close_connection
closing-Keeps s k = ground arith

greet-Keeps : {r : Ring ℕ} (m : Bytes) (s : Session) → Keeps r s → Keeps r (greet m s)
unfolding greet
greet-Keeps {r} m s k =
    send-Keeps _
      (start_timer-Keeps 1 _ (send-Keeps _ (send-Keeps _ (send-Keeps _ (send-Keeps _ known)))))
  where
    known : Keeps r (record s { command_helo = some (convert_helo m) })
    known = ground arith

pub shake_hands-Keeps :
    {r : Ring ℕ} (env : Env) (m : Bytes) (s : Session) → Keeps r s → Keeps r (shake_hands env m s)
unfolding shake_hands
shake_hands-Keeps env m s k =
    fire-Keeps env Event.handshake _ _ (greet-Keeps m s k) (closing-Keeps _ (greet-Keeps m s k))

update_drift-Keeps :
    {r : Ring ℕ} (env : Env) (i : ℕ) (s : Session) → Keeps r s → Keeps r (update_drift env i s)
unfolding update_drift
update_drift-Keeps env i s k = ground arith

clear_probes-Keeps :
    {r : Ring ℕ} (s : Session) → Keeps r s → Keeps r (record s { probes = clear s.probes })
unfolding clear
clear_probes-Keeps s k = ground arith

evaluate_probes-Keeps :
    {r : Ring ℕ} (env : Env) (s : Session) → Keeps r s → Keeps r (evaluate_probes env s)
unfolding evaluate_probes
evaluate_probes-Keeps {r} env s k = clear_probes-Keeps _ (
    if_intro (Keeps r) (is_settled (accurate_index s))
      (update_drift-Keeps env _ _ (adjusted s _ _ k)) (adjusted s _ _ k))
  where
    adjusted :
        (s : Session) (a b : Option Duration)
        → Keeps r s
        → Keeps r (record s { time_offset = a; latency = b })
    adjusted s a b k = ground arith

post-Keeps : {r : Ring ℕ} (i : ℕ) (s : Session) → Keeps r s → Keeps r (emit (post_ping i) s)
post-Keeps i s k = ground arith

continue_probing-Keeps :
    {r : Ring ℕ} (env : Env) (i : ℕ) (s : Session) → Keeps r s → Keeps r (continue_probing env i s)
unfolding continue_probing
continue_probing-Keeps {r} env i s k =
    if_intro (Keeps r) s.measuring_latency
      (if_intro (Keeps r) (is_measured s) (start_timer-Keeps 5 _ (evaluate_probes-Keeps env s k))
        (post-Keeps _ _ (push_probe-Keeps (blank_probe env.now) s k)))
      (post-Keeps i s k)

probed-KeepsAfter :
    {r : Ring ℕ} {o : Outcome Session} (env : Env) (i : ℕ)
    → KeepsAfter r o
    → KeepsAfter r (o >>= λ s'. done (continue_probing env i s'))
probed-KeepsAfter env i (after k) = after (continue_probing-Keeps env i _ k)
probed-KeepsAfter env i undefined = undefined

pub on_stmt-KeepsAfter :
    {r : Ring ℕ} (env : Env) (st : Stat) (received : Timestamp) (s : Session)
    → Keeps r s
    → KeepsAfter r (on_stmt env st received s)
unfolding on_stmt
on_stmt-KeepsAfter {r} env st received s k =
    if_intro (KeepsAfter r) _ (after k)
      (probed-KeepsAfter env _ (put_probe-KeepsAfter _ (reply_values st received) s _ k))

pub on_stml-KeepsAfter :
    {r : Ring ℕ} (st : Stat) (s : Session) → Keeps r s → KeepsAfter r (on_stml st s)
unfolding on_stml
on_stml-KeepsAfter {r} st s k = elim (Bool-cases (st.stream_buffer_size == 0)) [
  | inl y ↦ rw y undefined
  | inr n ↦ rw n (after (ready k))
]
  where
    ready : Keeps r s → Keeps r (record s { client_buffer_is_ready = true })
    ready k = ground arith

pub on_stms-KeepsAfter :
    {r : Ring ℕ} (st : Stat) (s : Session) → Keeps r s → KeepsAfter r (on_stms st s)
unfolding on_stms
on_stms-KeepsAfter {r} st s k = elim (Bool-cases (st.stream_buffer_size == 0)) [
  | inl y ↦ rw y undefined
  | inr n ↦ rw n (after k)
]

on_stmf-Keeps : {r : Ring ℕ} (env : Env) (s : Session) → Keeps r s → Keeps r (on_stmf env s)
unfolding on_stmf
on_stmf-Keeps env s k = fire-Keeps env Event.flushed ignore s k k

on_stmu-Keeps : {r : Ring ℕ} (s : Session) → Keeps r s → Keeps r (on_stmu s)
unfolding on_stmu
on_stmu-Keeps {r} s k = if_intro (Keeps r) _ (send-Keeps _ k) k

spoil_unless_stmt-Keeps :
    {r : Ring ℕ} (e : StatEvent) (s : Session) → Keeps r s → Keeps r (spoil_unless_stmt e s)
spoil_unless_stmt-Keeps stmt s k = k
spoil_unless_stmt-Keeps _ s k = ground arith

handle_event-KeepsAfter :
    {r : Ring ℕ} (env : Env) (e : StatEvent) (st : Stat) (received : Timestamp) (s : Session)
    → Keeps r s
    → KeepsAfter r (handle_event env e st received s)
handle_event-KeepsAfter env stmf st received s k = after (on_stmf-Keeps env s k)
handle_event-KeepsAfter env stml st received s k = on_stml-KeepsAfter st s k
handle_event-KeepsAfter env stms st received s k = on_stms-KeepsAfter st s k
handle_event-KeepsAfter env stmt st received s k = on_stmt-KeepsAfter env st received s k
handle_event-KeepsAfter env stmu st received s k = after (on_stmu-Keeps s k)
handle_event-KeepsAfter env _ st received s k = after k

dispatch_event-KeepsAfter :
    {r : Ring ℕ} (env : Env) (st : Stat) (received : Timestamp) (s : Session) (o : Option StatEvent)
    → Keeps r s
    → KeepsAfter r (dispatch_event env st received s o)
dispatch_event-KeepsAfter env st received s none k = after k
dispatch_event-KeepsAfter env st received s (some e) k =
    handle_event-KeepsAfter env e st received _ (spoil_unless_stmt-Keeps e s k)

-- For a sound session and any STAT event, surroundings and time: the handling of the event throws
-- nothing, and it leaves a sound session with the ring of received bytes as it was, or is undefined.
pub on_stat_event-KeepsAfter :
    {r : Ring ℕ} (env : Env) (st : Stat) (received : Timestamp) (s : Session)
    → Keeps r s
    → KeepsAfter r (on_stat_event env st received s)
unfolding on_stat_event
on_stat_event-KeepsAfter env st received s k = dispatch_event-KeepsAfter env st received s _ k
