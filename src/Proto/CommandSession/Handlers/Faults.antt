-- ===== src/Proto/CommandSession/Handlers/Faults.antt =====
-- When the handling of a STAT command is undefined.
use slimstream.Base.{
  ◌-◌, ◌≤◌, ◌<◌, ◌≡◌, ◌↔◌, refl, ◌||◌, Option, none, some, arith, length, get_elem?, get_elem?-none,
  get_elem?-some, if_cases, ltb, ◌==◌,
}
use slimstream.Exception.{done, fault, ◌>>=◌}
use slimstream.Util.Time.{Timestamp}
use slimstream.Proto.Client.Commands.{Stat}
use slimstream.Proto.CommandSession.State.{Session, Env, ProbeValues}
use slimstream.Proto.CommandSession.Handlers.{
  put_probe, on_stml, on_stms, on_stmt, reply_values, continue_probing, find_event_handler,
  dispatch_event, on_stat_event, StatEvent, stml, stms, stmt,
}

-- a buffer of size 0 for STMl and STMs; for STMt the number of a probe that is within the vector's
-- capacity, but past its size
abbrev pub Faulty : Stat → Session → Option StatEvent → Type 0
Faulty st s (some stml) = st.stream_buffer_size ≡ 0
Faulty st s (some stms) = st.stream_buffer_size ≡ 0
Faulty st s (some stmt) =
    (length s.probes.elements < st.server_timestamp) × (st.server_timestamp ≤ s.probes.capacity)
Faulty st s _ = ⊥

on_stml-fault : (st : Stat) (s : Session) → (on_stml st s ≡ fault) ↔ (st.stream_buffer_size ≡ 0)
unfolding on_stml
on_stml-fault st s = ground arith

on_stms-fault : (st : Stat) (s : Session) → (on_stms st s ≡ fault) ↔ (st.stream_buffer_size ≡ 0)
unfolding on_stms
on_stms-fault st s = ground arith

-- with the probe found, or not
reply_at-fault :
    (env : Env) (st : Stat) (t : Timestamp) (s : Session) (o : Option ProbeValues)
    → get_elem? s.probes.elements (st.server_timestamp - 1) ≡ o
    → ((put_probe (st.server_timestamp - 1) (reply_values st t) s o >>= λ s'.
          done (continue_probing env (st.server_timestamp - 1) s'))
        ≡ fault)
      ↔ (length s.probes.elements ≤ st.server_timestamp - 1)
unfolding put_probe
reply_at-fault env st t s none h =
    ground (arith, get_elem?-none s.probes.elements (st.server_timestamp - 1) h)
reply_at-fault env st t s (some p) h =
    ground (arith, get_elem?-some s.probes.elements (st.server_timestamp - 1) h)

on_stmt-fault :
    (env : Env) (st : Stat) (t : Timestamp) (s : Session)
    → (on_stmt env st t s ≡ fault) ↔ (
        (length s.probes.elements < st.server_timestamp)
        × (st.server_timestamp ≤ s.probes.capacity))
unfolding on_stmt
on_stmt-fault env st t s =
    let at =
      reply_at-fault env st t s (get_elem? s.probes.elements (st.server_timestamp - 1)) refl in
    if_cases
      (λ o. (o ≡ fault) ↔ (
        (length s.probes.elements < st.server_timestamp)
        × (st.server_timestamp ≤ s.probes.capacity)))
      (st.server_timestamp == 0 || ltb s.probes.capacity st.server_timestamp)
      (λ y. ground (arith, y)) (λ n. ground (arith, n, at))

dispatch_event-fault :
    (env : Env) (st : Stat) (t : Timestamp) (s : Session) (o : Option StatEvent)
    → (dispatch_event env st t s o ≡ fault) ↔ Faulty st s o
dispatch_event-fault env st t s none = ground arith
dispatch_event-fault env st t s (some stml) = on_stml-fault st _
dispatch_event-fault env st t s (some stms) = on_stms-fault st _
dispatch_event-fault env st t s (some stmt) = on_stmt-fault env st t s
dispatch_event-fault env st t s _ = ground arith

-- The handling of a STAT event is undefined just when it is STMl or STMs with a buffer of size 0, or
-- STMt with the number of a probe past the size of the vector of probes and within its capacity.
pub on_stat_event-fault :
    (env : Env) (st : Stat) (t : Timestamp) (s : Session)
    → (on_stat_event env st t s ≡ fault) ↔ Faulty st s (find_event_handler st.event)
unfolding on_stat_event
on_stat_event-fault env st t s = dispatch_event-fault env st t s (find_event_handler st.event)
