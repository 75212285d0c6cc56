-- ===== src/Proto/CommandSession/Handlers.antt =====
-- The handlers of the client's commands and of its STAT events.
pub mod Invariant
pub mod Faults
use slimstream.Base.{
  ℕ, suc, ◌+◌, ◌-◌, ◌*◌, ◌/◌, ◌%◌, ◌^◌, Bool, true, false, not, ◌&&◌, ◌||◌, Option, none, some,
  List, [], ◌∷◌, length, get_elem?, set, leb, ltb, ◌==◌, if◌then◌else◌,
}
use slimstream.Base.Int.{ℤ, pos, ◌+ℤ◌, ◌-ℤ◌, ◌*ℤ◌, tdiv, abs}
use slimstream.Exception.{Outcome, done, fault, ◌>>=◌, ◌>>◌}
use slimstream.Util.Time.{Timestamp, Duration, elapsed, of_duration}
use slimstream.Proto.Wire.{Bytes, same_bytes}
use slimstream.Proto.Server.Strm
use slimstream.Proto.Server.Strm.{CommandSelection}
use slimstream.Proto.Server.Fixed.{DeviceId}
use slimstream.Proto.Client.Inbound.{message_size}
use slimstream.Proto.Client.Commands.{
  Command, dsco, helo, resp, setd, stat, deserialize, convert_helo, Stat, convert_stat,
}
use slimstream.Proto.CommandSession.State.{
  Event, State, same_state, ProbeValues, Probes, blank_probe, Session, Env, strm, aude, audg,
  post_ping, start_ping_timer, emit, send, close_connection, ignore,
}
use slimstream.Proto.CommandSession.State
use slimstream.Proto.CommandSession.Machine.{fire, has_value, value_or}
use slimstream.Proto.CommandSession.Probes.{
  size, push_back, clear, get_accurate_duration_index, get_latency_mean_probe,
}

-- A write of `probes[index]`, where the element is found; out of the vector's elements there is
-- nothing.
unfoldable pub put_probe :
    ℕ → (ProbeValues → ProbeValues) → Session → Option ProbeValues → Outcome Session
put_probe index f s none = fault
put_probe index f s (some p) = done (record s {
  probes = record { elements = set s.probes.elements index (f p); capacity = s.probes.capacity };
})

abbrev pub set_probe : ℕ → (ProbeValues → ProbeValues) → Session → Outcome Session
set_probe index f s = put_probe index f s (get_elem? s.probes.elements index)

-- the gain of a Time command carries the probe's number, in the order of the host
abbrev pub ping_command : ℕ → Strm.Strm
ping_command index = record (Strm.make CommandSelection.time) { replay_gain = (index + 1) % 2 ^ 32 }

unfoldable pub ping : Env → ℕ → Session → Outcome Session
ping env index s =
    set_probe index (λ p. record p { send_timestamp = env.now })
      (record (send (strm (ping_command index)) s) { measuring_latency = true })

-- the handler of the ping timer
unfoldable pub ping_timer_fired : Env → Session → Outcome Session
ping_timer_fired env s =
    let s' = record s { ping_timer = false; probes = push_back s.probes (blank_probe env.now) } in
    ping env (size s'.probes - 1) s'

abbrev pub start_timer : ℕ → Session → Session
start_timer seconds s =
    if s.ping_timer then s else emit (start_ping_timer seconds) (record s { ping_timer = true })

-- the commands that answer the first HELO, and the timer of the first ping
unfoldable pub greet : Bytes → Session → Session
greet m s = send (strm (Strm.make CommandSelection.stop)) (
    start_timer 1 (
      send (audg s.gain) (
        send (aude true true) (
          send (State.setd DeviceId.squeezebox3) (
            send (State.setd DeviceId.request_name)
              (record s { command_helo = some (convert_helo m) }))))))

-- what the first HELO sets off
unfoldable pub shake_hands : Env → Bytes → Session → Session
shake_hands env m s = (fire env Event.handshake close_connection (greet m s)).1

unfoldable pub on_dsco : Session → Outcome (ℕ × Session)
on_dsco s = do m ← deserialize dsco s.command_ring_buffer; done (message_size m, s)

unfoldable pub on_helo : Env → Session → Outcome (ℕ × Session)
on_helo env s = do
  m ← deserialize helo s.command_ring_buffer
  done (message_size m, if has_value s.command_helo then s else shake_hands env m s)

unfoldable pub on_resp : Session → Outcome (ℕ × Session)
on_resp s = do m ← deserialize resp s.command_ring_buffer; done (message_size m, s)

unfoldable pub on_setd : Session → Outcome (ℕ × Session)
on_setd s = do m ← deserialize setd s.command_ring_buffer; done (message_size m, s)

-- `100 * fullness / bufferSize` of the two DEBUG log lines, taken to be evaluated; the quotient is only
-- printed
abbrev pub fullness_percent : Stat → Outcome ℕ
fullness_percent st =
    if st.stream_buffer_size == 0
    then fault
    else done (100 * st.stream_buffer_fullness % 2 ^ 32 / st.stream_buffer_size)

unfoldable pub on_stmf : Env → Session → Session
on_stmf env s = (fire env Event.flushed ignore s).1

unfoldable pub on_stml : Stat → Session → Outcome Session
on_stml st s = do _ ← fullness_percent st; done (record s { client_buffer_is_ready = true })

unfoldable pub on_stms : Stat → Session → Outcome Session
on_stms st s = do _ ← fullness_percent st; done s

unfoldable pub on_stmu : Session → Session
on_stmu s =
    if same_state s.state State.draining then send (strm (Strm.make CommandSelection.stop)) s else s

-- `(old * 8 + new * 2) / 10`
unfoldable pub smooth : Option Duration → Duration → Duration
unfolding ◌*ℤ◌ ◌+ℤ◌ tdiv
smooth old new = tdiv (value_or old new *ℤ pos 8 +ℤ new *ℤ pos 2) 10

-- `streamer.calculateDuration(frames, microseconds)`
unfoldable pub calculate_duration : Env → ℕ → Duration
calculate_duration env frames =
    if env.streamer_sampling_rate == 0
    then pos 0
    else pos (frames * 1000000 / env.streamer_sampling_rate)

-- the part of `onSTMt` that follows the playback drift
unfoldable pub update_drift : Env → ℕ → Session → Session
unfolding elapsed abs ◌-ℤ◌ ◌+ℤ◌ calculate_duration
update_drift env index s = elim (get_elem? s.probes.elements index) [
  | none ↦ s
  | some p ↦
      let playback_diff =
        abs
          (p.client_duration -ℤ p.latency -ℤ calculate_duration env s.last_chunk_captured_frames) in
      let time_diff = abs (elapsed p.send_timestamp s.last_chunk_timestamp) in
      if has_value s.playback_drift_base
      then s
      else record s { playback_drift_base = some (playback_diff +ℤ time_diff) }
]

-- a number of probe from which the accurate durations are not skipped
abbrev pub is_settled : Option ℕ → Bool
is_settled i = leb 3 (value_or i 0)

unfoldable pub accurate_index : Session → Option ℕ
accurate_index s =
    if size s.probes == s.probes.capacity && same_state s.state State.playing
    then get_accurate_duration_index s.probes
    else none

-- the condition under which the samples are evaluated
unfoldable pub is_measured : Session → Bool
is_measured s =
    not (same_state s.state State.playing) && size s.probes == s.probes.capacity
    || same_state s.state State.playing && is_settled (accurate_index s)

unfoldable pub evaluate_probes : Env → Session → Session
evaluate_probes env s =
    let mean = get_latency_mean_probe env.now s.probes in
    let offset = elapsed mean.send_timestamp mean.client_timestamp in
    let s' = record s {
      time_offset = some (smooth s.time_offset offset);
      latency = some (smooth s.latency mean.latency);
    } in
    let i = accurate_index s in
    let s'' = if is_settled i then update_drift env (value_or i 0) s' else s' in
    record s'' { probes = clear s''.probes }

-- what follows the update of the probe: evaluate, probe once more, or repeat a spoilt probe
unfoldable pub continue_probing : Env → ℕ → Session → Session
continue_probing env index s =
    if s.measuring_latency
    then (if is_measured s
        then start_timer 5 (evaluate_probes env s)
        else (let p = push_back s.probes (blank_probe env.now) in
            emit (post_ping (size p - 1)) (record s { probes = p })))
    else emit (post_ping index) s

-- the values that a reply gives to its probe
unfoldable pub reply_values : Stat → Timestamp → ProbeValues → ProbeValues
unfolding of_duration elapsed tdiv
reply_values st received p = record p {
  client_timestamp = of_duration (pos (st.jiffies * 1000));
  client_duration = pos (st.elapsed_milliseconds * 1000);
  latency = tdiv (elapsed received p.send_timestamp) 2;
}

unfoldable pub on_stmt : Env → Stat → Timestamp → Session → Outcome Session
on_stmt env st received s =
    if st.server_timestamp == 0 || ltb s.probes.capacity st.server_timestamp then done s else do
      s' ← set_probe (st.server_timestamp - 1) (reply_values st received) s
      done (continue_probing env (st.server_timestamp - 1) s')

-- the events that have a handler
pub data StatEvent : Type 0 where
  stmc stmd stmf stml stmo stmp stmr stms stmt stmu : StatEvent

abbrev stm : ℕ → Bytes
stm c = b'S' ∷ b'T' ∷ b'M' ∷ c ∷ []

unfoldable pub find_event_handler : Bytes → Option StatEvent
unfolding same_bytes
find_event_handler e =
    if same_bytes e (stm b'c')
    then some stmc
    else if same_bytes e (stm b'd')
    then some stmd
    else if same_bytes e (stm b'f')
    then some stmf
    else if same_bytes e (stm b'l')
    then some stml
    else if same_bytes e (stm b'o')
    then some stmo
    else if same_bytes e (stm b'p')
    then some stmp
    else if same_bytes e (stm b'r')
    then some stmr
    else if same_bytes e (stm b's')
    then some stms
    else if same_bytes e (stm b't')
    then some stmt
    else if same_bytes e (stm b'u')
    then some stmu
    else none

abbrev pub handle_event : Env → StatEvent → Stat → Timestamp → Session → Outcome Session
handle_event env stmf st received s = done (on_stmf env s)
handle_event env stml st received s = on_stml st s
handle_event env stms st received s = on_stms st s
handle_event env stmt st received s = on_stmt env st received s
handle_event env stmu st received s = done (on_stmu s)
handle_event env _ st received s = done s

-- any event but STMt spoils a measurement
abbrev pub spoil_unless_stmt : StatEvent → Session → Session
spoil_unless_stmt stmt s = s
spoil_unless_stmt _ s = record s { measuring_latency = false }

abbrev pub dispatch_event : Env → Stat → Timestamp → Session → Option StatEvent → Outcome Session
dispatch_event env st received s none = done s
dispatch_event env st received s (some e) = handle_event env e st received (spoil_unless_stmt e s)

unfoldable pub on_stat_event : Env → Stat → Timestamp → Session → Outcome Session
on_stat_event env st received s = dispatch_event env st received s (find_event_handler st.event)

unfoldable pub on_stat : Env → Timestamp → Session → Outcome (ℕ × Session)
on_stat env received s = do
  m ← deserialize stat s.command_ring_buffer
  s' ← on_stat_event env (convert_stat m) received s
  done (message_size m, s')
