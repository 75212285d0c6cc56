-- ===== src/Proto/CommandSession/State.antt =====
-- The state of a CommandSession, and what it does to the world: the commands that it writes, the
-- stop of its connection, and the tasks that it leaves to the processor.
use slimstream.Base.{ℕ, Bool, false, Option, none, List, [], ◌∷◌, ◌==◌, replicate}
use slimstream.Base.Int.{pos}
use slimstream.Util.Ring.{Ring, make}
use slimstream.Util.Time.{Timestamp, Duration}
use slimstream.Proto.Wire.{Bytes}
use slimstream.Proto.Server.Strm.{Strm, FormatSelection}
use slimstream.Proto.Server.Fixed.{DeviceId}
use slimstream.Proto.Client.Commands.{Helo}

pub data Event : Type 0 where
  start handshake prepare buffer play drain flushed stop : Event

pub data State : Type 0 where
  started preparing buffering playing draining stopped : State

-- the enumerators' values, by which `==` compares
abbrev pub event_code : Event → ℕ
event_code Event.start = 0
event_code Event.handshake = 1
event_code Event.prepare = 2
event_code Event.buffer = 3
event_code Event.play = 4
event_code Event.drain = 5
event_code Event.flushed = 6
event_code Event.stop = 7

abbrev pub state_code : State → ℕ
state_code State.started = 0
state_code State.preparing = 1
state_code State.buffering = 2
state_code State.playing = 3
state_code State.draining = 4
state_code State.stopped = 5

abbrev pub same_event : Event → Event → Bool
same_event a b = event_code a == event_code b

abbrev pub same_state : State → State → Bool
same_state a b = state_code a == state_code b

pub record ProbeValues : Type 0 where
  pub send_timestamp : Timestamp
  pub latency : Duration
  pub client_timestamp : Timestamp
  pub client_duration : Duration

-- `ProbeValues{}`: a timestamp starts as the time of its construction
abbrev pub blank_probe : Timestamp → ProbeValues
blank_probe now = record {
  send_timestamp = now;
  latency = pos 0;
  client_timestamp = now;
  client_duration = pos 0;
}

-- the `std::vector` of probes: its elements, and the capacity that it has reserved
pub record Probes : Type 0 where
  pub elements : List ProbeValues
  pub capacity : ℕ

-- the commands that a session sends
pub data Outgoing : Type 0 where
  strm : Strm → Outgoing
  setd : DeviceId → Outgoing
  aude : Bool → Bool → Outgoing
  audg : Option ℕ → Outgoing

pub data Effect : Type 0 where
  write : Outgoing → Effect
  stop_connection : Effect
  post_ping : ℕ → Effect
  start_ping_timer : ℕ → Effect
  -- a copy past the end of a structure
  overflow : Effect

pub record Session : Type 0 where
  pub client_id : Bytes
  pub streaming_port : ℕ
  pub format_selection : FormatSelection
  pub gain : Option ℕ
  pub state : State
  pub sampling_rate : ℕ
  -- the streaming session that is referred to, by its connection
  pub streaming_session : Option ℕ
  pub command_ring_buffer : Ring ℕ
  pub command_helo : Option Helo
  pub ping_timer : Bool
  pub measuring_latency : Bool
  pub latency : Option Duration
  pub time_offset : Option Duration
  pub probes : Probes
  pub playback_drift_base : Option Duration
  pub client_buffer_is_ready : Bool
  pub last_chunk_timestamp : Timestamp
  pub last_chunk_captured_frames : ℕ
  -- newest first
  pub effects : List Effect

-- what a session reads of its Streamer, and the clock
pub record Env : Type 0 where
  pub now : Timestamp
  pub streamer_sampling_rate : ℕ
  pub streamer_is_playing : Bool
  pub playback_start_time : Timestamp

abbrev pub ring_capacity : ℕ
ring_capacity = 2048

abbrev pub probes_total : ℕ
probes_total = 13

-- the constructor, at the time `now`
unfoldable pub make_session : Timestamp → Bytes → ℕ → FormatSelection → Option ℕ → Session
unfolding make
make_session now id port format gain = record {
  client_id = id;
  streaming_port = port;
  format_selection = format;
  gain = gain;
  state = State.stopped;
  sampling_rate = 0;
  streaming_session = none;
  command_ring_buffer = make (replicate ring_capacity 0);
  command_helo = none;
  ping_timer = false;
  measuring_latency = false;
  latency = none;
  time_offset = none;
  probes = record { elements = replicate probes_total (blank_probe now); capacity = probes_total };
  playback_drift_base = none;
  client_buffer_is_ready = false;
  last_chunk_timestamp = now;
  last_chunk_captured_frames = 0;
  effects = [];
}

abbrev pub emit : Effect → Session → Session
emit e s = record s { effects = e ∷ s.effects }

-- `send`
unfoldable pub send : Outgoing → Session → Session
send c s = emit (write c) (record s { measuring_latency = false })

-- the error handlers that close the connection
unfoldable pub close_connection : Session → Session
close_connection s = emit stop_connection s

-- the error handlers that only log
abbrev pub ignore : Session → Session
ignore s = s
