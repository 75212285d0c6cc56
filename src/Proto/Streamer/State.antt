-- ===== src/Proto/Streamer/State.antt =====
-- The state of the Streamer. Its HTTP sessions are known to it by an interface.
use slimstream.Base.{ℕ, ◌+◌, Bool, Option, none, some, List, [], ◌∷◌, ◌==◌, if◌then◌else◌}
use slimstream.Base.Int.{ℤ, pos}
use slimstream.Chunk.{Chunk}
use slimstream.Util.Time.{Timestamp}
use slimstream.Proto.Wire.{Bytes}
use slimstream.Proto.Server.Strm.{FormatSelection}
use slimstream.Proto.CommandSession.State.{Session, Env}

pub data Event : Type 0 where
  start prepare buffer play drain flushed stop : Event

pub data State : Type 0 where
  started preparing buffering playing draining stopped : State

abbrev pub event_code : Event → ℕ
event_code Event.start = 0
event_code Event.prepare = 1
event_code Event.buffer = 2
event_code Event.play = 3
event_code Event.drain = 4
event_code Event.flushed = 5
event_code Event.stop = 6

abbrev pub state_code : State → ℕ
state_code State.started = 0
state_code State.preparing = 1
state_code State.buffering = 2
state_code State.playing = 3
state_code State.draining = 4
state_code State.stopped = 5

abbrev pub same_event : Event → Event → Bool
same_event a b = event_code a == event_code b

abbrev pub same_state : State → State → Bool
same_state a b = state_code a == state_code b

-- What the Streamer calls of a StreamingSession. `make` takes the client's ID and the sampling rate
-- of the encoder; `stop` is less its callback.
pub record StreamingApi (T : Type 0) : Type 0 where
  pub make : Bytes → ℕ → T
  pub client_id : T → Bytes
  pub is_running : T → Bool
  pub start : T → T
  pub on_request : Bytes → T → T
  pub consume_chunk : Chunk → T → Bool × T
  pub stop : T → T

-- Both maps of sessions have connections for keys, and so has `sessionToChunkSequenceMap` here: its
-- key is a pointer to the one command session of a connection.
pub record Streamer (T : Type 0) : Type 0 where
  pub streaming_port : ℕ
  pub format : FormatSelection
  pub gain : Option ℕ
  pub state : State
  pub next_id : ℕ
  pub command_sessions : List (ℕ × Session)
  pub streaming_sessions : List (ℕ × T)
  pub chunk_sequences : List (ℕ × ℕ)
  pub sampling_rate : ℕ
  pub preparing_started_at : Timestamp
  pub buffering_started_at : Timestamp
  pub playback_started_at : Timestamp
  pub streamed_chunks : ℕ
  pub streamed_frames : ℕ
  pub buffered_frames : ℤ
  -- connections that were told to stop, newest first
  pub stopped_connections : List ℕ

-- maps
module _ {V : Type 0} where
  unfoldable pub find : ℕ → List (ℕ × V) → Option V
  find k [] = none
  find k ((j, v) ∷ m) = if j == k then some v else find k m

  unfoldable pub assign : ℕ → V → List (ℕ × V) → List (ℕ × V)
  assign k v [] = (k, v) ∷ []
  assign k v ((j, w) ∷ m) = if j == k then (j, v) ∷ m else (j, w) ∷ assign k v m

  unfoldable pub erase : ℕ → List (ℕ × V) → List (ℕ × V)
  erase k [] = []
  erase k ((j, w) ∷ m) = if j == k then m else (j, w) ∷ erase k m

  unfoldable pub update_all : (V → V) → List (ℕ × V) → List (ℕ × V)
  update_all f [] = []
  update_all f ((j, w) ∷ m) = (j, f w) ∷ update_all f m

  unfoldable pub count_if : (V → Bool) → List (ℕ × V) → ℕ
  count_if p [] = 0
  count_if p ((j, w) ∷ m) = let rest = count_if p m in if p w then 1 + rest else rest

-- what a command session reads of its streamer
abbrev pub session_env : {T : Type 0} → Timestamp → Streamer T → Env
session_env now s = record {
  now = now;
  streamer_sampling_rate = s.sampling_rate;
  streamer_is_playing = same_state s.state State.playing;
  playback_start_time = s.playback_started_at;
}

-- the constructor, at the time `now`
unfoldable pub make_streamer :
    {T : Type 0} → Timestamp → ℕ → FormatSelection → Option ℕ → Streamer T
make_streamer now port format gain = record {
  streaming_port = port;
  format = format;
  gain = gain;
  state = State.stopped;
  next_id = 0;
  command_sessions = [];
  streaming_sessions = [];
  chunk_sequences = [];
  sampling_rate = 0;
  preparing_started_at = now;
  buffering_started_at = now;
  playback_started_at = now;
  streamed_chunks = 0;
  streamed_frames = 0;
  buffered_frames = pos 0;
  stopped_connections = [];
}
