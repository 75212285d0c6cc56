-- ===== src/Proto/System.antt =====
-- src/slim/proto/Streamer.hpp with the sessions of src/slim/proto/StreamingSession.hpp: the Streamer, its
-- HTTP sessions and the tasks these left to the processor.
pub mod Whole
use slimstream.Base.{ℕ, ◌≡◌, Option, none, some}
use slimstream.Encoder.{EncoderApi}
use slimstream.Util.Time.{Timestamp}
use slimstream.Proto.Wire.{Bytes}
use slimstream.Proto.Server.Strm.{FormatSelection}
use slimstream.Proto.Streamer.State.{StreamingApi, Streamer, find, assign, make_streamer}
use slimstream.Proto.Streamer.Steps as StreamerSteps
use slimstream.Proto.StreamingSession.State.{Session, make_session}
use slimstream.Proto.StreamingSession.Lifecycle.{start, stop, on_request, consume_chunk}
use slimstream.Proto.StreamingSession.Steps as SessionSteps

-- How the Streamer makes and uses its HTTP sessions: `build` is what the encoder builder makes for a
-- sampling rate. The callback of `stop` is left out, as in `StreamingApi`.
abbrev pub streaming_sessions :
    {E : Type 0} → EncoderApi E → Bytes → Bytes → (ℕ → E) → StreamingApi (Session E)
streaming_sessions api version memory build = record {
  make = λ id rate. make_session memory id (build rate);
  client_id = λ t. t.client_id;
  is_running = λ t. t.running;
  start = start api version;
  on_request = on_request api;
  consume_chunk = consume_chunk api;
  stop = stop api none;
}

-- A step is one of the Streamer, or one of an HTTP session in its map: a handler or a timer of that
-- session, the end of a write, its socket closed.
pub data Step {E : Type 0} (api : EncoderApi E) (version memory : Bytes) (build : ℕ → E)
    : Streamer (Session E) → Streamer (Session E) → Type 0 where
  streamer :
      {s s' : Streamer (Session E)}
      → StreamerSteps.Step (streaming_sessions api version memory build) s s'
      → Step api version memory build s s'
  session :
      {s : Streamer (Session E)} {t t' : Session E} (k : ℕ)
      → find k s.streaming_sessions ≡ some t
      → SessionSteps.Step api t t'
      → Step api version memory build s
          (record s { streaming_sessions = assign k t' s.streaming_sessions })

pub data Reachable {E : Type 0} (api : EncoderApi E) (version memory : Bytes) (build : ℕ → E)
    : Streamer (Session E) → Type 0 where
  made :
      (now : Timestamp) (port : ℕ) (format : FormatSelection) (gain : Option ℕ)
      → Reachable api version memory build (make_streamer now port format gain)
  stepped :
      {s s' : Streamer (Session E)}
      → Reachable api version memory build s
      → Step api version memory build s s'
      → Reachable api version memory build s'
