-- ===== src/Proto/System/Whole.antt =====
-- The system of the Streamer and its HTTP sessions: what holds in each state it can reach.
use mathlib.Core.Path.{subst}
use slimstream.Base.{ℕ, ◌<◌, ◌≡◌, refl, some, length}
use slimstream.Encoder.{EncoderApi, EncoderLaws}
use slimstream.Proto.Wire.{Bytes}
use slimstream.Proto.Streamer.State.{Streamer, find, make_streamer}
use slimstream.Proto.Streamer.Invariant as StreamerInvariant
use slimstream.Proto.Streamer.Sound.{AllSound, no_session}
use slimstream.Proto.Streamer.Deliver.InStep.{no_entry}
use slimstream.Proto.Streamer.Maps.{keys}
use slimstream.Proto.Streamer.Steps.Invariant.{step-Inv}
use slimstream.Proto.Streamer.Steps.Sound.{step-Sound}
use slimstream.Proto.Streamer.Steps.Streams.{step-AllStreams}
use slimstream.Proto.Streamer.Streams.{
  AllStreams, no_stream, OfFound, of_found, Keeps, assign-AllStreams, find-OfFound,
}
use slimstream.Proto.StreamingSession.State.{Session}
use slimstream.Proto.StreamingSession.Invariant as SessionInvariant
use slimstream.Proto.StreamingSession.Awake.{IsAwake}
use slimstream.Proto.StreamingSession.Steps as SessionSteps
use slimstream.Proto.System.{streaming_sessions, Step, streamer, session, Reachable, made, stepped}

-- What is known of an HTTP session: its buffers are accounted for, and what it has to send is on its
-- way.
pub record Flowing {E : Type 0} (n : ℕ) (t : Session E) : Type 0 where
  pub inv : SessionInvariant.Inv n t
  pub awake : IsAwake t

-- The Streamer and the command sessions are sound, and each HTTP session has gone through steps of its
-- own only.
pub record Whole {E : Type 0} (api : EncoderApi E) (memory : Bytes) (s : Streamer (Session E))
    : Type 0 where
  pub in_step : StreamerInvariant.Inv s
  pub sound : AllSound s.command_sessions
  pub streams : AllStreams (SessionSteps.Reachable api memory) s.streaming_sessions

module _ {E : Type 0} (api : EncoderApi E) (version memory : Bytes) (build : ℕ → E) where
  -- A Streamer takes a session from one reachable state to another.
  pub keeps_Reachable :
      Keeps (streaming_sessions api version memory build) (SessionSteps.Reachable api memory)
  keeps_Reachable = record {
    of_make = λ id rate. SessionSteps.made id (build rate);
    of_start = λ t r. SessionSteps.stepped r (SessionSteps.starts version);
    of_request = λ bs t r. SessionSteps.stepped r (SessionSteps.receives bs);
    of_chunk = λ c t r. SessionSteps.stepped r (SessionSteps.consumes c);
    of_stop = λ t r. SessionSteps.stepped r (SessionSteps.stops _);
  }

  found-Reachable :
      {t : Session E}
      → OfFound (SessionSteps.Reachable api memory) (some t)
      → SessionSteps.Reachable api memory t
  found-Reachable (of_found r) = r

  pub session_at :
      {t : Session E} {s : Streamer (Session E)} (k : ℕ)
      → find k s.streaming_sessions ≡ some t
      → Whole api memory s
      → SessionSteps.Reachable api memory t
  session_at k f h = found-Reachable (subst (OfFound _) f (find-OfFound k h.streams))

  step-Whole :
      {s s' : Streamer (Session E)}
      → Step api version memory build s s'
      → Whole api memory s
      → Whole api memory s'
  step-Whole (streamer p) h = record {
    in_step = step-Inv _ p h.in_step;
    sound = step-Sound _ p h.sound;
    streams = step-AllStreams _ keeps_Reachable p h.streams;
  }
  step-Whole (session k f p) h = record {
    in_step = record { in_step = h.in_step.in_step; same_keys = h.in_step.same_keys };
    sound = h.sound;
    streams = assign-AllStreams k _ (SessionSteps.stepped (session_at k f h) p) h.streams;
  }

  -- Whatever happens in the system of the Streamer and its HTTP sessions, in any order: the sequence
  -- numbers of the Streamer are those of its command sessions and in step, each command session is
  -- sound, and each HTTP session is in a state that its own steps reach.
  pub system-Whole :
      {s : Streamer (Session E)} → Reachable api version memory build s → Whole api memory s
  unfolding make_streamer keys
  system-Whole (made now port format gain) = record {
    in_step = record { in_step = no_entry; same_keys = refl };
    sound = no_session;
    streams = no_stream;
  }
  system-Whole (stepped r p) = step-Whole p (system-Whole r)

  -- With an encoder that is silent once it is stopped and buffers that are not empty, each HTTP session
  -- found in the map of a reachable system has all its buffers accounted for, and its queue is empty or
  -- has a write under way or the transfer task among the handlers.
  pub system-Flowing :
      {t : Session E} {s : Streamer (Session E)} (k : ℕ)
      → EncoderLaws api
      → 0 < length memory
      → find k s.streaming_sessions ≡ some t
      → Reachable api version memory build s
      → Flowing (length memory) t
  system-Flowing k laws p f r =
      let own = session_at k f (system-Whole r) in
      record {
        inv = SessionSteps.Reachable-Inv api memory laws p own;
        awake = SessionSteps.Reachable-IsAwake api memory own;
      }
