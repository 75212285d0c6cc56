-- ===== src/Proto/Streamer/Steps/Streams.antt =====
-- What holds of every HTTP session, along the steps of the Streamer.
use mathlib.Core.Path.{subst}
use slimstream.Base.{ℕ, arith, if_intro, Option, none, some, List}
use slimstream.Util.Time.{Timestamp}
use slimstream.Proto.Wire.{Bytes}
use slimstream.Proto.CommandSession.State.{Session}
use slimstream.Proto.CommandSession.Request.{Round, processed, raised, broken}
use slimstream.Proto.Streamer.State.{Event, StreamingApi, Streamer, find}
use slimstream.Proto.Streamer.Machine.{start, stop}
use slimstream.Proto.Streamer.Sessions.{
  add_session, add_at, on_http_close, on_http_data, on_slim_proto_close, on_slim_proto_data,
  on_slim_proto_open, streaming_session_removed, remove_streaming_session, put_round, on_first_data,
  open_stream, open_session, close_session, data_for, on_stream_data, close_stream,
}
use slimstream.Proto.Streamer.Kept.{fire-Holds, chunk-Holds}
use slimstream.Proto.Streamer.Streams.{
  AllStreams, OfFound, not_found, of_found, Keeps, assign-AllStreams, erase-AllStreams,
  find-OfFound, kept-AllStreams,
}
use slimstream.Proto.Streamer.Steps.{
  Step, timer_fires, pings, starts, stops, consumes, opens, receives, closes, http_receives,
  http_fails, http_closes, http_removes,
}
use slimstream.Proto.Streamer.Steps.Invariant.{
  Leaves, left, left_by, nothing, after_return, after_failure,
}

module _ {T : Type 0} {P : T → Type 0} (api : StreamingApi T) (keeps : Keeps api P)
    (now : Timestamp) where
  abbrev Kept : Streamer T → Type 0
  Kept s = AllStreams P s.streaming_sessions

  open-Kept :
      (k : ℕ) (o : Option Session) (s : Streamer T)
      → Kept s
      → Leaves Kept (open_session api now k o s)
  open-Kept k none s a = left a
  open-Kept k (some c) s a = nothing

  close-Kept :
      (k : ℕ) (o : Option Session) (s : Streamer T) → Kept s → Kept (close_session api now k o s)
  close-Kept k none s a = a
  close-Kept k (some c) s a = a

  put_round-Kept :
      (k : ℕ) (o : Option Round) (s : Streamer T) → Kept s → Leaves Kept (put_round api now k o s)
  put_round-Kept k none s a = nothing
  put_round-Kept k (some (processed n d)) s a = left a
  put_round-Kept k (some (raised e d)) s a = left a
  put_round-Kept k (some broken) s a = nothing

  data-Kept :
      (k : ℕ) (bs : Bytes) (t : Timestamp) (o : Option Session) (s : Streamer T)
      → Kept s
      → Leaves Kept (data_for api now k bs t o s)
  data-Kept k bs t none s a = left a
  data-Kept k bs t (some c) s a = put_round-Kept k _ s a

  add_at-Kept :
      (o : Option T) (k : ℕ) (t : T) (m : List (ℕ × T))
      → P t
      → AllStreams P m
      → AllStreams P (add_at o k t m)
  add_at-Kept none k t m p a = assign-AllStreams k t p a
  add_at-Kept (some u) k t m p a = a

  open_stream-Kept :
      (k : ℕ) (id bs : Bytes) (o : Option ℕ) (s : Streamer T)
      → Kept s
      → Leaves Kept (open_stream api now k id bs o s)
  unfolding add_session
  open_stream-Kept k id bs none s a = left_by _ a
  open_stream-Kept k id bs (some j) s a = left (
      add_at-Kept (find k s.streaming_sessions) k _ s.streaming_sessions
        (keeps.of_request bs _ (keeps.of_start _ (keeps.of_make id s.sampling_rate))) a)

  first_data-Kept :
      (k : ℕ) (bs : Bytes) (o : Option Bytes) (s : Streamer T)
      → Kept s
      → Leaves Kept (on_first_data api now k bs o s)
  first_data-Kept k bs none s a = left_by _ a
  first_data-Kept k bs (some id) s a = open_stream-Kept k id bs _ s a

  stream_data-Kept :
      (k : ℕ) (bs : Bytes) {o : Option T} (s : Streamer T)
      → OfFound P o
      → Kept s
      → Leaves Kept (on_stream_data api now k bs o s)
  stream_data-Kept k bs s not_found a = first_data-Kept k bs _ s a
  stream_data-Kept k bs s (of_found p) a = left (assign-AllStreams k _ (keeps.of_request bs _ p) a)

  remove-Kept :
      (k : ℕ) (t : T) (s : Streamer T)
      → P t
      → Kept s
      → Kept (remove_streaming_session api now k t s)
  unfolding remove_streaming_session
  remove-Kept k t s p a =
      if_intro Kept (api.is_running t) (assign-AllStreams k _ (keeps.of_stop t p) a)
        (erase-AllStreams k a)

  close_stream-Kept :
      (k : ℕ) {o : Option T} (s : Streamer T)
      → OfFound P o
      → Kept s
      → Kept (close_stream api now k o s)
  close_stream-Kept k s not_found a = a
  close_stream-Kept k s (of_found p) a = remove-Kept k _ _ p a

-- What is kept of every HTTP session is kept by every step.
pub step-AllStreams :
    {T : Type 0} {P : T → Type 0} (api : StreamingApi T) {s s' : Streamer T}
    → Keeps api P
    → Step api s s'
    → AllStreams P s.streaming_sessions
    → AllStreams P s'.streaming_sessions
unfolding start stop on_slim_proto_open on_slim_proto_close on_slim_proto_data on_http_close
    on_http_data streaming_session_removed
step-AllStreams api h (starts now) a =
    fire-Holds api now (kept-AllStreams api now h) Event.start _ (λ e. ground (arith, e)) a
step-AllStreams api h (stops now) a =
    fire-Holds api now (kept-AllStreams api now h) Event.stop _ (λ e. ground (arith, e)) a
step-AllStreams api h (consumes now c) a = chunk-Holds api now (kept-AllStreams api now h) c _ a
step-AllStreams {P} api h (opens {s = s} now k e) a =
    after_return
      (subst (Leaves (Kept api h now)) e (open-Kept api h now k (find k s.command_sessions) s a))
step-AllStreams api h (receives {s = s} now t k bs e) a =
    after_return (
      subst (Leaves (Kept api h now)) e
        (data-Kept api h now k bs t (find k s.command_sessions) s a))
step-AllStreams api h (timer_fires now k f e) a = a
step-AllStreams api h (pings now k i f e) a = a
step-AllStreams api h (closes {s = s} now k) a =
    close-Kept api h now k (find k s.command_sessions) s a
step-AllStreams api h (http_receives {s = s} now k bs e) a =
    after_return
      (subst (Leaves (Kept api h now)) e (stream_data-Kept api h now k bs s (find-OfFound k a) a))
step-AllStreams api h (http_fails {s = s} now k bs x e) a =
    after_failure
      (subst (Leaves (Kept api h now)) e (stream_data-Kept api h now k bs s (find-OfFound k a) a))
step-AllStreams api h (http_closes {s = s} now k) a =
    close_stream-Kept api h now k s (find-OfFound k a) a
step-AllStreams api h (http_removes now k) a = erase-AllStreams k a
