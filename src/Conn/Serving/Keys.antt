-- ===== src/Conn/Serving/Keys.antt =====
-- The work of the Streamer leaves the connections as they are.
use mathlib.Core.Path.{subst}
use slimstream.Base.{ℕ, ◌≡◌, refl, ◌∙◌, arith, Option, none, some, List, if_intro}
use slimstream.Util.Time.{Timestamp}
use slimstream.Proto.Wire.{Bytes}
use slimstream.Proto.CommandSession.State.{Session}
use slimstream.Proto.CommandSession.Request.{Round, processed, raised, broken}
use slimstream.Proto.Streamer.State.{Event, StreamingApi, Streamer, find}
use slimstream.Proto.Streamer.Maps.{keys, keys-replace}
use slimstream.Proto.Streamer.Machine.{start, stop}
use slimstream.Proto.Streamer.Sessions.{
  on_http_close, on_http_data, streaming_session_removed, remove_streaming_session, put_round,
  on_first_data, open_stream, data_for, on_stream_data, close_stream,
}
use slimstream.Proto.Streamer.Kept.{fire-Holds, chunk-Holds}
use slimstream.Proto.Streamer.Keys.{kept-keys}
use slimstream.Proto.Streamer.Steps.Invariant.{
  Leaves, left, left_by, nothing, after_return, after_failure, keys-set_reference,
}
use slimstream.Conn.Serving.{
  Work, starts, stops, consumes, timer_fires, pings, http_receives, http_fails, http_closes,
  http_removes,
}

module _ {T : Type 0} (api : StreamingApi T) (now : Timestamp) (ks : List ℕ) where
  abbrev pub SameKeys : Streamer T → Type 0
  SameKeys s = keys s.command_sessions ≡ ks

  open_stream-SameKeys :
      (k : ℕ) (id bs : Bytes) (o : Option ℕ) (s : Streamer T)
      → SameKeys s
      → Leaves SameKeys (open_stream api now k id bs o s)
  open_stream-SameKeys k id bs none s e = left_by _ e
  open_stream-SameKeys k id bs (some j) s e =
      left (keys-set_reference (some k) (some j) s.command_sessions ∙ e)

  first_data-SameKeys :
      (k : ℕ) (bs : Bytes) (o : Option Bytes) (s : Streamer T)
      → SameKeys s
      → Leaves SameKeys (on_first_data api now k bs o s)
  first_data-SameKeys k bs none s e = left_by _ e
  first_data-SameKeys k bs (some id) s e = open_stream-SameKeys k id bs _ s e

  stream_data-SameKeys :
      (k : ℕ) (bs : Bytes) (o : Option T) (s : Streamer T)
      → SameKeys s
      → Leaves SameKeys (on_stream_data api now k bs o s)
  stream_data-SameKeys k bs none s e = first_data-SameKeys k bs _ s e
  stream_data-SameKeys k bs (some t) s e = left e

  close_stream-SameKeys :
      (k : ℕ) (o : Option T) (s : Streamer T) → SameKeys s → SameKeys (close_stream api now k o s)
  unfolding remove_streaming_session
  close_stream-SameKeys k none s e = e
  close_stream-SameKeys k (some t) s e =
      let same = keys-set_reference none _ s.command_sessions ∙ e in
      if_intro SameKeys (api.is_running t) same same

  put_round-SameKeys :
      {c : Session} (k : ℕ) (o : Option Round) (s : Streamer T)
      → find k s.command_sessions ≡ some c
      → SameKeys s
      → Leaves SameKeys (put_round api now k o s)
  put_round-SameKeys k none s h e = nothing
  put_round-SameKeys k (some (processed n d)) s h e =
      left (keys-replace k d s.command_sessions h ∙ e)
  put_round-SameKeys k (some (raised x d)) s h e = left (keys-replace k d s.command_sessions h ∙ e)
  put_round-SameKeys k (some broken) s h e = nothing

  pub data-SameKeys :
      (k : ℕ) (bs : Bytes) (t : Timestamp) (o : Option Session) (s : Streamer T)
      → find k s.command_sessions ≡ o
      → SameKeys s
      → Leaves SameKeys (data_for api now k bs t o s)
  data-SameKeys k bs t none s h e = left e
  data-SameKeys k bs t (some c) s h e = put_round-SameKeys k _ s h e

-- The other work of the Streamer leaves the connections as they are.
pub Work-keys :
    {T : Type 0} (api : StreamingApi T) {s s' : Streamer T}
    → Work api s s'
    → keys s'.command_sessions ≡ keys s.command_sessions
unfolding start stop on_http_close on_http_data streaming_session_removed
Work-keys api (starts {s} now) =
    fire-Holds api now (kept-keys api now _) Event.start s (λ e. ground (arith, e)) refl
Work-keys api (stops {s} now) =
    fire-Holds api now (kept-keys api now _) Event.stop s (λ e. ground (arith, e)) refl
Work-keys api (consumes {s} now c) = chunk-Holds api now (kept-keys api now _) c s refl
Work-keys api (timer_fires {s} now k f e) = keys-replace k _ s.command_sessions f
Work-keys api (pings {s} now k i f e) = keys-replace k _ s.command_sessions f
Work-keys api (http_receives {s} now k bs e) = after_return (
    subst (Leaves (SameKeys api now _)) e
      (stream_data-SameKeys api now _ k bs (find k s.streaming_sessions) s refl))
Work-keys api (http_fails {s} now k bs x e) = after_failure (
    subst (Leaves (SameKeys api now _)) e
      (stream_data-SameKeys api now _ k bs (find k s.streaming_sessions) s refl))
Work-keys api (http_closes {s} now k) =
    close_stream-SameKeys api now _ k (find k s.streaming_sessions) s refl
Work-keys api (http_removes now k) = refl
