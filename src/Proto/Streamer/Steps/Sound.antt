-- ===== src/Proto/Streamer/Steps/Sound.antt =====
-- The sessions' own invariant along the steps of the Streamer.
use mathlib.Core.Path.{subst}
use slimstream.Base.{ℕ, ◌≡◌, refl, arith, Option, none, some, List, if_intro, ◌+◌}
use slimstream.Exception.{done}
use slimstream.Util.Ring.{Ring}
use slimstream.Proto.CommandSession.Handlers.Invariant.{
  KeepsAfter, after, ping-KeepsAfter, ping_timer_fired-KeepsAfter,
}
use slimstream.Util.Time.{Timestamp}
use slimstream.Proto.Wire.{Bytes}
use slimstream.Proto.CommandSession.State.{Session}
use slimstream.Proto.CommandSession.Invariant as SessionInvariant
use slimstream.Proto.CommandSession.Lifecycle.Invariant.{start-Inv, set_streaming_session-Inv}
use slimstream.Proto.CommandSession.Request.{Round}
use slimstream.Proto.CommandSession.Request.Ends.{Ended, returns, throws, breaks, on_request-ends}
use slimstream.Proto.Streamer.State.{StreamingApi, Streamer, find, session_env, make_streamer}
use slimstream.Proto.Streamer.State as StreamerState
use slimstream.Proto.Streamer.Machine.{start, stop}
use slimstream.Proto.Streamer.Sessions.{
  set_reference, refer_at, find_session_by_id, add_session, add_at, to_decimal, on_http_close,
  on_http_data, on_slim_proto_close, on_slim_proto_data, on_slim_proto_open,
  streaming_session_removed, remove_streaming_session, put_round, on_first_data, open_stream,
  open_session, close_session, data_for, on_stream_data, close_stream, new_session,
}
use slimstream.Proto.Streamer.Kept.{fire-Holds, chunk-Holds}
use slimstream.Proto.Streamer.Sound.{
  AllSound, no_session, AllSound-assign, AllSound-erase, FoundSound, nothing_found, found,
  find-FoundSound, kept-AllSound,
}
use slimstream.Proto.Streamer.Steps.{
  Step, timer_fires, pings, starts, stops, consumes, opens, receives, closes, http_receives,
  http_fails, http_closes, http_removes, Reachable, made, stepped,
}
use slimstream.Proto.Streamer.Steps.Invariant.{
  Leaves, left, left_by, nothing, after_return, after_failure,
}

refer_at-Sound :
    {o : Option Session} {cs : List (ℕ × Session)} (r : Option ℕ) (k : ℕ)
    → FoundSound o
    → AllSound cs
    → AllSound (refer_at r k o cs)
refer_at-Sound r k nothing_found a = a
refer_at-Sound r k (found v) a = AllSound-assign k (set_streaming_session-Inv r _ v) a

set_reference-Sound :
    {cs : List (ℕ × Session)} (r o : Option ℕ) → AllSound cs → AllSound (set_reference r o cs)
unfolding set_reference
set_reference-Sound r none a = a
set_reference-Sound r (some k) a = refer_at-Sound r k (find-FoundSound k a) a

add_at-Sound :
    {c : Session} {cs : List (ℕ × Session)} (o : Option Session) (k : ℕ)
    → SessionInvariant.Inv c
    → AllSound cs
    → AllSound (add_at o k c cs)
add_at-Sound none k v a = AllSound-assign k v a
add_at-Sound (some d) k v a = a

module _ {T : Type 0} (api : StreamingApi T) (now : Timestamp) where
  abbrev Sound : Streamer T → Type 0
  Sound s = AllSound s.command_sessions

  new_session-Sound : (s : Streamer T) → SessionInvariant.Inv (new_session api now s)
  new_session-Sound s = start-Inv _ _ (
      SessionInvariant.make_session-Inv now (to_decimal (s.next_id + 1)) s.streaming_port s.format
        s.gain)

  open-Sound :
      (k : ℕ) (o : Option Session) (s : Streamer T)
      → Sound s
      → Leaves Sound (open_session api now k o s)
  unfolding add_session
  open-Sound k none s a = left (add_at-Sound _ k (new_session-Sound s) a)
  open-Sound k (some c) s a = nothing

  close-Sound :
      (k : ℕ) (o : Option Session) (s : Streamer T) → Sound s → Sound (close_session api now k o s)
  close-Sound k none s a = a
  close-Sound k (some c) s a = AllSound-erase k a

  put_round-Sound :
      {xs : Bytes} {r : Round} (k : ℕ) (s : Streamer T)
      → Ended xs r
      → Sound s
      → Leaves Sound (put_round api now k (some r) s)
  put_round-Sound k s (returns v c) a = left (AllSound-assign k v a)
  put_round-Sound k s (throws e v n) a = left (AllSound-assign k v a)
  put_round-Sound k s (breaks v c u) a = nothing

  data-Sound :
      (k : ℕ) (bs : Bytes) (t : Timestamp) {o : Option Session} (s : Streamer T)
      → FoundSound o
      → Sound s
      → Leaves Sound (data_for api now k bs t o s)
  data-Sound k bs t s nothing_found a = left a
  data-Sound k bs t s (found {s = c} v) a =
      let (r, e, ended) = on_request-ends (session_env now s) bs t c v in
      rw e (put_round-Sound k s ended a)

  open_stream-Sound :
      (k : ℕ) (id bs : Bytes) (o : Option ℕ) (s : Streamer T)
      → Sound s
      → Leaves Sound (open_stream api now k id bs o s)
  open_stream-Sound k id bs none s a = left_by _ a
  open_stream-Sound k id bs (some j) s a = left (set_reference-Sound (some k) (some j) a)

  first_data-Sound :
      (k : ℕ) (bs : Bytes) (o : Option Bytes) (s : Streamer T)
      → Sound s
      → Leaves Sound (on_first_data api now k bs o s)
  first_data-Sound k bs none s a = left_by _ a
  first_data-Sound k bs (some id) s a = open_stream-Sound k id bs _ s a

  stream_data-Sound :
      (k : ℕ) (bs : Bytes) (o : Option T) (s : Streamer T)
      → Sound s
      → Leaves Sound (on_stream_data api now k bs o s)
  stream_data-Sound k bs none s a = first_data-Sound k bs _ s a
  stream_data-Sound k bs (some t) s a = left a

  close_stream-Sound :
      (k : ℕ) (o : Option T) (s : Streamer T) → Sound s → Sound (close_stream api now k o s)
  unfolding remove_streaming_session
  close_stream-Sound k none s a = a
  close_stream-Sound k (some t) s a =
      let b =
        set_reference-Sound none
          (find_session_by_id (λ c. c.client_id) s.command_sessions (api.client_id t)) a in
      if_intro Sound (api.is_running t) b b

-- what a task of a session leaves
kept_session : {r : Ring ℕ} {c : Session} → KeepsAfter r (done c) → SessionInvariant.Inv c
kept_session (after k) = k.inv

all_at :
    {c : Session} {cs : List (ℕ × Session)} (k : ℕ)
    → find k cs ≡ some c
    → AllSound cs
    → SessionInvariant.Inv c
all_at k f a = found_session (subst FoundSound f (find-FoundSound k a))
  where
    found_session : {c : Session} → FoundSound (some c) → SessionInvariant.Inv c
    found_session (found v) = v

pub step-Sound :
    {T : Type 0} (api : StreamingApi T) {s s' : Streamer T}
    → Step api s s'
    → AllSound s.command_sessions
    → AllSound s'.command_sessions
unfolding start stop on_slim_proto_open on_slim_proto_close on_slim_proto_data on_http_close
    on_http_data streaming_session_removed
step-Sound api (starts now) a =
    fire-Holds api now (kept-AllSound api now) StreamerState.Event.start _ (λ e. ground (arith, e))
      a
step-Sound api (stops now) a =
    fire-Holds api now (kept-AllSound api now) StreamerState.Event.stop _ (λ e. ground (arith, e)) a
step-Sound api (consumes now c) a = chunk-Holds api now (kept-AllSound api now) c _ a
step-Sound api (opens {s = s} now k e) a =
    after_return
      (subst (Leaves (Sound api now)) e (open-Sound api now k (find k s.command_sessions) s a))
step-Sound api (receives {s = s} now t k bs e) a =
    after_return
      (subst (Leaves (Sound api now)) e (data-Sound api now k bs t s (find-FoundSound k a) a))
step-Sound api (timer_fires now k f e) a =
    AllSound-assign k
      (kept_session (
        subst (KeepsAfter _) e
          (ping_timer_fired-KeepsAfter _ _ (record { inv = all_at k f a; same_ring = refl }))))
      a
step-Sound api (pings now k i f e) a =
    AllSound-assign k
      (kept_session (
        subst (KeepsAfter _) e
          (ping-KeepsAfter _ i _ (record { inv = all_at k f a; same_ring = refl }))))
      a
step-Sound api (closes now k) a = close-Sound api now k _ _ a
step-Sound api (http_receives {s = s} now k bs e) a = after_return (
    subst (Leaves (Sound api now)) e
      (stream_data-Sound api now k bs (find k s.streaming_sessions) s a))
step-Sound api (http_fails {s = s} now k bs x e) a = after_failure (
    subst (Leaves (Sound api now)) e
      (stream_data-Sound api now k bs (find k s.streaming_sessions) s a))
step-Sound api (http_closes now k) a = close_stream-Sound api now k _ _ a
step-Sound api (http_removes now k) a = a

-- Whatever connections open, receive and close, whatever chunks are consumed and whatever tasks of the
-- sessions run, in any order: every command session of the Streamer is sound.
pub reachable-AllSound :
    {T : Type 0} (api : StreamingApi T) {s : Streamer T}
    → Reachable api s
    → AllSound s.command_sessions
unfolding make_streamer
reachable-AllSound api (made now port format gain) = no_session
reachable-AllSound api (stepped r p) = step-Sound api p (reachable-AllSound api r)
