-- ===== src/Proto/Streamer/Steps/Invariant.antt =====
-- The invariant along the steps of the Streamer.
use mathlib.Core.Path.{subst}
use slimstream.Base.{
  ℕ, ◌+◌, ◌≤◌, ◌≡◌, refl, sym, ap, ◌∙◌, arith, if_intro, Option, none, some, List, ◌==◌,
}
use slimstream.Exception.{Exception}
use slimstream.Util.Time.{Timestamp}
use slimstream.Proto.Wire.{Bytes}
use slimstream.Proto.CommandSession.State.{Session}
use slimstream.Proto.CommandSession.Request.{Round, processed, raised, broken}
use slimstream.Proto.Streamer.State.{
  Event, StreamingApi, Streamer, find, assign, erase, make_streamer,
}
use slimstream.Proto.Streamer.Maps.{
  keys, add_key, drop_key, add_key-has_key, has_key-find, keys-assign, keys-erase, keys-replace,
}
use slimstream.Proto.Streamer.Machine.{start, stop}
use slimstream.Proto.Streamer.Deliver.InStep.{InStep, no_entry, entry}
use slimstream.Proto.Streamer.Sessions.{
  Reply, returned, failed, undefined, set_reference, add_session, on_http_close, on_http_data,
  on_slim_proto_close, on_slim_proto_data, on_slim_proto_open, streaming_session_removed,
  remove_streaming_session, put_round, on_first_data, open_stream, refer_at, add_at, open_session,
  close_session, data_for, on_stream_data, close_stream, new_session,
}
use slimstream.Proto.Streamer.Invariant.{Inv, fire-Inv, consume_chunk-Inv}
use slimstream.Proto.Streamer.Steps.{
  Step, timer_fires, pings, starts, stops, consumes, opens, receives, closes, http_receives,
  http_fails, http_closes, http_removes, Reachable, made, stepped,
}

InStep-erase : {total : ℕ} {es : List (ℕ × ℕ)} (k : ℕ) → InStep total es → InStep total (erase k es)
unfolding erase
InStep-erase k no_entry = no_entry
InStep-erase {total = total} k (entry {k = j} l u i) =
    if_intro (InStep total) (j == k) i (entry l u (InStep-erase k i))

InStep-assign :
    {total n : ℕ} {es : List (ℕ × ℕ)} (k : ℕ)
    → total ≤ n
    → n ≤ total + 1
    → InStep total es
    → InStep total (assign k n es)
unfolding assign
InStep-assign k l u no_entry = entry l u no_entry
InStep-assign {total = total} k l u (entry {k = j} a b i) =
    if_intro (InStep total) (j == k) (entry l u i) (entry a b (InStep-assign k l u i))

-- What holds of the Streamer that a callback leaves, if it leaves one.
pub data Leaves {X : Type 0} (P : X → Type 0) : Reply X → Type 0 where
  left : {x : X} → P x → Leaves P (returned x)
  left_by : {x : X} (e : Exception) → P x → Leaves P (failed e x)
  nothing : Leaves P undefined

pub after_return : {X : Type 0} {P : X → Type 0} {x : X} → Leaves P (returned x) → P x
after_return (left p) = p

pub after_failure :
    {X : Type 0} {P : X → Type 0} {x : X} {e : Exception} → Leaves P (failed e x) → P x
after_failure (left_by e p) = p

keys-refer_at :
    (r : Option ℕ) (k : ℕ) (o : Option Session) (cs : List (ℕ × Session))
    → find k cs ≡ o
    → keys (refer_at r k o cs) ≡ keys cs
keys-refer_at r k none cs h = refl
keys-refer_at r k (some s) cs h = keys-replace k _ cs h

pub keys-set_reference :
    (r o : Option ℕ) (cs : List (ℕ × Session)) → keys (set_reference r o cs) ≡ keys cs
unfolding set_reference
keys-set_reference r none cs = refl
keys-set_reference r (some k) cs = keys-refer_at r k (find k cs) cs refl

pub keys-add_at :
    {V : Type 0} (o : Option V) (k : ℕ) (v : V) (m : List (ℕ × V))
    → find k m ≡ o
    → keys (add_at o k v m) ≡ add_key k (keys m)
keys-add_at none k v m h = keys-assign k v m
keys-add_at (some w) k v m h = sym (add_key-has_key k (keys m) (has_key-find k m h))

module _ {T : Type 0} (api : StreamingApi T) (now : Timestamp) where
  -- A new session starts with the streamed chunks as its sequence number.
  open-Inv :
      (k : ℕ) (o : Option Session) (s : Streamer T)
      → find k s.command_sessions ≡ o
      → Inv s
      → Leaves Inv (open_session api now k o s)
  unfolding add_session
  open-Inv k none s h v = left record {
    in_step = InStep-assign k (omega arith) (omega arith) v.in_step;
    same_keys =
        keys-assign k _ s.chunk_sequences
        ∙ ap (add_key k) v.same_keys
        ∙ sym (keys-add_at _ k (new_session api now s) s.command_sessions refl);
  }
  open-Inv k (some c) s h v = nothing

  close-Inv :
      (k : ℕ) (o : Option Session) (s : Streamer T) → Inv s → Inv (close_session api now k o s)
  close-Inv k none s v = v
  close-Inv k (some c) s v = record {
    in_step = InStep-erase k v.in_step;
    same_keys =
        keys-erase k s.chunk_sequences
        ∙ ap (drop_key k) v.same_keys
        ∙ sym (keys-erase k s.command_sessions);
  }

  put_round-Inv :
      {c : Session} (k : ℕ) (o : Option Round) (s : Streamer T)
      → find k s.command_sessions ≡ some c
      → Inv s
      → Leaves Inv (put_round api now k o s)
  put_round-Inv k none s h v = nothing
  put_round-Inv k (some (processed n d)) s h v = left record {
    in_step = v.in_step;
    same_keys = v.same_keys ∙ sym (keys-replace k d s.command_sessions h);
  }
  put_round-Inv k (some (raised e d)) s h v = left record {
    in_step = v.in_step;
    same_keys = v.same_keys ∙ sym (keys-replace k d s.command_sessions h);
  }
  put_round-Inv k (some broken) s h v = nothing

  data-Inv :
      (k : ℕ) (bs : Bytes) (t : Timestamp) (o : Option Session) (s : Streamer T)
      → find k s.command_sessions ≡ o
      → Inv s
      → Leaves Inv (data_for api now k bs t o s)
  data-Inv k bs t none s h v = left record { in_step = v.in_step; same_keys = v.same_keys }
  data-Inv k bs t (some c) s h v = put_round-Inv k _ s h v

  open_stream-Inv :
      (k : ℕ) (id bs : Bytes) (o : Option ℕ) (s : Streamer T)
      → Inv s
      → Leaves Inv (open_stream api now k id bs o s)
  open_stream-Inv k id bs none s v =
      left_by _ record { in_step = v.in_step; same_keys = v.same_keys }
  open_stream-Inv k id bs (some j) s v = left record {
    in_step = v.in_step;
    same_keys = v.same_keys ∙ sym (keys-set_reference (some k) (some j) s.command_sessions);
  }

  first_data-Inv :
      (k : ℕ) (bs : Bytes) (o : Option Bytes) (s : Streamer T)
      → Inv s
      → Leaves Inv (on_first_data api now k bs o s)
  first_data-Inv k bs none s v = left_by _ v
  first_data-Inv k bs (some id) s v = open_stream-Inv k id bs _ s v

  stream_data-Inv :
      (k : ℕ) (bs : Bytes) (o : Option T) (s : Streamer T)
      → Inv s
      → Leaves Inv (on_stream_data api now k bs o s)
  stream_data-Inv k bs none s v = first_data-Inv k bs _ s v
  stream_data-Inv k bs (some t) s v = left record { in_step = v.in_step; same_keys = v.same_keys }

  remove-Inv :
      (k : ℕ) (t : T) (s : Streamer T) → Inv s → Inv (remove_streaming_session api now k t s)
  unfolding remove_streaming_session
  remove-Inv k t s v =
      if_intro Inv (api.is_running t) (record { in_step = v.in_step; same_keys = v.same_keys })
        (record { in_step = v.in_step; same_keys = v.same_keys })

  close_stream-Inv :
      (k : ℕ) (o : Option T) (s : Streamer T) → Inv s → Inv (close_stream api now k o s)
  close_stream-Inv k none s v = v
  close_stream-Inv k (some t) s v = remove-Inv k t _ (record {
    in_step = v.in_step;
    same_keys = v.same_keys ∙ sym (keys-set_reference none _ s.command_sessions);
  })

-- Every step keeps the invariant.
pub step-Inv :
    {T : Type 0} (api : StreamingApi T) {s s' : Streamer T} → Step api s s' → Inv s → Inv s'
unfolding start stop on_slim_proto_open on_slim_proto_close on_slim_proto_data on_http_close
    on_http_data streaming_session_removed
step-Inv api (starts now) v = fire-Inv api now Event.start _ v
step-Inv api (stops now) v = fire-Inv api now Event.stop _ v
step-Inv api (consumes now c) v = consume_chunk-Inv api now c _ v
step-Inv api (opens {s = s} now k e) v =
    after_return (subst (Leaves Inv) e (open-Inv api now k (find k s.command_sessions) s refl v))
step-Inv api (receives {s = s} now t k bs e) v =
    after_return
      (subst (Leaves Inv) e (data-Inv api now k bs t (find k s.command_sessions) s refl v))
step-Inv api (timer_fires now k f e) v = record {
  in_step = v.in_step;
  same_keys = v.same_keys ∙ sym (keys-replace k _ _ f);
}
step-Inv api (pings now k i f e) v = record {
  in_step = v.in_step;
  same_keys = v.same_keys ∙ sym (keys-replace k _ _ f);
}
step-Inv api (closes now k) v = close-Inv api now k _ _ v
step-Inv api (http_receives {s = s} now k bs e) v =
    after_return
      (subst (Leaves Inv) e (stream_data-Inv api now k bs (find k s.streaming_sessions) s v))
step-Inv api (http_fails {s = s} now k bs x e) v =
    after_failure
      (subst (Leaves Inv) e (stream_data-Inv api now k bs (find k s.streaming_sessions) s v))
step-Inv api (http_closes now k) v = close_stream-Inv api now k _ _ v
step-Inv api (http_removes now k) v = record { in_step = v.in_step; same_keys = v.same_keys }

-- Every reachable state satisfies the invariant.
pub reachable-Inv : {T : Type 0} (api : StreamingApi T) {s : Streamer T} → Reachable api s → Inv s
unfolding make_streamer keys
reachable-Inv api (made now port format gain) = record { in_step = no_entry; same_keys = refl }
reachable-Inv api (stepped r p) = step-Inv api p (reachable-Inv api r)
