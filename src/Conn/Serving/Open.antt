-- ===== src/Conn/Serving/Open.antt =====
-- The open callback finds no session of its connection.
use mathlib.Core.Path.{subst}
use slimstream.Base.{
  ℕ, ◌≡◌, refl, sym, ap, ◌∙◌, Option, none, some, List, [], ◌∷◌, ◌==◌, Bool-cases, inl, inr, ◌++◌,
  if_true, if_false,
}
use slimstream.Util.Time.{Timestamp}
use slimstream.Proto.CommandSession.State.{Session}
use slimstream.Proto.Streamer.State.{StreamingApi, Streamer, find, make_streamer}
use slimstream.Proto.Streamer.Maps.{keys, add_key, drop_key, has_key, keys-erase}
use slimstream.Proto.Streamer.Sessions.{
  Reply, returned, add_session, on_slim_proto_close, on_slim_proto_data, on_slim_proto_open,
  open_session, close_session,
}
use slimstream.Proto.Streamer.Keys.{no_key, find-absent, drop-absent}
use slimstream.Proto.Streamer.Steps.Invariant.{
  Leaves, left, left_by, nothing, after_return, keys-add_at,
}
use slimstream.Conn.Tcp.State.{
  Server, Connection, Handler, Call, on_start, on_open, on_close, on_stop, on_data,
}
use slimstream.Conn.Tcp.Steps as TcpSteps
use slimstream.Conn.Tcp.Phase.{Phase, phase}
use slimstream.Conn.Serving.{command_callback, Served, made, calls, works}
use slimstream.Conn.Serving.Keys.{data-SameKeys, Work-keys}
use slimstream.Conn.Tcp.Life.{
  Life, unborn, accepting, opens, reading, refused, closing, leaving, gone, phase-call,
}
use slimstream.Conn.Tcp.Life.Steps.{Reachable-Alive}
use slimstream.Conn.Serving.Agrees.{
  live_of, open_call, before, Agrees, quiet-Agrees, open-Agrees, close-Agrees,
}

mapped :
    {X : Type 0} {P Q : X → Type 0} {r : Reply X} → ((x : X) → P x → Q x) → Leaves P r → Leaves Q r
mapped f (left p) = left (f _ p)
mapped f (left_by e p) = left_by e (f _ p)
mapped f nothing = nothing

module _ {T : Type 0} (api : StreamingApi T) (now : Timestamp) where
  opened-keys :
      (k : ℕ) (o : Option Session) (s : Streamer T)
      → find k s.command_sessions ≡ o
      → Leaves
          (λ (t : Streamer T). keys t.command_sessions ≡ add_key k (keys s.command_sessions))
          (open_session api now k o s)
  unfolding add_session
  opened-keys k none s e =
      left (keys-add_at (find k s.command_sessions) k _ s.command_sessions refl)
  opened-keys k (some c) s e = nothing

  closed-keys :
      (k : ℕ) (o : Option Session) (s : Streamer T)
      → find k s.command_sessions ≡ o
      → keys (close_session api now k o s).command_sessions ≡ drop_key k (keys s.command_sessions)
  closed-keys k none s e = sym (drop-absent k s.command_sessions e)
  closed-keys k (some c) s e = keys-erase k s.command_sessions

  called-Agrees :
      (t : Timestamp) (k : ℕ) (c : Call) (cs : List (ℕ × Call)) (s : Streamer T)
      → Agrees cs (keys s.command_sessions)
      → Leaves
          (λ (u : Streamer T). Agrees ((k, c) ∷ cs) (keys u.command_sessions))
          (command_callback api now t k c s)
  unfolding on_slim_proto_open on_slim_proto_data on_slim_proto_close
  called-Agrees t k on_start cs s v = left (quiet-Agrees k on_start cs _ (λ e. cc) (λ e. cc) v)
  called-Agrees t k on_stop cs s v = left (quiet-Agrees k on_stop cs _ (λ e. cc) (λ e. cc) v)
  called-Agrees t k on_close cs s v = left (
      subst (Agrees ((k, on_close) ∷ cs)) (sym (closed-keys k (find k s.command_sessions) s refl))
        (close-Agrees k cs _ v))
  called-Agrees t k (on_data bs) cs s v =
      mapped
        (λ u e.
          subst (Agrees ((k, on_data bs) ∷ cs)) (sym e)
            (quiet-Agrees k (on_data bs) cs _ (λ e. cc) (λ e. cc) v))
        (data-SameKeys api now _ k bs t (find k s.command_sessions) s refl refl)
  called-Agrees t k on_open cs s v =
      mapped (λ u e. subst (Agrees ((k, on_open) ∷ cs)) (sym e) (open-Agrees k cs _ v))
        (opened-keys k (find k s.command_sessions) s refl)

served-Agrees :
    {T : Type 0} {api : StreamingApi T} {cs : List (ℕ × Call)} {s : Streamer T}
    → Served api cs s
    → Agrees cs (keys s.command_sessions)
unfolding make_streamer keys phase has_key
served-Agrees (made now port format gain) = record {
  distinct = no_key;
  live = λ k p e. ap live_of e;
}
served-Agrees {api} (calls {cs} {s} now t k c r e) =
    after_return (subst (Leaves _) e (called-Agrees api now t k c cs s (served-Agrees r)))
served-Agrees {api} (works {cs} r w) = subst (Agrees cs) (sym (Work-keys api w)) (served-Agrees r)

-- a phase that is there at the end was there before
earlier_phase :
    (k : ℕ) (later cs : List (ℕ × Call)) (p : Phase)
    → phase k (later ++ cs) ≡ some p
    → (q : Phase) × (phase k cs ≡ some q)
unfolding phase
earlier_phase k [] cs p e = (p, e)
earlier_phase k ((j, c) ∷ later) cs p e = elim (Bool-cases (j == k)) [
  | inl t ↦
      let (q, was, goes) = before c (phase k (later ++ cs)) p (sym (if_true (j == k) _ _ t) ∙ e) in
      earlier_phase k later cs q was
  | inr f ↦ earlier_phase k later cs p (sym (if_false (j == k) _ _ f) ∙ e)
]

some_phase :
    {o : Option ℕ} {k : ℕ} {c : Option Connection} {hs : List Handler} {p : Option Phase}
    → Life o k c hs p
    → (q : Phase) × (p ≡ some q)
some_phase unborn = (_, refl)
some_phase accepting = (_, refl)
some_phase (opens e) = (_, refl)
some_phase reading = (_, refl)
some_phase refused = (_, refl)
some_phase closing = (_, refl)
some_phase leaving = (_, refl)
some_phase gone = (_, refl)

opened_at :
    {T : Type 0} (api : StreamingApi T) (now : Timestamp) (k : ℕ) (o : Option Session)
    (s : Streamer T)
    → o ≡ none
    → (t : Streamer T) × (open_session api now k o s ≡ returned t)
opened_at api now k none s e = (_, refl)
opened_at api now k (some c) s e = absurd cc

-- Behind a TCP server, whatever it and the Streamer have done: when the server calls the open callback
-- for a connection, the Streamer has no session of that connection, and so onSlimProtoOpen is defined and
-- returns.
pub open-returns :
    {T : Type 0} {m : ℕ} {server : Server} (api : StreamingApi T) (now : Timestamp) (k : ℕ)
    (later cs : List (ℕ × Call)) (s : Streamer T)
    → TcpSteps.Reachable m server
    → server.calls ≡ later ++ (k, on_open) ∷ cs
    → Served api cs s
    → (t : Streamer T) × (on_slim_proto_open api now k s ≡ returned t)
unfolding on_slim_proto_open
open-returns {server} api now k later cs s r e v =
    let (p, now_at) = some_phase ((Reachable-Alive r).life k) in
    let (q, then_at) =
      earlier_phase k later ((k, on_open) ∷ cs) p (ap (phase k) (sym e) ∙ now_at) in
    let (w, was, goes) = before on_open (phase k cs) q (sym (phase-call k on_open cs) ∙ then_at) in
    opened_at api now k (find k s.command_sessions) s (
      find-absent k s.command_sessions
        ((served-Agrees v).live k w was ∙ sym (open_call w q goes).0))
