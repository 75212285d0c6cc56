-- ===== src/Conn/Tcp/Life.antt =====
-- The life of each connection: what the server knows of it and what its user was told agree.
pub mod Change
pub mod Operations
pub mod Opening
pub mod Events
pub mod Steps
use mathlib.Core.Path.{subst}
use slimstream.Base.{
  ℕ, ◌+◌, ◌≤◌, ◌≡◌, ◌≢◌, refl, sym, ap, ◌∙◌, Bool, true, false, arith, Option, none, some, List, [],
  ◌∷◌, ◌++◌, if_intro, inl, inr, ℕ_discrete, ◌==◌,
}
use slimstream.Proto.Wire.{Bytes}
use slimstream.Proto.Streamer.State.{find, assign}
use slimstream.Conn.Tcp.State.{
  Waiting, Connection, make_connection, Call, on_start, on_open, on_close, on_stop, on_data,
  Handler, stop_connection, remove_connection, Server,
}
use slimstream.Conn.Tcp.Server.{call, submit, put, add_connection, erase_all}
use slimstream.Conn.Tcp.Phase.{Phase, phase, advance_from}
use slimstream.Conn.Tcp.Vector.{about}

abbrev pub conn : Bool → Bool → Waiting → Option Connection
conn opened is_open w = some (record { opened = opened; is_open = is_open; waiting = w })

-- The states of the connection `k`: what the vector has of it, the handlers for it, and its phase. The
-- connection that is `opening` has its open callback running.
pub data Life (opening : Option ℕ) (k : ℕ)
    : Option Connection → List Handler → Option Phase → Type 0 where
  unborn : Life opening k none [] (some Phase.unborn)
  accepting : {o : Bool} → Life opening k (conn false o Waiting.accepting) [] (some Phase.waiting)
  opens :
      {o : Bool}
      → opening ≡ some k
      → Life opening k (conn true o Waiting.accepting) [] (some Phase.live)
  reading : {o : Bool} → Life opening k (conn true o Waiting.reading) [] (some Phase.live)
  refused :
      {o : Bool}
      → Life opening k (conn false o Waiting.nothing) (stop_connection k ∷ []) (some Phase.waiting)
  closing :
      {o : Bool}
      → Life opening k (conn false o Waiting.nothing) (stop_connection k ∷ []) (some Phase.closed)
  leaving :
      {o : Bool}
      → Life opening k (conn false o Waiting.nothing) (remove_connection k ∷ []) (some Phase.ended)
  gone : Life opening k none [] (some Phase.ended)

abbrev pub LifeAt : Option ℕ → ℕ → Server → Type 0
LifeAt o k s = Life o k (find k s.connections) (about k s.handlers) (phase k s.calls)

pub record Alive (opening : Option ℕ) (s : Server) : Type 0 where
  pub life : (k : ℕ) → LifeAt opening k s
  pub fresh : (k : ℕ) → s.next_id ≤ k → phase k s.calls ≡ some Phase.unborn

-- The states of a connection follow from what its vector, handlers and calls become.
pub Life-as :
    {o : Option ℕ} {k : ℕ} {c c' : Option Connection} {hs hs' : List Handler} {p p' : Option Phase}
    → c' ≡ c
    → hs' ≡ hs
    → p' ≡ p
    → Life o k c hs p
    → Life o k c' hs' p'
Life-as {o} {k} {c} {c'} {hs} {hs'} {p} {p'} ec eh ep l =
    subst (λ c. Life o k c hs' p') (sym ec)
      (subst (λ hs. Life o k c hs p') (sym eh) (subst (Life o k c hs) (sym ep) l))

none_opens : {k : ℕ} → Option.none ≡ some k → ⊥
none_opens e = cc

-- Nothing but an opening connection depends on which one that is.
pub Life-opening :
    {k : ℕ} {c : Option Connection} {hs : List Handler} {p : Option Phase} (o : Option ℕ)
    → Life none k c hs p
    → Life o k c hs p
Life-opening o unborn = unborn
Life-opening o accepting = accepting
Life-opening o (opens e) = absurd (none_opens e)
Life-opening o reading = reading
Life-opening o refused = refused
Life-opening o closing = closing
Life-opening o leaving = leaving
Life-opening o gone = gone

-- What is known of a connection whose phase is unborn.
pub record Unborn (c : Option Connection) (hs : List Handler) : Type 0 where
  pub absent : c ≡ none
  pub quiet : hs ≡ []

unborn-Life :
    {o : Option ℕ} {k : ℕ} {c : Option Connection} {hs : List Handler} {p : Option Phase}
    → p ≡ some Phase.unborn
    → Life o k c hs p
    → Unborn c hs
unborn-Life e unborn = record { absent = refl; quiet = refl }
unborn-Life e accepting = absurd cc
unborn-Life e (opens f) = absurd cc
unborn-Life e reading = absurd cc
unborn-Life e refused = absurd cc
unborn-Life e closing = absurd cc
unborn-Life e leaving = absurd cc
unborn-Life e gone = absurd cc

pub phase-call :
    (k : ℕ) (c : Call) (cs : List (ℕ × Call)) → phase k ((k, c) ∷ cs) ≡ advance_from c (phase k cs)
unfolding phase
phase-call k c cs = ground arith

pub phase-call_other :
    (j k : ℕ) (c : Call) (cs : List (ℕ × Call)) → k ≢ j → phase j ((k, c) ∷ cs) ≡ phase j cs
unfolding phase
phase-call_other j k c cs n = ground (arith, n)
