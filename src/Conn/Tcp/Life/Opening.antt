-- ===== src/Conn/Tcp/Life/Opening.antt =====
-- A connection is opened: its open callback, the next connection, and its first read.
use slimstream.Base.{
  ℕ, ◌≡◌, ◌≢◌, refl, sym, ap, ◌∙◌, true, false, ◌||◌, arith, Option, none, some, List, [], ◌∷◌,
  if_intro, ◌==◌, ltb,
}
use slimstream.Proto.Streamer.State.{find, count_if}
use slimstream.Conn.Tcp.State.{Waiting, Connection, on_start, on_open, Handler, Server}
use slimstream.Conn.Tcp.Server.{
  call, put, added, add_connection, stop_acceptor, after_open, read_at, start_reading,
}
use slimstream.Conn.Tcp.Phase.{Phase, phase, advance_from}
use slimstream.Conn.Tcp.Vector.{about, map_found, find-assign}
use slimstream.Conn.Tcp.Life.Change.{
  Defined, faulty, defined, Elsewhere, Elsewhere-trans, put-Elsewhere, call-Elsewhere, alter,
}
use slimstream.Conn.Tcp.Life.{
  Life, unborn, accepting, opens, reading, refused, closing, leaving, gone, Alive, Life-as,
  Life-opening, phase-call, phase-call_other,
}
use slimstream.Conn.Tcp.Life.Operations.{added-Alive, not_born}

-- A connection whose open callback runs: all are alive, and its user knows it as live.
pub record Opening (k : ℕ) (s : Server) : Type 0 where
  pub alive : Alive (some k) s
  pub told : phase k s.calls ≡ some Phase.live

pub opened-Opening :
    (k : ℕ) (c : Connection) (s : Server)
    → about k s.handlers ≡ []
    → phase k s.calls ≡ some Phase.waiting
    → c.waiting ≡ Waiting.accepting
    → Alive none s
    → Opening k (call k on_open (put k (record c { opened = true }) s))
opened-Opening k c s q t w v =
    let told : phase k ((k, on_open) ∷ s.calls) ≡ some Phase.live =
      phase-call k on_open s.calls ∙ ap (advance_from on_open) t in
    record {
      alive =
          alter k s _ (λ j c hs p n. Life-opening _)
            (Elsewhere-trans (put-Elsewhere k (record c { opened = true }) s)
              (call-Elsewhere k on_open (put k (record c { opened = true }) s)))
            (not_born false t)
            (Life-as
              (find-assign k _ s.connections
                ∙ ap (λ x. some (record c { opened = true; waiting = x })) w)
              q told (opens refl))
            v;
      told = told;
    }

added-Opening : (k : ℕ) (s : Server) → Opening k s → Opening k (added s)
added-Opening k s v = record {
  alive = added-Alive s v.alive;
  told =
      phase-call_other k s.next_id on_start s.calls (λ e.
        not_born true v.told
          (ap (λ j. phase j s.calls) (sym e) ∙ v.alive.fresh s.next_id (omega arith)))
      ∙ v.told;
}

stop_acceptor-Opening : (k : ℕ) (s : Server) → Opening k s → Opening k (stop_acceptor s)
unfolding stop_acceptor
stop_acceptor-Opening k s v =
    if_intro (Opening k) s.acceptor
      (record { alive = record { life = v.alive.life; fresh = v.alive.fresh }; told = v.told }) v

pub after_open-Opening : (k : ℕ) (s : Server) → Opening k s → Defined (Opening k) (after_open s)
unfolding after_open add_connection
after_open-Opening k s v =
    if_intro (Defined (Opening k))
      (count_if (λ c. c.opened) s.connections == 0
        || ltb (count_if (λ c. c.opened) s.connections) s.max_connections)
      (if_intro (Defined (Opening k)) s.acceptor (defined (added-Opening k s v)) faulty)
      (defined (stop_acceptor-Opening k s v))

read-Life :
    {o : Option ℕ} {k : ℕ} {c : Option Connection} {hs : List Handler} {p : Option Phase}
    → p ≡ some Phase.live
    → Life o k c hs p
    → Life none k (map_found (λ d. record d { waiting = Waiting.reading }) c) hs p
read-Life e unborn = absurd cc
read-Life e accepting = absurd cc
read-Life e (opens f) = reading
read-Life e reading = reading
read-Life e refused = absurd cc
read-Life e closing = absurd cc
read-Life e leaving = absurd cc
read-Life e gone = absurd cc

settle :
    {j k : ℕ} {c : Option Connection} {hs : List Handler} {p : Option Phase}
    → k ≢ j
    → Life (some k) j c hs p
    → Life none j c hs p
settle n unborn = unborn
settle n accepting = accepting
settle n (opens e) = absurd (n cc)
settle n reading = reading
settle n refused = refused
settle n closing = closing
settle n leaving = leaving
settle n gone = gone

read_at-Elsewhere :
    (o : Option Connection) (k : ℕ) (s : Server)
    → Elsewhere k s (record s { connections = read_at o k s.connections })
read_at-Elsewhere none k s = record {
  same_found = λ j n. refl;
  same_handlers = λ j n. refl;
  same_phase = λ j n. refl;
  same_next = refl;
}
read_at-Elsewhere (some c) k s = put-Elsewhere k _ s

find-read_at :
    (o : Option Connection) (k : ℕ) (m : List (ℕ × Connection))
    → find k m ≡ o
    → find k (read_at o k m) ≡ map_found (λ d. record d { waiting = Waiting.reading }) o
find-read_at none k m e = e
find-read_at (some c) k m e = find-assign k _ m

pub start_reading-Alive :
    {o : Option Server} (k : ℕ) → Defined (Opening k) o → Defined (Alive none) (start_reading k o)
start_reading-Alive k faulty = faulty
start_reading-Alive k (defined {s} v) = defined (
    alter k s _ (λ j c hs p n. settle n) (read_at-Elsewhere (find k s.connections) k s)
      (not_born true v.told)
      (Life-as (find-read_at (find k s.connections) k s.connections refl) refl refl
        (read-Life v.told (v.alive.life k)))
      v.alive)
