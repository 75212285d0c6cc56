-- ===== src/Conn/Tcp/Life/Steps.antt =====
-- The life of each connection, along the steps of the server.
use mathlib.Core.Path.{subst}
use slimstream.Base.{
  ℕ, ◌≡◌, ◌≢◌, refl, sym, ap, ◌∙◌, not, ◌&&◌, Option, none, some, List, [], ◌∷◌, ◌++◌, if_intro,
}
use slimstream.Proto.Streamer.State.{find, update_all}
use slimstream.Conn.Tcp.State.{
  Connection, on_stop, Handler, stop_connection, remove_connection, Server,
}
use slimstream.Conn.Tcp.Server.{
  call, put, start, stop, set_started, close_socket, remove, run_handler, run_first, run_next,
}
use slimstream.Conn.Tcp.Phase.{Phase, phase, advance_from}
use slimstream.Conn.Tcp.Vector.{
  about, about-submit, about-same, about-other, map_found, find-assign, find-erase_all,
  find-erase_all_other, find-update_all, id_of,
}
use slimstream.Conn.Tcp.Life.Change.{
  Defined, faulty, defined, from_defined, Elsewhere, Elsewhere-trans, put-Elsewhere, call-Elsewhere,
  submit-Elsewhere, alter,
}
use slimstream.Conn.Tcp.Life.{
  Life, unborn, accepting, opens, reading, refused, closing, leaving, gone, Alive, Life-as,
  Life-opening, phase-call,
}
use slimstream.Conn.Tcp.Life.Operations.{
  add_connection-Alive, start_acceptor-Alive, stop_acceptor-Alive,
}
use slimstream.Conn.Tcp.State.{make_server}
use slimstream.Conn.Tcp.Steps.{
  Step, starts, stops, accepts, receives, runs, closes, Reachable, made, stepped,
}
use slimstream.Conn.Tcp.Life.Events.{accepted-Alive, received-Alive, Life-found}

-- the stop handler of a connection
stop-Life :
    {k j : ℕ} {c : Option Connection} {hs : List Handler} {p : Option Phase}
    → Life none k c (stop_connection j ∷ hs) p
    → Life none k c (hs ++ remove_connection k ∷ []) (advance_from on_stop p)
stop-Life refused = leaving
stop-Life closing = leaving

-- the handler that removes it
remove-Life :
    {k j : ℕ} {c : Option Connection} {hs : List Handler} {p : Option Phase}
    → Life none k c (remove_connection j ∷ hs) p
    → Life none k none hs p
remove-Life leaving = gone

-- A connection with a handler is born.
handled :
    {k : ℕ} {c : Option Connection} {h : Handler} {hs : List Handler} {p : Option Phase}
    → Life none k c (h ∷ hs) p
    → p ≢ some Phase.unborn
handled refused e = cc
handled closing e = cc
handled leaving e = cc

-- A connection of the vector is born.
found_born :
    {k : ℕ} {c : Connection} {hs : List Handler} {p : Option Phase}
    → Life none k (some c) hs p
    → p ≢ some Phase.unborn
found_born accepting e = cc
found_born (opens f) e = cc
found_born reading e = cc
found_born refused e = cc
found_born closing e = cc
found_born leaving e = cc

-- A closed socket changes nothing else.
close-Life :
    {k : ℕ} {c : Option Connection} {hs : List Handler} {p : Option Phase}
    → Life none k c hs p
    → Life none k (map_found close_socket c) hs p
close-Life unborn = unborn
close-Life accepting = accepting
close-Life (opens f) = opens f
close-Life reading = reading
close-Life refused = refused
close-Life closing = closing
close-Life leaving = leaving
close-Life gone = gone

-- the life of the connection whose handler is the oldest
head-Life :
    (h : Handler) (hs : List Handler) (s : Server)
    → s.handlers ≡ h ∷ hs
    → Alive none s
    → Life none
        (id_of h)
        (find (id_of h) s.connections)
        (h ∷ about (id_of h) hs)
        (phase (id_of h) s.calls)
head-Life h hs s e v =
    Life-as refl (sym (ap (about (id_of h)) e ∙ about-same (id_of h) h hs refl)) refl
      (v.life (id_of h))

-- the handlers of the others when the oldest handler is taken
taken-Elsewhere :
    (h : Handler) (hs : List Handler) (s : Server)
    → s.handlers ≡ h ∷ hs
    → Elsewhere (id_of h) s (record s { handlers = hs })
taken-Elsewhere h hs s e = record {
  same_found = λ j n. refl;
  same_handlers = λ j n. sym (ap (about j) e ∙ about-other j h hs n);
  same_phase = λ j n. refl;
  same_next = refl;
}

removed-Elsewhere : (k : ℕ) (s : Server) → Elsewhere k s (remove k s)
removed-Elsewhere k s = record {
  same_found = λ j n. find-erase_all_other j k s.connections n;
  same_handlers = λ j n. refl;
  same_phase = λ j n. refl;
  same_next = refl;
}

removed-Alive :
    (k : ℕ) (hs : List Handler) (s : Server)
    → s.handlers ≡ remove_connection k ∷ hs
    → Alive none s
    → Alive none (remove k (record s { handlers = hs }))
removed-Alive k hs s e v =
    let l = head-Life (remove_connection k) hs s e v in
    alter k s _ (λ j c hs p n. Life-opening _)
      (Elsewhere-trans (taken-Elsewhere (remove_connection k) hs s e)
        (removed-Elsewhere k (record s { handlers = hs })))
      (handled l) (Life-as (find-erase_all k s.connections) refl refl (remove-Life l)) v

run_handler-Alive :
    (h : Handler) (hs : List Handler) (s : Server)
    → s.handlers ≡ h ∷ hs
    → Alive none s
    → Defined (Alive none) (run_handler h (record s { handlers = hs }))
run_handler-Alive (stop_connection k) hs s e v =
    let l = head-Life (stop_connection k) hs s e v in
    let t = record s { handlers = hs } in
    defined (
      alter k s _ (λ j c hs p n. Life-opening _)
        (Elsewhere-trans (taken-Elsewhere (stop_connection k) hs s e) (
          Elsewhere-trans (call-Elsewhere k on_stop t)
            (submit-Elsewhere (remove_connection k) (call k on_stop t))))
        (handled l)
        (Life-as refl (about-submit k hs (remove_connection k) refl) (phase-call k on_stop s.calls)
          (stop-Life l))
        v)
run_handler-Alive (remove_connection k) hs s e v =
    let w = removed-Alive k hs s e v in
    if_intro (Defined (Alive none)) (s.started && not s.acceptor)
      (add_connection-Alive _ (start_acceptor-Alive _ w)) (defined w)

run_first-Alive :
    (hs : List Handler) (s : Server)
    → s.handlers ≡ hs
    → Alive none s
    → Defined (Alive none) (run_first hs s)
run_first-Alive [] s e v = defined v
run_first-Alive (h ∷ hs) s e v = run_handler-Alive h hs s e v

start-Alive : (s : Server) → Alive none s → Defined (Alive none) (start s)
unfolding start
start-Alive s v = begun (add_connection-Alive _ (start_acceptor-Alive s v))
  where
    begun : {o : Option Server} → Defined (Alive none) o → Defined (Alive none) (set_started o)
    begun faulty = faulty
    begun (defined w) = defined (record { life = w.life; fresh = w.fresh })

stop-Alive : (s : Server) → Alive none s → Alive none (stop s)
unfolding stop
stop-Alive s v = closed (stop_acceptor-Alive _ (record { life = v.life; fresh = v.fresh }))
  where
    closed :
        {t : Server}
        → Alive none t
        → Alive none (record t { connections = update_all close_socket t.connections })
    closed {t} w = record {
      life = λ k.
          Life-as (find-update_all k close_socket t.connections) refl refl (close-Life (w.life k));
      fresh = w.fresh;
    }

close-Alive :
    {c : Connection} (k : ℕ) (s : Server)
    → find k s.connections ≡ some c
    → Alive none s
    → Alive none (put k (close_socket c) s)
close-Alive {c} k s f v =
    let l = Life-found k s f v in
    alter k s _ (λ j c hs p n. Life-opening _) (put-Elsewhere k (close_socket c) s) (found_born l)
      (Life-as (find-assign k (close_socket c) s.connections) refl refl (close-Life l)) v

step-Alive : {s s' : Server} → Step s s' → Alive none s → Alive none s'
unfolding run_next
step-Alive (starts {s} e) v = from_defined (subst (Defined (Alive none)) e (start-Alive s v))
step-Alive (stops {s}) v = stop-Alive s v
step-Alive (accepts {s} {c} error k f w e) v =
    from_defined (subst (Defined (Alive none)) e (accepted-Alive error k c s w f v))
step-Alive (receives {s} {c} error bytes k f w) v = received-Alive error bytes k c s w f v
step-Alive (runs {s} e) v =
    from_defined (subst (Defined (Alive none)) e (run_first-Alive s.handlers s refl v))
step-Alive (closes {s} k f) v = close-Alive k s f v

-- Whatever accepts and reads end, whatever handlers run, and whenever the server starts and stops: of
-- each connection the user is told in the order start, open, data, close, stop, with open, data and
-- close left out if the accept failed; a connection waits for one asynchronous call or has one handler,
-- is open exactly between its open and its close callback, and leaves the vector after its stop callback.
pub Reachable-Alive : {m : ℕ} {s : Server} → Reachable m s → Alive none s
unfolding make_server phase find about
Reachable-Alive made = record { life = λ k. unborn; fresh = λ k l. refl }
Reachable-Alive (stepped r p) = step-Alive p (Reachable-Alive r)
