-- ===== src/Conn/Tcp/Limit/Steps.antt =====
-- The limit along the steps of a calm server.
use mathlib.Core.Path.{subst}
use slimstream.Base.{
  ℕ, ◌≤◌, ◌≡◌, ◌≢◌, refl, sym, ap, ◌∙◌, Bool, true, false, not, ◌&&◌, ◌||◌, arith, Option, none,
  some, List, [], ◌∷◌, if_intro, if_cases,
}
use slimstream.Proto.Wire.{Bytes}
use slimstream.Proto.Streamer.State.{find, count_if}
use slimstream.Conn.Tcp.State.{
  Waiting, Connection, make_connection, on_open, on_data, Handler, stop_connection,
  remove_connection, Server, make_server,
}
use slimstream.Conn.Tcp.Server.{
  call, put, added, add_connection, erase_all, start_acceptor, start, close_socket, start_reading,
  open_connection, accepted, received, remove, run_handler, run_first, run_next,
}
use slimstream.Conn.Tcp.Phase.{Phase, phase}
use slimstream.Conn.Tcp.Vector.{find-assign}
use slimstream.Conn.Tcp.Life.{Alive}
use slimstream.Conn.Tcp.Life.Change.{Defined, defined, from_defined}
use slimstream.Conn.Tcp.Life.Operations.{not_born}
use slimstream.Conn.Tcp.Life.Events.{accepting-Life, reading-Life, Life-found}
use slimstream.Conn.Tcp.Life.Steps.{Reachable-Alive}
use slimstream.Conn.Tcp.Limit.{
  is_accepting, total_accepting, total_opened, Calm, begins, accepts, receives, runs, closes,
  one_if, count_if-assign, count_if-push, count_if-erase_all,
}
use slimstream.Conn.Tcp.Limit.Room.{Room, accepts_one, close_connection-Room, Calm-Reachable}
use slimstream.Conn.Tcp.Limit.Opening.{Opened, after_open-Room}

accepted-Room :
    {m : ℕ} {c : Connection} (error : Bool) (k : ℕ) (s : Server)
    → (error ≡ false → s.handlers ≡ [])
    → find k s.connections ≡ some c
    → c.waiting ≡ Waiting.accepting
    → Alive none s
    → Room m s
    → Defined (Room m) (accepted error k c s)
unfolding accepted open_connection
accepted-Room {m} {c} error k s h f w l v =
    let known = accepting-Life w (Life-found k s f l) in
    let one = accepts_one c w in
    if_cases (Defined (Room m)) (error || not (not error))
      (λ e.
        defined
          (close_connection-Room k (record c { is_open = not error }) s f (omega (arith, one)) v))
      (λ e.
        if_cases {A = Option Server} (λ o. Defined (Room m) (start_reading k o)) c.opened
          (λ z. absurd (both z known.opened_as))
          (λ z.
            after_open-Room k _ (find-assign k _ s.connections) w
              (opened (h (ground (arith, e))) known.told known.opened_as)))
  where
    both : {b : Bool} → b ≡ true → b ≡ false → ⊥
    both e f = cc

    opened :
        s.handlers ≡ []
        → phase k s.calls ≡ some Phase.waiting
        → c.opened ≡ false
        → Opened k m (call k on_open (put k (record c { opened = true; is_open = not error }) s))
    opened q t z =
        let d = record c { opened = true; is_open = not error } in
        let a = count_if-assign is_accepting k d s.connections f in
        let b = count_if-assign (λ c. c.opened) k d s.connections f in
        let positive =
          count_if-assign is_accepting k (record c { waiting = Waiting.nothing }) s.connections f in
        let ad = accepts_one d w in
        let ac = accepts_one c w in
        let oc : one_if c.opened ≡ 0 = ap one_if z in
        record {
          limit = v.limit;
          started = v.started;
          quiet = q;
          last = omega (arith, a, ad, ac, positive, v.one);
          total = (omega (arith, b, oc), omega (arith, a, b, ad, ac, oc, positive, v.total));
          other = λ e.
              not_born false t
                (ap (λ j. phase j s.calls) (sym e) ∙ l.fresh s.next_id (omega arith));
        }

received-Room :
    {m : ℕ} {c : Connection} (error : Bool) (bytes : Bytes) (k : ℕ) (s : Server)
    → find k s.connections ≡ some c
    → c.waiting ≡ Waiting.reading
    → Alive none s
    → Room m s
    → Room m (received error bytes k c s)
unfolding received
received-Room {m} {c} error bytes k s f w l v =
    let known = reading-Life w (Life-found k s f l) in
    let one : one_if c.opened ≡ 1 = ap one_if known.opened_as in
    if_intro (Room m) error (close_connection-Room k c s f (omega (arith, one)) v) (read bytes)
  where
    read : (bs : Bytes) → Room m (elim bs [ [] ↦ s | x ∷ xs ↦ call k (on_data (x ∷ xs)) s ])
    read [] = v
    read (x ∷ xs) = record {
      limit = v.limit;
      started = v.started;
      one = v.one;
      total = v.total;
      shut = v.shut;
      spare = v.spare;
    }

-- the oldest handler runs
not_empty : {A : Type 0} {x : A} {xs ys : List A} → xs ≡ x ∷ ys → xs ≢ []
not_empty e z = cc

-- A connection is removed, and with the acceptor back another one is added.
replaced-Room :
    {m : ℕ} {h : Handler} (k : ℕ) (hs : List Handler) (s : Server)
    → s.handlers ≡ h ∷ hs
    → s.acceptor ≡ false
    → Room m s
    → Room m (
        added
          (record s { acceptor = true; connections = erase_all k s.connections; handlers = hs }))
replaced-Room k hs s e down v =
    let new = record make_connection { waiting = Waiting.accepting } in
    let less = count_if-erase_all is_accepting k s.connections in
    let fewer = count_if-erase_all (λ c. c.opened) k s.connections in
    let a = count_if-push is_accepting s.next_id new (erase_all k s.connections) in
    let b = count_if-push (λ c. c.opened) s.next_id new (erase_all k s.connections) in
    let z = v.shut down in
    let r = v.spare down (not_empty e) in
    record {
      limit = v.limit;
      started = v.started;
      one = omega (arith, a, less, z);
      total = omega (arith, a, b, less, fewer, z, r);
      shut = λ z. absurd (up z);
      spare = λ z n. absurd (up z);
    }
  where
    up : true ≡ false → ⊥
    up e = cc

run_handler-Room :
    {m : ℕ} (h : Handler) (hs : List Handler) (s : Server)
    → s.handlers ≡ h ∷ hs
    → Room m s
    → Defined (Room m) (run_handler h (record s { handlers = hs }))
unfolding add_connection start_acceptor
run_handler-Room (stop_connection k) hs s e v = defined (record {
  limit = v.limit;
  started = v.started;
  one = v.one;
  total = v.total;
  shut = v.shut;
  spare = λ z n. v.spare z (not_empty e);
})
run_handler-Room {m} (remove_connection k) hs s e v =
    if_cases (Defined (Room m)) (s.started && not s.acceptor)
      (λ t. let down : s.acceptor ≡ false = ground (arith, t) in reopens down)
      (λ f.
        let up : s.acceptor ≡ true = ground (arith, f, v.started) in
        defined (record {
          limit = v.limit;
          started = v.started;
          one = omega (arith, less, v.one);
          total = omega (arith, less, fewer, v.total);
          shut = λ z. absurd (both up z);
          spare = λ z n. absurd (both up z);
        }))
  where
    both : {b : Bool} → b ≡ true → b ≡ false → ⊥
    both e f = cc

    less : count_if is_accepting (erase_all k s.connections) ≤ total_accepting s
    less = count_if-erase_all is_accepting k s.connections

    fewer : count_if (λ c. c.opened) (erase_all k s.connections) ≤ total_opened s
    fewer = count_if-erase_all (λ c. c.opened) k s.connections

    reopens :
        s.acceptor ≡ false
        → Defined (Room m) (add_connection (start_acceptor (remove k (record s { handlers = hs }))))
    reopens down =
        if_cases {A = Server} (λ t. Defined (Room m) (add_connection t)) s.acceptor
          (λ up. absurd (both up down)) (λ _. defined (replaced-Room k hs s e down v))

run_first-Room :
    {m : ℕ} (hs : List Handler) (s : Server)
    → s.handlers ≡ hs
    → Room m s
    → Defined (Room m) (run_first hs s)
run_first-Room [] s e v = defined v
run_first-Room (h ∷ hs) s e v = run_handler-Room h hs s e v

close-Room :
    {m : ℕ} {c : Connection} (k : ℕ) (s : Server)
    → find k s.connections ≡ some c
    → Room m s
    → Room m (put k (close_socket c) s)
close-Room {m} {c} k s f v =
    let a = count_if-assign is_accepting k (close_socket c) s.connections f in
    let b = count_if-assign (λ c. c.opened) k (close_socket c) s.connections f in
    record {
      limit = v.limit;
      started = v.started;
      one = omega (arith, a, v.one);
      total = omega (arith, a, b, v.total);
      shut = λ z. let y = v.shut z in omega (arith, a, y);
      spare = λ z n. let y = v.spare z n in omega (arith, b, y);
    }

start-Room : (m : ℕ) → 1 ≤ m → Defined (Room m) (start (make_server m))
unfolding start add_connection start_acceptor make_server count_if
start-Room m p = defined (record {
  limit = refl;
  started = refl;
  one = omega arith;
  total = omega (arith, p);
  shut = λ e. absurd cc;
  spare = λ e n. absurd cc;
})

-- A server with a limit of at least one connection, that is started once and not stopped, and accepts a
-- connection only when no handler waits, never has more connections that are open or wait for an accept
-- than its limit; at most one waits for its accept, and none does without an acceptor.
pub Calm-Room : {m : ℕ} {s : Server} → 1 ≤ m → Calm m s → Room m s
unfolding run_next
Calm-Room {m} p (begins e) = from_defined (subst (Defined (Room m)) e (start-Room m p))
Calm-Room {m} p (accepts {s} {c} error k r h f w e) = from_defined (
    subst (Defined (Room m)) e
      (accepted-Room error k s h f w (Reachable-Alive (Calm-Reachable r)) (Calm-Room p r)))
Calm-Room {m} p (receives {s} {c} error bytes k r f w) =
    received-Room error bytes k s f w (Reachable-Alive (Calm-Reachable r)) (Calm-Room p r)
Calm-Room {m} p (runs {s} r e) =
    from_defined (subst (Defined (Room m)) e (run_first-Room s.handlers s refl (Calm-Room p r)))
Calm-Room {m} p (closes {s} {c} k r f) = close-Room k s f (Calm-Room p r)
