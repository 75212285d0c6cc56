-- ===== src/Conn/Tcp/Limit/Room.antt =====
-- A calm server keeps to its limit.
use slimstream.Base.{
  ℕ, ◌+◌, ◌≤◌, ◌<◌, ◌≡◌, ◌≢◌, refl, ap, Bool, true, false, arith, some, List, [], if_intro,
}
use slimstream.Proto.Streamer.State.{find}
use slimstream.Conn.Tcp.State.{Waiting, Connection, Call, stop_connection, Server}
use slimstream.Conn.Tcp.Server.{submit, put, close_connection}
use slimstream.Conn.Tcp.Steps as Steps
use slimstream.Conn.Tcp.Limit.{
  is_accepting, total_accepting, total_opened, Calm, begins, accepts, receives, runs, closes,
  one_if, count_if-assign,
}

-- There is room for the connection that waits for its accept; without an acceptor no connection does,
-- and there is room for one if a handler waits.
pub record Room (m : ℕ) (s : Server) : Type 0 where
  pub limit : s.max_connections ≡ m
  pub started : s.started ≡ true
  pub one : total_accepting s ≤ 1
  pub total : total_accepting s + total_opened s ≤ m
  pub shut : s.acceptor ≡ false → total_accepting s ≡ 0
  pub spare : s.acceptor ≡ false → s.handlers ≢ [] → total_opened s < m

pub Calm-Reachable : {m : ℕ} {s : Server} → Calm m s → Steps.Reachable m s
Calm-Reachable (begins e) = Steps.stepped Steps.made (Steps.starts e)
Calm-Reachable (accepts error k r h f w e) =
    Steps.stepped (Calm-Reachable r) (Steps.accepts error k f w e)
Calm-Reachable (receives error bytes k r f w) =
    Steps.stepped (Calm-Reachable r) (Steps.receives error bytes k f w)
Calm-Reachable (runs r e) = Steps.stepped (Calm-Reachable r) (Steps.runs e)
Calm-Reachable (closes k r f) = Steps.stepped (Calm-Reachable r) (Steps.closes k f)

-- what a connection counts for
pub accepts_one : (c : Connection) → c.waiting ≡ Waiting.accepting → one_if (is_accepting c) ≡ 1
accepts_one c w = rw w refl

pub reads_one : (c : Connection) → c.waiting ≡ Waiting.reading → one_if (is_accepting c) ≡ 0
reads_one c w = rw w refl

pub opened_one : (c : Connection) {b : Bool} → c.opened ≡ b → one_if c.opened ≡ one_if b
opened_one c e = ap one_if e

-- A connection that is closed leaves room.
pub put_closed-Room :
    {m : ℕ} {c : Connection} {calls : List (ℕ × Call)} (k : ℕ) (d : Connection) (s : Server)
    → find k s.connections ≡ some c
    → d.opened ≡ false
    → d.waiting ≡ Waiting.nothing
    → 1 ≤ one_if (is_accepting c) + one_if c.opened
    → Room m s
    → Room m (submit (stop_connection k) (put k d (record s { calls = calls })))
put_closed-Room {m} {c} k d s f o w p v =
    let a = count_if-assign is_accepting k d s.connections f in
    let b = count_if-assign (λ c. c.opened) k d s.connections f in
    let da : one_if (is_accepting d) ≡ 0 = rw w refl in
    let db : one_if d.opened ≡ 0 = rw o refl in
    record {
      limit = v.limit;
      started = v.started;
      one = omega (arith, a, da, v.one);
      total = omega (arith, a, b, da, db, v.total);
      shut = λ e. let z = v.shut e in omega (arith, a, da, z);
      spare = λ e h. let z = v.shut e in omega (arith, a, b, da, db, z, p, v.total);
    }

pub close_connection-Room :
    {m : ℕ} {c : Connection} (k : ℕ) (d : Connection) (s : Server)
    → find k s.connections ≡ some c
    → 1 ≤ one_if (is_accepting c) + one_if c.opened
    → Room m s
    → Room m (close_connection k d s)
unfolding close_connection
close_connection-Room {m} k d s f p v =
    if_intro {A = Server}
      (λ t. Room m (
        submit (stop_connection k)
          (put k (record d { opened = false; waiting = Waiting.nothing }) t)))
      d.opened (put_closed-Room k _ s f refl refl p v) (put_closed-Room k _ s f refl refl p v)
