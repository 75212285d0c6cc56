-- ===== src/Conn/Tcp/Limit/Opening.antt =====
-- A connection is opened within the limit.
use slimstream.Base.{
  ℕ, ◌+◌, ◌≤◌, ◌<◌, ◌≡◌, ◌≢◌, ap, ◌∙◌, Bool, true, false, ◌||◌, arith, Option, some, [], if_intro,
  if_cases, ltb, ◌==◌,
}
use slimstream.Proto.Streamer.State.{find, count_if}
use slimstream.Conn.Tcp.State.{Waiting, Connection, make_connection, Server}
use slimstream.Conn.Tcp.Server.{
  added, add_connection, stop_acceptor, after_open, read_at, start_reading,
}
use slimstream.Conn.Tcp.Vector.{find-push_other}
use slimstream.Conn.Tcp.Life.Change.{Defined, faulty, defined}
use slimstream.Conn.Tcp.Limit.{
  is_accepting, total_accepting, total_opened, count_if-assign, count_if-push,
}
use slimstream.Conn.Tcp.Limit.Room.{Room, accepts_one}

-- The counts when an accepted connection reads.
record Counts (t : Server) (k : ℕ) : Type 0 where
  accepts_less :
      count_if is_accepting (read_at (find k t.connections) k t.connections) + 1 ≡ total_accepting t
  opened_same :
      count_if (λ c. c.opened) (read_at (find k t.connections) k t.connections) ≡ total_opened t

read-Counts :
    {d : Connection} (k : ℕ) (t : Server)
    → find k t.connections ≡ some d
    → d.waiting ≡ Waiting.accepting
    → Counts t k
read-Counts {d} k t f w =
    let e = ap (λ o. read_at o k t.connections) f in
    let r = record d { waiting = Waiting.reading } in
    let a = count_if-assign is_accepting k r t.connections f in
    let b = count_if-assign (λ c. c.opened) k r t.connections f in
    let ea = ap (count_if is_accepting) e in
    let eb = ap (count_if (λ c. c.opened)) e in
    let one = accepts_one d w in
    record { accepts_less = omega (arith, a, ea, one); opened_same = omega (arith, b, eb) }

-- A connection is opened: what the counts are before the server looks for room.
pub record Opened (k m : ℕ) (s : Server) : Type 0 where
  pub limit : s.max_connections ≡ m
  pub started : s.started ≡ true
  pub quiet : s.handlers ≡ []
  pub last : total_accepting s ≡ 1
  pub total : 1 ≤ total_opened s × total_opened s ≤ m
  pub other : s.next_id ≢ k

-- The next connection is added, and the opened one reads.
grown-Room :
    {m : ℕ} {d : Connection} (k : ℕ) (s : Server)
    → find k s.connections ≡ some d
    → d.waiting ≡ Waiting.accepting
    → Opened k m s
    → s.acceptor ≡ true
    → total_opened s < m
    → Room m (record (added s) {
      connections = read_at (find k (added s).connections) k (added s).connections;
    })
grown-Room {m} k s f w v up room =
    let new = record make_connection { waiting = Waiting.accepting } in
    let n = read-Counts k (added s) (find-push_other k s.next_id new s.connections v.other ∙ f) w in
    let a = count_if-push is_accepting s.next_id new s.connections in
    let b = count_if-push (λ c. c.opened) s.next_id new s.connections in
    let na = n.accepts_less in
    let nb = n.opened_same in
    record {
      limit = v.limit;
      started = v.started;
      one = omega (arith, a, na, v.last);
      total = omega (arith, a, b, na, nb, v.last, room);
      shut = λ e. absurd (both up e);
      spare = λ e h. absurd (both up e);
    }
  where
    both : {b : Bool} → b ≡ true → b ≡ false → ⊥
    both e g = cc

pub after_open-Room :
    {m : ℕ} {d : Connection} (k : ℕ) (s : Server)
    → find k s.connections ≡ some d
    → d.waiting ≡ Waiting.accepting
    → Opened k m s
    → Defined (Room m) (start_reading k (after_open s))
unfolding after_open add_connection stop_acceptor
after_open-Room {m} k s f w v =
    if_cases {A = Option Server} (λ o. Defined (Room m) (start_reading k o))
      (total_opened s == 0 || ltb (total_opened s) s.max_connections)
      (λ e.
        if_cases {A = Option Server} (λ o. Defined (Room m) (start_reading k o)) s.acceptor
          (λ up. defined (grown-Room k s f w v up (ground (arith, e, v.total.0, v.limit))))
          (λ z. faulty))
      (λ e. defined (
        if_intro {A = Server}
          (λ t. Room m (record t { connections = read_at (find k t.connections) k t.connections }))
          s.acceptor (full false) (full s.acceptor)))
  where
    full :
        (b : Bool)
        → Room m (record s {
          acceptor = b;
          connections = read_at (find k s.connections) k s.connections;
        })
    full b =
        let n = read-Counts k s f w in
        let na = n.accepts_less in
        let nb = n.opened_same in
        record {
          limit = v.limit;
          started = v.started;
          one = omega (arith, na, v.last);
          total = omega (arith, na, nb, v.last, v.total.1);
          shut = λ z. omega (arith, na, v.last);
          spare = λ z h. absurd (h v.quiet);
        }
