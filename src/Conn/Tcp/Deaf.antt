-- ===== src/Conn/Tcp/Deaf.antt =====
-- A server that has lost its accept.
use mathlib.Core.Path.{subst}
use slimstream.Base.{
  ℕ, ◌+◌, ◌≡◌, refl, sym, ◌∙◌, Bool, true, false, arith, some, List, [], ◌∷◌, if_intro, if_cases,
  not, ◌&&◌,
}
use slimstream.Proto.Wire.{Bytes}
use slimstream.Proto.Streamer.State.{find}
use slimstream.Conn.Tcp.State.{
  Waiting, Connection, Handler, stop_connection, remove_connection, Server, Call, on_data,
}
use slimstream.Conn.Tcp.Server.{
  call, put, submit, close_socket, open_connection, accepted, received, run_next, run_first,
  run_handler, close_connection,
}
use slimstream.Conn.Tcp.Life.Change.{Defined, defined, from_defined}
use slimstream.Conn.Tcp.Limit.{
  is_accepting, total_accepting, one_if, count_if-assign, count_if-erase_all,
}
use slimstream.Conn.Tcp.Limit.Room.{accepts_one, reads_one}

-- What follows a state when the server is neither started nor stopped.
pub data After (s : Server) : Server → Type 0 where
  here : After s s
  accepts :
      {t u : Server} {c : Connection} (error : Bool) (k : ℕ)
      → After s t
      → find k t.connections ≡ some c
      → c.waiting ≡ Waiting.accepting
      → accepted error k c t ≡ some u
      → After s u
  receives :
      {t : Server} {c : Connection} (error : Bool) (bytes : Bytes) (k : ℕ)
      → After s t
      → find k t.connections ≡ some c
      → c.waiting ≡ Waiting.reading
      → After s (received error bytes k c t)
  runs : {t u : Server} → After s t → run_next t ≡ some u → After s u
  closes :
      {t : Server} {c : Connection} (k : ℕ)
      → After s t
      → find k t.connections ≡ some c
      → After s (put k (close_socket c) t)

-- The acceptor is there, but no connection waits for an accept, and `n` have been made so far.
pub record Deaf (n : ℕ) (s : Server) : Type 0 where
  pub up : s.acceptor ≡ true
  pub none_accepts : total_accepting s ≡ 0
  pub made : s.next_id ≡ n

put-Deaf :
    {n : ℕ} {c : Connection} {hs : List Handler} {calls : List (ℕ × Call)} (k : ℕ) (d : Connection)
    (s : Server)
    → find k s.connections ≡ some c
    → total_accepting s + one_if (is_accepting d) ≡ one_if (is_accepting c)
    → s.acceptor ≡ true
    → s.next_id ≡ n
    → Deaf n (put k d (record s { handlers = hs; calls = calls }))
put-Deaf k d s f z a e =
    let n = count_if-assign is_accepting k d s.connections f in
    record { up = a; none_accepts = omega (arith, n, z); made = e }

closed-Deaf :
    {n : ℕ} {c : Connection} (k : ℕ) (d : Connection) (s : Server)
    → find k s.connections ≡ some c
    → total_accepting s ≡ one_if (is_accepting c)
    → s.acceptor ≡ true
    → s.next_id ≡ n
    → Deaf n (close_connection k d s)
unfolding close_connection
closed-Deaf {n} k d s f z a e =
    if_intro {A = Server}
      (λ t. Deaf n (
        submit (stop_connection k)
          (put k (record d { opened = false; waiting = Waiting.nothing }) t)))
      d.opened (put-Deaf k _ s f (omega (arith, z)) a e) (put-Deaf k _ s f (omega (arith, z)) a e)

received-Deaf :
    {n : ℕ} {c : Connection} (error : Bool) (bytes : Bytes) (k : ℕ) (s : Server)
    → find k s.connections ≡ some c
    → c.waiting ≡ Waiting.reading
    → Deaf n s
    → Deaf n (received error bytes k c s)
unfolding received
received-Deaf {n} {c} error bytes k s f w v =
    let r = reads_one c w in
    let z = v.none_accepts in
    if_intro (Deaf n) error (closed-Deaf k c s f (omega (arith, r, z)) v.up v.made) (read bytes)
  where
    read : (bs : Bytes) → Deaf n (elim bs [ [] ↦ s | x ∷ xs ↦ call k (on_data (x ∷ xs)) s ])
    read [] = v
    read (x ∷ xs) = record { up = v.up; none_accepts = v.none_accepts; made = v.made }

run_handler-Deaf :
    {n : ℕ} (h : Handler) (hs : List Handler) (s : Server)
    → Deaf n s
    → Defined (Deaf n) (run_handler h (record s { handlers = hs }))
run_handler-Deaf (stop_connection k) hs s v =
    defined (record { up = v.up; none_accepts = v.none_accepts; made = v.made })
run_handler-Deaf {n} (remove_connection k) hs s v =
    if_cases (Defined (Deaf n)) (s.started && not s.acceptor)
      (λ e. absurd (ground (arith, e, v.up)))
      (λ e.
        let less = count_if-erase_all is_accepting k s.connections in
        let z = v.none_accepts in
        defined (record { up = v.up; none_accepts = omega (arith, less, z); made = v.made }))

run_first-Deaf :
    {n : ℕ} (hs : List Handler) (s : Server) → Deaf n s → Defined (Deaf n) (run_first hs s)
run_first-Deaf [] s v = defined v
run_first-Deaf (h ∷ hs) s v = run_handler-Deaf h hs s v

After-Deaf : {n : ℕ} {s t : Server} → Deaf n s → After s t → Deaf n t
unfolding run_next
After-Deaf v here = v
After-Deaf {n} v (accepts {t} {u} {c} error k r f w e) =
    let old = After-Deaf v r in
    let z = old.none_accepts in
    let positive =
      count_if-assign is_accepting k (record c { waiting = Waiting.nothing }) t.connections f in
    let one = accepts_one c w in absurd (omega (arith, z, positive, one))
After-Deaf v (receives {t} {c} error bytes k r f w) =
    received-Deaf error bytes k t f w (After-Deaf v r)
After-Deaf {n} v (runs {t} {u} r e) =
    from_defined (subst (Defined (Deaf n)) e (run_first-Deaf t.handlers t (After-Deaf v r)))
After-Deaf v (closes {t} {c} k r f) =
    let old = After-Deaf v r in
    let z = old.none_accepts in
    let n = count_if-assign is_accepting k (close_socket c) t.connections f in
    record { up = old.up; none_accepts = omega (arith, z, n); made = old.made }

-- When the accept that a server with an acceptor waits for ends with an error, no connection waits for
-- an accept from then on, and none is made, whatever happens until the server is started or stopped.
pub failed_accept-Deaf :
    {t u : Server} {c : Connection} (k : ℕ) (s : Server)
    → find k s.connections ≡ some c
    → c.waiting ≡ Waiting.accepting
    → s.acceptor ≡ true
    → total_accepting s ≡ 1
    → accepted true k c s ≡ some t
    → After t u
    → Deaf s.next_id u
unfolding accepted open_connection
failed_accept-Deaf {t} {u} {c} k s f w up one e r =
    After-Deaf
      (from_defined (
        subst (Defined (Deaf s.next_id)) e (
          defined (
            closed-Deaf k (record c { is_open = false }) s f (one ∙ sym (accepts_one c w)) up
              refl))))
      r
