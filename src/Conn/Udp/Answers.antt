-- ===== src/Conn/Udp/Answers.antt =====
-- Every datagram is answered.
use slimstream.Base.{ℕ, ◌≡◌, refl, ap, ◌∙◌, Bool, true, false, some, List, [], ◌∷◌, if◌then◌else◌}
use slimstream.Proto.Wire.{Bytes}
use slimstream.Conn.Udp.{
  Server, Endpoint, unset, from, make_server, start, on_data, answer, write, receive_data,
  open_socket,
}

-- what happens to a server: a datagram comes from a peer, and its answer is lost or not
pub record Datagram : Type 0 where
  pub peer : ℕ
  pub lost : Bool

unfoldable pub receive_all : List Datagram → Server → Server
receive_all [] s = s
receive_all (d ∷ ds) s = receive_all ds (on_data false d.lost d.peer s)

-- the answers that are sent, newest first, before those that were
unfoldable pub answers : List Datagram → List (Bytes × Endpoint) → List (Bytes × Endpoint)
answers [] out = out
answers (d ∷ ds) out = answers ds (if d.lost then out else (b'E' ∷ [], from d.peer) ∷ out)

-- A server that listens has a socket and one reception under way.
abbrev pub listening : Endpoint → List (Bytes × Endpoint) → Server
listening e out = record {
  started = true;
  socket = true;
  peer = some e;
  receptions = 1;
  sent = out;
}

receive-listening :
    (lost : Bool) (k : ℕ) (e : Endpoint) (out : List (Bytes × Endpoint))
    → on_data false lost k (listening e out)
      ≡ listening (from k) (if lost then out else (b'E' ∷ [], from k) ∷ out)
unfolding on_data answer write receive_data
receive-listening true k e out = refl
receive-listening false k e out = refl

receive_all-listening :
    (ds : List Datagram) (e : Endpoint) (out : List (Bytes × Endpoint))
    → (f : Endpoint) × (receive_all ds (listening e out) ≡ listening f (answers ds out))
unfolding receive_all answers
receive_all-listening [] e out = (e, refl)
receive_all-listening (d ∷ ds) e out =
    let (f, rest) =
      receive_all-listening ds (from d.peer)
        (if d.lost then out else (b'E' ∷ [], from d.peer) ∷ out) in
    (f, ap (receive_all ds) (receive-listening d.lost d.peer e out) ∙ rest)

-- A started discovery server, to which any datagrams come, sends to each of them in turn one byte `E`,
-- where it came from, unless that answer is lost, sends nothing else, and has one reception under way.
pub receive_all-answers :
    (ds : List Datagram)
    → (e : Endpoint) × (receive_all ds (start make_server) ≡ listening e (answers ds []))
unfolding start open_socket receive_data
receive_all-answers ds = receive_all-listening ds unset []
