-- ===== src/Conn/Tcp/Limit.antt =====
-- The limit of connections.
pub mod Room
pub mod Opening
pub mod Steps
use slimstream.Base.{
  ℕ, ◌+◌, ◌≤◌, ◌<◌, ◌≡◌, ◌≢◌, refl, sym, ap, ◌∙◌, Bool, true, false, Bool-cases, not, ◌&&◌, ◌||◌,
  inl, inr, arith, Option, none, some, List, [], ◌∷◌, ◌++◌, if_intro, if_cases, if_true, if_false,
  ltb, ◌==◌, if◌then◌else◌,
}
use slimstream.Proto.Wire.{Bytes}
use slimstream.Proto.Streamer.State.{find, assign, count_if}
use slimstream.Conn.Tcp.State.{Waiting, Connection, Server, make_server}
use slimstream.Conn.Tcp.Server.{erase_all, start, close_socket, put, accepted, received, run_next}

abbrev waits_accept : Waiting → Bool
waits_accept Waiting.accepting = true
waits_accept Waiting.reading = false
waits_accept Waiting.nothing = false

abbrev pub is_accepting : Connection → Bool
is_accepting c = waits_accept c.waiting

-- how many connections wait for their accept, and how many are open
abbrev pub total_accepting : Server → ℕ
total_accepting s = count_if is_accepting s.connections

abbrev pub total_opened : Server → ℕ
total_opened s = count_if (λ c. c.opened) s.connections

-- The states of a server that is started once, is not stopped, and accepts a connection only when no
-- handler waits.
pub data Calm (m : ℕ) : Server → Type 0 where
  begins : {s : Server} → start (make_server m) ≡ some s → Calm m s
  accepts :
      {s s' : Server} {c : Connection} (error : Bool) (k : ℕ)
      → Calm m s
      → (error ≡ false → s.handlers ≡ [])
      → find k s.connections ≡ some c
      → c.waiting ≡ Waiting.accepting
      → accepted error k c s ≡ some s'
      → Calm m s'
  receives :
      {s : Server} {c : Connection} (error : Bool) (bytes : Bytes) (k : ℕ)
      → Calm m s
      → find k s.connections ≡ some c
      → c.waiting ≡ Waiting.reading
      → Calm m (received error bytes k c s)
  runs : {s s' : Server} → Calm m s → run_next s ≡ some s' → Calm m s'
  closes :
      {s : Server} {c : Connection} (k : ℕ)
      → Calm m s
      → find k s.connections ≡ some c
      → Calm m (put k (close_socket c) s)

-- 1 for what has a property
abbrev pub one_if : Bool → ℕ
one_if b = if b then 1 else 0

module _ {V : Type 0} (p : V → Bool) where
  pub count_if-cons :
      (k : ℕ) (v : V) (m : List (ℕ × V)) → count_if p ((k, v) ∷ m) ≡ one_if (p v) + count_if p m
  unfolding count_if
  count_if-cons k v m = ground arith

  pub count_if-assign :
      {w : V} (k : ℕ) (v : V) (m : List (ℕ × V))
      → find k m ≡ some w
      → count_if p (assign k v m) + one_if (p w) ≡ count_if p m + one_if (p v)
  unfolding find assign
  count_if-assign k v [] f = absurd cc
  count_if-assign {w} k v ((j, u) ∷ m) f = elim (Bool-cases (j == k)) [
    | inl e ↦
        let found : some u ≡ some w = ground (arith, e, f) in
        let here : u ≡ w = cc in
        let whole : assign k v ((j, u) ∷ m) ≡ (j, v) ∷ m = ground (arith, e) in
        let a = ap (count_if p) whole in
        let b = count_if-cons j v m in
        let c = count_if-cons j u m in
        let d = ap (λ x. one_if (p x)) here in omega (arith, a, b, c, d)
    | inr e ↦
        let whole : assign k v ((j, u) ∷ m) ≡ (j, u) ∷ assign k v m = ground (arith, e) in
        let a = ap (count_if p) whole in
        let b = count_if-cons j u (assign k v m) in
        let c = count_if-cons j u m in
        let d = count_if-assign {w = w} k v m (ground (arith, e, f)) in omega (arith, a, b, c, d)
  ]

  pub count_if-push :
      (k : ℕ) (v : V) (m : List (ℕ × V))
      → count_if p (m ++ (k, v) ∷ []) ≡ count_if p m + one_if (p v)
  unfolding count_if
  count_if-push k v [] = let a = count_if-cons k v [] in omega (arith, a)
  count_if-push k v ((j, u) ∷ m) =
      let a = count_if-cons j u m in
      let b = count_if-cons j u (m ++ (k, v) ∷ []) in
      let c = count_if-push k v m in omega (arith, a, b, c)

pub count_if-erase_all :
    (p : Connection → Bool) (k : ℕ) (m : List (ℕ × Connection))
    → count_if p (erase_all k m) ≤ count_if p m
unfolding erase_all count_if
count_if-erase_all p k [] = omega arith
count_if-erase_all p k ((j, u) ∷ m) = ground (arith, count_if-erase_all p k m)
