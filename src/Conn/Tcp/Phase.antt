-- ===== src/Conn/Tcp/Phase.antt =====
-- The contract of the server with its user: the calls of the callbacks for one connection.
use slimstream.Base.{ℕ, Option, none, some, List, [], ◌∷◌, ◌==◌, if◌then◌else◌}
use slimstream.Conn.Tcp.State.{Call, on_start, on_open, on_close, on_stop, on_data}

-- How far a connection has come, as its user knows it.
pub data Phase : Type 0 where
  unborn waiting live closed ended : Phase

-- The phase after a call; none after a call that does not belong there.
abbrev pub advance : Phase → Call → Option Phase
advance Phase.unborn on_start = some Phase.waiting
advance Phase.waiting on_open = some Phase.live
advance Phase.live (on_data bs) = some Phase.live
advance Phase.live on_close = some Phase.closed
advance Phase.waiting on_stop = some Phase.ended
advance Phase.closed on_stop = some Phase.ended
advance p c = none

abbrev pub advance_from : Call → Option Phase → Option Phase
advance_from c none = none
advance_from c (some p) = advance p c

-- The phase of a connection after the calls, of which the newest comes first.
unfoldable pub phase : ℕ → List (ℕ × Call) → Option Phase
phase k [] = some Phase.unborn
phase k ((j, c) ∷ cs) = let p = phase k cs in if j == k then advance_from c p else p
