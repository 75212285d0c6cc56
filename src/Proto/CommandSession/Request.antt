-- ===== src/Proto/CommandSession/Request.antt =====
-- `onRequest`: received bytes are put into the ring, and whole commands are taken out of it.
pub mod Buffer
pub mod Sound
pub mod Unsafe
pub mod Ends
use slimstream.Base.{
  ℕ, zero, suc, ◌+◌, ◌<◌, ◌≡◌, Bool, true, false, Option, none, some, List, [], ◌∷◌, leb, ltb, ◌==◌,
  if◌then◌else◌,
}
use slimstream.Exception.{Outcome, Exception, done, thrown, fault, ◌>>=◌, ◌>>◌}
use slimstream.Util.Ring
use slimstream.Util.Ring.{Ring}
use slimstream.Util.Time.{Timestamp}
use slimstream.Proto.Wire.{Bytes, same_bytes}
use slimstream.Proto.Client.Inbound.{read, is_enough_data}
use slimstream.Proto.Client.Commands.{Command, dsco, helo, resp, setd, stat, label}
use slimstream.Proto.CommandSession.State.{Session, Env}
use slimstream.Proto.CommandSession.Handlers.{on_dsco, on_helo, on_resp, on_setd, on_stat}

abbrev pub key_size : ℕ
key_size = 4

unfoldable pub push_all : Ring ℕ → Bytes → Ring ℕ
push_all r [] = r
push_all r (b ∷ bs) = push_all (Ring.push r b) bs

unfoldable pub pop_all : ℕ → Ring ℕ → Ring ℕ
pop_all zero r = r
pop_all (suc n) r = pop_all n (Ring.pop r)

-- the lookup in `commandHandlers`
unfoldable pub find_command_handler : Bytes → Option Command
unfolding same_bytes
find_command_handler l =
    if same_bytes l (label dsco)
    then some dsco
    else if same_bytes l (label helo)
    then some helo
    else if same_bytes l (label resp)
    then some resp
    else if same_bytes l (label setd)
    then some setd
    else if same_bytes l (label stat)
    then some stat
    else none

abbrev pub handle_command : Env → Command → Timestamp → Session → Outcome (ℕ × Session)
handle_command env dsco t s = on_dsco s
handle_command env helo t s = on_helo env s
handle_command env resp t s = on_resp s
handle_command env setd t s = on_setd s
handle_command env stat t s = on_stat env t s

-- a command other than STAT spoils a measurement
abbrev pub spoil_unless_stat : Command → Session → Session
spoil_unless_stat stat s = s
spoil_unless_stat _ s = record s { measuring_latency = false }

abbrev pub with_ring : (Ring ℕ → Ring ℕ) → Session → Session
with_ring f s = record s { command_ring_buffer = f s.command_ring_buffer }

-- the label at the front, when there is one
abbrev pub front_label : Session → Option Bytes
front_label s =
    if leb key_size (Ring.get_size s.command_ring_buffer)
    then some (read s.command_ring_buffer 0 key_size)
    else none

-- What a round of the loop comes to: the processed size and the session; an exception, with the
-- session at the throw; or undefined behaviour.
pub data Round : Type 0 where
  processed : ℕ → Session → Round
  raised : Exception → Session → Round
  broken : Round

-- The handlers throw only from the constructors of the commands, before they change the session.
abbrev pub finish_command : Session → Outcome (ℕ × Session) → Round
finish_command s (done (n, s')) = processed n (with_ring (pop_all n) s')
finish_command s (thrown e) = raised e s
finish_command s fault = broken

-- with the handler found
unfoldable pub process_command : Env → Command → Timestamp → Session → Round
process_command env c t s =
    if is_enough_data s.command_ring_buffer
    then (let s' = spoil_unless_stat c s in finish_command s' (handle_command env c t s'))
    else processed 0 s

abbrev pub by_command : Env → Timestamp → Session → Option Command → Round
by_command env t s none = processed 0 (with_ring Ring.pop s)
by_command env t s (some c) = process_command env c t s

abbrev pub by_label : Env → Timestamp → Session → Option Bytes → Round
by_label env t s none = processed 0 s
by_label env t s (some l) = by_command env t s (find_command_handler l)

unfoldable pub round : Env → Timestamp → Session → Round
round env t s = by_label env t s (front_label s)

-- A round that is left with `processedSize` 0 is the last; the guard of the scope clears the ring
-- on an exception.
abbrev pub after_round : (Session → Option Round) → Round → Option Round
after_round again (processed n s) = elim (n == 0) [ true ↦ some (processed 0 s) | false ↦ again s ]
after_round again (raised e s) = some (raised e (with_ring Ring.clear s))
after_round again broken = some broken

-- the `do … while`
unfoldable pub loop : ℕ → Env → Timestamp → Session → Option Round
loop zero env t s = none
loop (suc fuel) env t s = after_round (loop fuel env t) (round env t s)

-- Each round but the last takes 8 bytes at least, so the bytes in the ring are fuel enough.
unfoldable pub on_request : Env → Bytes → Timestamp → Session → Option Round
on_request env bytes t s =
    let s' = with_ring (λ r. push_all r bytes) s in
    loop (suc (Ring.get_size s'.command_ring_buffer)) env t s'
