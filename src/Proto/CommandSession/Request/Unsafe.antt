-- ===== src/Proto/CommandSession/Request/Unsafe.antt =====
-- When a round of the loop of `onRequest` is undefined.
use slimstream.Base.{ℕ, ◌≡◌, refl, Bool, true, false, Option, none, some, if◌then◌else◌}
use slimstream.Exception.{Outcome, done, thrown, fault, ◌>>=◌}
use slimstream.Util.Ring.{Ring}
use slimstream.Util.Time.{Timestamp}
use slimstream.Proto.Wire.{Bytes}
use slimstream.Proto.Client.Inbound.{message_size, is_enough_data}
use slimstream.Proto.Client.Inbound.Laws.{Deserialized, message, rejected}
use slimstream.Proto.Client.Commands.{
  Command, dsco, helo, resp, setd, stat, deserialize, convert_stat,
}
use slimstream.Proto.CommandSession.State.{Session, Env}
use slimstream.Proto.CommandSession.Handlers.{
  on_dsco, on_helo, on_resp, on_setd, on_stat, on_stat_event, find_event_handler,
}
use slimstream.Proto.CommandSession.Handlers.Faults.{Faulty, on_stat_event-fault}
use slimstream.Proto.CommandSession.Request.{
  by_command, by_label, front_label, handle_command, spoil_unless_stat, processed, broken,
  finish_command, process_command, round,
}
use slimstream.Proto.CommandSession.Request.Sound.{deserialize-Deserialized}

-- A STAT command is at the front of the received bytes, and the handling of its event is undefined.
abbrev pub Unsafe : Session → Type 0
Unsafe s =
    (m : Bytes) × (deserialize stat s.command_ring_buffer ≡ done m)
    × Faulty (convert_stat m) s (find_event_handler (convert_stat m).event)

plain-fault :
    {A : Type 0} {r : Ring ℕ} {l : Bytes} {n : ℕ} {o : Outcome Bytes} (f : Bytes → A)
    → Deserialized n l r o
    → ¬ ((o >>= λ m. done (f m)) ≡ fault)
plain-fault f (message m w e _ _) h = cc
plain-fault f (rejected e _) h = cc

then_done-fault :
    {A B : Type 0} (o : Outcome A) (f : A → B) → (o >>= λ a. done (f a)) ≡ fault → o ≡ fault
then_done-fault (done a) f h = cc
then_done-fault (thrown e) f h = cc
then_done-fault fault f h = refl

abbrev answer : Bytes → Session → ℕ × Session
answer m s = (message_size m, s)

stat-Unsafe :
    {o : Outcome Bytes} {l : Bytes} {n : ℕ} (env : Env) (t : Timestamp) (s : Session)
    → Deserialized n l s.command_ring_buffer o
    → deserialize stat s.command_ring_buffer ≡ o
    → (o >>= λ m. on_stat_event env (convert_stat m) t s >>= λ s'. done (answer m s')) ≡ fault
    → Unsafe s
stat-Unsafe env t s (message m w e _ _) d h =
    (m, d, (on_stat_event-fault env (convert_stat m) t s).0 (then_done-fault _ _ h))
stat-Unsafe env t s (rejected e _) d h = absurd cc

handle_command-Unsafe :
    (env : Env) (c : Command) (t : Timestamp) (s : Session)
    → handle_command env c t (spoil_unless_stat c s) ≡ fault
    → Unsafe s
unfolding on_dsco on_helo on_resp on_setd on_stat
handle_command-Unsafe env dsco t s h = absurd (plain-fault _ (deserialize-Deserialized dsco _) h)
handle_command-Unsafe env helo t s h = absurd (plain-fault _ (deserialize-Deserialized helo _) h)
handle_command-Unsafe env resp t s h = absurd (plain-fault _ (deserialize-Deserialized resp _) h)
handle_command-Unsafe env setd t s h = absurd (plain-fault _ (deserialize-Deserialized setd _) h)
handle_command-Unsafe env stat t s h = stat-Unsafe env t s (deserialize-Deserialized stat _) refl h

finish_command-broken :
    (s : Session) (o : Outcome (ℕ × Session)) → finish_command s o ≡ broken → o ≡ fault
finish_command-broken s (done (n, s')) h = cc
finish_command-broken s (thrown e) h = cc
finish_command-broken s fault h = refl

process_command-Unsafe :
    (env : Env) (c : Command) (t : Timestamp) (s : Session)
    → process_command env c t s ≡ broken
    → Unsafe s
unfolding process_command
process_command-Unsafe env c t s h = by_enough (is_enough_data s.command_ring_buffer) h
  where
    by_enough :
        (b : Bool)
        → (if b
            then (let s' = spoil_unless_stat c s in finish_command s' (handle_command env c t s'))
            else processed 0 s)
          ≡ broken
        → Unsafe s
    by_enough true h = handle_command-Unsafe env c t s (finish_command-broken _ _ h)
    by_enough false h = absurd cc

by_command-Unsafe :
    (env : Env) (t : Timestamp) (s : Session) (o : Option Command)
    → by_command env t s o ≡ broken
    → Unsafe s
by_command-Unsafe env t s none h = absurd cc
by_command-Unsafe env t s (some c) h = process_command-Unsafe env c t s h

by_label-Unsafe :
    (env : Env) (t : Timestamp) (s : Session) (o : Option Bytes)
    → by_label env t s o ≡ broken
    → Unsafe s
by_label-Unsafe env t s none h = absurd cc
by_label-Unsafe env t s (some l) h = by_command-Unsafe env t s _ h

pub round-Unsafe : (env : Env) (t : Timestamp) (s : Session) → round env t s ≡ broken → Unsafe s
unfolding round
round-Unsafe env t s h = by_label-Unsafe env t s (front_label s) h
