-- ===== src/Proto/CommandSession/Request/Sound.antt =====
-- One round of the loop of `onRequest`, against the invariant and the received bytes.
use slimstream.Base.{
  ℕ, ◌+◌, ◌≤◌, ◌≡◌, refl, ap, ◌∙◌, true, Option, none, some, arith, drop, take, length, leb,
  if◌then◌else◌, Bool-cases, inl, inr, if_intro,
}
use slimstream.Exception.{Outcome, Exception, done, thrown, fault, ◌>>=◌}
use slimstream.Util.Ring
use slimstream.Util.Ring.{Ring, get_capacity}
use slimstream.Util.Ring.Inv.{pop-IsValid}
use slimstream.Util.Ring.Refine.{contents, contents-pop}
use slimstream.Util.Ring.Window
use slimstream.Util.Time.{Timestamp}
use slimstream.Proto.Wire.{Bytes, load32, htonl}
use slimstream.Proto.Client.Inbound.{announced, is_enough_data, message_size}
use slimstream.Proto.Client.Inbound.Laws.{
  Deserialized, message, rejected, make-Deserialized, announced-contents, read-contents,
}
use slimstream.Proto.Client.Commands.{
  Command, label, dsco, helo, resp, setd, stat, deserialize, fixed_size, convert_stat,
}
use slimstream.Proto.CommandSession.State.{Session, Env}
use slimstream.Proto.CommandSession.Machine.{has_value}
use slimstream.Proto.CommandSession.Invariant.{Inv}
use slimstream.Proto.CommandSession.Handlers.{
  on_dsco, on_helo, on_resp, on_setd, on_stat, on_stat_event, shake_hands,
}
use slimstream.Proto.CommandSession.Handlers.Invariant.{
  Keeps, KeepsAfter, after, undefined, on_stat_event-KeepsAfter, shake_hands-Keeps,
}
use slimstream.Proto.CommandSession.Request.{
  pop_all, by_command, find_command_handler, handle_command, spoil_unless_stat, with_ring, Round,
  processed, raised, broken, finish_command, process_command, round,
}
use slimstream.Proto.CommandSession.Request.Buffer.{
  size-pop_all, pop_all-IsValid, capacity-pop_all, contents-pop_all, capacity-pop,
}

pub deserialize-Deserialized :
    (c : Command) (r : Ring ℕ) → Deserialized (fixed_size c) (label c) r (deserialize c r)
unfolding deserialize
deserialize-Deserialized dsco r = make-Deserialized _ _ r (omega arith)
deserialize-Deserialized helo r = make-Deserialized _ _ r (omega arith)
deserialize-Deserialized resp r = make-Deserialized _ _ r (omega arith)
deserialize-Deserialized setd r = make-Deserialized _ _ r (omega arith)
deserialize-Deserialized stat r = make-Deserialized _ _ r (omega arith)

-- A command handler leaves a sound session and the size of the message, all of which is in the ring.
data Handled (r : Ring ℕ) : Outcome (ℕ × Session) → Type 0 where
  handled :
      {s : Session} {n : ℕ}
      → Keeps r s
      → n ≡ announced r + 8
      → n ≤ Ring.get_size r
      → Handled r (done (n, s))
  refused : (e : Exception) → Handled r (thrown e)
  unsafe : Handled r fault

plain-Handled :
    {r : Ring ℕ} {l : Bytes} {o : Outcome Bytes} {fixed : ℕ} (f : Bytes → Session)
    → Deserialized fixed l r o
    → ((m : Bytes) → Keeps r (f m))
    → Handled r (o >>= λ m. done (message_size m, f m))
plain-Handled f (message m w e _ _) k = handled (k m) e (omega arith)
plain-Handled f (rejected e _) k = refused e

stat-Handled :
    {r : Ring ℕ} {o : Outcome Session} {n : ℕ}
    → KeepsAfter r o
    → n ≡ announced r + 8
    → n ≤ Ring.get_size r
    → Handled r (o >>= λ s'. done (n, s'))
stat-Handled (after k) e l = handled k e l
stat-Handled undefined e l = unsafe

on_stat-Handled :
    {o : Outcome Bytes} {r : Ring ℕ} (env : Env) (t : Timestamp) (s : Session)
    → Deserialized (fixed_size stat) (label stat) r o
    → Keeps r s
    → Handled r
        (o >>= λ m. on_stat_event env (convert_stat m) t s >>= λ s'. done (message_size m, s'))
on_stat-Handled env t s (message m w e _ _) k =
    stat-Handled (on_stat_event-KeepsAfter env (convert_stat m) t s k) e (omega arith)
on_stat-Handled env t s (rejected e _) k = refused e

greeted-Keeps :
    {r : Ring ℕ} (env : Env) (s : Session)
    → Keeps r s
    → (m : Bytes) → Keeps r (if has_value s.command_helo then s else shake_hands env m s)
greeted-Keeps {r} env s k m = if_intro (Keeps r) _ k (shake_hands-Keeps env m s k)

handle_command-Handled :
    (env : Env) (c : Command) (t : Timestamp) (s : Session)
    → Inv s
    → Handled s.command_ring_buffer (handle_command env c t s)
unfolding on_dsco on_helo on_resp on_setd on_stat
handle_command-Handled env dsco t s v =
    plain-Handled (λ _. s) (deserialize-Deserialized dsco _)
      (λ _. record { inv = v; same_ring = refl })
handle_command-Handled env helo t s v =
    plain-Handled _ (deserialize-Deserialized helo _)
      (greeted-Keeps env s (record { inv = v; same_ring = refl }))
handle_command-Handled env resp t s v =
    plain-Handled (λ _. s) (deserialize-Deserialized resp _)
      (λ _. record { inv = v; same_ring = refl })
handle_command-Handled env setd t s v =
    plain-Handled (λ _. s) (deserialize-Deserialized setd _)
      (λ _. record { inv = v; same_ring = refl })
handle_command-Handled env stat t s v =
    on_stat-Handled env t s (deserialize-Deserialized stat _) (record { inv = v; same_ring = refl })

abbrev pub received : Session → Bytes
received s = contents s.command_ring_buffer

-- the size of the message at the front of a byte sequence, by the length that it announces
abbrev pub frame_size : Bytes → ℕ
frame_size bs = htonl (load32 bs 4) + 8

-- How a request may take bytes out of what was received: none, one that begins no known command, or
-- a whole message of a known command and then more.
pub data Consumed : Bytes → Bytes → Type 0 where
  stay : {xs : Bytes} → Consumed xs xs
  skip : {xs : Bytes} → find_command_handler (take 4 xs) ≡ none → Consumed xs (Window.tail xs)
  frame :
      {xs ys : Bytes} (c : Command)
      → find_command_handler (take 4 xs) ≡ some c
      → frame_size xs ≤ length xs
      → Consumed (drop (frame_size xs) xs) ys
      → Consumed xs ys

-- What a round of the loop leaves of a session.
pub data SoundRound (s : Session) : Round → Type 0 where
  last :
      {s' : Session} → Inv s' → Consumed (received s) (received s') → SoundRound s (processed 0 s')
  took :
      {s' : Session} {n : ℕ} (c : Command)
      → Inv s'
      → find_command_handler (take 4 (received s)) ≡ some c
      → n ≡ frame_size (received s)
      → n ≤ s.command_ring_buffer.size
      → s'.command_ring_buffer.size + n ≡ s.command_ring_buffer.size
      → received s' ≡ drop n (received s)
      → SoundRound s (processed n s')
  threw : {s' : Session} (e : Exception) → Inv s' → SoundRound s (raised e s')
  unsafe : SoundRound s broken

with_pop_all-Inv : (n : ℕ) (s : Session) → Inv s → Inv (with_ring (pop_all n) s)
with_pop_all-Inv n s v =
    let valid = pop_all-IsValid n s.command_ring_buffer v.ring in
    let room = capacity-pop_all n s.command_ring_buffer ∙ v.ring_room in
    record {
      ring = valid;
      ring_room = room;
      rated = v.rated;
      unrated = v.unrated;
      measured = v.measured;
      probes_fit = v.probes_fit;
    }

with_pop-Inv : (s : Session) → Inv s → Inv (with_ring Ring.pop s)
with_pop-Inv s v = record {
  ring = pop-IsValid v.ring;
  ring_room = capacity-pop s.command_ring_buffer ∙ v.ring_room;
  rated = v.rated;
  unrated = v.unrated;
  measured = v.measured;
  probes_fit = v.probes_fit;
}

pub with_clear-Inv : (s : Session) → Inv s → Inv (with_ring Ring.clear s)
unfolding Ring.clear
with_clear-Inv s v = ground arith

spoil_unless_stat-Inv : (c : Command) (s : Session) → Inv s → Inv (spoil_unless_stat c s)
spoil_unless_stat-Inv stat s v = v
spoil_unless_stat-Inv _ s v = ground arith

ring-spoil_unless_stat :
    (c : Command) (s : Session)
    → (spoil_unless_stat c s).command_ring_buffer ≡ s.command_ring_buffer
ring-spoil_unless_stat stat s = refl
ring-spoil_unless_stat _ s = refl

finish_command-SoundRound :
    {o : Outcome (ℕ × Session)} (c : Command) (s s' : Session)
    → Inv s
    → Inv s'
    → s'.command_ring_buffer ≡ s.command_ring_buffer
    → 8 ≤ s.command_ring_buffer.size
    → find_command_handler (take 4 (received s)) ≡ some c
    → Handled s.command_ring_buffer o
    → SoundRound s (finish_command s' o)
finish_command-SoundRound c s s' v w e h f (handled {s = t} {n} k m l) =
    took c (with_pop_all-Inv n t k.inv) f (m ∙ ap (λ k. k + 8) (announced-contents v.ring h)) l
      (omega (arith, size-pop_all n t.command_ring_buffer, ap (λ (r : Ring ℕ). r.size) k.same_ring))
      (contents-pop_all n t.command_ring_buffer k.inv.ring
        ∙ ap (λ r. drop n (contents r)) k.same_ring)
finish_command-SoundRound c s s' v w e h f (refused x) = threw x w
finish_command-SoundRound c s s' v w e h f unsafe = unsafe

enough-ge : (r : Ring ℕ) → is_enough_data r ≡ true → 8 ≤ r.size
unfolding is_enough_data
enough-ge r h = ground arith

process_command-SoundRound :
    (env : Env) (c : Command) (t : Timestamp) (s : Session)
    → Inv s
    → find_command_handler (take 4 (received s)) ≡ some c
    → SoundRound s (process_command env c t s)
unfolding process_command
process_command-SoundRound env c t s v f =
    elim (Bool-cases (is_enough_data s.command_ring_buffer)) [
      | inr n ↦ rw n (last v stay)
      | inl y ↦ rw y (
          finish_command-SoundRound c s (spoil_unless_stat c s) v (spoil_unless_stat-Inv c s v)
            (ring-spoil_unless_stat c s) (enough-ge _ y) f
            (let k =
                handle_command-Handled env c t (spoil_unless_stat c s)
                  (spoil_unless_stat-Inv c s v) in
              rw (ring-spoil_unless_stat c s) at k))
    ]

by_command-SoundRound :
    (env : Env) (t : Timestamp) (s : Session) (o : Option Command)
    → Inv s
    → find_command_handler (take 4 (received s)) ≡ o
    → SoundRound s (by_command env t s o)
by_command-SoundRound env t s none v f =
    last (with_pop-Inv s v) (rw (contents-pop s.command_ring_buffer v.ring) (skip f))
by_command-SoundRound env t s (some c) v f = process_command-SoundRound env c t s v f

-- Each round keeps the session sound, and takes nothing, one byte that begins no command, or the
-- whole message at the front.
pub round-SoundRound :
    (env : Env) (t : Timestamp) (s : Session) → Inv s → SoundRound s (round env t s)
unfolding round
round-SoundRound env t s v = elim (Bool-cases (leb 4 s.command_ring_buffer.size)) [
  | inr n ↦ rw n (last v stay)
  | inl y ↦ rw (y, read-contents v.ring 4 (ground arith)) (by_command-SoundRound env t s _ v refl)
]
