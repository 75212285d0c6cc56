-- ===== src/Proto/CommandSession/Request/Ends.antt =====
-- `onRequest` as a whole.
use slimstream.Base.{ℕ, zero, suc, ◌+◌, ◌<◌, ◌≤◌, ◌≡◌, refl, ◌∙◌, Option, some, [], arith}
use slimstream.Exception.{Exception}
use slimstream.Util.Ring.Refine.{contents, contents-clear, length-contents}
use slimstream.Util.Time.{Timestamp}
use slimstream.Proto.Wire.{Bytes}
use slimstream.Proto.CommandSession.State.{Session, Env}
use slimstream.Proto.CommandSession.Invariant.{Inv}
use slimstream.Proto.CommandSession.Request.{
  push_all, with_ring, Round, processed, raised, broken, after_round, loop, on_request,
}
use slimstream.Proto.CommandSession.Request.Buffer.{push_all-IsValid, capacity-push_all}
use slimstream.Proto.CommandSession.Request.Unsafe.{Unsafe, round-Unsafe}
use slimstream.Proto.CommandSession.Request.Sound.{
  stay, received, Consumed, frame, SoundRound, last, took, threw, unsafe, round-SoundRound,
  with_clear-Inv,
}

-- How a request ends that finds the bytes `xs` in the ring.
pub data Ended (xs : Bytes) : Round → Type 0 where
  returns : {s : Session} → Inv s → Consumed xs (received s) → Ended xs (processed 0 s)
  throws : {s : Session} (e : Exception) → Inv s → received s ≡ [] → Ended xs (raised e s)
  breaks : {s : Session} → Inv s → Consumed xs (received s) → Unsafe s → Ended xs broken

abbrev Ends : Bytes → Option Round → Type 0
Ends xs o = (r : Round) × (o ≡ some r) × Ended xs r

Ended-frame :
    {xs : Bytes} {r : Round} (s : Session)
    → Ended (received s) r
    → ((ys : Bytes) → Consumed (received s) ys → Consumed xs ys)
    → Ended xs r
Ended-frame s (returns v c) more = returns v (more _ c)
Ended-frame s (throws e v n) more = throws e v n
Ended-frame s (breaks v c u) more = breaks v (more _ c) u

after_round_nonzero :
    (again : Session → Option Round) (n : ℕ) (s : Session)
    → 0 < n
    → after_round again (processed n s) ≡ again s
after_round_nonzero again n s h = ground arith

after_round-Ends :
    {s : Session} {r : Round} (again : Session → Option Round)
    → Inv s
    → SoundRound s r
    → (r ≡ broken → Unsafe s)
    → ((s' : Session)
        → Inv s'
        → s'.command_ring_buffer.size + 8 ≤ s.command_ring_buffer.size
        → Ends (received s') (again s'))
    → Ends (received s) (after_round again r)
after_round-Ends again v (last w c) u rec = (_, refl, returns w c)
after_round-Ends {s} again v (took {s' = s'} {n = n} c w f e l z d) u rec =
    let (r, p, q) = rec s' w (omega arith) in
    (
      r,
      after_round_nonzero again n s' (omega arith) ∙ p,
      Ended-frame s' q λ ys m. frame c f (omega (arith, length-contents v.ring)) (rw (← e, ← d) m),
    )
after_round-Ends again v (threw {s' = s'} e w) u rec =
    (_, refl, throws e (with_clear-Inv s' w) (contents-clear s'.command_ring_buffer))
after_round-Ends again v unsafe u rec = (_, refl, breaks v stay (u refl))

loop-Ends :
    (fuel : ℕ) (env : Env) (t : Timestamp) (s : Session)
    → s.command_ring_buffer.size < fuel
    → Inv s
    → Ends (received s) (loop fuel env t s)
unfolding loop
loop-Ends zero env t s h v = absurd (omega arith)
loop-Ends (suc fuel) env t s h v =
    after_round-Ends (loop fuel env t) v (round-SoundRound env t s v) (round-Unsafe env t s)
      λ s' w l. loop-Ends fuel env t s' (omega arith) w

push_all-Inv : (bs : Bytes) (s : Session) → Inv s → Inv (with_ring (λ r. push_all r bs) s)
push_all-Inv bs s v = record {
  ring = push_all-IsValid bs s.command_ring_buffer v.ring;
  ring_room = capacity-push_all bs s.command_ring_buffer ∙ v.ring_room;
  rated = v.rated;
  unrated = v.unrated;
  measured = v.measured;
  probes_fit = v.probes_fit;
}

-- For a sound session, whatever bytes come, the fuel is enough and the request ends. It returns
-- with a sound session, which has taken whole messages of known commands out of the received bytes,
-- and at most one byte of an unknown label after them; or it throws, with a sound session and no
-- received byte left; or it comes, with a sound session and whole messages taken so far, to a STAT
-- command at the front whose event divides by a buffer size of 0 or names a probe past the size of
-- the vector, and is undefined.
pub on_request-ends :
    (env : Env) (bs : Bytes) (t : Timestamp) (s : Session)
    → Inv s
    → (r : Round) × (on_request env bs t s ≡ some r)
      × Ended (contents (push_all s.command_ring_buffer bs)) r
unfolding on_request
on_request-ends env bs t s v = loop-Ends _ env t _ (omega arith) (push_all-Inv bs s v)
