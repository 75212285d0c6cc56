-- ===== src/Conn/Tcp/Life/Operations.antt =====
-- The operations of the server keep the life of each connection.
use mathlib.Core.Path.{subst}
use slimstream.Base.{
  ℕ, ◌≡◌, ◌≢◌, refl, ap, ◌∙◌, Bool, true, false, arith, Option, none, some, List, [], ◌∷◌, ◌++◌,
  if_intro, if_cases, ℕ_discrete, if◌then◌else◌,
}
use slimstream.Conn.Tcp.State.{
  Waiting, Connection, on_start, on_close, Handler, stop_connection, Server,
}
use slimstream.Conn.Tcp.Server.{
  call, submit, put, added, add_connection, start_acceptor, stop_acceptor, close_connection,
}
use slimstream.Conn.Tcp.Phase.{Phase, phase, advance_from}
use slimstream.Conn.Tcp.Vector.{about, about-submit, find-assign, find-push, find-push_other}
use slimstream.Conn.Tcp.Life.Change.{
  Defined, faulty, defined, Elsewhere, Elsewhere-trans, put-Elsewhere, call-Elsewhere,
  submit-Elsewhere, alter,
}
use slimstream.Conn.Tcp.Life.{
  accepting, refused, closing, LifeAt, Alive, Life-as, Life-opening, unborn-Life, phase-call,
  phase-call_other,
}

module _ {o : Option ℕ} where
  -- The connection that is added is one that was not born.
  pub added-Alive : (s : Server) → Alive o s → Alive o (added s)
  added-Alive s v = record {
    life = λ k. elim (ℕ_discrete s.next_id k) [
      | yes e ↦ subst (λ k. LifeAt o k (added s)) e begins
      | no n ↦
          Life-as (find-push_other k s.next_id _ s.connections n) refl
            (phase-call_other k s.next_id on_start s.calls n) (v.life k)
    ];
    fresh = λ k l.
        phase-call_other k s.next_id on_start s.calls (λ e. ground (arith, e, l))
        ∙ v.fresh k (omega (arith, l));
  }
    where
      begins : LifeAt o s.next_id (added s)
      begins =
          let p = v.fresh s.next_id (omega arith) in
          let u = unborn-Life p (v.life s.next_id) in
          Life-as (find-push s.next_id _ s.connections u.absent) u.quiet
            (phase-call s.next_id on_start s.calls ∙ ap (advance_from on_start) p) accepting

  pub add_connection-Alive : (s : Server) → Alive o s → Defined (Alive o) (add_connection s)
  unfolding add_connection
  add_connection-Alive s v =
      if_intro (Defined (Alive o)) s.acceptor (defined (added-Alive s v)) faulty

  pub start_acceptor-Alive : (s : Server) → Alive o s → Alive o (start_acceptor s)
  unfolding start_acceptor
  start_acceptor-Alive s v =
      if_intro (Alive o) s.acceptor v (record { life = v.life; fresh = v.fresh })

  pub stop_acceptor-Alive : (s : Server) → Alive o s → Alive o (stop_acceptor s)
  unfolding stop_acceptor
  stop_acceptor-Alive s v =
      if_intro (Alive o) s.acceptor (record { life = v.life; fresh = v.fresh }) v

-- A connection that waits for its accept or for data.
pub record Going (k : ℕ) (c : Connection) (s : Server) : Type 0 where
  pub quiet : about k s.handlers ≡ []
  pub told : phase k s.calls ≡ some (if c.opened then Phase.live else Phase.waiting)

closes_live :
    {b : Bool} {p : Option Phase}
    → b ≡ true
    → p ≡ some (if b then Phase.live else Phase.waiting)
    → advance_from on_close p ≡ some Phase.closed
closes_live e t = rw (t, e)

waits :
    {b : Bool} {p : Option Phase}
    → b ≡ false
    → p ≡ some (if b then Phase.live else Phase.waiting)
    → p ≡ some Phase.waiting
waits e t = rw (t, e)

pub not_born :
    {p : Option Phase} (b : Bool)
    → p ≡ some (if b then Phase.live else Phase.waiting)
    → p ≢ some Phase.unborn
not_born true t u = cc
not_born false t u = cc

refuse-Elsewhere :
    (k : ℕ) (c : Connection) (s : Server) → Elsewhere k s (submit (stop_connection k) (put k c s))
refuse-Elsewhere k c s =
    Elsewhere-trans (put-Elsewhere k c s) (submit-Elsewhere (stop_connection k) (put k c s))

about-closed :
    (k : ℕ) (hs : List Handler)
    → about k hs ≡ []
    → about k (hs ++ stop_connection k ∷ []) ≡ stop_connection k ∷ []
about-closed k hs e =
    about-submit k hs (stop_connection k) refl ∙ ap (λ xs. xs ++ stop_connection k ∷ []) e

pub close_connection-Alive :
    (k : ℕ) (c : Connection) (s : Server)
    → Going k c s
    → Alive none s
    → Alive none (close_connection k c s)
unfolding close_connection
close_connection-Alive k c s g v =
    if_cases {A = Server}
      (λ t. Alive none (
        submit (stop_connection k)
          (put k (record c { opened = false; waiting = Waiting.nothing }) t)))
      c.opened
      (λ e.
        alter k s _ (λ j c hs p n. Life-opening _)
          (Elsewhere-trans (call-Elsewhere k on_close s) (refuse-Elsewhere k _ (call k on_close s)))
          (not_born c.opened g.told)
          (Life-as (find-assign k _ s.connections) (about-closed k s.handlers g.quiet)
            (phase-call k on_close s.calls ∙ closes_live e g.told) closing)
          v)
      (λ e.
        alter k s _ (λ j c hs p n. Life-opening _) (refuse-Elsewhere k _ s)
          (not_born c.opened g.told)
          (Life-as (find-assign k _ s.connections) (about-closed k s.handlers g.quiet)
            (waits e g.told) refused)
          v)
