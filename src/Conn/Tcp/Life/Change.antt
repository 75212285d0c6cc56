-- ===== src/Conn/Tcp/Life/Change.antt =====
-- What a change to the server leaves of the life of each connection.
use mathlib.Core.Path.{subst}
use slimstream.Base.{ℕ, ◌≡◌, ◌≢◌, refl, ap, ◌∙◌, arith, Option, none, some, List, ℕ_discrete}
use slimstream.Proto.Streamer.State.{find}
use slimstream.Conn.Tcp.State.{Connection, Call, Handler, Server}
use slimstream.Conn.Tcp.Server.{call, submit, put}
use slimstream.Conn.Tcp.Phase.{Phase, phase}
use slimstream.Conn.Tcp.Vector.{about, about-submit_other, find-assign_other, id_of}
use slimstream.Conn.Tcp.Life.{Life, LifeAt, Alive, Life-as, phase-call_other}

-- What holds of the server, unless the behaviour is undefined.
pub data Defined (P : Server → Type 0) : Option Server → Type 0 where
  faulty : Defined P none
  defined : {s : Server} → P s → Defined P (some s)

pub from_defined : {P : Server → Type 0} {s : Server} → Defined P (some s) → P s
from_defined (defined p) = p

-- A change that concerns the connection `k` only.
pub record Elsewhere (k : ℕ) (s s' : Server) : Type 0 where
  pub same_found : (j : ℕ) → k ≢ j → find j s'.connections ≡ find j s.connections
  pub same_handlers : (j : ℕ) → k ≢ j → about j s'.handlers ≡ about j s.handlers
  pub same_phase : (j : ℕ) → k ≢ j → phase j s'.calls ≡ phase j s.calls
  pub same_next : s'.next_id ≡ s.next_id

pub Elsewhere-trans : {k : ℕ} {s t u : Server} → Elsewhere k s t → Elsewhere k t u → Elsewhere k s u
Elsewhere-trans w x = record {
  same_found = λ j n. x.same_found j n ∙ w.same_found j n;
  same_handlers = λ j n. x.same_handlers j n ∙ w.same_handlers j n;
  same_phase = λ j n. x.same_phase j n ∙ w.same_phase j n;
  same_next = x.same_next ∙ w.same_next;
}

pub put-Elsewhere : (k : ℕ) (c : Connection) (s : Server) → Elsewhere k s (put k c s)
put-Elsewhere k c s = record {
  same_found = λ j n. find-assign_other j k c s.connections n;
  same_handlers = λ j n. refl;
  same_phase = λ j n. refl;
  same_next = refl;
}

pub call-Elsewhere : (k : ℕ) (c : Call) (s : Server) → Elsewhere k s (call k c s)
call-Elsewhere k c s = record {
  same_found = λ j n. refl;
  same_handlers = λ j n. refl;
  same_phase = λ j n. phase-call_other j k c s.calls n;
  same_next = refl;
}

pub submit-Elsewhere : (h : Handler) (s : Server) → Elsewhere (id_of h) s (submit h s)
submit-Elsewhere h s = record {
  same_found = λ j n. refl;
  same_handlers = λ j n. about-submit_other j s.handlers h n;
  same_phase = λ j n. refl;
  same_next = refl;
}

pub alter :
    {o o' : Option ℕ} (k : ℕ) (s s' : Server)
    → ((j : ℕ) (c : Option Connection) (hs : List Handler) (p : Option Phase)
        → k ≢ j
        → Life o' j c hs p
        → Life o j c hs p)
    → Elsewhere k s s'
    → phase k s.calls ≢ some Phase.unborn
    → LifeAt o k s'
    → Alive o' s
    → Alive o s'
alter {o} k s s' t w b l v = record {
  life = λ j. elim (ℕ_discrete k j) [
    | yes e ↦ subst (λ j. LifeAt o j s') e l
    | no n ↦
        Life-as (w.same_found j n) (w.same_handlers j n) (w.same_phase j n) (t j _ _ _ n (v.life j))
  ];
  fresh = λ j le. elim (ℕ_discrete k j) [
    | yes e ↦
        absurd (
          b (ap (λ j. phase j s.calls) e ∙ v.fresh j (let n = w.same_next in omega (arith, le, n))))
    | no n ↦ w.same_phase j n ∙ v.fresh j (let n = w.same_next in omega (arith, le, n))
  ];
}
