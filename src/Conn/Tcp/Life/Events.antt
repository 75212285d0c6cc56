-- ===== src/Conn/Tcp/Life/Events.antt =====
-- The life of each connection, when an accept or a read ends.
use mathlib.Core.Path.{subst}
use slimstream.Base.{
  ℕ, ◌≡◌, refl, sym, ap, ◌∙◌, Bool, true, false, not, ◌||◌, Option, none, some, List, [], ◌∷◌,
  if_intro, if_cases, if◌then◌else◌,
}
use slimstream.Proto.Wire.{Bytes}
use slimstream.Proto.Streamer.State.{find}
use slimstream.Conn.Tcp.State.{Waiting, Connection, on_data, Handler, Server}
use slimstream.Conn.Tcp.Server.{call, start_reading, open_connection, accepted, received}
use slimstream.Conn.Tcp.Phase.{Phase, phase, advance_from}
use slimstream.Conn.Tcp.Vector.{about}
use slimstream.Conn.Tcp.Life.Change.{Defined, defined, call-Elsewhere, alter}
use slimstream.Conn.Tcp.Life.{
  Life, accepting, opens, reading, refused, closing, leaving, Alive, Life-as, Life-opening,
  phase-call,
}
use slimstream.Conn.Tcp.Life.Operations.{close_connection-Alive, not_born}
use slimstream.Conn.Tcp.Life.Opening.{opened-Opening, after_open-Opening, start_reading-Alive}

-- What is known of a connection that waits for its accept, and of one that waits for data.
pub record Known (b : Bool) (p : Option Phase) (c : Connection) (hs : List Handler)
    (q : Option Phase) : Type 0 where
  pub opened_as : c.opened ≡ b
  pub quiet : hs ≡ []
  pub told : q ≡ p

pub accepting-Life :
    {k : ℕ} {c : Connection} {hs : List Handler} {p : Option Phase}
    → c.waiting ≡ Waiting.accepting
    → Life none k (some c) hs p
    → Known false (some Phase.waiting) c hs p
accepting-Life w accepting = record { opened_as = refl; quiet = refl; told = refl }
accepting-Life w (opens f) = absurd cc
accepting-Life w reading = absurd cc
accepting-Life w refused = absurd cc
accepting-Life w closing = absurd cc
accepting-Life w leaving = absurd cc

pub reading-Life :
    {k : ℕ} {c : Connection} {hs : List Handler} {p : Option Phase}
    → c.waiting ≡ Waiting.reading
    → Life none k (some c) hs p
    → Known true (some Phase.live) c hs p
reading-Life w accepting = absurd cc
reading-Life w (opens f) = absurd cc
reading-Life w reading = record { opened_as = refl; quiet = refl; told = refl }
reading-Life w refused = absurd cc
reading-Life w closing = absurd cc
reading-Life w leaving = absurd cc

pub Life-found :
    {c : Connection} (k : ℕ) (s : Server)
    → find k s.connections ≡ some c
    → Alive none s
    → Life none k (some c) (about k s.handlers) (phase k s.calls)
Life-found k s f v = subst (λ o. Life none k o (about k s.handlers) (phase k s.calls)) f (v.life k)

told_as :
    {b b' : Bool} {p : Option Phase}
    → b' ≡ b
    → p ≡ some (if b then Phase.live else Phase.waiting)
    → p ≡ some (if b' then Phase.live else Phase.waiting)
told_as e t = rw (e, t)

pub accepted-Alive :
    (error : Bool) (k : ℕ) (c : Connection) (s : Server)
    → c.waiting ≡ Waiting.accepting
    → find k s.connections ≡ some c
    → Alive none s
    → Defined (Alive none) (accepted error k c s)
unfolding accepted open_connection
accepted-Alive error k c s w f v =
    let l = accepting-Life w (Life-found k s f v) in
    if_intro (Defined (Alive none)) (error || not (not error))
      (defined (
        close_connection-Alive k (record c { is_open = not error }) s
          (record { quiet = l.quiet; told = told_as l.opened_as l.told }) v))
      (if_cases {A = Option Server} (λ o. Defined (Alive none) (start_reading k o)) c.opened
        (λ e. absurd (both e l.opened_as))
        (λ e. start_reading-Alive k (
          after_open-Opening k _
            (opened-Opening k (record c { is_open = not error }) s l.quiet l.told w v))))
  where
    both : {b : Bool} → b ≡ true → b ≡ false → ⊥
    both e f = cc

pub received-Alive :
    (error : Bool) (bytes : Bytes) (k : ℕ) (c : Connection) (s : Server)
    → c.waiting ≡ Waiting.reading
    → find k s.connections ≡ some c
    → Alive none s
    → Alive none (received error bytes k c s)
unfolding received
received-Alive error bytes k c s w f v =
    let l = reading-Life w (Life-found k s f v) in
    if_intro (Alive none) error
      (close_connection-Alive k c s (record { quiet = l.quiet; told = told_as l.opened_as l.told })
        v)
      (read bytes l.told)
  where
    read :
        (bs : Bytes)
        → phase k s.calls ≡ some Phase.live
        → Alive none (elim bs [ [] ↦ s | x ∷ xs ↦ call k (on_data (x ∷ xs)) s ])
    read [] t = v
    read (x ∷ xs) t =
        alter k s _ (λ j c hs p n. Life-opening _) (call-Elsewhere k (on_data (x ∷ xs)) s)
          (not_born true t)
          (Life-as refl refl
            (phase-call k (on_data (x ∷ xs)) s.calls
              ∙ ap (advance_from (on_data (x ∷ xs))) t
              ∙ sym t)
            (v.life k))
          v
