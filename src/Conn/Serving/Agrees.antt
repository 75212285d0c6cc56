-- ===== src/Conn/Serving/Agrees.antt =====
-- Which connections have a session, by what their user was told.
use mathlib.Core.Path.{subst}
use slimstream.Base.{
  ℕ, ◌≡◌, ◌≢◌, refl, sym, ap, ◌∙◌, Bool, true, false, Option, none, some, List, ◌∷◌, ℕ_discrete,
}
use slimstream.Proto.Streamer.Maps.{add_key, drop_key, has_key}
use slimstream.Proto.Streamer.Keys.{
  has_key-add, has_key-add_other, has_key-drop, has_key-drop_other, Distinct, add_key-Distinct,
  drop_key-Distinct,
}
use slimstream.Conn.Tcp.State.{Call, on_start, on_open, on_close, on_stop, on_data}
use slimstream.Conn.Tcp.Phase.{Phase, phase, advance, advance_from}
use slimstream.Conn.Tcp.Life.{phase-call, phase-call_other}

abbrev pub is_live : Phase → Bool
is_live Phase.live = true
is_live p = false

abbrev pub live_of : Option Phase → Bool
live_of none = false
live_of (some p) = is_live p

-- Start, data and stop are for connections that are open before and after, or neither.
quiet_call :
    (q p : Phase) (c : Call)
    → c ≢ on_open
    → c ≢ on_close
    → advance q c ≡ some p
    → is_live q ≡ is_live p
quiet_call q p on_open n m e = absurd (n refl)
quiet_call q p on_close n m e = absurd (m refl)
quiet_call Phase.unborn p on_start n m e = ap live_of e
quiet_call Phase.live p (on_data bs) n m e = ap live_of e
quiet_call Phase.waiting p on_stop n m e = ap live_of e
quiet_call Phase.closed p on_stop n m e = ap live_of e
quiet_call Phase.unborn p (on_data bs) n m e = absurd cc
quiet_call Phase.unborn p on_stop n m e = absurd cc
quiet_call Phase.waiting p on_start n m e = absurd cc
quiet_call Phase.waiting p (on_data bs) n m e = absurd cc
quiet_call Phase.live p on_start n m e = absurd cc
quiet_call Phase.live p on_stop n m e = absurd cc
quiet_call Phase.closed p on_start n m e = absurd cc
quiet_call Phase.closed p (on_data bs) n m e = absurd cc
quiet_call Phase.ended p on_start n m e = absurd cc
quiet_call Phase.ended p (on_data bs) n m e = absurd cc
quiet_call Phase.ended p on_stop n m e = absurd cc

-- A connection that is opened was not open.
pub open_call :
    (q p : Phase) → advance q on_open ≡ some p → (false ≡ is_live q) × (true ≡ is_live p)
open_call Phase.unborn p e = absurd cc
open_call Phase.waiting p e = (refl, ap live_of e)
open_call Phase.live p e = absurd cc
open_call Phase.closed p e = absurd cc
open_call Phase.ended p e = absurd cc

-- A connection that is closed is not open.
close_call : (q p : Phase) → advance q on_close ≡ some p → false ≡ is_live p
close_call Phase.unborn p e = absurd cc
close_call Phase.waiting p e = absurd cc
close_call Phase.live p e = ap live_of e
close_call Phase.closed p e = absurd cc
close_call Phase.ended p e = absurd cc

-- the phase before a call
pub before :
    (c : Call) (o : Option Phase) (p : Phase)
    → advance_from c o ≡ some p
    → (q : Phase) × (o ≡ some q) × (advance q c ≡ some p)
before c none p e = absurd cc
before c (some q) p e = (q, refl, e)

-- A connection has a session exactly if its user knows it as open.
pub record Agrees (cs : List (ℕ × Call)) (ks : List ℕ) : Type 0 where
  pub distinct : Distinct ks
  pub live : (k : ℕ) (p : Phase) → phase k cs ≡ some p → has_key k ks ≡ is_live p

-- the phase after a call for `k`
phase_same :
    (k : ℕ) (c : Call) (cs : List (ℕ × Call)) (p : Phase)
    → phase k ((k, c) ∷ cs) ≡ some p
    → advance_from c (phase k cs) ≡ some p
phase_same k c cs p e = sym (phase-call k c cs) ∙ e

phase_other :
    (j k : ℕ) (c : Call) (cs : List (ℕ × Call)) (p : Phase)
    → k ≢ j
    → phase j ((k, c) ∷ cs) ≡ some p
    → phase j cs ≡ some p
phase_other j k c cs p n e = sym (phase-call_other j k c cs n) ∙ e

-- what each call does to the connections that have a session
pub quiet-Agrees :
    (k : ℕ) (c : Call) (cs : List (ℕ × Call)) (ks : List ℕ)
    → c ≢ on_open
    → c ≢ on_close
    → Agrees cs ks
    → Agrees ((k, c) ∷ cs) ks
quiet-Agrees k c cs ks n m v = record {
  distinct = v.distinct;
  live = λ j p e. elim (ℕ_discrete k j) [
    | yes same ↦
        subst (λ j. phase j ((k, c) ∷ cs) ≡ some p → has_key j ks ≡ is_live p) same
          (λ e.
            let (q, was, goes) = before c (phase k cs) p (phase_same k c cs p e) in
            v.live k q was ∙ quiet_call q p c n m goes)
          e
    | no other ↦ v.live j p (phase_other j k c cs p other e)
  ];
}

pub open-Agrees :
    (k : ℕ) (cs : List (ℕ × Call)) (ks : List ℕ)
    → Agrees cs ks
    → Agrees ((k, on_open) ∷ cs) (add_key k ks)
open-Agrees k cs ks v = record {
  distinct = add_key-Distinct k v.distinct;
  live = λ j p e. elim (ℕ_discrete k j) [
    | yes same ↦
        subst (λ j. phase j ((k, on_open) ∷ cs) ≡ some p → has_key j (add_key k ks) ≡ is_live p)
          same
          (λ e.
            let (q, was, goes) = before on_open (phase k cs) p (phase_same k on_open cs p e) in
            has_key-add k ks ∙ (open_call q p goes).1)
          e
    | no other ↦ has_key-add_other j k ks other ∙ v.live j p (phase_other j k on_open cs p other e)
  ];
}

pub close-Agrees :
    (k : ℕ) (cs : List (ℕ × Call)) (ks : List ℕ)
    → Agrees cs ks
    → Agrees ((k, on_close) ∷ cs) (drop_key k ks)
close-Agrees k cs ks v = record {
  distinct = drop_key-Distinct k v.distinct;
  live = λ j p e. elim (ℕ_discrete k j) [
    | yes same ↦
        subst (λ j. phase j ((k, on_close) ∷ cs) ≡ some p → has_key j (drop_key k ks) ≡ is_live p)
          same
          (λ e.
            let (q, was, goes) = before on_close (phase k cs) p (phase_same k on_close cs p e) in
            has_key-drop k v.distinct ∙ close_call q p goes)
          e
    | no other ↦
        has_key-drop_other j k ks other ∙ v.live j p (phase_other j k on_close cs p other e)
  ];
}
