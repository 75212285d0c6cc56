-- ===== src/Multiplexor.antt =====
-- src/slim/Multiplexor.hpp: several producers of chunks taken in turn. A producer is known by an
-- interface; `K` is the consumer that it hands a chunk to.
pub mod Turns
pub mod Pause
use slimstream.Base.{
  ℕ, zero, suc, ◌+◌, Bool, true, false, ◌||◌, Option, none, some, List, [], ◌∷◌, map, length,
  get_elem?, set, ltb, leb, if◌then◌else◌,
}

pub record ProducerApi (P K : Type 0) : Type 0 where
  pub is_running : P → Bool
  pub produce_chunk : P → K → Option ℕ × P × K
  pub skip_chunk : P → Option ℕ × P
  pub start : P → P

-- `current_producer` is a reference to one of the producers, by its index
pub record Multiplexor (P : Type 0) : Type 0 where
  pub producers : List P
  pub current_producer_index : ℕ
  pub current_producer : Option ℕ
  pub empty_switches : ℕ

unfoldable pub make : {P : Type 0} → List P → Multiplexor P
make ps = record {
  producers = ps;
  current_producer_index = 0;
  current_producer = none;
  empty_switches = 0;
}

abbrev pub next_index : ℕ → ℕ → ℕ
next_index size i = if leb size (i + 1) then 0 else i + 1

module _ {P : Type 0} where
  unfoldable pub switch_to_next_producer : Multiplexor P → Multiplexor P
  switch_to_next_producer m =
      let i = next_index (length m.producers) m.current_producer_index in
      record m {
        current_producer_index = i;
        current_producer = if ltb 0 (length m.producers) then some i else none;
      }

  -- a producer is set up if needed
  abbrev pub set_up : Option ℕ → Multiplexor P → Multiplexor P
  set_up none m = switch_to_next_producer m
  set_up (some i) m = m

module _ {P K : Type 0} (api : ProducerApi P K) where
  unfoldable pub any_running : List P → Bool
  any_running [] = false
  any_running (p ∷ ps) = if api.is_running p then true else any_running ps

  abbrev pub is_running : Multiplexor P → Bool
  is_running m = any_running m.producers

  abbrev pub Polled : Type 0
  Polled = Option ℕ × Multiplexor P × K

  abbrev pub poll_at : ℕ → Option P → Multiplexor P → K → Polled
  poll_at i none m k = (none, m, k)
  poll_at i (some p) m k =
      let (result, p', k') = api.produce_chunk p k in
      (result, record m { producers = set m.producers i p' }, k')

  abbrev pub poll : Option ℕ → Multiplexor P → K → Polled
  poll none m k = (none, m, k)
  poll (some i) m k = poll_at i (get_elem? m.producers i) m k

  -- switches to the next producer if there was no chunk, and asks for a pause once none has any
  abbrev pub conclude : Polled → Polled
  conclude (some delay, m, k) = (some delay, record m { empty_switches = 0 }, k)
  conclude (none, m, k) =
      let s = switch_to_next_producer m in
      if leb (length s.producers) (s.empty_switches + 1)
      then (some 100, record s { empty_switches = 0 }, k)
      else (none, record s { empty_switches = s.empty_switches + 1 }, k)

  unfoldable pub produce_chunk : Multiplexor P → K → Polled
  produce_chunk m k = let s = set_up m.current_producer m in conclude (poll s.current_producer s k)

  abbrev pub skip_at : ℕ → Option P → Multiplexor P → Option ℕ × Multiplexor P
  skip_at i none m = (none, m)
  skip_at i (some p) m =
      let (result, p') = api.skip_chunk p in (result, record m { producers = set m.producers i p' })

  abbrev pub skip_current : Option ℕ → Multiplexor P → Option ℕ × Multiplexor P
  skip_current none m = (none, m)
  skip_current (some i) m = skip_at i (get_elem? m.producers i) m

  unfoldable pub skip_chunk : Multiplexor P → Option ℕ × Multiplexor P
  skip_chunk m = skip_current m.current_producer m

  unfoldable pub start : Multiplexor P → Multiplexor P
  start m = record m { producers = map api.start m.producers }
