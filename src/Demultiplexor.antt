-- ===== src/Demultiplexor.antt =====
-- src/slim/Demultiplexor.hpp: a chunk goes to the consumer of its sampling rate. A consumer is known by
-- an interface.
pub mod Routing
use slimstream.Base.{
  ℕ, suc, Bool, true, false, Option, none, some, List, [], ◌∷◌, map, get_elem?, set, ◌==◌,
  if◌then◌else◌,
}
use slimstream.Chunk.{Chunk}

-- `stop` is less its callback
pub record ConsumerApi (C : Type 0) : Type 0 where
  pub get_sampling_rate : C → ℕ
  pub is_running : C → Bool
  pub consume_chunk : Chunk → C → Bool × C
  pub start : C → C
  pub stop : C → C

-- `current_consumer` is a pointer to one of the consumers, by its index
pub record Demultiplexor (C : Type 0) : Type 0 where
  pub consumers : List C
  pub current_consumer : Option ℕ

unfoldable pub make : {C : Type 0} → List C → Demultiplexor C
make cs = record { consumers = cs; current_consumer = none }

abbrev pub next_index : Option ℕ → Option ℕ
next_index none = none
next_index (some i) = some (suc i)

module _ {C : Type 0} (api : ConsumerApi C) where
  abbrev pub rate_at : Option C → ℕ → Bool
  rate_at none rate = false
  rate_at (some c) rate = rate == api.get_sampling_rate c

  -- the current consumer, unless its sampling rate is another
  abbrev pub fitting : List C → ℕ → Option ℕ → Option ℕ
  fitting cs rate none = none
  fitting cs rate (some i) = if rate_at (get_elem? cs i) rate then some i else none

  -- the first consumer of a sampling rate
  unfoldable pub find_consumer : List C → ℕ → Option ℕ
  find_consumer [] rate = none
  find_consumer (c ∷ cs) rate =
      let rest = next_index (find_consumer cs rate) in
      if rate == api.get_sampling_rate c then some 0 else rest

  abbrev pub switch_over : Option ℕ → List C → ℕ → Option ℕ
  switch_over none cs rate = find_consumer cs rate
  switch_over (some i) cs rate = some i

  abbrev pub hand_at : Chunk → ℕ → Option C → Demultiplexor C → Bool × Demultiplexor C
  hand_at chunk i none d = (true, d)
  hand_at chunk i (some c) d =
      let (result, c') = api.consume_chunk chunk c in
      (result, record d { consumers = set d.consumers i c' })

  -- Without a consumer the chunk is consumed without processing.
  abbrev pub hand_over : Chunk → Option ℕ → Demultiplexor C → Bool × Demultiplexor C
  hand_over chunk none d = (true, d)
  hand_over chunk (some i) d = hand_at chunk i (get_elem? d.consumers i) d

  unfoldable pub consume_chunk : Chunk → Demultiplexor C → Bool × Demultiplexor C
  consume_chunk chunk d =
      let current =
        switch_over (fitting d.consumers chunk.sampling_rate d.current_consumer) d.consumers
          chunk.sampling_rate in
      hand_over chunk current (record d { current_consumer = current })

  abbrev pub running_at : Option C → Bool
  running_at none = false
  running_at (some c) = api.is_running c

  abbrev pub is_running_at : Option ℕ → List C → Bool
  is_running_at none cs = false
  is_running_at (some i) cs = running_at (get_elem? cs i)

  unfoldable pub is_running : Demultiplexor C → Bool
  is_running d = is_running_at d.current_consumer d.consumers

  unfoldable pub start : Demultiplexor C → Demultiplexor C
  start d = record d { consumers = map api.start d.consumers }

  -- the callback that `stop` is given is not called
  unfoldable pub stop : Demultiplexor C → Demultiplexor C
  stop d = record d { consumers = map api.stop d.consumers }
