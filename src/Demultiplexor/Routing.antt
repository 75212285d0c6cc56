-- ===== src/Demultiplexor/Routing.antt =====
-- Where a chunk goes.
use mathlib.Core.Path.{subst}
use slimstream.Base.{
  ℕ, ◌≡◌, ◌≢◌, refl, sym, Bool, true, false, Option, none, some, List, [], ◌∷◌, get_elem?, set,
  ◌==◌, arith, if◌then◌else◌, if_cases,
}
use slimstream.Chunk.{Chunk}
use slimstream.Demultiplexor.{
  ConsumerApi, Demultiplexor, rate_at, fitting, find_consumer, switch_over, hand_at, hand_over,
  consume_chunk, next_index,
}

module _ {C : Type 0} (api : ConsumerApi C) where
  -- no consumer has the sampling rate
  pub data NoneFits (rate : ℕ) : List C → Type 0 where
    no_consumer : NoneFits rate []
    other_rate :
        {c : C} {cs : List C}
        → api.get_sampling_rate c ≢ rate
        → NoneFits rate cs
        → NoneFits rate (c ∷ cs)

  -- What the handing over of a chunk comes to, by the consumer that is current then.
  pub data Routed (chunk : Chunk) (d : Demultiplexor C) : Bool × Demultiplexor C → Type 0 where
    handed :
        {c : C} (i : ℕ)
        → get_elem? d.consumers i ≡ some c
        → api.get_sampling_rate c ≡ chunk.sampling_rate
        → Routed chunk d (
          (api.consume_chunk chunk c).0,
          record {
            consumers = set d.consumers i (api.consume_chunk chunk c).1;
            current_consumer = some i;
          },
        )
    skipped :
        NoneFits chunk.sampling_rate d.consumers
        → Routed chunk d (true, record d { current_consumer = none })

  -- a consumer that fits, or none
  Choice : ℕ → List C → Option ℕ → Type 0
  Choice rate cs none = NoneFits rate cs
  Choice rate cs (some i) = (c : C) × (get_elem? cs i ≡ some c) × (api.get_sampling_rate c ≡ rate)

  next-Choice :
      (rate : ℕ) (c : C) (cs : List C) (o : Option ℕ)
      → api.get_sampling_rate c ≢ rate
      → Choice rate cs o
      → Choice rate (c ∷ cs) (next_index o)
  unfolding Choice
  next-Choice rate c cs none ne h = other_rate ne h
  next-Choice rate c cs (some i) ne h = h

  find_consumer-Choice : (rate : ℕ) (cs : List C) → Choice rate cs (find_consumer api cs rate)
  unfolding find_consumer Choice
  find_consumer-Choice rate [] = no_consumer
  find_consumer-Choice rate (c ∷ cs) =
      if_cases (Choice rate (c ∷ cs)) (rate == api.get_sampling_rate c)
        (λ e. (c, refl, ground (arith, e)))
        (λ ne.
          next-Choice rate c cs (find_consumer api cs rate) (λ q. other q ne)
            (find_consumer-Choice rate cs))
    where
      other : api.get_sampling_rate c ≡ rate → (rate == api.get_sampling_rate c) ≡ false → ⊥
      other q ne = ground (arith, q, ne)

  switch_over-Choice :
      (rate : ℕ) (cs : List C) (o : Option ℕ)
      → Choice rate cs (switch_over api (fitting api cs rate o) cs rate)
  unfolding Choice
  switch_over-Choice rate cs none = find_consumer-Choice rate cs
  switch_over-Choice rate cs (some i) = at (get_elem? cs i) refl
    where
      at :
          (o : Option C)
          → get_elem? cs i ≡ o
          → Choice rate cs (switch_over api (if rate_at api o rate then some i else none) cs rate)
      at none e = find_consumer-Choice rate cs
      at (some c) e =
          if_cases (λ x. Choice rate cs (switch_over api x cs rate))
            (rate == api.get_sampling_rate c) (λ q. (c, e, ground (arith, q)))
            (λ _. find_consumer-Choice rate cs)

  hand_over-Routed :
      (chunk : Chunk) (d : Demultiplexor C) (o : Option ℕ)
      → Choice chunk.sampling_rate d.consumers o
      → Routed chunk d (hand_over api chunk o (record d { current_consumer = o }))
  unfolding Choice
  hand_over-Routed chunk d none h = skipped h
  hand_over-Routed chunk d (some i) (c, e, r) =
      subst
        (λ (o : Option C).
          Routed chunk d (hand_at api chunk i o (record d { current_consumer = some i })))
        (sym e) (handed i e r)

  -- A chunk goes to one consumer of its sampling rate, which becomes the current one and whose answer is
  -- the result; without such a consumer it is reported as consumed, and none is current.
  pub consume_chunk-Routed :
      (chunk : Chunk) (d : Demultiplexor C) → Routed chunk d (consume_chunk api chunk d)
  unfolding consume_chunk
  consume_chunk-Routed chunk d =
      hand_over-Routed chunk d _
        (switch_over-Choice chunk.sampling_rate d.consumers d.current_consumer)
