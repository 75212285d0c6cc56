-- ===== src/Multiplexor/Pause.antt =====
-- When a pause is asked for.
use mathlib.Core.Path.{subst, ap₂}
use slimstream.Base.{
  ℕ, zero, suc, ◌+◌, ◌<◌, ◌≡◌, refl, sym, ap, Bool, true, false, Option, none, some, List, [], ◌∷◌,
  ◌++◌, replicate, length, get_elem?, leb, arith, if◌then◌else◌, if_true, if_false,
}
use slimstream.Multiplexor.{
  ProducerApi, Multiplexor, switch_to_next_producer, set_up, Polled, poll_at, poll, conclude,
  produce_chunk, next_index,
}
use slimstream.Multiplexor.Turns.{Turn, Silent, poll_at-Silent, poll_at-Turn, empty_call-Turn}

module _ {P K : Type 0} (api : ProducerApi P K) where
  -- the results of a number of calls
  unfoldable pub results : ℕ → Multiplexor P → K → List (Option ℕ)
  results zero m k = []
  results (suc j) m k = let (r, m', k') = produce_chunk api m k in r ∷ results j m' k'

  -- what a call without a chunk answers, and how it counts
  abbrev Counted : ℕ → ℕ → Polled api → Type 0
  Counted n e r =
      if leb n (e + 1)
      then (r.0 ≡ some 100) × (r.1.empty_switches ≡ 0)
      else (r.0 ≡ none) × (r.1.empty_switches ≡ e + 1)

  conclude-Counted :
      (n e : ℕ) (r : Polled api)
      → r.0 ≡ none
      → length r.1.producers ≡ n
      → r.1.empty_switches ≡ e
      → Counted n e (conclude api r)
  unfolding switch_to_next_producer
  conclude-Counted n e (some d, m, k) q size count = absurd (clash q)
    where
      clash : some d ≡ none → ⊥
      clash q = cc
  conclude-Counted n e (none, m, k) q size count =
      subst (λ j. Counted n j (conclude api (none, m, k))) count
        (subst (λ s. Counted s m.empty_switches (conclude api (none, m, k))) size
          (by_flag (leb (length m.producers) (m.empty_switches + 1))))
    where
      answer : Bool → Polled api
      answer b =
          let s = switch_to_next_producer m in
          if b
          then (some 100, record s { empty_switches = 0 }, k)
          else (none, record s { empty_switches = s.empty_switches + 1 }, k)

      by_flag :
          (b : Bool)
          → (if b
              then ((answer b).0 ≡ some 100) × ((answer b).1.empty_switches ≡ 0)
              else ((answer b).0 ≡ none) × ((answer b).1.empty_switches ≡ m.empty_switches + 1))
      by_flag true = (refl, refl)
      by_flag false = (refl, refl)

  poll_at-count :
      (i : ℕ) (o : Option P) (m : Multiplexor P) (k : K)
      → (poll_at api i o m k).1.empty_switches ≡ m.empty_switches
  poll_at-count i none m k = refl
  poll_at-count i (some p) m k = refl

  call-Counted :
      {n i : ℕ} (m : Multiplexor P) (k : K)
      → Silent api
      → Turn n i m
      → Counted n m.empty_switches (produce_chunk api m k)
  unfolding produce_chunk
  call-Counted {n} {i} m k q v =
      subst
        (λ (c : Option ℕ).
          Counted n m.empty_switches
            (conclude api (poll api (set_up c m).current_producer (set_up c m) k)))
        (sym v.current)
        (subst (λ (c : Option ℕ). Counted n m.empty_switches (conclude api (poll api c m k)))
          (sym v.current)
          (conclude-Counted n m.empty_switches (poll_at api i (get_elem? m.producers i) m k)
            (poll_at-Silent api i (get_elem? m.producers i) m k q)
            (poll_at-Turn api (get_elem? m.producers i) m k v).size
            (poll_at-count i (get_elem? m.producers i) m k)))

  full_round : (n e : ℕ) (r : Polled api) → Counted n e r → n ≡ e + 1 → r.0 ≡ some 100
  full_round n e r c h =
      (subst (λ (t : Type 0). t) (if_true (leb n (e + 1)) _ _ (ground (arith, h))) c).0

  partial_round :
      (n e : ℕ) (r : Polled api)
      → Counted n e r
      → e + 1 < n
      → (r.0 ≡ none) × (r.1.empty_switches ≡ e + 1)
  partial_round n e r c h =
      subst (λ (t : Type 0). t) (if_false (leb n (e + 1)) _ _ (ground (arith, h))) c

  -- While no producer has a chunk, from a state whose current producer is the one at the index, the
  -- calls have no answer until as many in a row were empty as there are producers; that call asks
  -- for a pause of 100 milliseconds.
  pub results-Silent :
      {n : ℕ} (d i : ℕ) (m : Multiplexor P) (k : K)
      → Silent api
      → Turn n i m
      → m.empty_switches + suc d ≡ n
      → results (suc d) m k ≡ replicate d none ++ some 100 ∷ []
  unfolding results
  results-Silent {n} zero i m k q v h =
      ap (λ (r : Option ℕ). r ∷ [])
        (full_round n m.empty_switches (produce_chunk api m k) (call-Counted m k q v)
          (omega (arith, h)))
  results-Silent {n} (suc d) i m k q v h =
      let (nothing, count) =
        partial_round n m.empty_switches (produce_chunk api m k) (call-Counted m k q v)
          (omega (arith, h)) in
      ap₂ ◌∷◌ nothing (
        results-Silent d (next_index n i) (produce_chunk api m k).1 (produce_chunk api m k).2 q
          (empty_call-Turn api m k q v) (omega (arith, h, count)))
