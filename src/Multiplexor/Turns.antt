-- ===== src/Multiplexor/Turns.antt =====
-- Whose turn it is.
use mathlib.Core.Path.{subst}
use slimstream.Base.{
  ℕ, zero, suc, ◌+◌, ◌-◌, ◌≤◌, ◌<◌, ◌≡◌, refl, sym, ap, ◌∙◌, inl, inr, true, false, Option, none,
  some, length, get_elem?, length-set, ltb, leb, arith, if_true, if_false, if_cases, Bool-cases,
}
use slimstream.Multiplexor.{
  ProducerApi, Multiplexor, next_index, switch_to_next_producer, set_up, Polled, poll_at, poll,
  conclude, produce_chunk,
}

-- The producer whose turn it is is one of the producers, and the one at the index; fewer switches in a
-- row were empty than there are producers.
pub record Turn {P : Type 0} (n i : ℕ) (m : Multiplexor P) : Type 0 where
  pub size : length m.producers ≡ n
  pub index : m.current_producer_index ≡ i
  pub current : m.current_producer ≡ some i
  pub in_range : i < n
  pub few : m.empty_switches < n

-- the turn after some switches
unfoldable pub turn_after : ℕ → ℕ → ℕ → ℕ
turn_after n i zero = i
turn_after n i (suc j) = turn_after n (next_index n i) j

next_index-less : (n i : ℕ) → i < n → next_index n i < n
next_index-less n i h =
    if_cases (λ j. j < n) (leb n (i + 1)) (λ _. omega (arith, h)) (λ l. ground (arith, l))

up : (n i d : ℕ) → i + d < n → turn_after n i d ≡ i + d
unfolding turn_after
up n i zero h = omega arith
up n i (suc d) h =
    let l : leb n (i + 1) ≡ false = ground (arith, h) in
    let next : next_index n i ≡ i + 1 = if_false (leb n (i + 1)) 0 (i + 1) l in
    let e : i + 1 + d ≡ i + suc d = omega arith in
    ap (λ k. turn_after n k d) next ∙ up n (i + 1) d (omega (arith, h)) ∙ e

around : (n i d : ℕ) → i + suc d ≡ n → turn_after n i (suc d) ≡ 0
unfolding turn_after
around n i zero h =
    let l : leb n (i + 1) ≡ true = ground (arith, h) in if_true (leb n (i + 1)) 0 (i + 1) l
around n i (suc d) h =
    let l : leb n (i + 1) ≡ false = ground (arith, h) in
    ap (λ k. turn_after n k (suc d)) (if_false (leb n (i + 1)) 0 (i + 1) l)
    ∙ around n (i + 1) d (omega (arith, h))

turn_after-add : (n i a b : ℕ) → turn_after n i (a + b) ≡ turn_after n (turn_after n i a) b
unfolding turn_after
turn_after-add n i zero b = let e : 0 + b ≡ b = omega arith in ap (λ k. turn_after n i k) e
turn_after-add n i (suc a) b =
    let e : suc a + b ≡ suc (a + b) = omega arith in
    ap (λ k. turn_after n i k) e ∙ turn_after-add n (next_index n i) a b

-- Every turn comes within one time around.
comes : (n i t : ℕ) → i < n → t < n → (j : ℕ) × (j < n) × (turn_after n i j ≡ t)
comes n i t hi ht = elim (Bool-cases (leb i t)) [
  | inl le ↦
      let r : i ≤ t = ground (arith, le) in
      let e : i + (t - i) ≡ t = omega (arith, r) in
      (t - i, omega (arith, r, ht), up n i (t - i) (omega (arith, e, ht)) ∙ e)
  | inr gt ↦
      let r : t < i = ground (arith, gt) in
      let e : suc (n - i - 1) + t < n = omega (arith, r, hi) in
      (
        suc (n - i - 1) + t,
        e,
        turn_after-add n i (suc (n - i - 1)) t
            ∙ ap (λ k. turn_after n k t) (around n i (n - i - 1) (omega (arith, hi)))
            ∙ up n 0 t (omega (arith, ht))
            ∙ (omega arith),
      )
]

module _ {P K : Type 0} (api : ProducerApi P K) where
  -- Producers that have no chunk.
  abbrev pub Silent : Type 0
  Silent = (p : P) (k : K) → (api.produce_chunk p k).0 ≡ none

  -- a number of calls, and the last result
  unfoldable pub calls : ℕ → Multiplexor P → K → Multiplexor P × K
  calls zero m k = (m, k)
  calls (suc j) m k = let (r, m', k') = produce_chunk api m k in calls j m' k'

  pub poll_at-Turn :
      {n i : ℕ} (o : Option P) (m : Multiplexor P) (k : K)
      → Turn n i m
      → Turn n i (poll_at api i o m k).1
  poll_at-Turn none m k v = v
  poll_at-Turn {i} (some p) m k v = record {
    size = length-set m.producers i (api.produce_chunk p k).1 ∙ v.size;
    index = v.index;
    current = v.current;
    in_range = v.in_range;
    few = v.few;
  }

  pub poll_at-Silent :
      (i : ℕ) (o : Option P) (m : Multiplexor P) (k : K) → Silent → (poll_at api i o m k).0 ≡ none
  poll_at-Silent i none m k q = refl
  poll_at-Silent i (some p) m k q = q p k

  pub conclude-Turn :
      {n i : ℕ} (r : Polled api)
      → r.0 ≡ none
      → Turn n i r.1
      → Turn n (next_index n i) (conclude api r).1
  unfolding switch_to_next_producer
  conclude-Turn (some d, m, k) e v = cc
  conclude-Turn {n} {i} (none, m, k) e v =
      if_cases {A = Polled api} (λ r. Turn n (next_index n i) r.1)
        (leb (length m.producers) (m.empty_switches + 1))
        (λ _. record {
          size = v.size;
          index = next;
          current = if_true (ltb 0 (length m.producers)) _ none some_producer ∙ ap some next;
          in_range = next_index-less n i v.in_range;
          few = omega (arith, v.in_range);
        })
        (λ l. record {
          size = v.size;
          index = next;
          current = if_true (ltb 0 (length m.producers)) _ none some_producer ∙ ap some next;
          in_range = next_index-less n i v.in_range;
          few = ground (arith, l, v.size);
        })
    where
      next : next_index (length m.producers) m.current_producer_index ≡ next_index n i
      next =
          ap (λ s. next_index s m.current_producer_index) v.size ∙ ap (λ j. next_index n j) v.index

      some_producer : ltb 0 (length m.producers) ≡ true
      some_producer = let h = v.size in let l = v.in_range in ground (arith, h, l)

  pub empty_call-Turn :
      {n i : ℕ} (m : Multiplexor P) (k : K)
      → Silent
      → Turn n i m
      → Turn n (next_index n i) (produce_chunk api m k).1
  unfolding produce_chunk
  empty_call-Turn {n} {i} m k q v =
      subst
        (λ (c : Option ℕ).
          Turn n (next_index n i)
            (conclude api (poll api (set_up c m).current_producer (set_up c m) k)).1)
        (sym v.current)
        (subst (λ (c : Option ℕ). Turn n (next_index n i) (conclude api (poll api c m k)).1)
          (sym v.current)
          (conclude-Turn (poll_at api i (get_elem? m.producers i) m k)
            (poll_at-Silent i (get_elem? m.producers i) m k q)
            (poll_at-Turn (get_elem? m.producers i) m k v)))

  calls-Turn :
      {n : ℕ} (j i : ℕ) (m : Multiplexor P) (k : K)
      → Silent
      → Turn n i m
      → Turn n (turn_after n i j) (calls j m k).0
  unfolding calls turn_after
  calls-Turn zero i m k q v = v
  calls-Turn {n} (suc j) i m k q v =
      calls-Turn j (next_index n i) (produce_chunk api m k).1 (produce_chunk api m k).2 q
        (empty_call-Turn m k q v)

  -- While no producer has a chunk, from a state whose current producer is the one at the index,
  -- every producer's turn comes within fewer calls than there are producers.
  pub Turn-comes :
      {n i : ℕ} (t : ℕ) (m : Multiplexor P) (k : K)
      → Silent
      → Turn n i m
      → t < n
      → (j : ℕ) × (j < n) × Turn n t (calls j m k).0
  Turn-comes {n} {i} t m k q v h =
      let (j, less, e) = comes n i t v.in_range h in
      (j, less, subst (λ x. Turn n x (calls j m k).0) e (calls-Turn j i m k q v))
