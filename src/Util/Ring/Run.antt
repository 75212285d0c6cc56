-- ===== src/Util/Ring/Run.antt =====
-- Sequences of calls on a ring, against the same calls on a window.
use slimstream.Base.{ℕ, ◌≤◌, ◌<◌, ◌≡◌, refl, sym, ap, ◌∙◌, arith, List, [], ◌∷◌, length, get_elem?}
use slimstream.Util.Ring.{Ring, get_capacity, make, at, push, pop, clear}
use slimstream.Util.Ring.Inv.{
  IsValid, max_capacity, make-IsValid, push-IsValid, pop-IsValid, clear-IsValid, capacity-push,
}
use slimstream.Util.Ring.Refine.{
  contents, length-contents, contents-push, contents-pop, contents-clear, at-contents,
}
use slimstream.Util.Ring.Window

pub data Op (A : Type 0) : Type 0 where
  pushes : A → Op A
  pops clears : Op A

module _ {A : Type 0} where
  unfoldable pub step : Ring A → Op A → Ring A
  step r (pushes x) = push r x
  step r pops = pop r
  step r clears = clear r

  unfoldable pub run : Ring A → List (Op A) → Ring A
  run r [] = r
  run r (o ∷ os) = run (step r o) os

  -- the same calls on the window of a ring of capacity `cap`
  unfoldable pub step_window : ℕ → List A → Op A → List A
  step_window cap xs (pushes x) = Window.push cap xs x
  step_window cap xs pops = Window.tail xs
  step_window cap xs clears = []

  unfoldable pub run_window : ℕ → List A → List (Op A) → List A
  run_window cap xs [] = xs
  run_window cap xs (o ∷ os) = run_window cap (step_window cap xs o) os

  step-IsValid : (r : Ring A) (o : Op A) → IsValid r → IsValid (step r o)
  unfolding step
  step-IsValid r (pushes x) v = push-IsValid x v
  step-IsValid r pops v = pop-IsValid v
  step-IsValid r clears v = clear-IsValid v

  capacity-step : (r : Ring A) (o : Op A) → get_capacity (step r o) ≡ get_capacity r
  unfolding step pop clear
  capacity-step r (pushes x) = capacity-push r x
  capacity-step r pops = ground arith
  capacity-step r clears = refl

  contents-step :
      (r : Ring A) (o : Op A)
      → IsValid r
      → contents (step r o) ≡ step_window (get_capacity r) (contents r) o
  unfolding step step_window
  contents-step r (pushes x) v = contents-push r x v
  contents-step r pops v = contents-pop r v
  contents-step r clears v = contents-clear r

  run_refines_from :
      (r : Ring A) (cap : ℕ) (os : List (Op A))
      → IsValid r
      → get_capacity r ≡ cap
      → IsValid (run r os) × (contents (run r os) ≡ run_window cap (contents r) os)
  unfolding run run_window
  run_refines_from r cap [] v c = (v, refl)
  run_refines_from r cap (o ∷ os) v c =
      let (w, e) =
        run_refines_from (step r o) cap os (step-IsValid r o v) (capacity-step r o ∙ c) in
      (
        w,
        e
            ∙ ap (λ xs. run_window cap xs os)
                (contents-step r o v ∙ ap (λ k. step_window k (contents r) o) c),
      )

  -- For a new ring over storage of at most `max_capacity` elements, and whatever calls are made on
  -- it: what can be read of it, by its size and at every index below, is the window after the same
  -- calls.
  pub run_refines :
      (storage : List A) (os : List (Op A))
      → length storage ≤ max_capacity
      → let r = run (make storage) os in
        let xs = run_window (length storage) [] os in
        (r.size ≡ length xs) × ((i : ℕ) → i < r.size → at r i ≡ get_elem? xs i)
  unfolding make contents
  run_refines storage os h =
      let (v, e) =
        run_refines_from (make storage) (length storage) os (make-IsValid storage h) refl in
      (
        sym (length-contents v) ∙ ap length e,
        λ i p. at-contents (run (make storage) os) i v p ∙ ap (λ xs. get_elem? xs i) e,
      )
