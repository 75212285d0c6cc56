-- ===== src/Tests/Ring.antt =====
-- A ring of two places, and a machine of two states.
use slimstream.Base.{ℕ, ◌<◌, ◌≡◌, arith, true, List, [], ◌∷◌, length, get_elem?, ◌==◌}
use slimstream.Util.Ring.{make, at}
use slimstream.Util.Ring.Run.{Op, pushes, pops, run, run_window, run_refines}
use slimstream.Util.StateMachine.{Machine}

abbrev calls : List (Op ℕ)
calls = pushes 1 ∷ pushes 2 ∷ pushes 3 ∷ pops ∷ []

run_refines_example :
    ((run (make (0 ∷ 0 ∷ [])) calls).size ≡ length (run_window 2 [] calls))
    × ((i : ℕ)
        → i < (run (make (0 ∷ 0 ∷ [])) calls).size
        → at (run (make (0 ∷ 0 ∷ [])) calls) i ≡ get_elem? (run_window 2 [] calls) i)
run_refines_example = run_refines (0 ∷ 0 ∷ []) calls (omega arith)

-- The owner is its own state: 0 is off, 1 is on.
abbrev lamp : Machine ℕ ℕ ℕ
lamp = record {
  same_event = λ a b. a == b;
  same_state = λ a b. a == b;
  state = λ x. x;
  with_state = λ x s. s;
  transitions =
      record { event = 7; from_state = 0; to_state = 1; action = λ x. x; guard = λ x. true } ∷ [];
}

abbrev failing : ℕ → ℕ
failing x = 9
