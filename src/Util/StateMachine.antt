-- ===== src/Util/StateMachine.antt =====
-- src/slim/util/StateMachine.hpp. The actions and guards of the table are closures over the owner of
-- the machine, so a machine is given over the owner's state `X`, with the field that holds `state`.
pub mod Laws
use slimstream.Base.{Bool, true, false, ◌&&◌, Option, none, some, List, [], ◌∷◌, if◌then◌else◌}

pub record Transition (E S X : Type 0) : Type 0 where
  pub event : E
  pub from_state : S
  pub to_state : S
  pub action : X → X
  pub guard : X → Bool

-- `==` on the two enumerations, and the owner's field.
pub record Machine (E S X : Type 0) : Type 0 where
  pub same_event : E → E → Bool
  pub same_state : S → S → Bool
  pub state : X → S
  pub with_state : X → S → X
  pub transitions : List (Transition E S X)

module _ {E S X : Type 0} (m : Machine E S X) where
  -- the `std::find_if`
  pub find_transition : List (Transition E S X) → S → E → Option (Transition E S X)
  find_transition [] s e = none
  find_transition (t ∷ ts) s e =
      if m.same_state t.from_state s && m.same_event t.event e
      then some t
      else find_transition ts s e

  -- what is done with the transition that was found
  abbrev pub take_transition : Option (Transition E S X) → (X → X) → X → Bool × X
  take_transition none error_handler x = (false, error_handler x)
  take_transition (some t) error_handler x =
      if t.guard x then (true, m.with_state (t.action x) t.to_state) else (false, x)

  unfoldable pub process_event : E → (X → X) → X → Bool × X
  unfolding find_transition
  process_event e error_handler x =
      take_transition (find_transition m.transitions (m.state x) e) error_handler x
