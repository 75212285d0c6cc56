-- ===== src/Util/StateMachine/Laws.antt =====
-- What `processEvent` does, read off the table and not off the search.
use mathlib.Core.List.{Memᴰ}
use slimstream.Base.{
  Bool, true, false, ◌&&◌, ◌≡◌, refl, inl, inr, Option, none, some, List, [], ◌∷◌, Bool-cases,
}
use slimstream.Util.StateMachine.{
  Transition, Machine, find_transition, process_event, take_transition,
}

module _ {E S X : Type 0} (m : Machine E S X) where
  -- The entry of the table is for this state and this event.
  abbrev pub Fits : S → E → Transition E S X → Type 0
  Fits s e t = (m.same_state t.from_state s && m.same_event t.event e) ≡ true

  -- How an event may end, for an owner `x`: no entry, and the error handler runs; an entry whose
  -- guard fails, and nothing changes; an entry that is taken, its action before the change of state.
  pub data Processed (e : E) (handler : X → X) (x : X) (r : Bool × X) : Type 0 where
    missing :
        ((t : Transition E S X) → Memᴰ t m.transitions → ¬ Fits (m.state x) e t)
        → r ≡ (false, handler x)
        → Processed e handler x r
    blocked :
        (t : Transition E S X)
        → Memᴰ t m.transitions
        → Fits (m.state x) e t
        → t.guard x ≡ false
        → r ≡ (false, x)
        → Processed e handler x r
    taken :
        (t : Transition E S X)
        → Memᴰ t m.transitions
        → Fits (m.state x) e t
        → t.guard x ≡ true
        → r ≡ (true, m.with_state (t.action x) t.to_state)
        → Processed e handler x r

  abbrev Found : List (Transition E S X) → S → E → Option (Transition E S X) → Type 0
  Found ts s e none = (t : Transition E S X) → Memᴰ t ts → ¬ Fits s e t
  Found ts s e (some t) = Memᴰ t ts × Fits s e t

  not-Found-cons :
      (t : Transition E S X) (ts : List (Transition E S X)) (s : S) (e : E)
      → ¬ Fits s e t
      → Found ts s e none
      → (u : Transition E S X) → Memᴰ u (t ∷ ts)
      → ¬ Fits s e u
  not-Found-cons t ts s e no_fit f u (Memᴰ.head p) = rw p no_fit
  not-Found-cons t ts s e no_fit f u (Memᴰ.tail q) = f u q

  Found-cons :
      (t : Transition E S X) (ts : List (Transition E S X)) (s : S) (e : E)
      → ¬ Fits s e t
      → (o : Option (Transition E S X)) → Found ts s e o
      → Found (t ∷ ts) s e o
  Found-cons t ts s e no_fit none f = not-Found-cons t ts s e no_fit f
  Found-cons t ts s e no_fit (some u) f = (Memᴰ.tail f.0, f.1)

  find_transition-Found :
      (ts : List (Transition E S X)) (s : S) (e : E) → Found ts s e (find_transition m ts s e)
  unfolding find_transition
  find_transition-Found [] s e = λ t h. elim h [ ]
  find_transition-Found (t ∷ ts) s e =
      elim (Bool-cases (m.same_state t.from_state s && m.same_event t.event e)) [
        | inl y ↦ rw y (Memᴰ.head refl, y)
        | inr n ↦ rw n (Found-cons t ts s e (λ h. cc) _ (find_transition-Found ts s e))
      ]

  -- For any machine, event, error handler and owner, `process_event` ends in one of three ways: no
  -- entry of the table fits, and the error handler has run; or an entry fits and its guard fails, and
  -- nothing has changed; or an entry fits and its guard holds, and its action and then its state have
  -- been put into effect.
  pub process_event-Processed :
      (e : E) (handler : X → X) (x : X) → Processed e handler x (process_event m e handler x)
  unfolding process_event
  process_event-Processed e handler x = split _ (find_transition-Found m.transitions (m.state x) e)
    where
      split :
          (o : Option (Transition E S X))
          → Found m.transitions (m.state x) e o
          → Processed e handler x (take_transition m o handler x)
      split none f = missing f refl
      split (some t) f = elim (Bool-cases (t.guard x)) [
        | inl y ↦ taken t f.0 f.1 y (rw y)
        | inr n ↦ blocked t f.0 f.1 n (rw n)
      ]
