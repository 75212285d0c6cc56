-- ===== src/Proto/StreamingSession/Stopping.antt =====
-- How a session comes to its end after `stop`.
use slimstream.Base.{ℕ, ◌≡◌, ◌⊎◌, Bool, true, false, List, [], ◌∷◌, ◌++◌}
use slimstream.Proto.StreamingSession.State.{Callback, Handler, run, Session}
use slimstream.Proto.StreamingSession.Lifecycle.{fire_timer}
use slimstream.Proto.StreamingSession.Queue.{Queue}
use slimstream.Proto.StreamingSession.Progress.{total}
use slimstream.Proto.StreamingSession.Rounds.{rounds}

-- What is left once `stop` has come to its end: the callback is the newest handler.
pub record Ended {E : Type 0} (cb : Callback) (s : Session E) : Type 0 where
  pub not_running : s.running ≡ false
  pub closed : s.is_open ≡ false
  pub emptied : s.transfer_buffer_queue ≡ []
  pub idle : s.transferring ≡ false
  pub waits : (hs : List Handler) × (s.handlers ≡ hs ++ run cb ∷ [])

-- The same, with the bytes `out` sent.
pub record EndedWith {E : Type 0} (cb : Callback) (out : List ℕ) (s : Session E) : Type 0 where
  pub ended : Ended cb s
  pub sent_is : s.sent ≡ out

module _ {E : Type 0} where
  -- Rounds leave the timers as they are.
  SameTimers : Session E → Session E → Type 0
  SameTimers s s' = s'.timers ≡ s.timers

-- What `w`, the session after `stop`, comes to. Without a write under way it has ended at once, with
-- no more sent than `out`; with one it waits, and after `j` rounds the firing of its timer changes nothing or ends the
-- session, and after some number of rounds it ends it, with all bytes sent that it had to send.
pub data Stops {E : Type 0} (cb : Callback) (n j : ℕ) (out : List ℕ) (w : Session E)
    : Bool → Type 0 where
  at_once : EndedWith cb out w → Stops cb n j out w false
  after_rounds :
      (fire_timer (rounds n j w) ≡ rounds n j w) ⊎ Ended cb (fire_timer (rounds n j w))
      → (k : ℕ) × EndedWith cb (total w) (fire_timer (rounds n k w))
      → Stops cb n j out w true
