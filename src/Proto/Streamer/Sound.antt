-- ===== src/Proto/Streamer/Sound.antt =====
-- The sessions' own invariant is kept by the chunks and events of the Streamer.
use slimstream.Base.{ℕ, if_intro, Option, none, some, List, [], ◌∷◌, ◌==◌}
use slimstream.Chunk.{Chunk}
use slimstream.Util.Time.{Timestamp}
use slimstream.Proto.CommandSession.State.{Session, Env}
use slimstream.Proto.CommandSession.Lifecycle.Invariant.{prepare-Inv, stop-Inv, consume_chunk-Inv}
use slimstream.Proto.CommandSession.Invariant as SessionInvariant
use slimstream.Proto.Streamer.State.{StreamingApi, find, assign, erase, update_all}
use slimstream.Proto.Streamer.Kept.{Kept}
use slimstream.Proto.Streamer.Chunks.{Sessions, feed, give, give_one}

-- Every session is sound.
pub data AllSound : List (ℕ × Session) → Type 0 where
  no_session : AllSound []
  session :
      {k : ℕ} {s : Session} {m : List (ℕ × Session)}
      → SessionInvariant.Inv s
      → AllSound m
      → AllSound ((k, s) ∷ m)

pub AllSound-assign :
    {s : Session} {m : List (ℕ × Session)} (k : ℕ)
    → SessionInvariant.Inv s
    → AllSound m
    → AllSound (assign k s m)
unfolding assign
AllSound-assign k v no_session = session v no_session
AllSound-assign k v (session {k = j} w a) =
    if_intro AllSound (j == k) (session v a) (session w (AllSound-assign k v a))

pub AllSound-erase : {m : List (ℕ × Session)} (k : ℕ) → AllSound m → AllSound (erase k m)
unfolding erase
AllSound-erase k no_session = no_session
AllSound-erase k (session {k = j} w a) =
    if_intro AllSound (j == k) a (session w (AllSound-erase k a))

pub AllSound-update_all :
    {m : List (ℕ × Session)} (f : Session → Session)
    → ((s : Session) → SessionInvariant.Inv s → SessionInvariant.Inv (f s))
    → AllSound m
    → AllSound (update_all f m)
unfolding update_all
AllSound-update_all f p no_session = no_session
AllSound-update_all f p (session w a) = session (p _ w) (AllSound-update_all f p a)

pub data FoundSound : Option Session → Type 0 where
  nothing_found : FoundSound none
  found : {s : Session} → SessionInvariant.Inv s → FoundSound (some s)

pub find-FoundSound : {m : List (ℕ × Session)} (k : ℕ) → AllSound m → FoundSound (find k m)
unfolding find
find-FoundSound k no_session = nothing_found
find-FoundSound k (session {k = j} w a) =
    if_intro FoundSound (j == k) (found w) (find-FoundSound k a)

module _ {T : Type 0} (api : StreamingApi T) (now : Timestamp) where
  give_one-Sound :
      (env : Env) (c : Chunk) (k : ℕ) (w : Sessions api now) {o : Option Session}
      → FoundSound o
      → AllSound w.0
      → AllSound (give_one api now env c k w o).1.0
  give_one-Sound env c k w nothing_found a = a
  give_one-Sound env c k (cs, ts) (found {s = d} v) a =
      AllSound-assign k (consume_chunk-Inv env (feed api now c ts) c d v) a

  give-Sound :
      (env : Env) (c : Chunk) (k : ℕ) (w : Sessions api now)
      → AllSound w.0
      → AllSound (give api now env c k w).1.0
  unfolding give
  give-Sound env c k w a = give_one-Sound env c k w (find-FoundSound k a) a

  pub kept-AllSound : Kept api now (λ cs ts. AllSound cs)
  kept-AllSound = record {
    of_prepare = λ env rate cs ts r a. AllSound-update_all _ (λ c v. prepare-Inv env rate c r v) a;
    of_stop = λ env cs ts a. AllSound-update_all _ (λ c v. stop-Inv env c v) a;
    of_give = λ env c k w a. give-Sound env c k w a;
  }
