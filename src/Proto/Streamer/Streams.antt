-- ===== src/Proto/Streamer/Streams.antt =====
-- What holds of every HTTP session of the Streamer.
use slimstream.Base.{ℕ, if_intro, Option, none, some, List, [], ◌∷◌, ◌==◌}
use slimstream.Chunk.{Chunk}
use slimstream.Util.Time.{Timestamp}
use slimstream.Proto.Wire.{Bytes}
use slimstream.Proto.CommandSession.State.{Session, Env}
use slimstream.Proto.CommandSession.Lifecycle
use slimstream.Proto.Streamer.State.{StreamingApi, find, assign, erase, update_all}
use slimstream.Proto.Streamer.Kept.{Kept}
use slimstream.Proto.Streamer.Chunks.{Sessions, give, give_one, update_fed}

-- `P` holds of every session.
pub data AllStreams {T : Type 0} (P : T → Type 0) : List (ℕ × T) → Type 0 where
  no_stream : AllStreams P []
  stream : {k : ℕ} {t : T} {m : List (ℕ × T)} → P t → AllStreams P m → AllStreams P ((k, t) ∷ m)

-- `P` holds of a session that is found.
pub data OfFound {T : Type 0} (P : T → Type 0) : Option T → Type 0 where
  not_found : OfFound P none
  of_found : {t : T} → P t → OfFound P (some t)

-- Whatever a Streamer does to a session, `P` holds of it.
pub record Keeps {T : Type 0} (api : StreamingApi T) (P : T → Type 0) : Type 0 where
  pub of_make : (id : Bytes) (rate : ℕ) → P (api.make id rate)
  pub of_start : (t : T) → P t → P (api.start t)
  pub of_request : (bs : Bytes) (t : T) → P t → P (api.on_request bs t)
  pub of_chunk : (c : Chunk) (t : T) → P t → P (api.consume_chunk c t).1
  pub of_stop : (t : T) → P t → P (api.stop t)

module _ {T : Type 0} {P : T → Type 0} where
  pub assign-AllStreams :
      {m : List (ℕ × T)} (k : ℕ) (t : T) → P t → AllStreams P m → AllStreams P (assign k t m)
  unfolding assign
  assign-AllStreams k t p no_stream = stream p no_stream
  assign-AllStreams k t p (stream {k = j} q a) =
      if_intro (AllStreams P) (j == k) (stream p a) (stream q (assign-AllStreams k t p a))

  pub erase-AllStreams : {m : List (ℕ × T)} (k : ℕ) → AllStreams P m → AllStreams P (erase k m)
  unfolding erase
  erase-AllStreams k no_stream = no_stream
  erase-AllStreams k (stream {k = j} q a) =
      if_intro (AllStreams P) (j == k) a (stream q (erase-AllStreams k a))

  update_all-AllStreams :
      {m : List (ℕ × T)} (f : T → T)
      → ((t : T) → P t → P (f t))
      → AllStreams P m
      → AllStreams P (update_all f m)
  unfolding update_all
  update_all-AllStreams f h no_stream = no_stream
  update_all-AllStreams f h (stream p a) = stream (h _ p) (update_all-AllStreams f h a)

  pub find-OfFound : {m : List (ℕ × T)} (k : ℕ) → AllStreams P m → OfFound P (find k m)
  unfolding find
  find-OfFound k no_stream = not_found
  find-OfFound k (stream {k = j} p a) =
      if_intro (OfFound P) (j == k) (of_found p) (find-OfFound k a)

module _ {T : Type 0} {P : T → Type 0} (api : StreamingApi T) (now : Timestamp)
    (keeps : Keeps api P) where
  fed_at :
      (c : Chunk) (j : ℕ) (ts : List (ℕ × T)) {o : Option T}
      → OfFound P o
      → AllStreams P ts
      → AllStreams P (elim o [ none ↦ ts | some t ↦ assign j (api.consume_chunk c t).1 ts ])
  fed_at c j ts not_found a = a
  fed_at c j ts (of_found p) a = assign-AllStreams j _ (keeps.of_chunk c _ p) a

  fed-AllStreams :
      (c : Chunk) (o : Option ℕ) (ts : List (ℕ × T))
      → AllStreams P ts
      → AllStreams P (update_fed api now c o ts)
  fed-AllStreams c none ts a = a
  fed-AllStreams c (some j) ts a = fed_at c j ts (find-OfFound j a) a

  give_one-Streams :
      (env : Env) (c : Chunk) (k : ℕ) (w : Sessions api now) (o : Option Session)
      → AllStreams P w.1
      → AllStreams P (give_one api now env c k w o).1.1
  give_one-Streams env c k w none a = a
  give_one-Streams env c k (cs, ts) (some d) a = fed-AllStreams c (Lifecycle.fed_session env d) ts a

  give-Streams :
      (env : Env) (c : Chunk) (k : ℕ) (w : Sessions api now)
      → AllStreams P w.1
      → AllStreams P (give api now env c k w).1.1
  unfolding give
  give-Streams env c k w a = give_one-Streams env c k w (find k w.0) a

  pub kept-AllStreams : Kept api now (λ cs ts. AllStreams P ts)
  kept-AllStreams = record {
    of_prepare = λ env rate cs ts r a. a;
    of_stop = λ env cs ts a. update_all-AllStreams _ keeps.of_stop a;
    of_give = λ env c k w a. give-Streams env c k w a;
  }
