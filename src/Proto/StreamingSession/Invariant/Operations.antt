-- ===== src/Proto/StreamingSession/Invariant/Operations.antt =====
-- The operations of an HTTP session keep its invariant.
use mathlib.Core.Path.{subst}
use slimstream.Base.{ℕ, sym, Bool, true, none, List, [], ◌∷◌, ltb, if_intro, if_cases, ◌==◌}
use slimstream.Chunk.{Chunk}
use slimstream.Encoder.{EncoderApi, EncoderLaws}
use slimstream.Util.BufferPool.{get_available_size}
use slimstream.Proto.Wire.{Bytes, same_bytes}
use slimstream.Proto.StreamingSession.State.{Callback, Handler, transfer, run, Session}
use slimstream.Proto.StreamingSession.Lifecycle.{
  stop, encode_chunk, consume_chunk, on_request, start, run_first, run_next, fire_first, fire_timer,
  encoded, chunk_bytes,
}
use slimstream.Proto.StreamingSession.Queue.{live, Stock}
use slimstream.Proto.StreamingSession.Stopped.{encode_stopped, encoder-stop}
use slimstream.Proto.StreamingSession.Invariant.{
  Inv, Live, on_encoded_all-Live, transfer_task-Inv, flush-Inv,
}

module _ {E : Type 0} {n : ℕ} where
  pub run_next-Inv : (s : Session E) → Inv n s → Inv n (run_next s)
  unfolding run_next
  run_next-Inv s v = first s.handlers
    where
      first : (hs : List Handler) → Inv n (run_first hs s)
      first [] = v
      first (transfer ∷ hs) =
          transfer_task-Inv (record s { handlers = hs })
            (record { stock = v.stock; flight = v.flight })
      first (run cb ∷ hs) = record { stock = v.stock; flight = v.flight }

  pub fire_timer-Inv : (s : Session E) → Inv n s → Inv n (fire_timer s)
  unfolding fire_timer
  fire_timer-Inv s v = first s.timers
    where
      first : (cbs : List Callback) → Inv n (fire_first cbs s)
      first [] = v
      first (cb ∷ cbs) =
          flush-Inv cb (record s { timers = cbs }) (record { stock = v.stock; flight = v.flight })

module _ {E : Type 0} {n : ℕ} (api : EncoderApi E) where
  with_encoder-Live : (e : E) (s : Session E) → Live n s → Live n (record s { encoder = e })
  with_encoder-Live e s v = record {
    inv = record { stock = v.inv.stock; flight = v.inv.flight };
    running = v.running;
  }

  encoded-Live : (r : List Bytes × E) (s : Session E) → Live n s → Live n (encoded r s)
  encoded-Live r s v = on_encoded_all-Live r.0 _ (with_encoder-Live r.1 s v)

  pub stop-Inv : (cb : Callback) (s : Session E) → Inv n s → Inv n (stop api cb s)
  unfolding stop
  stop-Inv cb s v =
      if_cases (Inv n) s.running
        (λ r.
          flush-Inv cb _
            (encoded-Live (api.stop s.encoder) s (record { inv = v; running = r })).inv)
        (λ _. record { stock = v.stock; flight = v.flight })

  encode_chunk-Inv : (c : Chunk) (s : Session E) → Live n s → Inv n (encode_chunk api c s)
  encode_chunk-Inv c s v =
      let w = (encoded-Live (api.encode (chunk_bytes c) s.encoder) s v).inv in
      record { stock = w.stock; flight = w.flight }

  last_chunk-Inv :
      (c : Chunk) (s : Session E)
      → EncoderLaws api
      → Live n s
      → Inv n (encode_chunk api c (stop api none s))
  last_chunk-Inv c s laws v =
      subst (Inv n)
        (sym (
          encode_stopped api c (stop api none s) s.encoder laws
            (encoder-stop api none s v.running)))
        (let w = stop-Inv none s v.inv in record { stock = w.stock; flight = w.flight })

  pub consume_chunk-Inv :
      (c : Chunk) (s : Session E) → EncoderLaws api → Inv n s → Inv n (consume_chunk api c s).1
  unfolding consume_chunk
  consume_chunk-Inv c s laws v =
      if_cases {A = Bool × Session E} (λ r. Inv n r.1) s.running
        (λ r.
          if_intro {A = Bool × Session E} (λ r. Inv n r.1)
            (ltb (get_available_size s.buffer_pool) 10) v
            (if_intro {A = Bool × Session E} (λ r. Inv n r.1)
              (c.sampling_rate == api.get_sampling_rate s.encoder)
              (if_intro (λ t. Inv n (encode_chunk api c t)) c.end_of_stream
                (last_chunk-Inv c s laws (record { inv = v; running = r }))
                (encode_chunk-Inv c s (record { inv = v; running = r })))
              (stop-Inv none s v)))
        (λ _. v)

  pub on_request-Inv : (bs : Bytes) (s : Session E) → Inv n s → Inv n (on_request api bs s)
  unfolding on_request
  on_request-Inv bs s v =
      if_intro (Inv n) s.running (if_intro (Inv n) (same_bytes _ _) v (stop-Inv none s v)) v

  pub start-Inv : (version : Bytes) (s : Session E) → Inv n s → Inv n (start api version s)
  unfolding start
  start-Inv version s v =
      if_intro (Inv n) s.is_open (record { stock = begun; flight = v.flight })
        (record { stock = begun; flight = v.flight })
    where
      begun : Stock n s.buffer_pool s.transfer_buffer_queue true
      begun = record {
        positive = v.stock.positive;
        uniform = v.stock.uniform;
        held = v.stock.held;
        counted = v.stock.counted;
        still = live;
      }
