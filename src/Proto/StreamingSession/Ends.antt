-- ===== src/Proto/StreamingSession/Ends.antt =====
-- What becomes of a chunk that a session is given, and of the last chunk of a stream.
use mathlib.Core.Path.{subst}
use slimstream.Base.{
  ◌⊎◌, ◌*◌, take-all, ℕ, ◌+◌, ◌-◌, ◌≤◌, ◌≡◌, refl, sym, ap, ◌∙◌, Bool, true, false, none, [], ◌∷◌,
  ◌++◌, length, ltb, arith, if◌then◌else◌, if_true, if_false, ◌==◌, inl, inr, Bool-cases,
}
use slimstream.Chunk.{Chunk}
use slimstream.Util.BufferPool.{get_available_size}
use slimstream.Proto.Wire.{Bytes}
use slimstream.Proto.StreamingSession.State.{Session}
use slimstream.Proto.StreamingSession.Transfer.{on_encoded_all, pop_all, on_flushed, flush}
use slimstream.Proto.StreamingSession.Lifecycle.{
  stop, encode_chunk, feed, consume_chunk, chunk_bytes,
}
use slimstream.Encoder.{Wave, wave_api, wave_laws}
use slimstream.Proto.StreamingSession.Stopped.{encoder-stop, encode_stopped}
use slimstream.Proto.StreamingSession.Bytes.{unsent, room}
use slimstream.Proto.StreamingSession.Progress.{total}
use slimstream.Proto.StreamingSession.Sending.{Healthy, feed-Healthy}

-- A session that sends and has at least ten free buffers, given a chunk of its sampling rate that
-- ends the stream, reports it as consumed and takes none of its bytes; what has not been sent is
-- dropped too unless a write is under way.
pub last_chunk-lost :
    {n : ℕ} {out : Bytes} (c : Chunk) (s : Session Wave)
    → Healthy n out s
    → ltb (get_available_size s.buffer_pool) 10 ≡ false
    → (c.sampling_rate == s.encoder.sampling_rate) ≡ true
    → c.end_of_stream ≡ true
    → ((consume_chunk wave_api c s).0 ≡ true)
      × ((consume_chunk wave_api c s).1.sent ≡ s.sent)
      × (unsent (consume_chunk wave_api c s).1 ≡ (if s.transferring then unsent s else []))
unfolding consume_chunk stop flush on_encoded_all
last_chunk-lost {n} {out} c s h room_left fits end =
    subst {A = Bool × Session Wave} Lost
      (sym (
        if_true s.running _ _ h.live.running
        ∙ if_false (ltb (get_available_size s.buffer_pool) 10) _ _ room_left
        ∙ if_true (c.sampling_rate == s.encoder.sampling_rate) _ _ fits
        ∙ ap (λ t. (true, encode_chunk wave_api c t)) (if_true c.end_of_stream _ _ end)
        ∙ ap (λ t. (true, t))
            (encode_stopped wave_api c (stop wave_api none s) s.encoder wave_laws
              (encoder-stop wave_api none s h.live.running))
        ∙ ap (λ t. (true, counted t)) (if_true s.running _ _ h.live.running)))
      (let (sent, dropped) = by_flag s.transferring in (refl, sent, dropped))
  where
    Lost : Bool × Session Wave → Type 0
    Lost r =
        (r.0 ≡ true)
        × (r.1.sent ≡ s.sent)
        × (unsent r.1 ≡ (if s.transferring then unsent s else []))

    counted : Session Wave → Session Wave
    counted t = record t {
      encoder = (wave_api.encode (chunk_bytes c) t.encoder).1;
      frames_provided = t.frames_provided + c.frames;
    }

    stopped : Bool → Session Wave
    stopped t =
        let s' = record s { encoder = (wave_api.stop s.encoder).1 } in
        if t
        then (record s' { timers = s.timers ++ none ∷ [] })
        else on_flushed none (record s' {
          buffer_pool = pop_all s.transfer_buffer_queue s.buffer_pool;
          transfer_buffer_queue = [];
        })

    by_flag :
        (t : Bool)
        → ((counted (stopped t)).sent ≡ s.sent)
          × (unsent (counted (stopped t)) ≡ (if t then unsent s else []))
    by_flag true = (refl, refl)
    by_flag false = (refl, refl)

-- A session that sends, given a chunk of its sampling rate that does not end the stream and has at
-- most ten buffers' bytes, refuses it with nothing changed, or takes it as a whole.
pub consume_chunk-whole :
    {n : ℕ} {out : Bytes} (c : Chunk) (s : Session Wave)
    → Healthy n out s
    → (c.sampling_rate == s.encoder.sampling_rate) ≡ true
    → c.end_of_stream ≡ false
    → length (chunk_bytes c) ≤ 10 * n
    → (consume_chunk wave_api c s ≡ (false, s))
      ⊎ (((consume_chunk wave_api c s).0 ≡ true)
          × (total (consume_chunk wave_api c s).1 ≡ total s ++ chunk_bytes c))
unfolding consume_chunk
consume_chunk-whole {n} {out} c s h fits on small =
    elim (Bool-cases (ltb (get_available_size s.buffer_pool) 10)) [
      | inl few ↦ inl (runs ∙ if_true (ltb (get_available_size s.buffer_pool) 10) _ _ few)
      | inr many ↦
          let flag =
            runs
            ∙ if_false (ltb (get_available_size s.buffer_pool) 10) _ _ many
            ∙ if_true (c.sampling_rate == s.encoder.sampling_rate) _ _ fits in
          let took = (feed-Healthy c s fits on h).total_is in
          inr (
            ap (λ (x : Bool × Session Wave). x.0) flag,
            ap (λ (x : Bool × Session Wave). total x.1) runs
                ∙ took
                ∙ ap (λ xs. out ++ xs)
                    (if_false (ltb (get_available_size s.buffer_pool) 10) [] _ many
                      ∙ take-all (room n s) (chunk_bytes c) (fitting many))
                ∙ ap (λ xs. xs ++ chunk_bytes c) (sym h.total_is),
          )
    ]
  where
    runs : consume_chunk wave_api c s ≡ feed wave_api c s
    runs = if_true s.running _ _ h.live.running

    scaled : (a : ℕ) → 10 ≤ a → length (chunk_bytes c) ≤ a * n
    scaled a le =
        let d : a ≡ a - 10 + 10 = omega (arith, le) in
        let m : (a - 10 + 10) * n ≡ (a - 10) * n + 10 * n = omega arith in
        let e = ap (λ k. k * n) d ∙ m in omega (arith, e, small)

    fitting : ltb (get_available_size s.buffer_pool) 10 ≡ false → length (chunk_bytes c) ≤ room n s
    fitting many = scaled (get_available_size s.buffer_pool) (ground (arith, many))
