-- ===== src/Proto/StreamingSession/Sending.antt =====
-- A session with a WAV encoder while it sends: what it has sent, and has yet to send, is what it took.
use mathlib.Core.Path.{subst, ap₂}
use slimstream.Base.{
  ℕ, ◌+◌, ◌<◌, ◌≡◌, refl, sym, ap, ◌∙◌, Bool, true, false, none, List, [], ◌∷◌, ◌++◌, length, take,
  ltb, ◌==◌, arith, append-nil, append_assoc, if◌then◌else◌, if_true,
}
use slimstream.Chunk.{Chunk}
use slimstream.Encoder.{Wave, wave_api}
use slimstream.Util.BufferPool.{get_available_size}
use slimstream.Proto.Wire.{Bytes}
use slimstream.Proto.StreamingSession.State.{Session, make_session}
use slimstream.Proto.StreamingSession.Transfer.{on_encoded, on_encoded_all, complete}
use slimstream.Proto.StreamingSession.Lifecycle.{
  chunk_bytes, encode_chunk, feed, consume_chunk, stop, start, run_next,
}
use slimstream.Proto.StreamingSession.Stopped.{on_encoded-Kept}
use slimstream.Proto.StreamingSession.Bytes.{unsent, room, Taken, on_encoded-Taken}
use slimstream.Proto.StreamingSession.Invariant.{Inv, Live, make-Inv, on_encoded-Live, complete-Inv}
use slimstream.Proto.StreamingSession.Invariant.Operations.{start-Inv, run_next-Inv}
use slimstream.Proto.StreamingSession.Progress.{total, Same, complete-Same, run_next-Same}

-- A session that sends, and what it has taken.
pub record Healthy (n : ℕ) (out : Bytes) (s : Session Wave) : Type 0 where
  pub live : Live n s
  pub encoding : s.encoder.running ≡ true
  pub opened : s.is_open ≡ true
  pub total_is : total s ≡ out

Healthy-Same :
    {n : ℕ} {out : Bytes} {s s' : Session Wave}
    → Healthy n out s
    → Inv n s'
    → Same s s'
    → Healthy n out s'
Healthy-Same h v e = record {
  live = record { inv = v; running = e.running_is ∙ h.live.running };
  encoding = ap (λ (x : Wave). x.running) e.encoder_is ∙ h.encoding;
  opened = e.is_open_is ∙ h.opened;
  total_is = e.total_is ∙ h.total_is;
}

-- the bytes of a chunk that a session takes: none if few buffers are free, and no more than there is
-- room for
abbrev pub taken_of : ℕ → Chunk → Session Wave → Bytes
taken_of n c s =
    if ltb (get_available_size s.buffer_pool) 10 then [] else take (room n s) (chunk_bytes c)

-- Chunks come, handlers run, and writes end without an error.
pub data Sends (n : ℕ) : Bytes → Session Wave → Type 0 where
  begins :
      (memory id version : Bytes) (e : Wave)
      → length memory ≡ n
      → Sends n [] (start wave_api version (make_session memory id e))
  takes :
      {out : Bytes} {s : Session Wave} (c : Chunk)
      → (c.sampling_rate == s.encoder.sampling_rate) ≡ true
      → c.end_of_stream ≡ false
      → Sends n out s
      → Sends n (out ++ taken_of n c s) (consume_chunk wave_api c s).1
  runs : {out : Bytes} {s : Session Wave} → Sends n out s → Sends n out (run_next s)
  writes :
      {out : Bytes} {s : Session Wave} (k : ℕ) → Sends n out s → Sends n out (complete false k s)

encode_chunk-Healthy :
    {n : ℕ} {out : Bytes} (c : Chunk) (s : Session Wave)
    → Healthy n out s
    → Healthy n (out ++ take (room n s) (chunk_bytes c)) (encode_chunk wave_api c s)
unfolding on_encoded_all
encode_chunk-Healthy {n} {out} c s h =
    subst (λ (pieces : List Bytes). Healthy n (out ++ fed) (counted (on_encoded_all pieces s)))
      (sym (if_true s.encoder.running (chunk_bytes c ∷ []) [] h.encoding))
      (record {
        live = record {
          inv = record { stock = w.inv.stock; flight = w.inv.flight };
          running = w.running;
        };
        encoding =
            ap (λ (x : Wave). x.running)
              (on_encoded-Kept (length (chunk_bytes c)) (chunk_bytes c) s).encoder_is
            ∙ h.encoding;
        opened = t.is_open_is ∙ h.opened;
        total_is =
            ap₂ ◌++◌ t.sent_is t.unsent_is
            ∙ sym (append_assoc s.sent (unsent s) fed)
            ∙ ap (λ xs. xs ++ fed) h.total_is;
      })
  where
    fed : Bytes
    fed = take (room n s) (chunk_bytes c)

    counted : Session Wave → Session Wave
    counted s' = record s' { frames_provided = s'.frames_provided + c.frames }

    sent_on : Session Wave
    sent_on = on_encoded (length (chunk_bytes c)) (chunk_bytes c) s

    w : Live n sent_on
    w = on_encoded-Live (length (chunk_bytes c)) (chunk_bytes c) s h.live

    t : Taken n (chunk_bytes c) s sent_on
    t = on_encoded-Taken (length (chunk_bytes c)) (chunk_bytes c) s (omega arith) h.live

pub feed-Healthy :
    {n : ℕ} {out : Bytes} (c : Chunk) (s : Session Wave)
    → (c.sampling_rate == s.encoder.sampling_rate) ≡ true
    → c.end_of_stream ≡ false
    → Healthy n out s
    → Healthy n (out ++ taken_of n c s) (feed wave_api c s).1
feed-Healthy {n} {out} c s r e h = by_room (ltb (get_available_size s.buffer_pool) 10)
  where
    fed : Bool → Bool → Bool × Session Wave
    fed rate_fits end =
        if rate_fits
        then (true, encode_chunk wave_api c (if end then stop wave_api none s else s))
        else (true, stop wave_api none s)

    fits :
        (rate_fits end : Bool)
        → rate_fits ≡ true
        → end ≡ false
        → Healthy n (out ++ take (room n s) (chunk_bytes c)) (fed rate_fits end).1
    fits true false p q = encode_chunk-Healthy c s h
    fits true true p q = cc
    fits false end p q = cc

    by_room :
        (few : Bool)
        → Healthy n
            (out ++ (if few then [] else take (room n s) (chunk_bytes c)))
            (if few
              then (false, s)
              else fed (c.sampling_rate == s.encoder.sampling_rate) c.end_of_stream).1
    by_room true = subst (λ o. Healthy n o s) (sym (append-nil out)) h
    by_room false = fits _ _ r e

pub Sends-Healthy :
    {n : ℕ} {out : Bytes} {s : Session Wave} → 0 < n → Sends n out s → Healthy n out s
unfolding start consume_chunk make_session
Sends-Healthy p (begins memory id version e l) = record {
  live = record {
    inv = start-Inv wave_api version (make_session memory id e) (make-Inv memory id e l p);
    running = refl;
  };
  encoding = refl;
  opened = refl;
  total_is = refl;
}
Sends-Healthy p (takes {s} c r e m) =
    let h = Sends-Healthy p m in
    subst (Healthy _ _)
      (sym (ap (λ (t : Bool × Session Wave). t.1) (if_true s.running _ _ h.live.running)))
      (feed-Healthy c s r e h)
Sends-Healthy p (runs {s} m) =
    let h = Sends-Healthy p m in
    Healthy-Same h (run_next-Inv s h.live.inv) (run_next-Same s h.opened)
Sends-Healthy p (writes {s} k m) =
    let h = Sends-Healthy p m in
    Healthy-Same h (complete-Inv false k s h.live.inv) (complete-Same k s h.live.inv)

-- With buffers that are not empty, a session takes chunks of its sampling rate that do not end the
-- stream, runs handlers and ends writes without an error, in any order: what it has sent and has
-- yet to send is, byte for byte and in order, what it took of the chunks.
pub Sends-total :
    {n : ℕ} {out : Bytes} {s : Session Wave} → 0 < n → Sends n out s → s.sent ++ unsent s ≡ out
Sends-total p m = (Sends-Healthy p m).total_is
