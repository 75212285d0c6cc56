-- ===== src/Proto/StreamingSession/Stopped.antt =====
-- The encoder of a session, and what is left of it once the session is stopped.
use slimstream.Base.{
  ℕ, zero, suc, ◌+◌, ◌≡◌, refl, ap, ◌∙◌, true, Option, none, some, List, [], ◌∷◌, length, take,
  drop, if_intro, if_true,
}
use slimstream.Chunk.{Chunk}
use slimstream.Encoder.{EncoderApi, EncoderLaws}
use slimstream.Util.BufferPool.{first_free, get_data}
use slimstream.Proto.Wire.{Bytes}
use slimstream.Proto.StreamingSession.State.{Callback, Session}
use slimstream.Proto.StreamingSession.Transfer.{
  enqueue, on_encoded, on_encoded_all, put_piece, flush,
}
use slimstream.Proto.StreamingSession.Lifecycle.{stop, encode_chunk, encoded, chunk_bytes}

-- What the encoded callback leaves as it is.
pub record Kept {E : Type 0} (s s' : Session E) : Type 0 where
  pub encoder_is : s'.encoder ≡ s.encoder
  pub transferring_is : s'.transferring ≡ s.transferring
  pub timers_is : s'.timers ≡ s.timers
  pub is_open_is : s'.is_open ≡ s.is_open
  pub sent_is : s'.sent ≡ s.sent

module _ {E : Type 0} where
  pub on_encoded-Kept : (fuel : ℕ) (bs : Bytes) (s : Session E) → Kept s (on_encoded fuel bs s)
  unfolding on_encoded
  on_encoded-Kept zero bs s = record {
    encoder_is = refl;
    transferring_is = refl;
    timers_is = refl;
    is_open_is = refl;
    sent_is = refl;
  }
  on_encoded-Kept (suc fuel) [] s = record {
    encoder_is = refl;
    transferring_is = refl;
    timers_is = refl;
    is_open_is = refl;
    sent_is = refl;
  }
  on_encoded-Kept (suc fuel) (b ∷ bs) s =
      put (λ rest s'. on_encoded fuel rest s') (λ rest s'. on_encoded-Kept fuel rest s')
        (first_free s.buffer_pool)
    where
      put :
          (next : Bytes → Session E → Session E)
          → ((bytes : Bytes) (s : Session E) → Kept s (next bytes s))
          → (o : Option ℕ) → Kept s (put_piece next (b ∷ bs) s o)
      put next h none = record {
        encoder_is = refl;
        transferring_is = refl;
        timers_is = refl;
        is_open_is = refl;
        sent_is = refl;
      }
      put next h (some i) =
          let m = length (get_data s.buffer_pool i) in
          let k = h (drop m (b ∷ bs)) (enqueue (take m (b ∷ bs)) i s) in
          record {
            encoder_is = k.encoder_is;
            transferring_is = k.transferring_is;
            timers_is = k.timers_is;
            is_open_is = k.is_open_is;
            sent_is = k.sent_is;
          }

  pub on_encoded_all-Kept : (pieces : List Bytes) (s : Session E) → Kept s (on_encoded_all pieces s)
  unfolding on_encoded_all
  on_encoded_all-Kept [] s = record {
    encoder_is = refl;
    transferring_is = refl;
    timers_is = refl;
    is_open_is = refl;
    sent_is = refl;
  }
  on_encoded_all-Kept (bs ∷ rest) s =
      let first = on_encoded-Kept (length bs) bs s in
      let k = on_encoded_all-Kept rest (on_encoded (length bs) bs s) in
      record {
        encoder_is = k.encoder_is ∙ first.encoder_is;
        transferring_is = k.transferring_is ∙ first.transferring_is;
        timers_is = k.timers_is ∙ first.timers_is;
        is_open_is = k.is_open_is ∙ first.is_open_is;
        sent_is = k.sent_is ∙ first.sent_is;
      }

module _ {E : Type 0} (api : EncoderApi E) where
  pub encoder-stop :
      (cb : Callback) (s : Session E)
      → s.running ≡ true
      → (stop api cb s).encoder ≡ (api.stop s.encoder).1
  unfolding stop flush
  encoder-stop cb s r =
      ap {A = Session E} (λ t. t.encoder) (if_true s.running _ _ r)
      ∙ if_intro {A = Session E} (λ t. t.encoder ≡ stopped.encoder) stopped.transferring refl refl
      ∙ (on_encoded_all-Kept (api.stop s.encoder).0
          (record s { encoder = (api.stop s.encoder).1 })).encoder_is
    where
      stopped : Session E
      stopped = encoded (api.stop s.encoder) s

  -- A stopped encoder adds nothing to the queue.
  pub encode_stopped :
      (c : Chunk) (s : Session E) (e : E)
      → EncoderLaws api
      → s.encoder ≡ (api.stop e).1
      → encode_chunk api c s ≡ record s {
        encoder = (api.encode (chunk_bytes c) s.encoder).1;
        frames_provided = s.frames_provided + c.frames;
      }
  unfolding on_encoded_all
  encode_stopped c s e laws q =
      ap (λ pieces. quiet_end (encoded (pieces, (api.encode (chunk_bytes c) s.encoder).1) s))
        (ap (λ d. (api.encode (chunk_bytes c) d).0) q ∙ laws.silent e (chunk_bytes c))
    where
      quiet_end : Session E → Session E
      quiet_end t = record t { frames_provided = t.frames_provided + c.frames }
