-- ===== src/Alsa/Source/Period.antt =====
-- What a period of data comes to, said without the two loops.
use slimstream.Base.{
  ℕ, zero, suc, ◌+◌, ◌-◌, ◌*◌, ◌<◌, ◌≡◌, refl, ap, ◌∙◌, sym, Bool, true, false, Option, none, some,
  List, [], ◌∷◌, ◌++◌, length, drop, arith, ◌==◌, ◌&&◌, ◌||◌, if◌then◌else◌, min,
}
use slimstream.Chunk.{Chunk, clear}
use slimstream.Util.Time.{Timestamp}
use slimstream.Alsa.Parameters.{Parameters}
use slimstream.Alsa.Source.{
  Source, copy_data, data_marker, Copied, with_meta, put_copied, enqueue_found, produce_period,
}
use slimstream.Alsa.Source.Marks.{
  in_stream, is_data, data_frames, take_frame, marks, FoundFrom, contains_data-FoundFrom,
}
use slimstream.Alsa.Source.Extract.{width, payloads, CopiedFrom, copy_data-CopiedFrom}

and_right : (a b : Bool) → (a && b) ≡ true → b ≡ true
and_right true b h = h
and_right false b h = cc

module _ (p : Parameters) (slot : Chunk) (timestamp : Timestamp) (src : List ℕ) (s : Source) where
  -- the chunk with the data of some frames
  abbrev pub data_chunk : List ℕ → Chunk
  data_chunk is = record (with_meta p timestamp false slot) {
    buffer = payloads p src is ++ drop (length is * width p src) slot.buffer;
    frames = length is;
    captured_frames = s.captured_frames + length is;
  }

  -- the chunk that ends a stream
  abbrev pub end_chunk : Chunk
  end_chunk = record (with_meta p timestamp true slot) {
    frames = 0;
    captured_frames = s.captured_frames;
  }

  -- By whether the queue is full, the frames with data of a stream, and whether a stream is under way
  -- at the end of the period. When data is dropped, so are the markers behind its first frame.
  abbrev pub outcome : Bool → List ℕ → Bool → Source × Option Chunk
  outcome true [] now = (record s { producing = now }, none)
  outcome true (i ∷ is) now = (record s { producing = true }, none)
  outcome false [] now =
      if s.is_beginning_of_stream
      then (record s { producing = now }, none)
      else (record s { producing = now; is_beginning_of_stream = true }, some end_chunk)
  outcome false (i ∷ is) now = (
    record {
      producing = now;
      captured_frames = s.captured_frames + length (i ∷ is);
      is_beginning_of_stream = false;
    },
    some (data_chunk (i ∷ is)),
  )

  nothing_found :
      (full : Bool) (n : ℕ) (now : Bool)
      → enqueue_found p full slot timestamp src n (record s { producing = now }) none
        ≡ outcome full [] now
  unfolding clear
  nothing_found full n now = by_full full
    where
      at_end : Bool → Source × Option Chunk
      at_end beginning =
          if beginning
          then (record s { producing = now }, none)
          else (record s { producing = now; is_beginning_of_stream = true }, some end_chunk)

      expected : Bool → Bool → Source × Option Chunk
      expected beginning true = (record s { producing = now }, none)
      expected beginning false = at_end beginning

      by_flags : (beginning full : Bool) → at_end (beginning || full) ≡ expected beginning full
      by_flags true true = refl
      by_flags true false = refl
      by_flags false true = refl
      by_flags false false = refl

      by_full :
          (full : Bool)
          → enqueue_found p full slot timestamp src n (record s { producing = now }) none
            ≡ outcome full [] now
      by_full true = by_flags s.is_beginning_of_stream true
      by_full false = by_flags s.is_beginning_of_stream false

  put_is :
      (i k : ℕ) (now : Bool) (r : Copied)
      → CopiedFrom p src s.producing i (suc k) slot.buffer r
      → is_data (marks p src) s.producing i ≡ true
      → put_copied (with_meta p timestamp false slot) (record s { producing = now }) r
        ≡ outcome false
            (data_frames (marks p src) s.producing i (suc k))
            (in_stream (marks p src) s.producing (i + suc k))
  put_is i k now (bytes, copied, after) (b, c, a) d =
      all b c a
      ∙ ap
          (λ (is : List ℕ).
            put_copied (with_meta p timestamp false slot) (record s { producing = now })
              (
                payloads p src is ++ drop (length is * width p src) slot.buffer,
                length is,
                in_stream (marks p src) s.producing (i + suc k),
              ))
          frames
      ∙ ap (λ is. outcome false is (in_stream (marks p src) s.producing (i + suc k))) (sym frames)
    where
      frames :
          data_frames (marks p src) s.producing i (suc k)
          ≡ i ∷ data_frames (marks p src) s.producing (i + 1) k
      frames = take_frame (marks p src) s.producing i k d

      all :
          {bytes' : List ℕ} {copied' : ℕ} {after' : Bool}
          → bytes ≡ bytes'
          → copied ≡ copied'
          → after ≡ after'
          → put_copied
              (with_meta p timestamp false slot)
              (record s { producing = now })
              (bytes, copied, after)
            ≡ put_copied
                (with_meta p timestamp false slot)
                (record s { producing = now })
                (bytes', copied', after')
      all b c a = cc

  by_found :
      (full : Bool) (n : ℕ) (r : Option ℕ × Bool)
      → FoundFrom (marks p src) s.producing 0 n r
      → enqueue_found p full slot timestamp src n (record s { producing = r.1 }) r.0
        ≡ outcome full
            (data_frames (marks p src) s.producing 0 n)
            (in_stream (marks p src) s.producing n)
  by_found full n (none, now) (e, m) =
      let z : 0 + n ≡ n = omega arith in
      nothing_found full n now
      ∙ ap (λ is. outcome full is now) (sym e)
      ∙ ap (λ b. outcome full (data_frames (marks p src) s.producing 0 n) b)
          (m ∙ ap (λ k. in_stream (marks p src) s.producing k) z)
  by_found true n (some i, now) (k, m, e, t, d) =
      ap dropped (t ∙ and_right (marks p src i == data_marker) _ d)
      ∙ ap (λ is. outcome true is (in_stream (marks p src) s.producing n))
          (sym (e ∙ take_frame (marks p src) s.producing i k d))
    where
      dropped : Bool → Source × Option Chunk
      dropped b = (record s { producing = b }, none)
  by_found false n (some i, now) (k, m, e, t, d) =
      let count : n - min i n ≡ suc k = omega (arith, m) in
      let end : i + suc k ≡ n = omega (arith, m) in
      ap
        (λ c.
          put_copied (with_meta p timestamp false slot) (record s { producing = now })
            (copy_data p src c i slot.buffer now))
        count
      ∙ put_is i k now _ (copy_data-CopiedFrom p src s.producing (suc k) i slot.buffer now t) d
      ∙ ap (λ is. outcome false is (in_stream (marks p src) s.producing (i + suc k))) (sym e)
      ∙ ap
          (λ j.
            outcome false (data_frames (marks p src) s.producing 0 n)
              (in_stream (marks p src) s.producing j))
          end

  -- A period of at least one frame comes to what `outcome` says.
  pub produce_period-outcome :
      (full : Bool) (n : ℕ)
      → 0 < n
      → produce_period p full slot timestamp src n s
        ≡ outcome full
            (data_frames (marks p src) s.producing 0 n)
            (in_stream (marks p src) s.producing n)
  unfolding produce_period in_stream
  produce_period-outcome full zero h = absurd (omega (arith, h))
  produce_period-outcome full (suc n) h =
      by_found full (suc n) _ (contains_data-FoundFrom p src s.producing (suc n) 0 s.producing refl)
